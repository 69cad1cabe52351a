-- ===== src/Client/Keys.antt =====
-- katzenpost/cmd/zkchat/main.go: the identity and the keys on disk, and the sealing of messages.
use zknode_autonomi_alpha.Prelude.{
  ℕ, ◌+◌, Option, none, some, [], ◌∷◌, ◌++◌, Bytes, Result, ok, err, codes, length, take, drop,
  replicate, ltb, ◌==◌, nat_Eq, list_Eq, if◌then◌else◌,
}
use zknode_autonomi_alpha.FilePath
use zknode_autonomi_alpha.FilePath.{DirPath}
use zknode_autonomi_alpha.Files.{
  Files, Host, IoResult, done, fault, refused, mkdir_all, write_file, read_file,
}
use zknode_autonomi_alpha.Chat.{Action, ◌>>=◌, ◌>>◌, pure, lift, attempt, labelled, gets}
use zknode_autonomi_alpha.Client.{Machine, Crypto}

-- A file by its whole path; the root is no file.
unfoldable pub read_path : Host → DirPath → Files → IoResult Bytes
read_path h [] fs = fault (refused (codes "is a directory"))
read_path h (n ∷ d) fs = read_file h d n fs

unfoldable pub write_path : Host → DirPath → Bytes → Files → IoResult Files
write_path h [] b fs = fault (refused (codes "is a directory"))
write_path h (n ∷ d) b fs = write_file h d n b fs

abbrev pub identity_file : Bytes
identity_file = codes "identity"

abbrev pub keypair_file : Bytes
keypair_file = codes "e2e.keypair"

module _ (m : Machine) where
  -- What is kept in the file, if that has the right length.
  unfoldable pub kept : ℕ → DirPath → Bytes → Files → Option Bytes
  kept n dir name fs = elim (read_file m.host dir name fs) [
    | fault e ↦ none
    | done b ↦ if length b == n then some b else none
  ]

  unfoldable pub create_identity : DirPath → Option Bytes → Action Bytes
  create_identity dir (some b) = pure b
  create_identity dir none = do
    id ← lift m.identity_bytes
    attempt m.host [] (write_file m.host dir identity_file id)
    pure id

  -- loadOrCreateIdentity
  unfoldable pub load_or_create_identity : DirPath → Action Bytes
  unfolding create_identity
  load_or_create_identity dir = do
    attempt m.host [] (mkdir_all m.host dir)
    found ← gets (kept 16 dir identity_file)
    create_identity dir found

  -- getOrCreateID
  unfoldable pub get_or_create_id : Bytes → Action Bytes
  get_or_create_id config_path =
      labelled (codes "identity: ")
        (load_or_create_identity (codes ".zkchat" ∷ m.dir_of config_path))

  -- cfgDirFor
  unfoldable pub cfg_dir_for : Bytes → DirPath
  cfg_dir_for config_path = elim m.zkcfg_dir [
    | some custom ↦ custom
    | none ↦ codes ".zkchat" ∷ m.dir_of config_path
  ]

  -- A write whose error is dropped.
  unfoldable pub try_write : DirPath → Bytes → Bytes → Action (Unit {0})
  try_write dir name b fs = elim (write_file m.host dir name b fs) [
    | fault e ↦ (ok tt, fs)
    | done fs' ↦ (ok tt, fs')
  ]

  module _ (k : Crypto) where
    unfoldable pub create_keypair : DirPath → Option Bytes → Action (Bytes × Bytes)
    create_keypair dir (some raw) = pure (take 32 raw, drop 32 raw)
    create_keypair dir none = do
      priv ← labelled (codes "e2e keygen: rand: ") (lift m.scalar_bytes)
      public ← labelled (codes "e2e keygen: ") (lift (k.x25519 priv k.base_point))
      try_write dir keypair_file (priv ++ public)
      pure (priv, public)

    -- loadOrCreateE2EKeypair
    unfoldable pub load_or_create_e2e_keypair : DirPath → Action (Bytes × Bytes)
    unfolding create_keypair
    load_or_create_e2e_keypair dir = do
      found ← gets (kept 64 dir keypair_file)
      create_keypair dir found

  -- filepath.Join(dir, "e2e-pubs", peerHex+".pub")
  unfoldable pub pub_path : DirPath → Bytes → DirPath
  pub_path dir peer_hex = FilePath.join (codes "e2e-pubs" ∷ dir) (peer_hex ++ codes ".pub")

  -- loadE2EPub
  unfoldable pub load_e2e_pub : DirPath → Bytes → Files → Option Bytes
  load_e2e_pub dir peer_hex fs = elim (read_path m.host (pub_path dir peer_hex) fs) [
    | fault e ↦ none
    | done raw ↦ if ltb (length raw) 32 then none else some (take 32 raw)
  ]

-- copy into an array of 32 bytes
unfoldable pub fit : Bytes → Bytes
fit s = take 32 (s ++ replicate 32 0)

module _ (k : Crypto) where
  unfoldable pub seal_shared : Bytes → Bytes → Bytes → Result Bytes → Result Bytes
  seal_shared eph_pub nonce text (err e) = err e
  seal_shared eph_pub nonce text (ok shared) =
      ok (k.base64 (nonce ++ (eph_pub ++ k.seal (k.sha256 shared) nonce text eph_pub)))

  unfoldable pub seal_nonce : Bytes → Bytes → Result Bytes → Result Bytes → Result Bytes
  unfolding seal_shared
  seal_nonce eph_pub text (err e) nonce = err e
  seal_nonce eph_pub text (ok shared) (err e) = err e
  seal_nonce eph_pub text (ok shared) (ok nonce) = seal_shared eph_pub nonce text (ok shared)

  unfoldable pub seal_with : Bytes → Bytes → Bytes → Result Bytes → Result Bytes → Result Bytes
  unfolding seal_nonce
  seal_with peer text eph_priv (err e) nonce = err e
  seal_with peer text eph_priv (ok eph_pub) nonce =
      seal_nonce eph_pub text (k.x25519 eph_priv (fit peer)) nonce

  -- e2eSeal
  unfoldable pub e2e_seal : Machine → Bytes → Bytes → Result Bytes
  unfolding seal_with
  e2e_seal m peer text = elim m.ephemeral_bytes [
    | err e ↦ err e
    | ok eph_priv ↦ seal_with peer text eph_priv (k.x25519 eph_priv k.base_point) m.nonce_bytes
  ]

  unfoldable pub open_shared : Bytes → Bytes → Bytes → Result Bytes → Result Bytes
  open_shared nonce eph_pub ct (err e) = err e
  open_shared nonce eph_pub ct (ok shared) = k.unseal (k.sha256 shared) nonce ct eph_pub

  unfoldable pub open_payload : Bytes → Bytes → Result Bytes
  unfolding open_shared
  open_payload scalar payload =
      if ltb (length payload) (24 + 32 + 16)
      then err (codes "e2e payload too short")
      else let eph_pub = take 32 (drop 24 payload) in
        open_shared (take 24 payload) eph_pub (drop 56 payload) (k.x25519 scalar eph_pub)

  -- e2eOpen
  unfoldable pub e2e_open : Bytes → Bytes → Result Bytes
  unfolding open_payload
  e2e_open scalar text = elim (k.unbase64 text) [
    | err e ↦ err e
    | ok payload ↦ open_payload scalar payload
  ]
