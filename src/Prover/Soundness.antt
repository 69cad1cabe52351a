-- ===== src/Prover/Soundness.antt =====
-- cmd/storage-proved/main.go: what the server proves once it has started.
use zknode_autonomi_alpha.Prelude.{
  ℕ, ◌%◌, ◌≡◌, ◌≢◌, ◌≤◌, ◌<◌, refl, ap, ◌∙◌, sym, inl, inr, true, false, Bool-cases, Result-cases,
  Option, none, some, List, [], ◌∷◌, Bytes, Result, ok, err, codes, length, take, foldl, ◌==◌,
  nat_Eq, list_Eq, ==_refl, ◌⊎◌, arith, All,
}
use native.Mathlib.Nat.{mod-lt}
use zknode_autonomi_alpha.Hex
use zknode_autonomi_alpha.Prover.Merkle.{PathRun, path, panic, out_of_fuel, get_merkle_path, walk}
use zknode_autonomi_alpha.Prover.Proofs.{build_merkle_tree-none, build_merkle_tree_one}
use zknode_autonomi_alpha.Prover.Server.{
  DirEntry, Disk, Prover, Challenge, ProofResponse, http_error, json, leaf_hashes, rebuild_tree,
  shift_in, proof_with, prove_content, prove_file, entries_or_none, planted, grown,
  challenge_handler, target_file, prove_handler, last_of,
}

module _ (hash : Bytes → Bytes) (p : Prover) where
  planted-count :
      (leaves : List Bytes) (p' : Prover)
      → planted hash p leaves ≡ some (ok p')
      → (p'.chunk_count ≡ length leaves) × (length leaves ≤ 1)
  unfolding planted grown
  planted-count [] p' e = ground arith
  planted-count (a ∷ []) p' e = ground (arith, build_merkle_tree_one hash a)
  planted-count (a ∷ b ∷ leaves) p' e =
      ground (arith, build_merkle_tree-none hash (a ∷ b ∷ leaves) (omega arith))

  planted_one :
      (leaves : List Bytes) (p' : Prover)
      → planted hash p leaves ≡ some (ok p')
      → p'.chunk_count ≡ 1
      → (leaf : Bytes) × (leaves ≡ leaf ∷ []) × (p'.merkle_root ≡ leaf)
  unfolding planted grown last_of
  planted_one [] p' e o = absurd (ground arith)
  planted_one (a ∷ []) p' e o = (a, refl, ground (arith, build_merkle_tree_one hash a))
  planted_one (a ∷ b ∷ leaves) p' e o =
      absurd (ground (arith, build_merkle_tree-none hash (a ∷ b ∷ leaves) (omega arith)))

  rebuilt :
      (disk : Disk) (es : List DirEntry)
      → disk.entries ≡ ok es
      → rebuild_tree hash disk p ≡ planted hash p (leaf_hashes hash disk es)
  unfolding rebuild_tree
  rebuilt disk es k = ground (arith, k)

  not_rebuilt :
      (disk : Disk) (x : Bytes) (p' : Prover)
      → disk.entries ≡ err x
      → rebuild_tree hash disk p ≢ some (ok p')
  unfolding rebuild_tree
  not_rebuilt disk x p' k e = ground (arith, e, k)

  -- The prover starts with one chunk at most: a start that succeeds has counted no chunk or one,
  -- whatever the directory holds.
  pub rebuild_tree-chunk_count :
      (disk : Disk) (p' : Prover) → rebuild_tree hash disk p ≡ some (ok p') → p'.chunk_count ≤ 1
  rebuild_tree-chunk_count disk p' e = elim (Result-cases disk.entries) [
    | inl (es, k) ↦
        omega (arith, planted-count (leaf_hashes hash disk es) p' (sym (rebuilt disk es k) ∙ e))
    | inr (x, k) ↦ absurd (not_rebuilt disk x p' k e)
  ]

-- Every file that is no directory can be read.
abbrev pub AllReadable : Disk → List DirEntry → Type 0
AllReadable disk =
    All (λ e. e.is_dir ≡ false → (content : Bytes) × (disk.content e.name ≡ ok content))

first_leaf :
    (hash : Bytes → Bytes) (disk : Disk) (es : List DirEntry) (leaf : Bytes) (leaves : List Bytes)
    → AllReadable disk es
    → leaf_hashes hash disk es ≡ leaf ∷ leaves
    → (name content : Bytes) × (target_file es 0 ≡ some name)
      × (disk.content name ≡ ok content)
      × (hash content ≡ leaf)
unfolding leaf_hashes target_file
first_leaf hash disk [] leaf leaves r e = absurd (cc)
first_leaf hash disk (x ∷ es) leaf leaves r e = elim (Bool-cases x.is_dir) [
  | inl dir ↦
      let (name, content, t, c, h) = first_leaf hash disk es leaf leaves r.1 (ground arith) in
      (name, content, rw dir t, c, h)
  | inr file ↦ let (content, c) = r.0 file in (x.name, content, rw file, c, ground arith)
]

short_path : (tree : List Bytes) → get_merkle_path 0 tree 1 ≡ path []
unfolding get_merkle_path walk
short_path tree = refl

is_post : (codes "POST" == codes "POST") ≡ true
is_post = ==_refl (codes "POST")

-- A prover that starts over one chunk answers the challenge for it with a proof that holds: with
-- every file readable, the value is the hash of the chunk, its hex text is the root, and the path
-- is empty.
pub prove_handler-rebuild_tree :
    (hash : Bytes → Bytes) (disk : Disk) (es : List DirEntry) (p p' : Prover) (chal : Challenge)
    → disk.entries ≡ ok es
    → AllReadable disk es
    → rebuild_tree hash disk p ≡ some (ok p')
    → p'.chunk_count ≡ 1
    → chal.index ≡ 0
    → (r : ProofResponse) × (prove_handler hash disk (codes "POST") (ok chal) p' ≡ some (json r))
      × (name content : Bytes) × (target_file es 0 ≡ some name)
      × (disk.content name ≡ ok content)
      × (r.value ≡ hash content)
      × (Hex.encode r.value ≡ r.root)
      × (r.merkle_path ≡ [])
unfolding prove_handler
prove_handler-rebuild_tree hash disk es p p' chal k r s one zeroth =
    let (leaf, l, root) =
      planted_one hash p (leaf_hashes hash disk es) p' (sym (rebuilt hash p disk es k) ∙ s) one in
    let (name, content, t, c, h) = first_leaf hash disk es leaf [] r l in
    (
      record {
        index = chal.index;
        value = hash content;
        merkle_path = [];
        root = Hex.encode p'.merkle_root;
        total_chunks = p'.chunk_count;
        chunk_size = p'.chunk_size;
      },
      ground (arith, is_post, k, one, zeroth, t, c, short_path p'.merkle_tree),
      name,
      content,
      t,
      c,
      refl,
      ap Hex.encode (h ∙ sym root),
      refl,
    )

module _ (hash : Bytes → Bytes) (disk : Disk) (p : Prover) where
  proof_with-ne :
      (index : ℕ) (content : Bytes) (run : PathRun) (m : Bytes)
      → proof_with hash p index content run ≢ some (http_error 400 m)
  unfolding proof_with
  proof_with-ne index content panic m e = cc
  proof_with-ne index content out_of_fuel m e = cc
  proof_with-ne index content (path texts) m e = cc

  prove_content-ne :
      (index : ℕ) (r : Result Bytes) (m : Bytes)
      → prove_content hash p index r ≢ some (http_error 400 m)
  unfolding prove_content
  prove_content-ne index (err x) m e = ground arith
  prove_content-ne index (ok content) m e = proof_with-ne index content _ m e

  prove_file-ne :
      (index : ℕ) (name : Option Bytes) (m : Bytes)
      → prove_file hash disk p index name ≢ some (http_error 400 m)
  unfolding prove_file
  prove_file-ne index none m e = ground arith
  prove_file-ne index (some name) m e = prove_content-ne index (disk.content name) m e

  accepted :
      (chal : Challenge)
      → chal.index < p.chunk_count
      → prove_handler hash disk (codes "POST") (ok chal) p
        ≡ prove_file hash disk p chal.index (target_file (entries_or_none disk.entries) chal.index)
  unfolding prove_handler
  accepted chal small = ground (arith, is_post)

-- The index of a challenge is in range, so the prover does not turn its own challenges away for
-- their index; with no chunk there is no challenge.
pub challenge_handler-range :
    (nonce : Bytes) (p : Prover)
    → ((p.chunk_count ≡ 0) × (challenge_handler nonce p ≡ http_error 404 (codes "no chunks")))
      ⊎ ((chal : Challenge) × (challenge_handler nonce p ≡ json chal)
          × (chal.index < p.chunk_count)
          × ((hash : Bytes → Bytes) (disk : Disk)
              → prove_handler hash disk (codes "POST") (ok chal) p
                ≢ some (http_error 400 (codes "index out of range"))))
unfolding challenge_handler
challenge_handler-range nonce p = elim (Bool-cases (p.chunk_count == 0)) [
  | inl z ↦ inl (ground arith, ground arith)
  | inr nz ↦
      let chal : Challenge = record {
        index = foldl shift_in 0 (take 8 nonce) % p.chunk_count;
        nonce = Hex.encode nonce;
      } in
      let small : chal.index < p.chunk_count =
        mod-lt (foldl shift_in 0 (take 8 nonce)) (ground arith) in
      inr (
        chal,
        ground (arith, nz),
        small,
        λ hash disk e.
            prove_file-ne hash disk p chal.index
              (target_file (entries_or_none disk.entries) chal.index) _
              (sym (accepted hash disk p chal small) ∙ e),
      )
]
