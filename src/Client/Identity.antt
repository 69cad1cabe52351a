-- ===== src/Client/Identity.antt =====
-- zkchat/main.go: the identity file, from one command to the next, in loadOrCreateIdentity.
use zknode_autonomi_alpha.Prelude.{
  ℕ, ◌≡◌, ◌∙◌, sym, ap, refl, Option, none, some, List, [], ◌∷◌, Bytes, Result, ok, All, Bool-cases,
  length, arith, ◌==◌, ==_refl, nat_Eq, list_Eq, if◌then◌else◌, Option-cases, inl, inr,
}
use zknode_autonomi_alpha.FilePath.{DirPath}
use zknode_autonomi_alpha.Files.{
  Files, Syscall, file, mkdir_all, write_file, read_file, put_file, add_dirs,
}
use zknode_autonomi_alpha.Files.Laws.{file-put_file, has_dir-add_dirs, file-add_dirs}
use zknode_autonomi_alpha.Chat.{◌>>=◌}
use zknode_autonomi_alpha.Chat.Mailbox.{Willing}
use zknode_autonomi_alpha.Client.{Machine}
use zknode_autonomi_alpha.Client.Keys.{
  kept, identity_file, create_identity, load_or_create_identity,
}

abbrev sized : ℕ → Option Bytes → Option Bytes
sized n none = none
sized n (some b) = if length b == n then some b else none

kept-sized :
    (m : Machine) (n : ℕ) (d : DirPath) (name : Bytes) (fs : Files)
    → Willing m.host
    → kept m n d name fs ≡ sized n (file fs d name)
unfolding kept read_file
kept-sized m n d name fs r = elim (Option-cases (file fs d name)) [
  | inl e ↦ rw (kept, r Syscall.read (name ∷ d), e) refl
  | inr (b, e) ↦ rw (kept, r Syscall.read (name ∷ d), e) refl
]

module _ (m : Machine) (r : Willing m.host) (d : DirPath) (fs : Files) where
  load_kept :
      (id : Bytes)
      → kept m 16 d identity_file (add_dirs d fs) ≡ some id
      → load_or_create_identity m d fs ≡ (ok id, add_dirs d fs)
  unfolding ◌>>=◌ load_or_create_identity create_identity mkdir_all
  load_kept id e = ground (arith, r Syscall.mkdirs d, e)

  load_created :
      (id : Bytes)
      → kept m 16 d identity_file (add_dirs d fs) ≡ none
      → m.identity_bytes ≡ ok id
      → load_or_create_identity m d fs ≡ (ok id, put_file d identity_file id (add_dirs d fs))
  unfolding ◌>>=◌ load_or_create_identity create_identity mkdir_all write_file
  load_created id e i =
      ground (
        arith,
        r Syscall.mkdirs d,
        r Syscall.write (identity_file ∷ d),
        e,
        i,
        has_dir-add_dirs d fs,
      )

written_identity :
    (d : DirPath) (fs : Files) (id : Bytes)
    → file (put_file d identity_file id (add_dirs d fs)) d identity_file ≡ some id
written_identity d fs id = ground (
  arith,
  file-put_file d identity_file id (add_dirs d fs) d identity_file (has_dir-add_dirs d fs),
  ==_refl d,
  ==_refl identity_file,
)

-- Commands that load the identity one after another, each on its machine, after a change to the files
-- of its own: what loadOrCreateIdentity returns to each.
abbrev pub later_loads : DirPath → List (Machine × (Files → Files)) → Files → List (Result Bytes)
later_loads d [] fs = []
later_loads d ((m, change) ∷ later) fs =
    let (r, after) = load_or_create_identity m d (change fs) in r ∷ later_loads d later after

-- A command on a host that refuses nothing, and a change that leaves the identity file alone.
abbrev pub SparesIdentity : DirPath → Machine × (Files → Files) → Type 0
SparesIdentity d (m, change) =
    Willing m.host × ((fs : Files) → file (change fs) d identity_file ≡ file fs d identity_file)

later_loads-same :
    (d : DirPath) (id : Bytes) (later : List (Machine × (Files → Files))) (fs : Files)
    → length id ≡ 16
    → file fs d identity_file ≡ some id
    → All (SparesIdentity d) later
    → All (λ r. r ≡ ok id) (later_loads d later fs)
later_loads-same d id [] fs h there spared = tt
later_loads-same d id ((m, change) ∷ later) fs h there ((r, spares), rest) =
    let still : file (add_dirs d (change fs)) d identity_file ≡ some id =
      file-add_dirs d (change fs) d identity_file ∙ (spares fs ∙ there) in
    let found : kept m 16 d identity_file (add_dirs d (change fs)) ≡ some id =
      kept-sized m 16 d identity_file _ r ∙ (ap (sized 16) still ∙ ground (arith, h)) in
    rw (load_kept m r d (change fs) id found)
      (refl, later_loads-same d id later (add_dirs d (change fs)) h still rest)

sized-some :
    (n : ℕ) (o : Option Bytes) (id : Bytes) → sized n o ≡ some id → (o ≡ some id) × (length id ≡ n)
sized-some n none id e = absurd (cc)
sized-some n (some b) id e = elim (Bool-cases (length b == n)) [
  | inl q ↦
      let same : some b ≡ some id = ground (arith, e, q) in
      let l : length b ≡ n = ground (arith, q) in (same, ground (arith, same, l))
  | inr q ↦ absurd (ground (arith, e, q))
]

-- A user keeps one identity: on hosts that refuse nothing, what a first command loads or creates, as
-- 16 bytes, is what every command after it loads, however many they are, whatever random bytes they
-- would draw, and whatever else happens to the files before each of them, as long as the identity
-- file is left alone; the first command would draw 16 random bytes.
pub load_or_create_identity_again :
    (m : Machine) (d : DirPath) (fs : Files) (drawn : Bytes)
    (later : List (Machine × (Files → Files)))
    → Willing m.host
    → m.identity_bytes ≡ ok drawn
    → length drawn ≡ 16
    → All (SparesIdentity d) later
    → let first = load_or_create_identity m d fs in
      (id : Bytes) × (first.0 ≡ ok id)
      × (length id ≡ 16)
      × All (λ r. r ≡ ok id) (later_loads d later first.1)
load_or_create_identity_again m d fs drawn later r i h spared =
    elim (Option-cases (kept m 16 d identity_file (add_dirs d fs))) [
      | inr (id, e) ↦
          let (there, l) = sized-some 16 _ id (sym (kept-sized m 16 d identity_file _ r) ∙ e) in
          rw (load_kept m r d fs id e)
            (id, refl, l, later_loads-same d id later (add_dirs d fs) l there spared)
      | inl e ↦
          rw (load_created m r d fs drawn e i) (
            drawn,
            refl,
            h,
            later_loads-same d drawn later _ h (written_identity d fs drawn) spared,
          )
    ]
