-- ===== src/Prover/Chunks.antt =====
-- cmd/storage-proved/main.go: which chunk a challenge names. rebuildTree and proveHandler walk the same
-- directory, each by a loop of its own.
use zknode_autonomi_alpha.Prelude.{
  ℕ, zero, suc, ◌≡◌, refl, Option, none, some, List, [], ◌∷◌, Bytes, ok, err, get_elem?,
  if◌then◌else◌, Bool-cases, inl, inr,
}
use zknode_autonomi_alpha.Prover.Server.{DirEntry, Disk, target_file, leaf_hashes, with_leaf}
use zknode_autonomi_alpha.Prover.Soundness.{AllReadable}

-- The names of the files, in order: what both loops go over.
abbrev pub file_names : List DirEntry → List Bytes
file_names [] = []
file_names (e ∷ es) = if e.is_dir then file_names es else e.name ∷ file_names es

-- The hash of a file that can be read.
abbrev pub leaf_of : (Bytes → Bytes) → Disk → Option Bytes → Option Bytes
leaf_of hash disk none = none
leaf_of hash disk (some name) = elim (disk.content name) [
  | ok content ↦ some (hash content)
  | err e ↦ none
]

-- The search of proveHandler is an index into the files, for every index; and in a directory whose
-- files can all be read, the leaf with that index is the hash of the file that it finds.
target_file_lem :
    (hash : Bytes → Bytes) (disk : Disk) (es : List DirEntry) (index : ℕ)
    → (target_file es index ≡ get_elem? (file_names es) index)
      × (AllReadable disk es
          → get_elem? (leaf_hashes hash disk es) index ≡ leaf_of hash disk (target_file es index))
unfolding target_file leaf_hashes with_leaf
target_file_lem hash disk [] index = (refl, λ h. refl)
target_file_lem hash disk (e ∷ es) zero = elim (Bool-cases e.is_dir) [
  | inl dir ↦ let (found, leaf) = target_file_lem hash disk es zero in rw dir (found, λ h. leaf h.1)
  | inr plain ↦ rw plain (refl, λ h. let (c, q) = h.0 refl in rw q refl)
]
target_file_lem hash disk (e ∷ es) (suc index) = elim (Bool-cases e.is_dir) [
  | inl dir ↦
      let (found, leaf) = target_file_lem hash disk es (suc index) in rw dir (found, λ h. leaf h.1)
  | inr plain ↦
      let (found, leaf) = target_file_lem hash disk es index in
      rw plain (found, λ h. let (c, q) = h.0 refl in rw q (leaf h.1))
]
