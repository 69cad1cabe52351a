-- ===== src/Files/Names.antt =====
-- The names in a directory, and how the system calls change them.
use zknode_autonomi_alpha.Prelude.{
  ◌≡◌, refl, ◌∙◌, sym, false, some, ◌∷◌, Bytes, before, ◌==◌, ==_refl, nat_Eq, list_Eq, arith, inl,
  inr, Option-cases, lookup, insert, erase, keys,
}
use zknode_autonomi_alpha.FilePath.{DirPath}
use zknode_autonomi_alpha.Files.{
  Files, Entries, Host, Syscall, names, has_dir, put_file, drop_file, add_dirs, remove,
}
use zknode_autonomi_alpha.Files.Laws.{names-put_dir, names-add_dirs, has_dir-add_dirs}

names-put_file_ne :
    (d : DirPath) (n b : Bytes) (fs : Files) (p : DirPath)
    → (d == p) ≡ false
    → names (put_file d n b fs) p ≡ names fs p
unfolding put_file
names-put_file_ne d n b fs p h = elim (Option-cases (lookup d fs)) [
  | inl e ↦ rw (e, put_file) refl
  | inr (es, e) ↦ rw (e, put_file) (ground (arith, names-put_dir d (insert before n b es) fs p, h))
]

-- A file that is removed changes the names of its own directory only.
pub names-remove_ne :
    (h : Host) (d : DirPath) (n : Bytes) (fs : Files) (p : DirPath)
    → (d == p) ≡ false
    → names (remove h d n fs) p ≡ names fs p
unfolding remove drop_file
names-remove_ne h d n fs p ne = elim (Option-cases (h.refuses Syscall.unlink (n ∷ d))) [
  | inr (x, r) ↦ rw (r, remove) refl
  | inl r ↦ elim (Option-cases (lookup d fs)) [
    | inl e ↦ ground (arith, r, e)
    | inr (es, e) ↦ ground (arith, r, e, names-put_dir d (erase n es) fs p, ne)
  ]
]

-- So does a file that is written into a directory that was made for it.
pub names-deposit_ne :
    (d : DirPath) (n b : Bytes) (fs : Files) (p : DirPath)
    → (d == p) ≡ false
    → names (put_file d n b (add_dirs d fs)) p ≡ names fs p
names-deposit_ne d n b fs p h = names-put_file_ne d n b (add_dirs d fs) p h ∙ names-add_dirs d fs p

names-lookup :
    (d : DirPath) (fs : Files) {es : Entries} → lookup d fs ≡ some es → names fs d ≡ keys es
unfolding names
names-lookup d fs e = rw (e, names) refl

names-put_file :
    (d : DirPath) (n b : Bytes) (fs : Files) {es : Entries}
    → lookup d fs ≡ some es
    → names (put_file d n b fs) d ≡ keys (insert before n b es)
unfolding put_file
names-put_file d n b fs {es} e =
    rw (e, put_file) (ground (arith, names-put_dir d (insert before n b es) fs d, ==_refl d))

-- There the name stands among the old ones.
pub names-deposit :
    (d : DirPath) (n b : Bytes) (fs : Files)
    → (es : Entries) × (names fs d ≡ keys es)
      × (names (put_file d n b (add_dirs d fs)) d ≡ keys (insert before n b es))
unfolding has_dir
names-deposit d n b fs = elim (Option-cases (lookup d (add_dirs d fs))) [
  | inl e ↦ absurd (ground (arith, has_dir-add_dirs d fs, e))
  | inr (es, e) ↦ (
    es,
    sym (names-add_dirs d fs d) ∙ names-lookup d (add_dirs d fs) e,
    names-put_file d n b (add_dirs d fs) e,
  )
]
