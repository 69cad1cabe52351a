-- ===== src/Files/Laws.antt =====
-- What each call leaves to be read, and which calls keep a file system well formed.
use zknode_autonomi_alpha.Prelude.{
  Bool, true, false, ◌&&◌, ◌≡◌, ap, inl, inr, Option-cases, contains, Distinct, none, some, [], ◌∷◌,
  Bytes, before, Bool-cases, ◌↔◌, ◌==◌, ==_iff, ==_refl, list_Eq, nat_Eq, lookup, insert, erase,
  keys, lookup-insert, lookup-erase, contains-keys, Distinct-insert, Distinct-erase, if◌then◌else◌,
  arith,
}
use zknode_autonomi_alpha.FilePath.{DirPath}
use zknode_autonomi_alpha.Files.{
  Files, Host, unlink, done, mkdir_all, write_file, remove_all, remove, read_file, Entries, file,
  names, has_dir, add_dir, add_dirs, put_file, drop_file, is_under, drop_tree, no_order,
}

pub lookup-add_dir :
    (d : DirPath) (fs : Files) (p : DirPath)
    → lookup p (add_dir d fs)
      ≡ (elim (lookup p fs) [ some es ↦ some es | none ↦ if d == p then some [] else none ])
unfolding add_dir
lookup-add_dir d fs p = ground (arith, lookup-insert no_order d [] fs p, ==_iff d p)

pub file-add_dir :
    (d : DirPath) (fs : Files) (p : DirPath) (n : Bytes) → file (add_dir d fs) p n ≡ file fs p n
unfolding file lookup
file-add_dir d fs p n = ground (arith, lookup-add_dir d fs p)

-- A new directory shows no file and hides none.
pub file-add_dirs :
    (d : DirPath) (fs : Files) (p : DirPath) (n : Bytes) → file (add_dirs d fs) p n ≡ file fs p n
unfolding add_dirs
file-add_dirs [] fs p n = file-add_dir [] fs p n
file-add_dirs (c ∷ d) fs p n =
    ground (arith, file-add_dir (c ∷ d) (add_dirs d fs) p n, file-add_dirs d fs p n)

pub has_dir-add_dirs : (d : DirPath) (fs : Files) → has_dir (add_dirs d fs) d ≡ true
unfolding add_dirs has_dir
has_dir-add_dirs [] fs = ground (arith, lookup-add_dir [] fs [], ==_refl {A = DirPath} [])
has_dir-add_dirs (c ∷ d) fs =
    ground (arith, lookup-add_dir (c ∷ d) (add_dirs d fs) (c ∷ d), ==_refl {A = DirPath} (c ∷ d))

-- A written file is read back, and no other file changes.
pub file-put_file :
    (d : DirPath) (n b : Bytes) (fs : Files) (p : DirPath) (m : Bytes)
    → has_dir fs d ≡ true
    → file (put_file d n b fs) p m ≡ (if (d == p) && (n == m) then some b else file fs p m)
unfolding file put_file has_dir
file-put_file d n b fs p m h = elim (Option-cases (lookup d fs)) [
  | inl e ↦ ground (arith, e)
  | inr (es, e) ↦
      rw (e, put_file, file)
        (ground (
          arith,
          ==_iff d p,
          lookup-insert no_order d (insert before n b es) fs p,
          lookup-insert before n b es m,
        ))
]

-- A removed file is gone, and no other file changes.
pub file-drop_file :
    (d : DirPath) (n : Bytes) (fs : Files) (p : DirPath) (m : Bytes)
    → file (drop_file d n fs) p m ≡ (if (d == p) && (n == m) then none else file fs p m)
unfolding file drop_file
file-drop_file d n fs p m = elim (Option-cases (lookup d fs)) [
  | inl e ↦ ground (arith, e, ==_iff d p)
  | inr (es, e) ↦
      rw (e, drop_file, file)
        (ground
          (arith, ==_iff d p, lookup-insert no_order d (erase n es) fs p, lookup-erase n es m))
]

lookup-drop_tree :
    (d : DirPath) (fs : Files) (p : DirPath)
    → lookup p (drop_tree d fs) ≡ (if is_under d p then none else lookup p fs)
unfolding drop_tree lookup
lookup-drop_tree d [] p = ground arith
lookup-drop_tree d ((q, es) ∷ fs) p =
    ground (arith, lookup-drop_tree d fs p, ==_iff q p, ap (is_under d) {x = q} {y = p})

-- A removed tree is gone, and no file outside it changes.
pub file-drop_tree :
    (d : DirPath) (fs : Files) (p : DirPath) (m : Bytes)
    → file (drop_tree d fs) p m ≡ (if is_under d p then none else file fs p m)
unfolding file
file-drop_tree d fs p m = ground (arith, lookup-drop_tree d fs p)

-- Every directory names each of its files once.
pub record IsWellFormed (fs : Files) : Type 0 where
  pub distinct : (p : DirPath) → Distinct (names fs p)

names-add_dir : (d : DirPath) (fs : Files) (p : DirPath) → names (add_dir d fs) p ≡ names fs p
unfolding names
names-add_dir d fs p = ground (arith, lookup-add_dir d fs p)

pub names-add_dirs : (d : DirPath) (fs : Files) (p : DirPath) → names (add_dirs d fs) p ≡ names fs p
unfolding add_dirs
names-add_dirs [] fs p = names-add_dir [] fs p
names-add_dirs (c ∷ d) fs p =
    ground (arith, names-add_dir (c ∷ d) (add_dirs d fs) p, names-add_dirs d fs p)

pub names-put_dir :
    (d : DirPath) (es : Entries) (fs : Files) (p : DirPath)
    → names (insert no_order d es fs) p ≡ (if d == p then keys es else names fs p)
unfolding names
names-put_dir d es fs p = ground (arith, lookup-insert no_order d es fs p)

IsWellFormed-put_dir :
    (d : DirPath) (es : Entries) (fs : Files)
    → Distinct (keys es)
    → IsWellFormed fs
    → IsWellFormed (insert no_order d es fs)
IsWellFormed-put_dir d es fs k v = record {
  distinct = λ p. elim (Bool-cases (d == p)) [
    | inl here ↦ rw (names-put_dir, here) k
    | inr there ↦ rw (names-put_dir, there) (v.distinct p)
  ];
}

Distinct-entries :
    (d : DirPath) (fs : Files) {es : Entries}
    → lookup d fs ≡ some es
    → IsWellFormed fs
    → Distinct (keys es)
unfolding names
Distinct-entries d fs e v = rw (e, names) at (v.distinct d)

pub IsWellFormed-add_dirs :
    (d : DirPath) (fs : Files) → IsWellFormed fs → IsWellFormed (add_dirs d fs)
IsWellFormed-add_dirs d fs v = record { distinct = λ p. rw names-add_dirs (v.distinct p) }

pub IsWellFormed-put_file :
    (d : DirPath) (n b : Bytes) (fs : Files) → IsWellFormed fs → IsWellFormed (put_file d n b fs)
unfolding put_file
IsWellFormed-put_file d n b fs v = elim (Option-cases (lookup d fs)) [
  | inl e ↦ rw (e, put_file) v
  | inr (es, e) ↦
      rw (e, put_file)
        (IsWellFormed-put_dir d (insert before n b es) fs
          (Distinct-insert before n b es (Distinct-entries d fs e v)) v)
]

pub IsWellFormed-drop_file :
    (d : DirPath) (n : Bytes) (fs : Files) → IsWellFormed fs → IsWellFormed (drop_file d n fs)
unfolding drop_file
IsWellFormed-drop_file d n fs v = elim (Option-cases (lookup d fs)) [
  | inl e ↦ rw (e, drop_file) v
  | inr (es, e) ↦
      rw (e, drop_file)
        (IsWellFormed-put_dir d (erase n es) fs (Distinct-erase n es (Distinct-entries d fs e v)) v)
]

names-drop_tree :
    (d : DirPath) (fs : Files) (p : DirPath)
    → names (drop_tree d fs) p ≡ (if is_under d p then [] else names fs p)
unfolding names
names-drop_tree d fs p = ground (arith, lookup-drop_tree d fs p)

pub IsWellFormed-drop_tree :
    (d : DirPath) (fs : Files) → IsWellFormed fs → IsWellFormed (drop_tree d fs)
IsWellFormed-drop_tree d fs v = record {
  distinct = λ p. elim (Bool-cases (is_under d p)) [
    | inl gone ↦ rw (names-drop_tree, gone) tt
    | inr kept ↦ rw (names-drop_tree, kept) (v.distinct p)
  ];
}

-- A file that is not there is not named, and the other way round.
pub names_iff :
    (fs : Files) (d : DirPath) (n : Bytes)
    → (contains (names fs d) n ≡ false) ↔ (file fs d n ≡ none)
unfolding names file contains
names_iff fs d n = elim (Option-cases (lookup d fs)) [
  | inl e ↦ rw (e, names, file) (ground arith)
  | inr (es, e) ↦ rw (e, names, file) (contains-keys n es)
]

-- Whether the host lets a file be removed.
unfoldable pub removable : Host → DirPath → Bytes → Bool
removable h d n = elim (h.refuses unlink (n ∷ d)) [ some _ ↦ false | none ↦ true ]

pub file-remove :
    (h : Host) (d : DirPath) (n : Bytes) (fs : Files) (p : DirPath) (m : Bytes)
    → file (remove h d n fs) p m
      ≡ (if (d == p) && (n == m) && removable h d n then none else file fs p m)
unfolding remove removable
file-remove h d n fs p m = ground (arith, file-drop_file d n fs p m)

pub IsWellFormed-remove :
    (h : Host) (d : DirPath) (n : Bytes) (fs : Files)
    → IsWellFormed fs
    → IsWellFormed (remove h d n fs)
unfolding remove
IsWellFormed-remove h d n fs v = elim (Option-cases (h.refuses unlink (n ∷ d))) [
  | inl e ↦ rw (e, remove) (IsWellFormed-drop_file d n fs v)
  | inr (r, e) ↦ rw (e, remove) v
]

-- A call only sees what can be read.
pub read_file-cong :
    (h : Host) (d : DirPath) (n : Bytes) (fs fs' : Files)
    → file fs d n ≡ file fs' d n
    → read_file h d n fs ≡ read_file h d n fs'
unfolding read_file
read_file-cong h d n fs fs' e = ground arith

-- What a call that succeeds has done.
pub mkdir_all-done :
    (h : Host) (d : DirPath) (fs fs' : Files) → mkdir_all h d fs ≡ done fs' → fs' ≡ add_dirs d fs
unfolding mkdir_all
mkdir_all-done h d fs fs' e = ground arith

pub write_file-done :
    (h : Host) (d : DirPath) (n b : Bytes) (fs fs' : Files)
    → write_file h d n b fs ≡ done fs'
    → (has_dir fs d ≡ true) × (fs' ≡ put_file d n b fs)
unfolding write_file
write_file-done h d n b fs fs' e = ground arith

pub read_file-done :
    (h : Host) (d : DirPath) (n b : Bytes) (fs : Files)
    → read_file h d n fs ≡ done b
    → file fs d n ≡ some b
unfolding read_file
read_file-done h d n b fs e = ground arith

pub file-remove_all :
    (h : Host) (d : DirPath) (fs : Files) (p : DirPath) (m : Bytes) {b : Bytes}
    → file (remove_all h d fs) p m ≡ some b
    → file fs p m ≡ some b
unfolding remove_all
file-remove_all h d fs p m e = ground (arith, file-drop_tree d fs p m)

pub IsWellFormed-remove_all :
    (h : Host) (d : DirPath) (fs : Files) → IsWellFormed fs → IsWellFormed (remove_all h d fs)
unfolding remove_all
IsWellFormed-remove_all h d fs v = elim (Option-cases (h.refuses unlink d)) [
  | inl e ↦ rw (e, remove_all) (IsWellFormed-drop_tree d fs v)
  | inr (r, e) ↦ rw (e, remove_all) v
]
