-- ===== src/Chat/Invariant.antt =====
-- chatd/main.go: what holds of the store whatever requests are served.
use zknode_autonomi_alpha.Prelude.{
  true, ◌&&◌, ◌≡◌, subst, ◌∙◌, sym, some, Bytes, ◌==◌, ==_iff, nat_Eq, list_Eq, arith, inl, inr,
  Bool-cases, contains, ok,
}
use zknode_autonomi_alpha.FilePath.{DirPath}
use zknode_autonomi_alpha.Files.{
  Files, Host, file, add_dirs, done, mkdir_all, write_file, remove, remove_all,
}
use zknode_autonomi_alpha.Files.Laws.{
  file-remove, IsWellFormed, IsWellFormed-add_dirs, IsWellFormed-put_file, IsWellFormed-remove,
  IsWellFormed-remove_all, file-put_file, file-add_dirs, file-remove_all, mkdir_all-done,
  write_file-done,
}
use zknode_autonomi_alpha.Chat.{Wire, Group}
use zknode_autonomi_alpha.Chat.Store.{meta_json}

-- A group whose owner is one of its members.
abbrev pub IsOwned : Group → Type 0
IsOwned g = contains g.members g.owner ≡ true

-- encoding/json gives the owner and the members of a group back as they were.
pub record KeepsMembers (w : Wire) : Type 0 where
  pub owner :
      (g g' : Group) (b : Bytes)
      → w.encode_group g ≡ ok b
      → w.decode_group b ≡ ok g'
      → g'.owner ≡ g.owner
  pub members :
      (g g' : Group) (b : Bytes)
      → w.encode_group g ≡ ok b
      → w.decode_group b ≡ ok g'
      → g'.members ≡ g.members

-- Every directory names each file once, and every stored group is owned by one of its members.
pub record Inv (w : Wire) (fs : Files) : Type 0 where
  pub formed : IsWellFormed fs
  pub owned :
      (p : DirPath) (b : Bytes) (g : Group)
      → file fs p meta_json ≡ some b
      → w.decode_group b ≡ ok g
      → IsOwned g

module _ (w : Wire) where
  pub add_dirs-Inv : (d : DirPath) (fs : Files) → Inv w fs → Inv w (add_dirs d fs)
  add_dirs-Inv d fs v = record {
    formed = IsWellFormed-add_dirs d fs v.formed;
    owned = λ p b g e. v.owned p b g (sym (file-add_dirs d fs p meta_json) ∙ e);
  }

  pub mkdir_all-Inv :
      (h : Host) (d : DirPath) (fs fs' : Files) → Inv w fs → mkdir_all h d fs ≡ done fs' → Inv w fs'
  mkdir_all-Inv h d fs fs' v e =
      subst (Inv w) (sym (mkdir_all-done h d fs fs' e)) (add_dirs-Inv d fs v)

  -- A file that is no group file, or that holds an owned group.
  abbrev pub IsHarmless : Bytes → Bytes → Type 0
  IsHarmless n b = n ≡ meta_json → (g : Group) → w.decode_group b ≡ ok g → IsOwned g

  pub write_file-Inv :
      (h : Host) (d : DirPath) (n b : Bytes) (fs fs' : Files)
      → IsHarmless n b
      → Inv w fs
      → write_file h d n b fs ≡ done fs'
      → Inv w fs'
  write_file-Inv h d n b fs fs' ok_file v e =
      let (there, q) = write_file-done h d n b fs fs' e in
      subst (Inv w) (sym q) (record {
        formed = IsWellFormed-put_file d n b fs v.formed;
        owned = λ p x g k j. elim (Bool-cases ((d == p) && (n == meta_json))) [
          | inl hit ↦
              ok_file ((==_iff n meta_json).0 (ground arith)) g
                (ground (arith, file-put_file d n b fs p meta_json there))
          | inr miss ↦ v.owned p x g (ground (arith, file-put_file d n b fs p meta_json there)) j
        ];
      })

  pub remove-Inv :
      (h : Host) (d : DirPath) (n : Bytes) (fs : Files) → Inv w fs → Inv w (remove h d n fs)
  remove-Inv h d n fs v = record {
    formed = IsWellFormed-remove h d n fs v.formed;
    owned = λ p b g e. v.owned p b g (ground (arith, file-remove h d n fs p meta_json));
  }

  pub remove_all-Inv : (h : Host) (d : DirPath) (fs : Files) → Inv w fs → Inv w (remove_all h d fs)
  remove_all-Inv h d fs v = record {
    formed = IsWellFormed-remove_all h d fs v.formed;
    owned = λ p b g e. v.owned p b g (file-remove_all h d fs p meta_json e);
  }
