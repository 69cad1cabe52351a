-- ===== src/Chat/GroupFiles.antt =====
-- chatd/main.go, groups: which actions leave the group files alone, and what a written one reads as.
use zknode_autonomi_alpha.Prelude.{
  ◌≡◌, ◌∙◌, some, List, [], ◌∷◌, Bytes, ==_iff, nat_Eq, list_Eq, arith, inl, inr, Option-cases,
  Bool-cases, contains, ok, ==_refl,
}
use zknode_autonomi_alpha.FilePath.{DirPath}
use zknode_autonomi_alpha.Files.{
  Files, Host, Syscall, file, add_dirs, put_file, mkdir_all, write_file, read_file,
}
use zknode_autonomi_alpha.Files.Laws.{file-put_file, file-add_dirs, mkdir_all-done, write_file-done}
use zknode_autonomi_alpha.Chat.{Chatd, Wire, Group, ◌>>=◌, attempt}
use zknode_autonomi_alpha.Chat.Returns.{Returns, Any, Returns-bind, Returns-attempt}
use zknode_autonomi_alpha.Chat.Store.{
  user_dir, group_dir, meta_json, groups_json, load_group_meta, write_group_meta, save_group,
  get_user_groups, or_no_groups, add_user_group, add_user_groups, remove_user_group,
}
use zknode_autonomi_alpha.Chat.Keeps.{groups_json-ne-meta_json}
use zknode_autonomi_alpha.Chat.Mailbox.{Willing}
use zknode_autonomi_alpha.Files.Laws.{has_dir-add_dirs}

-- The group file of every directory is as it was.
abbrev pub SameMeta : Files → Files → Type 0
SameMeta fs fs' = (p : DirPath) → file fs' p meta_json ≡ file fs p meta_json

module _ (w : Wire) (c : Chatd) (h : Host) (start : Files) where
  mkdir-SameMeta :
      (label : Bytes) (d : DirPath) → Returns (SameMeta start) Any (attempt h label (mkdir_all h d))
  mkdir-SameMeta label d =
      Returns-attempt h label _ λ fs fs' same e p.
        rw (mkdir_all-done h d fs fs' e) (file-add_dirs d fs p meta_json ∙ same p)

  groups-SameMeta :
      (label : Bytes) (d : DirPath) (b : Bytes)
      → Returns (SameMeta start) Any (attempt h label (write_file h d groups_json b))
  groups-SameMeta label d b = Returns-attempt h label _ λ fs fs' same e p.
      let (there, q) = write_file-done h d groups_json b fs fs' e in
      rw q (
        ground (
          arith,
          file-put_file d groups_json b fs p meta_json there,
          ==_iff groups_json meta_json,
          groups_json-ne-meta_json,
          same p,
        ))

  add_user_group-SameMeta :
      (u gid : Bytes) (fs : Files)
      → SameMeta start fs
      → SameMeta start (add_user_group w c h u gid fs).1
  unfolding add_user_group
  add_user_group-SameMeta u gid fs v =
      elim (Bool-cases (contains (or_no_groups w c h (get_user_groups w c h u fs)) gid)) [
        | inl old ↦ rw (old, add_user_group) v
        | inr new ↦
            rw (new, add_user_group)
              ((Returns-bind _ _ (mkdir-SameMeta [] (user_dir c u))
                  (λ _ _. groups-SameMeta [] (user_dir c u) _)).keeps
                fs v)
      ]

  pub add_user_groups-SameMeta :
      (us : List Bytes) (gid : Bytes) (fs : Files)
      → SameMeta start fs
      → SameMeta start (add_user_groups w c h us gid fs)
  unfolding add_user_groups
  add_user_groups-SameMeta [] gid fs v = v
  add_user_groups-SameMeta (u ∷ us) gid fs v =
      add_user_groups-SameMeta us gid _ (add_user_group-SameMeta u gid fs v)

  pub remove_user_group-SameMeta :
      (u gid : Bytes) (fs : Files)
      → SameMeta start fs
      → SameMeta start (remove_user_group w c h u gid fs)
  unfolding remove_user_group
  remove_user_group-SameMeta u gid fs v = elim (Option-cases (get_user_groups w c h u fs)) [
    | inl e ↦ rw (e, remove_user_group) v
    | inr (gs, e) ↦ rw (e, remove_user_group) ((groups-SameMeta [] (user_dir c u) _).keeps fs v)
  ]

module _ (w : Wire) (c : Chatd) (h : Host) (gid : Bytes) (fs : Files) where
  -- The files once a group has been written.
  unfoldable pub recorded : Bytes → Files
  recorded b = put_file (group_dir c gid) meta_json b (add_dirs (group_dir c gid) fs)

  pub write_group_meta-Willing :
      (g : Group) (b : Bytes)
      → Willing h
      → w.encode_group g ≡ ok b
      → write_group_meta w c h gid g fs ≡ (ok tt, recorded b)
  unfolding ◌>>=◌ write_group_meta save_group mkdir_all write_file recorded
  write_group_meta-Willing g b r e = ground (
    arith,
    e,
    r Syscall.mkdirs (group_dir c gid),
    r Syscall.write (meta_json ∷ group_dir c gid),
    has_dir-add_dirs (group_dir c gid) fs,
  )

  pub meta-recorded : (b : Bytes) → file (recorded b) (group_dir c gid) meta_json ≡ some b
  unfolding recorded
  meta-recorded b = ground (
    arith,
    file-put_file (group_dir c gid) meta_json b (add_dirs (group_dir c gid) fs) (group_dir c gid)
        meta_json (has_dir-add_dirs (group_dir c gid) fs),
    ==_refl (group_dir c gid),
    ==_refl meta_json,
  )

  -- What a group file holds is what loads.
  pub load_group_meta-file :
      (b : Bytes)
      → Willing h
      → file fs (group_dir c gid) meta_json ≡ some b
      → load_group_meta w c h gid fs ≡ w.decode_group b
  unfolding load_group_meta read_file
  load_group_meta-file b r e = ground (arith, e, r Syscall.read (meta_json ∷ group_dir c gid))
