-- ===== src/Chat/Leaving.antt =====
-- chatd/main.go, groups: what leaving a group does.
use zknode_autonomi_alpha.Prelude.{
  true, not, ◌&&◌, ◌≡◌, refl, ap, ◌∙◌, none, List, [], ◌∷◌, Bytes, ◌==◌, nat_Eq, list_Eq, list_eq,
  arith, inl, inr, Bool-cases, if◌then◌else◌, ok, ==_refl, contains-head, contains-head,
}
use zknode_autonomi_alpha.FilePath.{DirPath}
use zknode_autonomi_alpha.Files.{Files, Host, Syscall, file, remove_all}
use zknode_autonomi_alpha.Chat.{
  Chatd, Wire, Group, ChatRequest, ChatResponse, ◌>>=◌, is_set, success, respond,
}
use zknode_autonomi_alpha.Chat.Store.{
  group_dir, meta_json, is_member, load_group_meta, remove_user_group,
}
use zknode_autonomi_alpha.Chat.Invariant.{IsOwned}
use zknode_autonomi_alpha.Chat.Groups.{without_member, find_group, store_rest, handle_group_leave}
use zknode_autonomi_alpha.Chat.Mailbox.{Willing}
use zknode_autonomi_alpha.Files.Laws.{file-drop_tree}
use zknode_autonomi_alpha.Chat.GroupFiles.{
  remove_user_group-SameMeta, recorded, write_group_meta-Willing, meta-recorded,
  load_group_meta-file,
}
use zknode_autonomi_alpha.Chat.Membership.{Survives, contains-without_member}
use zknode_autonomi_alpha.Files.{is_under, drop_tree}

-- The group that stays when a member leaves: an owner hands it to the first of the others.
unfoldable pub heir_of : Group → Bytes → Bytes → List Bytes → Group
heir_of g user_id m ms = record g {
  owner = if g.owner == user_id then m else g.owner;
  members = m ∷ ms;
}

is_under_self : (d : DirPath) → is_under d d ≡ true
unfolding is_under list_eq
is_under_self [] = refl
is_under_self (x ∷ d) = ground (arith, ==_refl {A = DirPath} (x ∷ d))

module _ (w : Wire) (c : Chatd) (h : Host) (req : ChatRequest) (fs : Files) where
  leave_run :
      (g : Group) (m : Bytes) (ms : List Bytes) (b : Bytes)
      → Willing h
      → is_set req.user_id ≡ true
      → is_set req.group_id ≡ true
      → load_group_meta w c h req.group_id fs ≡ ok g
      → without_member req.user_id g.members ≡ m ∷ ms
      → w.encode_group (heir_of g req.user_id m ms) ≡ ok b
      → respond (handle_group_leave w c h req) fs ≡ (
        success,
        remove_user_group w c h req.user_id req.group_id (recorded w c h req.group_id fs b),
      )
  unfolding ◌>>=◌ handle_group_leave store_rest respond find_group heir_of
  leave_run g m ms b r u i l o e = ground (
    arith,
    u,
    i,
    l,
    o,
    write_group_meta-Willing w c h req.group_id fs (heir_of g req.user_id m ms) b r e,
  )

  last_leave_run :
      (g : Group)
      → Willing h
      → is_set req.user_id ≡ true
      → is_set req.group_id ≡ true
      → load_group_meta w c h req.group_id fs ≡ ok g
      → without_member req.user_id g.members ≡ []
      → respond (handle_group_leave w c h req) fs ≡ (
        success,
        remove_user_group w c h req.user_id req.group_id (drop_tree (group_dir c req.group_id) fs),
      )
  unfolding ◌>>=◌ handle_group_leave store_rest respond find_group remove_all
  last_leave_run g r u i l o =
      ground (arith, u, i, l, o, r Syscall.unlink (group_dir c req.group_id))

  -- On hosts that refuse nothing, leaving a group in which others remain succeeds, if the rest
  -- survives its encoding: the group then loads, the one who left is no member, everybody else is a
  -- member exactly if he was one, and the owner is one of the members if he was one before.
  pub handle_group_leave_lem :
      (h' : Host) (g : Group) (m : Bytes) (ms : List Bytes)
      → Willing h
      → Willing h'
      → is_set req.user_id ≡ true
      → is_set req.group_id ≡ true
      → load_group_meta w c h req.group_id fs ≡ ok g
      → without_member req.user_id g.members ≡ m ∷ ms
      → Survives w (heir_of g req.user_id m ms)
      → let after = respond (handle_group_leave w c h req) fs in
        (after.0 ≡ success)
        × (g' : Group) × (load_group_meta w c h' req.group_id after.1 ≡ ok g')
        × ((v : Bytes) → is_member g' v ≡ (not (v == req.user_id) && is_member g v))
        × (IsOwned g → IsOwned g')
  unfolding is_member heir_of
  handle_group_leave_lem h' g m ms r r' u i l o (b, e, k) =
      let gid = req.group_id in
      let stored = recorded w c h gid fs b in
      let run = leave_run g m ms b r u i l o e in
      (
        ap (λ (x : ChatResponse × Files). x.0) run,
        heir_of g req.user_id m ms,
        rw run (
            load_group_meta-file w c h' gid _ b r' (
              remove_user_group-SameMeta w c h stored req.user_id gid stored (λ p. refl)
                (group_dir c gid)
              ∙ meta-recorded w c h gid fs b)
            ∙ k),
        λ v. rw (← o) (contains-without_member req.user_id g.members v),
        λ owned. elim (Bool-cases (g.owner == req.user_id)) [
          | inl leaves ↦ rw leaves (contains-head m ms)
          | inr stays ↦
              rw (stays, ← o)
                (ground (arith, contains-without_member req.user_id g.members g.owner))
        ],
      )

  -- On a host that refuses nothing, the last one to leave takes the group with him: no file of its
  -- directory is left, except what removeUserGroup writes, and that is no group file.
  handle_group_leave_last :
      (g : Group)
      → Willing h
      → is_set req.user_id ≡ true
      → is_set req.group_id ≡ true
      → load_group_meta w c h req.group_id fs ≡ ok g
      → without_member req.user_id g.members ≡ []
      → let after = respond (handle_group_leave w c h req) fs in
        (after.0 ≡ success) × (file after.1 (group_dir c req.group_id) meta_json ≡ none)
  handle_group_leave_last g r u i l o =
      let gone = drop_tree (group_dir c req.group_id) fs in
      rw (last_leave_run g r u i l o) (
        refl,
        remove_user_group-SameMeta w c h gone req.user_id req.group_id gone (λ p. refl)
              (group_dir c req.group_id)
            ∙ rw (file-drop_tree (group_dir c req.group_id) fs (group_dir c req.group_id) meta_json)
                (rw is_under_self refl),
      )
