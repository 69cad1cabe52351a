-- ===== src/Chat/Membership.antt =====
-- chatd/main.go, groups: who may do what, and who is a member afterwards.
use zknode_autonomi_alpha.Prelude.{
  true, false, not, ◌&&◌, ◌||◌, Distinct-append_one, ◌≡◌, refl, ap, ◌∙◌, List, [], ◌∷◌, ◌++◌, Bytes,
  ◌==◌, ==_iff, nat_Eq, list_Eq, arith, inl, inr, Bool-cases, contains, Distinct, ok, ==_refl,
  is_empty, contains-append,
}
use zknode_autonomi_alpha.Files.{Files, Host}
use zknode_autonomi_alpha.Chat.{
  Chatd, Wire, Group, ChatRequest, ChatResponse, ◌>>=◌, is_set, success, respond,
}
use zknode_autonomi_alpha.Chat.Store.{group_dir, is_member, load_group_meta, add_user_groups}
use zknode_autonomi_alpha.Chat.Groups.{
  invite_members, without_member, find_group, handle_group_invite,
}
use zknode_autonomi_alpha.Chat.Mailbox.{Willing}
use zknode_autonomi_alpha.Chat.GroupFiles.{
  add_user_groups-SameMeta, recorded, write_group_meta-Willing, meta-recorded, load_group_meta-file,
}

pub contains-invite_members :
    (ms ns : List Bytes) (v : Bytes)
    → contains (invite_members ms ns) v ≡ (contains ms v || contains ns v)
unfolding invite_members contains
contains-invite_members ms [] v = ground arith
contains-invite_members ms (n ∷ ns) v = elim (Bool-cases (contains ms n)) [
  | inl old ↦
      rw (old, invite_members) (ground (arith, contains-invite_members ms ns v, old, ==_iff n v))
  | inr new ↦
      rw (new, invite_members)
        (ground (arith, contains-invite_members (ms ++ n ∷ []) ns v, contains-append ms (n ∷ []) v))
]

-- An invitation adds nobody twice.
Distinct-invite_members : (ms ns : List Bytes) → Distinct ms → Distinct (invite_members ms ns)
unfolding invite_members
Distinct-invite_members ms [] d = d
Distinct-invite_members ms (n ∷ ns) d = elim (Bool-cases (contains ms n)) [
  | inl old ↦ rw (old, invite_members) (Distinct-invite_members ms ns d)
  | inr new ↦
      rw (new, invite_members)
        (Distinct-invite_members (ms ++ n ∷ []) ns (Distinct-append_one ms n new d))
]

pub contains-without_member :
    (u : Bytes) (ms : List Bytes) (v : Bytes)
    → contains (without_member u ms) v ≡ (not (v == u) && contains ms v)
unfolding without_member contains
contains-without_member u [] v = ground arith
contains-without_member u (m ∷ ms) v =
    ground (arith, contains-without_member u ms v, ==_iff m u, ==_iff m v, ==_iff v u)

-- encoding/json writes this group, and reads it back as it was.
abbrev pub Survives : Wire → Group → Type 0
Survives w g = (b : Bytes) × (w.encode_group g ≡ ok b) × (w.decode_group b ≡ ok g)

module _ (w : Wire) (c : Chatd) (h : Host) (req : ChatRequest) (fs : Files) where
  invited : Group → Group
  invited g = record g { members = invite_members g.members req.members }

  invite_run :
      (g : Group) (b : Bytes)
      → Willing h
      → is_set req.user_id ≡ true
      → is_set req.group_id ≡ true
      → is_empty req.members ≡ false
      → load_group_meta w c h req.group_id fs ≡ ok g
      → g.owner ≡ req.user_id
      → w.encode_group (invited g) ≡ ok b
      → respond (handle_group_invite w c h req) fs ≡ (
        success,
        add_user_groups w c h req.members req.group_id (recorded w c h req.group_id fs b),
      )
  unfolding ◌>>=◌ handle_group_invite respond find_group invited
  invite_run g b r u i m l o e = ground (
    arith,
    u,
    i,
    m,
    l,
    o,
    ==_refl req.user_id,
    write_group_meta-Willing w c h req.group_id fs (invited g) b r e,
  )

  -- On hosts that refuse nothing, an invitation by the owner of a group succeeds, if the new group
  -- survives its encoding: it then loads with the old owner, its members are just the old ones and
  -- the invited ones, and if nobody was in it twice, nobody is.
  pub handle_group_invite_lem :
      (h' : Host) (g : Group)
      → Willing h
      → Willing h'
      → is_set req.user_id ≡ true
      → is_set req.group_id ≡ true
      → is_empty req.members ≡ false
      → load_group_meta w c h req.group_id fs ≡ ok g
      → g.owner ≡ req.user_id
      → Survives w (record g { members = invite_members g.members req.members })
      → let after = respond (handle_group_invite w c h req) fs in
        (after.0 ≡ success)
        × (g' : Group) × (load_group_meta w c h' req.group_id after.1 ≡ ok g')
        × (g'.owner ≡ g.owner)
        × ((v : Bytes) → is_member g' v ≡ (is_member g v || contains req.members v))
        × (Distinct g.members → Distinct g'.members)
  unfolding is_member invited
  handle_group_invite_lem h' g r r' u i m l o (b, e, k) =
      let gid = req.group_id in
      let stored = recorded w c h gid fs b in
      let run = invite_run g b r u i m l o e in
      (
        ap (λ (x : ChatResponse × Files). x.0) run,
        record g { members = invite_members g.members req.members },
        rw run (
            load_group_meta-file w c h' gid _ b r' (
              add_user_groups-SameMeta w c h stored req.members gid stored (λ p. refl)
                (group_dir c gid)
              ∙ meta-recorded w c h gid fs b)
            ∙ k),
        refl,
        contains-invite_members g.members req.members,
        Distinct-invite_members g.members req.members,
      )
