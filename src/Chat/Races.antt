-- ===== src/Chat/Races.antt =====
-- chatd/main.go: two invitations to one group at the same time. OnCommand serves each request in a
-- goroutine and the mutex of Chatd is never locked, so that one handler may read the group between the
-- read and the write of another.
use zknode_autonomi_alpha.Prelude.{
  true, false, not, ◌||◌, ◌≡◌, refl, ap, ◌∙◌, sym, List, [], ◌∷◌, Bytes, Bool, ◌==◌, ==_refl,
  nat_Eq, list_Eq, arith, contains, Result, ok, err, codes, is_empty, inl, inr, Result-cases,
}
use zknode_autonomi_alpha.Files.{Files, Host}
use zknode_autonomi_alpha.Chat.{
  Chatd, Wire, Group, ChatRequest, ChatResponse, Action, ◌>>=◌, ◌>>◌, pure, require, labelled,
  modify, is_set, success, no_response, respond,
}
use zknode_autonomi_alpha.Chat.Store.{
  group_dir, is_member, load_group_meta, write_group_meta, add_user_groups,
}
use zknode_autonomi_alpha.Chat.Groups.{invite_members, find_group, handle_group_invite}
use zknode_autonomi_alpha.Chat.Mailbox.{Willing}
use zknode_autonomi_alpha.Chat.GroupFiles.{
  add_user_groups-SameMeta, recorded, write_group_meta-Willing, meta-recorded, load_group_meta-file,
}
use zknode_autonomi_alpha.Chat.Membership.{Survives, contains-invite_members}

-- Where a handler of handleGroupInvite stands.
pub data InvitePc : Type 0 where
  waiting : ChatRequest → InvitePc
  loaded : ChatRequest → Group → InvitePc
  replied : ChatResponse → InvitePc

module _ (w : Wire) (c : Chatd) (h : Host) where
  -- handleGroupInvite up to the check of the owner
  unfoldable pub invite_reads : ChatRequest → Action Group
  invite_reads req = do
    require (is_set req.user_id) (codes "user_id required")
    require (is_set req.group_id) (codes "group_id required")
    require (not (is_empty req.members)) (codes "members required")
    g ← find_group w c h req.group_id
    require (g.owner == req.user_id) (codes "only the group owner can invite members")
    pure g

  -- and from there on, with the group that was read
  unfoldable pub invite_writes : ChatRequest → Group → Action ChatResponse
  invite_writes req g = do
    labelled (codes "write meta: ") (
        write_group_meta w c h req.group_id
          (record g { members = invite_members g.members req.members }))
    modify (add_user_groups w c h req.members req.group_id)
    pure success

  unfoldable pub loaded_or_error : ChatRequest → Result Group → InvitePc
  loaded_or_error req (ok g) = loaded req g
  loaded_or_error req (err e) = replied (record no_response { error = e })

  -- One step of a handler.
  unfoldable pub advance : InvitePc → Files → InvitePc × Files
  unfolding loaded_or_error
  advance (waiting req) fs = (loaded_or_error req (invite_reads req fs).0, fs)
  advance (loaded req g) fs =
      let (response, fs') = respond (invite_writes req g) fs in (replied response, fs')
  advance (replied response) fs = (replied response, fs)

  -- Two handlers over one store, by a schedule that says who moves: `true` is the first.
  unfoldable pub interleave : List Bool → InvitePc → InvitePc → Files → InvitePc × InvitePc × Files
  interleave [] a b fs = (a, b, fs)
  interleave (true ∷ schedule) a b fs = let (a', fs') = advance a fs in interleave schedule a' b fs'
  interleave (false ∷ schedule) a b fs =
      let (b', fs') = advance b fs in interleave schedule a b' fs'

  -- The two halves make up the handler: a handler that nobody interrupts does in two steps what
  -- handleGroupInvite does, errors included.
  advance_twice :
      (req : ChatRequest) (fs : Files)
      → let once = advance (waiting req) fs in
        let whole = respond (handle_group_invite w c h req) fs in
        advance once.0 once.1 ≡ (replied whole.0, whole.1)
  unfolding ◌>>=◌ advance loaded_or_error invite_reads invite_writes handle_group_invite respond
      find_group
  advance_twice req fs = elim (Result-cases (load_group_meta w c h req.group_id fs)) [
    | inl (g, e) ↦ ground (arith, e)
    | inr (x, e) ↦ ground (arith, e)
  ]

  reads_run :
      (req : ChatRequest) (fs : Files) (g : Group)
      → is_set req.user_id ≡ true
      → is_set req.group_id ≡ true
      → is_empty req.members ≡ false
      → load_group_meta w c h req.group_id fs ≡ ok g
      → g.owner ≡ req.user_id
      → advance (waiting req) fs ≡ (loaded req g, fs)
  unfolding ◌>>=◌ advance loaded_or_error invite_reads find_group
  reads_run req fs g u i m l o = ground (arith, u, i, m, l, o, ==_refl req.user_id)

  writes_run :
      (req : ChatRequest) (fs : Files) (g : Group) (b : Bytes)
      → Willing h
      → w.encode_group (record g { members = invite_members g.members req.members }) ≡ ok b
      → advance (loaded req g) fs ≡ (
        replied success,
        add_user_groups w c h req.members req.group_id (recorded w c h req.group_id fs b),
      )
  unfolding ◌>>=◌ advance invite_writes respond
  writes_run req fs g b r e = ground (
    arith,
    write_group_meta-Willing w c h req.group_id fs
        (record g { members = invite_members g.members req.members }) b r e,
  )

  -- An update is lost: if the owner sends two invitations to a group and both are read before either
  -- is written, then, on a host that refuses nothing, both are answered with success, but the group
  -- that loads afterwards has the old members and those of the second invitation only.
  pub interleave_lost :
      (a b : ChatRequest) (fs : Files) (g : Group)
      → Willing h
      → is_set a.user_id ≡ true
      → is_set b.user_id ≡ true
      → is_set a.group_id ≡ true
      → b.group_id ≡ a.group_id
      → is_empty a.members ≡ false
      → is_empty b.members ≡ false
      → load_group_meta w c h a.group_id fs ≡ ok g
      → g.owner ≡ a.user_id
      → g.owner ≡ b.user_id
      → Survives w (record g { members = invite_members g.members a.members })
      → Survives w (record g { members = invite_members g.members b.members })
      → let (ra, rb, after) =
          interleave (true ∷ false ∷ true ∷ false ∷ []) (waiting a) (waiting b) fs in
        (ra ≡ replied success)
        × (rb ≡ replied success)
        × (g' : Group) × (load_group_meta w c h a.group_id after ≡ ok g')
        × ((v : Bytes) → is_member g' v ≡ (is_member g v || contains b.members v))
  unfolding interleave is_member
  interleave_lost a b fs g r ua ub ia same ma mb l oa ob (xa, ea, ka) (xb, eb, kb) =
      let gid = b.group_id in
      let reads_a = reads_run a fs g ua ia ma l oa in
      let reads_b =
        reads_run b fs g ub (ap is_set same ∙ ia) mb (ap (λ i. load_group_meta w c h i fs) same ∙ l)
          ob in
      let between = add_user_groups w c h a.members a.group_id (recorded w c h a.group_id fs xa) in
      let stored = recorded w c h gid between xb in
      rw (reads_a, reads_b, writes_run a fs g xa r ea, writes_run b between g xb r eb)
        (
          refl,
          refl,
          record g { members = invite_members g.members b.members },
          ap (λ i. load_group_meta w c h i (add_user_groups w c h b.members gid stored)) (sym same)
              ∙ (load_group_meta-file w c h gid _ xb r (
                    add_user_groups-SameMeta w c h stored b.members gid stored (λ p. refl)
                      (group_dir c gid)
                    ∙ meta-recorded w c h gid between xb)
                  ∙ kb),
          contains-invite_members g.members b.members,
        )
