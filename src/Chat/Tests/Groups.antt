-- ===== src/Chat/Tests/Groups.antt =====
-- chatd/main.go: groups, run.
use zknode_autonomi_alpha.Prelude.{
  ◌≡◌, refl, true, false, not, ◌&&◌, ◌||◌, [], ◌∷◌, Bytes, ok, codes, ◌==◌, nat_Eq, list_Eq,
  list_eq, contains, Distinct,
}
use zknode_autonomi_alpha.Chat.{ChatRequest, Group, respond, success}
use zknode_autonomi_alpha.Chat.Store.{load_group_meta, is_member}
use zknode_autonomi_alpha.Chat.Groups.{
  handle_group_send, handle_group_poll, handle_group_invite, handle_group_leave, without_member,
}
use zknode_autonomi_alpha.Chat.Daemon.{process}
use zknode_autonomi_alpha.Chat.Invariant.{Inv, IsOwned}
use zknode_autonomi_alpha.Chat.Reachable.{start, next, served, Reach-Inv}
use zknode_autonomi_alpha.Chat.Membership.{handle_group_invite_lem}
use zknode_autonomi_alpha.Chat.Leaving.{handle_group_leave_lem}
use zknode_autonomi_alpha.Chat.Outsiders.{
  IsStopped, IsRefused, outsider_excluded, group_poll_consumes,
}
use zknode_autonomi_alpha.Chat.Races.{waiting, replied, interleave, interleave_lost}
use zknode_autonomi_alpha.Chat.Tests.Codec.{wire, wire-KeepsMembers, decode_group-encode_group}
use zknode_autonomi_alpha.Chat.Tests.World.{
  daemon, host, later, host-Willing, later-Willing, host-bytes, alice, bob, carol, ask, friends,
  stored, stored-IsWellFormed, load-stored,
}

abbrev invitation : ChatRequest
invitation = ask alice [] [] (codes "ab") (carol ∷ [])

abbrev farewell : ChatRequest
farewell = ask alice [] [] (codes "ab") []

abbrev intrusion : ChatRequest
intrusion = ask carol [] (codes "hi") (codes "ab") (carol ∷ [])

abbrev bob_polls : ChatRequest
bob_polls = ask bob [] [] (codes "ab") []

alice_leaves : without_member alice (alice ∷ bob ∷ []) ≡ bob ∷ []
unfolding without_member list_eq
alice_leaves = refl

nobody_stays : without_member alice (alice ∷ []) ≡ []
unfolding without_member list_eq
nobody_stays = refl

alice_belongs : is_member friends alice ≡ true
unfolding is_member list_eq contains
alice_belongs = refl

bob_belongs : is_member friends bob ≡ true
unfolding is_member list_eq contains
bob_belongs = refl

Reach-Inv_example : Inv wire (process wire daemon host (codes "x") []).0.files
Reach-Inv_example =
    Reach-Inv wire wire-KeepsMembers daemon (next start (served host (codes "x") host-bytes))

handle_group_invite_lem_example :
    let after = respond (handle_group_invite wire daemon host invitation) (stored friends) in
    (after.0 ≡ success)
    × (g' : Group) × (load_group_meta wire daemon later (codes "ab") after.1 ≡ ok g')
    × (g'.owner ≡ alice)
    × ((v : Bytes) → is_member g' v ≡ (is_member friends v || contains (carol ∷ []) v))
    × (Distinct (alice ∷ bob ∷ []) → Distinct g'.members)
handle_group_invite_lem_example =
    handle_group_invite_lem wire daemon host invitation (stored friends) later friends host-Willing
      later-Willing refl refl refl (load-stored friends) refl (_, refl, decode_group-encode_group _)

handle_group_leave_lem_example :
    let after = respond (handle_group_leave wire daemon host farewell) (stored friends) in
    (after.0 ≡ success)
    × (g' : Group) × (load_group_meta wire daemon later (codes "ab") after.1 ≡ ok g')
    × ((v : Bytes) → is_member g' v ≡ (not (v == alice) && is_member friends v))
    × (IsOwned friends → IsOwned g')
handle_group_leave_lem_example =
    handle_group_leave_lem wire daemon host farewell (stored friends) later friends bob []
      host-Willing later-Willing refl refl (load-stored friends) alice_leaves
      (_, refl, decode_group-encode_group _)

outsider_excluded_example :
    let group = stored friends in
    IsStopped group (handle_group_send wire daemon host intrusion group)
    × IsRefused group (respond (handle_group_poll wire daemon host intrusion) group)
    × IsRefused group (respond (handle_group_invite wire daemon host intrusion) group)
unfolding is_member contains list_eq
outsider_excluded_example =
    outsider_excluded wire daemon host (stored friends) friends intrusion intrusion refl
      (load-stored friends) refl refl refl

group_poll_consumes_example :
    (respond
      (handle_group_poll wire daemon later bob_polls)
      (respond (handle_group_poll wire daemon host farewell) (stored friends)).1).0
    ≡ success
group_poll_consumes_example =
    group_poll_consumes wire daemon host later farewell bob_polls (stored friends) friends
      host-Willing later-Willing (stored-IsWellFormed friends) refl refl refl refl
      (load-stored friends) alice_belongs bob_belongs

abbrev second_invitation : ChatRequest
second_invitation = ask alice [] [] (codes "ab") ((10 ∷ 20 ∷ []) ∷ [])

interleave_lost_example :
    let (ra, rb, after) =
      interleave wire daemon host
        (true ∷ false ∷ true ∷ false ∷ [])
        (waiting invitation)
        (waiting second_invitation)
        (stored friends) in
    (ra ≡ replied success)
    × (rb ≡ replied success)
    × (g' : Group) × (load_group_meta wire daemon host (codes "ab") after ≡ ok g')
    × ((v : Bytes) → is_member g' v ≡ (is_member friends v || contains ((10 ∷ 20 ∷ []) ∷ []) v))
interleave_lost_example =
    interleave_lost wire daemon host invitation second_invitation (stored friends) friends
      host-Willing refl refl refl refl refl refl (load-stored friends) refl refl
      (_, refl, decode_group-encode_group _) (_, refl, decode_group-encode_group _)
