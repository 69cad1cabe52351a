-- ===== src/Chat/StaleLists.antt =====
-- chatd/main.go, groups: what a poll without a group ID reads, in handleGroupPoll.
use zknode_autonomi_alpha.Prelude.{
  true, false, ◌≡◌, some, [], ◌∷◌, Bytes, nat_Eq, list_Eq, arith, ok,
}
use zknode_autonomi_alpha.Files.{Files, Host, Syscall, names, read_dir, has_dir}
use zknode_autonomi_alpha.Files.Laws.{IsWellFormed}
use zknode_autonomi_alpha.Chat.{Chatd, Wire, Group, ChatRequest, ◌>>=◌, is_set, success, respond}
use zknode_autonomi_alpha.Chat.Store.{group_dir, is_member, load_group_meta, get_user_groups}
use zknode_autonomi_alpha.Chat.Groups.{
  groups_to_poll, named_group, find_group, poll_groups, handle_group_poll,
}
use zknode_autonomi_alpha.Chat.Mailbox.{Willing, inbox, take_messages-inbox}
use zknode_autonomi_alpha.Chat.Keeps.Groups.{load_group_meta-ok}
use zknode_autonomi_alpha.Chat.Outsiders.{IsRefused, has_dir-file}

module _ (w : Wire) (c : Chatd) (h : Host) (req : ChatRequest) (gid : Bytes) (fs : Files) where
  -- Who is not a member of a stored group, and whose own list of groups still names it alone, is
  -- refused when polling it by its ID, and when polling without an ID gets every message that waits
  -- in it, on a host that refuses nothing and over a store that names each file once.
  pub stale_list_reads :
      (g : Group)
      → Willing h
      → IsWellFormed fs
      → is_set req.user_id ≡ true
      → is_set req.group_id ≡ false
      → is_set gid ≡ true
      → get_user_groups w c h req.user_id fs ≡ some (gid ∷ [])
      → load_group_meta w c h gid fs ≡ ok g
      → is_member g req.user_id ≡ false
      → let d = group_dir c gid in
        IsRefused fs (respond (handle_group_poll w c h (record req { group_id = gid })) fs)
        × ((respond (handle_group_poll w c h req) fs).0
            ≡ record success { messages = inbox w h d (names fs d) fs })
  unfolding ◌>>=◌ handle_group_poll groups_to_poll named_group find_group respond poll_groups
      read_dir
  stale_list_reads g r v u none_named i listed l n =
      let d = group_dir c gid in
      let (b, there, _) = load_group_meta-ok w c h gid fs g l in
      let k : has_dir fs d ≡ true = has_dir-file fs d _ b there in
      (
        ground (arith, u, i, l, n),
        ground (
          arith,
          u,
          none_named,
          listed,
          k,
          r Syscall.list d,
          take_messages-inbox w h d (names fs d) [] fs (v.distinct d),
        ),
      )
