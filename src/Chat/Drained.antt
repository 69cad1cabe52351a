-- ===== src/Chat/Drained.antt =====
-- chatd/main.go, handlePoll: a poll leaves nothing for the next.
use zknode_autonomi_alpha.Prelude.{
  true, ◌≡◌, ◌∙◌, none, ◌∷◌, Bytes, nat_Eq, list_Eq, arith, ==_refl,
}
use zknode_autonomi_alpha.Files.{Files, Host, Syscall, names, read_file}
use zknode_autonomi_alpha.Files.Laws.{removable, IsWellFormed}
use zknode_autonomi_alpha.Chat.{Chatd, Wire, ChatRequest, is_set, success, respond}
use zknode_autonomi_alpha.Chat.Direct.{readable, handle_poll}
use zknode_autonomi_alpha.Chat.Store.{user_dir}
use zknode_autonomi_alpha.Chat.Mailbox.{
  is_taken, Willing, handle_poll_lem, handle_poll-IsWellFormed,
}
use zknode_autonomi_alpha.Chat.Delivery.{inbox-nil}

module _ (w : Wire) (c : Chatd) (h : Host) (q : ChatRequest) (fs : Files) where
  pub drained :
      (h' : Host)
      → is_set q.user_id ≡ true
      → Willing h
      → IsWellFormed fs
      → let d = user_dir c q.user_id in
        (n : Bytes) → readable w h' d n (respond (handle_poll w c h q) fs).1 ≡ none
  unfolding readable read_file is_taken removable
  drained h' u r v n =
      let d = user_dir c q.user_id in
      ground (
        arith,
        (handle_poll_lem w c h q fs u (r Syscall.list d) v).1 d n,
        ==_refl d,
        r Syscall.unlink (n ∷ d),
        r Syscall.read (n ∷ d),
      )

  -- A poll by a named user drains the mailbox: on a host that refuses nothing, with each file named
  -- once, what one poll leaves holds no message for the next, on any host that can list the mailbox.
  pub handle_poll_twice :
      (h' : Host)
      → is_set q.user_id ≡ true
      → Willing h
      → h'.refuses Syscall.list (user_dir c q.user_id) ≡ none
      → IsWellFormed fs
      → (respond (handle_poll w c h' q) (respond (handle_poll w c h q) fs).1).0 ≡ success
  handle_poll_twice h' u r l v =
      let d = user_dir c q.user_id in
      let after = (respond (handle_poll w c h q) fs).1 in
      let listed = r Syscall.list d in
      (handle_poll_lem w c h' q after u l (handle_poll-IsWellFormed w c h q fs u listed v)).0
      ∙ rw (inbox-nil w h' d (names after d) after (drained h' u r v))
