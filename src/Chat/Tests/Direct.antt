-- ===== src/Chat/Tests/Direct.antt =====
-- chatd/main.go: direct messages, run.
use zknode_autonomi_alpha.Prelude.{
  ◌≡◌, refl, ◌&&◌, List, [], ◌∷◌, ◌++◌, Bytes, ok, codes, ◌==◌, nat_Eq, list_Eq, if◌then◌else◌,
  none, arith, All, contains, lookup, false,
}
use zknode_autonomi_alpha.Hex
use zknode_autonomi_alpha.Hex.{IsByte}
use zknode_autonomi_alpha.FilePath.{DirPath}
use zknode_autonomi_alpha.Files.{Files, file, names}
use zknode_autonomi_alpha.Files.Laws.{IsWellFormed}
use zknode_autonomi_alpha.Chat.{ChatMessage, respond, success}
use zknode_autonomi_alpha.Chat.Store.{
  user_dir, message_file, store_ant, trim_space, skip_spaces, is_space,
}
use zknode_autonomi_alpha.Chat.Direct.{new_message, recipient_of, handle_send, handle_poll}
use zknode_autonomi_alpha.Chat.Mailbox.{inbox, is_taken, handle_poll_lem}
use zknode_autonomi_alpha.Chat.Delivery.{handle_poll-handle_send, deposited, IsWellFormed-deposited}
use zknode_autonomi_alpha.Chat.Delivery.Offload.{handle_send_offloaded}
use zknode_autonomi_alpha.Chat.Mailboxes.{sent, send, poll, got, mailboxes}
use zknode_autonomi_alpha.Chat.Mailboxes.Runs.{none_yet, followed, Promises, Operations-Promises}
use zknode_autonomi_alpha.Chat.Tests.Codec.{wire, decode_message-encode_message}
use zknode_autonomi_alpha.Chat.Tests.World.{
  daemon, empty-IsWellFormed, offloading, host, later, host-Willing, later-Willing, host-bytes, bob,
  hello, look,
}

abbrev pub mailbox : Files
mailbox = deposited wire daemon host hello []

pub mailbox-IsWellFormed : IsWellFormed mailbox
mailbox-IsWellFormed = IsWellFormed-deposited wire daemon host hello [] empty-IsWellFormed

bob_receives : bob ≡ recipient_of hello
unfolding recipient_of
bob_receives = refl

-- The tool's answer, `addr`, in hex.
stored_at : (blob : Bytes) → store_ant host blob ≡ ok (codes "61646472")
unfolding store_ant trim_space skip_spaces is_space Hex.encode
stored_at blob = refl

handle_poll_lem_example :
    let d = user_dir daemon bob in
    let after = respond (handle_poll wire daemon host look) mailbox in
    (after.0 ≡ record success { messages = inbox wire host d (names mailbox d) mailbox })
    × ((p : DirPath) (m : Bytes)
        → file after.1 p m
          ≡ (if (d == p) && is_taken wire host d mailbox m then none else file mailbox p m))
handle_poll_lem_example =
    handle_poll_lem wire daemon host look mailbox refl refl mailbox-IsWellFormed

handle_poll-handle_send_example :
    let sent = respond (handle_send wire daemon host hello) [] in
    (pre post : List ChatMessage) × ((respond (handle_poll wire daemon later look) sent.1).0
      ≡ record success { messages = pre ++ new_message host hello [] ∷ post })
handle_poll-handle_send_example =
    handle_poll-handle_send wire daemon host hello [] later look refl refl refl host-Willing
      later-Willing host-bytes (decode_message-encode_message (new_message host hello []))
      bob_receives empty-IsWellFormed

handle_send_offloaded_example :
    let d = user_dir offloading (recipient_of hello) in
    let name = message_file (new_message host hello []).id in
    let sent = respond (handle_send wire offloading host hello) [] in
    (sent.0 ≡ record success { addr = codes "61646472" })
    × ((p : DirPath) (m : Bytes)
        → file sent.1 p m ≡ (if (d == p) && (name == m) then none else file [] p m))
handle_send_offloaded_example =
    handle_send_offloaded wire offloading host hello [] (codes "61646472") refl (stored_at _) refl
      refl host-Willing

bob_receives_bytes : All IsByte (recipient_of hello)
unfolding recipient_of
bob_receives_bytes = omega arith

nothing_there :
    contains
      (names [] (user_dir daemon (recipient_of hello)))
      (message_file (new_message host hello []).id)
    ≡ false
unfolding names lookup contains
nothing_there = refl

Operations-Promises_example :
    let first = (respond (handle_send wire daemon host hello) []).1 in
    let second = respond (handle_poll wire daemon later look) first in
    Promises
      (got bob second.0.messages ∷ sent (recipient_of hello) (new_message host hello []) ∷ [])
      (mailboxes wire daemon second.1)
Operations-Promises_example = Operations-Promises wire daemon refl (
    followed
      (followed none_yet (
        send host hello host-Willing host-bytes bob_receives_bytes refl refl
          (decode_message-encode_message (new_message host hello [])) nothing_there))
      (poll later look later-Willing (omega arith) refl))
