-- ===== src/Conversation.antt =====
-- katzenpost/cmd/zkchat/main.go and katzenpost/cmd/chatd/main.go together: commands of the client that the
-- mixnet carries to the daemon and back. Arrival is the daemon's part, Commands the client's; Plain and
-- Sealed are a message from one user's command to another user's screen.
pub mod Arrival
pub mod Commands
pub mod Plain
pub mod Sealed
mod Tests
use zknode_autonomi_alpha.Prelude.{
  Bool, ◌≡◌, refl, ap, ◌∙◌, sym, subst, true, false, Option, some, List, [], ◌∷◌, ◌++◌,
  append_assoc, append-nil, Bytes, Result, ok, codes, ◌==◌, nat_Eq, list_Eq, list_eq, arith, All,
  All-append, contains, if◌then◌else◌,
}
use zknode_autonomi_alpha.Hex
use zknode_autonomi_alpha.Hex.{IsByte}
use zknode_autonomi_alpha.FilePath.{DirPath}
use zknode_autonomi_alpha.Files.{Files, Host, Syscall, names}
use zknode_autonomi_alpha.Files.Laws.{IsWellFormed}
use zknode_autonomi_alpha.Chat.{
  Wire, Chatd, ChatMessage, ChatRequest, ChatResponse, ◌>>=◌, is_set, respond, success,
}
use zknode_autonomi_alpha.Chat.Store.{user_dir, message_file}
use zknode_autonomi_alpha.Chat.Direct.{new_message, recipient_of, handle_send, handle_poll}
use zknode_autonomi_alpha.Chat.Daemon.{process, serve, serve_decoded, plain, op_of, dispatch}
use zknode_autonomi_alpha.Chat.Mailbox.{Willing, handle_poll_lem}
use zknode_autonomi_alpha.Chat.Delivery.{
  Survives, deposited, handle_send_local, IsWellFormed-deposited,
}
use zknode_autonomi_alpha.Chat.Mailboxes.{mailboxes, deposit-Inserted, poll-messages}
use zknode_autonomi_alpha.Chat.Letters.{Inserted, inbox-letters}
use zknode_autonomi_alpha.Client.{Machine, Crypto, Mixnet, Format, ServiceDescriptor}
use zknode_autonomi_alpha.Client.Keys.{get_or_create_id, cfg_dir_for}
use zknode_autonomi_alpha.Client.Service.{find_chat_service, send_request, dial, deliver}
use zknode_autonomi_alpha.Client.Talk.{
  blank, parse_send_flags, parse_recipient, cmd_send, cmd_poll, send_parsed, send_chat, body_for,
  or_error, stored_note, line_of, show_message, print_messages, print_poll,
}
use zknode_autonomi_alpha.Client.Flags.{IsPositional, parse_flags-positional}

-- The mixnet carries a request to the daemon with these files, and the reply back: the service is
-- found, and CBOR gives the request and the response back.
pub record Carries (w : Wire) (c : Chatd) (h : Host) (k : Crypto) (x : Mixnet) (req : ChatRequest)
    (ds : Files) : Type 0 where
  pub service : ServiceDescriptor
  pub found : find_chat_service x ≡ ok service
  pub understood : w.decode_request (x.encode_request req) ≡ ok req
  pub reply : Bytes
  pub answered : (process w c h (x.encode_request req) ds).1 ≡ some reply
  pub carried :
      x.send_message (x.encode_request req) (k.blake2b service.identity_key) service.queue
      ≡ ok reply
  pub read : x.decode_response reply ≡ (process w c h (x.encode_request req) ds).0.response

-- What cmdSend and cmdPoll ask for.
abbrev pub letter : Bool → Bytes → Bytes → Bytes → ChatRequest
letter e2e sender recipient text = record blank {
  op = codes "send";
  user_id = sender;
  recipient = recipient;
  content = text;
  msg_type = if e2e then codes "mesh-e2e" else codes "text";
}

abbrev pub look_up : Bytes → ChatRequest
look_up user = record blank { op = codes "poll"; user_id = user }

-- A message that is not sealed.
abbrev pub IsPlain : ChatMessage → Type 0
IsPlain msg = (msg.kind == codes "mesh-e2e") ≡ false
