-- ===== src/Client/Talk.antt =====
-- katzenpost/cmd/zkchat/main.go: the commands send and poll.
pub mod AiAndKeys
use zknode_autonomi_alpha.Prelude.{
  Bool, true, false, Option, none, some, List, [], ◌∷◌, ◌++◌, Bytes, Result, ok, err, codes, length,
  take, ltb, ◌==◌, nat_Eq, list_Eq, if◌then◌else◌,
}
use zknode_autonomi_alpha.Hex
use zknode_autonomi_alpha.FilePath.{DirPath}
use zknode_autonomi_alpha.Files.{Files, done, fault, mkdir_all, read_file}
use zknode_autonomi_alpha.Chat.{
  Action, ◌>>=◌, ◌>>◌, pure, lift, attempt, labelled, gets, require, modify, is_set, ChatRequest,
  ChatResponse, ChatMessage,
}
use zknode_autonomi_alpha.Client.{Machine, Crypto, Mixnet, Format}
use zknode_autonomi_alpha.Client.Keys.{
  keypair_file, get_or_create_id, cfg_dir_for, load_or_create_e2e_keypair, load_e2e_pub, pub_path,
  write_path, e2e_seal, e2e_open,
}
use zknode_autonomi_alpha.Client.Service.{
  dial, send_request, send_via_bridge, deliver, find_chat_service,
}

abbrev pub blank : ChatRequest
blank = record {
  op = [];
  user_id = [];
  recipient = [];
  content = [];
  msg_type = [];
  group_id = [];
  group_name = [];
  members = [];
}

-- What parseSendFlags gives.
pub record SendFlags : Type 0 where
  pub rest : List Bytes
  pub via : Bytes
  pub e2e : Bool

abbrev pub via_flag : Bytes
via_flag = codes "--via"

abbrev pub e2e_flag : Bytes
e2e_flag = codes "--e2e"

-- The loop of parseSendFlags; --via without a value is positional.
unfoldable pub parse_flags : List Bytes → SendFlags → SendFlags
parse_flags [] f = f
parse_flags (a ∷ []) f =
    if a == e2e_flag then record f { e2e = true } else record f { rest = f.rest ++ a ∷ [] }
parse_flags (a ∷ b ∷ args) f =
    if a == via_flag
    then parse_flags args (record f { via = b })
    else parse_flags (b ∷ args)
        (if a == e2e_flag then record f { e2e = true } else record f { rest = f.rest ++ a ∷ [] })

-- parseSendFlags
unfoldable pub parse_send_flags : List Bytes → SendFlags
parse_send_flags args = parse_flags args (record { rest = []; via = []; e2e = false })

module _ (k : Crypto) where
  unfoldable pub decoded_recipient : Bytes → Option Bytes → Result Bytes
  decoded_recipient s none = ok (take 16 (k.blake2b s))
  decoded_recipient s (some b) =
      if length b == 16 then ok b else err (codes "recipient must be 16 bytes (32 hex chars)")

  -- parseRecipient
  unfoldable pub parse_recipient : Bytes → Bytes → Result Bytes
  unfolding decoded_recipient
  parse_recipient s self = if s == codes "self" then ok self else decoded_recipient s (Hex.decode s)

-- The text behind a successful request.
unfoldable pub stored_note : ChatResponse → Bytes
stored_note resp = if is_set resp.addr then codes " [Autonomi: " ++ resp.addr ++ codes "]" else []

unfoldable pub or_error : ChatResponse → Bytes → Action Bytes
or_error resp out = require resp.success (codes "Error: " ++ resp.error) >> pure out

module _ (m : Machine) (k : Crypto) (x : Mixnet) where
  -- The body of a message, sealed if that is asked for.
  unfoldable pub body_for : Bool → Bytes → Bytes → Bytes → Action Bytes
  body_for false config_path recip_hex message fs = (ok message, fs)
  body_for true config_path recip_hex message fs =
      elim (load_e2e_pub m (cfg_dir_for m config_path) recip_hex fs) [
        | none ↦ (
          err (
              codes "no E2E key for "
              ++ recip_hex
              ++ codes " — run: zkchat e2e-import "
              ++ config_path
              ++ codes " "
              ++ recip_hex
              ++ codes " <peerpub>"),
          fs,
        )
        | some peer ↦ labelled (codes "e2e seal: ") (lift (e2e_seal k m peer message)) fs
      ]

  unfoldable pub send_mesh : Bytes → Bool → Bytes → Bytes → Action Bytes
  send_mesh via e2e recip_hex message = do
    resp ← labelled (codes "bridge send failed: ") (send_via_bridge x k via recip_hex message)
    require resp.success (codes "bridge error: " ++ resp.error)
    pure (
        codes "Sent via bridge "
        ++ resp.peer
        ++ codes " to "
        ++ recip_hex
        ++ codes " ("
        ++ (if e2e then codes "e2e" else codes "cleartext")
        ++ codes ")")

  unfoldable pub send_chat : Bytes → Bytes → Bool → Bytes → Action Bytes
  send_chat user_id recip e2e message = do
    resp ← labelled (codes "send failed: ") (
        send_request x k (record blank {
          op = codes "send";
          user_id = user_id;
          recipient = recip;
          content = message;
          msg_type = if e2e then codes "mesh-e2e" else codes "text";
        }))
    or_error resp (
        codes "Sent to "
        ++ Hex.encode recip
        ++ (if e2e then codes " [e2e]" else [])
        ++ stored_note resp)

  unfoldable pub send_parsed : List Bytes → Bytes → Bool → Action Bytes
  send_parsed (config_path ∷ recip_hex ∷ message ∷ more) via e2e = do
    user_id ← get_or_create_id m config_path
    recip ← lift (parse_recipient k recip_hex user_id)
    body ← body_for e2e config_path recip_hex message
    dial x config_path
    if is_set via then send_mesh via e2e recip_hex body else send_chat user_id recip e2e body
  send_parsed args via e2e = lift (
      err (
        codes "Usage: zkchat send <config.toml> [--via <netID>] [--e2e] <recipient_hex> <message>"))

  -- cmdSend
  unfoldable pub cmd_send : List Bytes → Action Bytes
  cmd_send args = let f = parse_send_flags args in send_parsed f.rest f.via f.e2e

  -- The content and the tag of a sealed message.
  unfoldable pub opened : Bytes → Result Bytes → Bytes × Bytes
  opened sealed (ok text) = (text, codes "e2e")
  opened sealed (err e) = (codes "🔒 [unable to decrypt] " ++ sealed, codes "e2e")

  unfoldable pub unlock : ChatMessage → Option Bytes → Bytes × Bytes
  unfolding opened
  unlock msg none = (codes "🔒 [no e2e key on this client] " ++ msg.content, codes "e2e-locked")
  unlock msg (some scalar) = opened msg.content (e2e_open k scalar msg.content)

  -- The private key, from a file of 32 bytes or more.
  unfoldable pub stored_scalar : DirPath → Files → Option Bytes
  stored_scalar dir fs = elim (read_file m.host dir keypair_file fs) [
    | fault e ↦ none
    | done raw ↦ if ltb (length raw) 32 then none else some (take 32 raw)
  ]

  -- The content and the tag of a message as a poll prints it.
  unfoldable pub show_message : DirPath → ChatMessage → Action (Bytes × Bytes)
  show_message dir msg =
      if msg.kind == codes "mesh-e2e"
      then (do
        load_or_create_e2e_keypair m k dir
        scalar ← gets (stored_scalar dir)
        pure (unlock msg scalar))
      else pure (msg.content, msg.kind)

  module _ (fmt : Format) where
    unfoldable pub line_of : ChatMessage → Bytes × Bytes → Bytes
    line_of msg shown =
        codes "["
        ++ fmt.time_of_day msg.timestamp
        ++ codes "] from "
        ++ Hex.encode msg.sender
        ++ codes " ("
        ++ shown.1
        ++ codes "):\n  "
        ++ shown.0
        ++ codes "\n"

    unfoldable pub print_messages : DirPath → List ChatMessage → Bytes → Action Bytes
    print_messages dir [] out = pure out
    print_messages dir (msg ∷ msgs) out = do
      shown ← show_message dir msg
      print_messages dir msgs (out ++ line_of msg shown)

    unfoldable pub print_poll : DirPath → List ChatMessage → Action Bytes
    print_poll dir [] = pure (codes "No new messages.")
    print_poll dir (msg ∷ msgs) = print_messages dir (msg ∷ msgs) []

    -- cmdPoll
    unfoldable pub cmd_poll : List Bytes → Action Bytes
    cmd_poll [] = lift (err (codes "Usage: zkchat poll <config.toml>"))
    cmd_poll (config_path ∷ more) = do
      user_id ← get_or_create_id m config_path
      dial x config_path
      resp ←
          labelled (codes "poll failed: ")
            (send_request x k (record blank { op = codes "poll"; user_id = user_id }))
      require resp.success (codes "Error: " ++ resp.error)
      print_poll (cfg_dir_for m config_path) resp.messages
