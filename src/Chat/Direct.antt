-- ===== src/Chat/Direct.antt =====
-- katzenpost/cmd/chatd/main.go: direct messages, the polling of a directory, and the AI request.
use zknode_autonomi_alpha.Prelude.{
  Option, none, some, List, [], ◌∷◌, ◌++◌, Bytes, Result, ok, err, codes, ◌==◌, nat_Eq, list_Eq,
  if◌then◌else◌,
}
use zknode_autonomi_alpha.FilePath.{DirPath, ext}
use zknode_autonomi_alpha.Files.{
  Files, Host, IoResult, done, fault, not_exist, refused, mkdir_all, write_file, read_file,
  read_dir, remove,
}
use zknode_autonomi_alpha.Chat.{
  Chatd, Wire, ChatMessage, ChatRequest, ChatResponse, Action, ◌>>=◌, ◌>>◌, attempt, lift, require,
  gets, is_set, success,
}
use zknode_autonomi_alpha.Chat.Store.{user_dir, message_file, new_id, store_ant}

-- The ChatMessage that handleSend and handleGroupSend build; a direct message has no group.
unfoldable pub new_message : Host → ChatRequest → Bytes → ChatMessage
new_message h req group_id = record {
  id = new_id h;
  sender = req.user_id;
  content = req.content;
  kind = req.msg_type;
  timestamp = h.now_ms;
  group_id = group_id;
}

-- recipient := req.Recipient, or the sender's own mailbox
unfoldable pub recipient_of : ChatRequest → Bytes
recipient_of req = if is_set req.recipient then req.recipient else req.user_id

module _ (c : Chatd) (h : Host) where
  -- What handleSend does behind the write: the chunk is stored in Autonomi and the file removed.
  unfoldable pub offload : DirPath → Bytes → Bytes → Action ChatResponse
  offload dir id blob fs =
      if c.use_ant
      then elim (store_ant h blob) [
        | err e ↦ (ok success, fs)
        | ok addr ↦ (ok (record success { addr = addr }), remove h dir (message_file id) fs)
      ]
      else (ok success, fs)

module _ (w : Wire) (h : Host) where
  -- The message in a file, unless it is no .msg file, cannot be read or does not decode.
  unfoldable pub readable : DirPath → Bytes → Files → Option ChatMessage
  readable dir name fs =
      if ext name == codes ".msg"
      then elim (read_file h dir name fs) [ fault e ↦ none | done blob ↦ w.decode_message blob ]
      else none

  -- for _, e := range entries { … } of handlePoll and handleGroupPoll, where `msgs` were read so far
  unfoldable pub take_messages :
      DirPath → List Bytes → List ChatMessage → Files → List ChatMessage × Files
  take_messages dir [] msgs fs = (msgs, fs)
  take_messages dir (name ∷ rest) msgs fs = elim (readable dir name fs) [
    | none ↦ take_messages dir rest msgs fs
    | some msg ↦ take_messages dir rest (msgs ++ msg ∷ []) (remove h dir name fs)
  ]

module _ (w : Wire) (c : Chatd) (h : Host) where
  -- handleSend
  unfoldable pub handle_send : ChatRequest → Action ChatResponse
  handle_send req = do
    require (is_set req.user_id) (codes "user_id required")
    require (is_set req.content) (codes "content required")
    let msg = new_message h req []
    let dir = user_dir c (recipient_of req)
    attempt h (codes "mkdir: ") (mkdir_all h dir)
    attempt h (codes "write: ") (write_file h dir (message_file msg.id) (w.encode_message msg))
    offload c h dir msg.id (w.encode_message msg)

  unfoldable pub poll_entries : DirPath → IoResult (List Bytes) → Action ChatResponse
  poll_entries dir (done entries) fs =
      let (msgs, fs') = take_messages w h dir entries [] fs in
      (ok (record success { messages = msgs }), fs')
  poll_entries dir (fault not_exist) fs = (ok success, fs)
  poll_entries dir (fault (refused e)) fs = (err (codes "readdir: " ++ h.describe (refused e)), fs)

  -- handlePoll
  unfoldable pub handle_poll : ChatRequest → Action ChatResponse
  unfolding poll_entries
  handle_poll req = do
    require (is_set req.user_id) (codes "user_id required")
    let dir = user_dir c req.user_id
    entries ← gets (read_dir h dir)
    poll_entries dir entries

  -- mustJSONString
  unfoldable pub must_json_string : Bytes → Bytes
  must_json_string s = elim (w.encode_text s) [ none ↦ codes "\"\"" | some t ↦ t ]

  -- The body and the URL of the completion request.
  unfoldable pub completion_body : Bytes → Bytes
  completion_body content =
      codes "{\"model\":\""
      ++ c.fae_model
      ++ codes
          "\",\"messages\":[{\"role\":\"system\",\"content\":\"You are a helpful AI assistant. Reply concisely and accurately.\"},{\"role\":\"user\",\"content\":"
      ++ must_json_string content
      ++ codes "}],\"max_tokens\":1024,\"temperature\":0.7}"

  unfoldable pub completion_url : Bytes
  completion_url = codes "http://" ++ c.fae_address ++ codes "/v1/chat/completions"

  unfoldable pub completion : Result (Result Bytes) → Result ChatResponse
  completion (err e) = err (codes "fae request: " ++ e)
  completion (ok (err e)) = err (codes "fae response: " ++ e)
  completion (ok (ok body)) = ok (record success { addr = body })

  -- handleAI
  unfoldable pub handle_ai : ChatRequest → Action ChatResponse
  unfolding completion
  handle_ai req = do
    require (is_set req.content) (codes "content required")
    lift (completion (h.post completion_url (completion_body req.content)))
