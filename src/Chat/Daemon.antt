-- ===== src/Chat/Daemon.antt =====
-- katzenpost/cmd/chatd/main.go: OnCommand and process, which hand a request to its handler.
use zknode_autonomi_alpha.Prelude.{
  ◌&&◌, Option, none, some, ◌++◌, Bytes, Result, ok, err, codes, ◌==◌, nat_Eq, list_Eq,
  if◌then◌else◌,
}
use zknode_autonomi_alpha.FilePath.{DirPath}
use zknode_autonomi_alpha.Files.{Files, Host}
use zknode_autonomi_alpha.Chat.{
  Chatd, Wire, ChatRequest, ChatResponse, is_set, no_response, respond,
}
use zknode_autonomi_alpha.Chat.Direct.{handle_send, handle_ai, handle_poll}
use zknode_autonomi_alpha.Chat.Groups.{
  handle_group_create, handle_group_send, handle_group_poll, handle_group_invite,
  handle_group_leave, handle_group_list,
}

-- What a request leaves behind: the response, the directory for which processGroupAI was started,
-- and the files.
pub record Outcome : Type 0 where
  pub response : ChatResponse
  pub ai_job : Option DirPath
  pub files : Files

-- The operation that a request names.
pub data Op : Type 0 where
  send ask_ai poll group_create group_send group_poll group_invite group_leave group_list : Op

module _ (c : Chatd) where
  -- switch chatReq.Op
  unfoldable pub op_of : ChatRequest → Option Op
  op_of req =
      let is = λ (s : Bytes). req.op == s in
      if is (codes "send")
      then if req.msg_type == codes "ai" && is_set c.fae_address then some ask_ai else some send
      else if is (codes "poll")
      then some poll
      else if is (codes "group_create")
      then some group_create
      else if is (codes "group_send")
      then some group_send
      else if is (codes "group_poll")
      then some group_poll
      else if is (codes "group_invite")
      then some group_invite
      else if is (codes "group_leave")
      then some group_leave
      else if is (codes "group_list")
      then some group_list
      else none

abbrev pub plain : ChatResponse × Files → Outcome
plain r = record { response = r.0; ai_job = none; files = r.1 }

job_response : Result (ChatResponse × Option DirPath) → ChatResponse × Option DirPath
job_response (ok r) = r
job_response (err e) = (record no_response { error = e }, none)

abbrev pub with_job : Result (ChatResponse × Option DirPath) × Files → Outcome
unfolding job_response
with_job r = record { response = (job_response r.0).0; ai_job = (job_response r.0).1; files = r.1 }

-- cborplugin.Command: a request, or any other command.
pub data Command : Type 0 where
  request : Bytes → Bytes → Bytes → Command
  other : Command

-- cborplugin.Response, with the ID and the SURB of its request.
pub record Reply : Type 0 where
  pub id : Bytes
  pub surb : Bytes
  pub payload : Bytes

module _ (w : Wire) (c : Chatd) (h : Host) where
  unfoldable pub dispatch : Option Op → ChatRequest → Files → Outcome
  unfolding job_response
  dispatch (some send) req fs = plain (respond (handle_send w c h req) fs)
  dispatch (some ask_ai) req fs = plain (respond (handle_ai w c h req) fs)
  dispatch (some poll) req fs = plain (respond (handle_poll w c h req) fs)
  dispatch (some group_create) req fs = plain (respond (handle_group_create w c h req) fs)
  dispatch (some group_send) req fs = with_job (handle_group_send w c h req fs)
  dispatch (some group_poll) req fs = plain (respond (handle_group_poll w c h req) fs)
  dispatch (some group_invite) req fs = plain (respond (handle_group_invite w c h req) fs)
  dispatch (some group_leave) req fs = plain (respond (handle_group_leave w c h req) fs)
  dispatch (some group_list) req fs = plain (respond (handle_group_list w c h req) fs)
  dispatch none req fs = plain (record no_response { error = codes "unknown op: " ++ req.op }, fs)

  -- A decoded request.
  unfoldable pub serve : ChatRequest → Files → Outcome
  serve req fs = dispatch (op_of c req) req fs

  unfoldable pub serve_decoded : Result ChatRequest → Files → Outcome
  serve_decoded (err e) fs = plain (record no_response { error = codes "decode: " ++ e }, fs)
  serve_decoded (ok req) fs = serve req fs

  -- process: the outcome, and the payload, or a panic where the response cannot be encoded
  unfoldable pub process : Bytes → Files → Outcome × Option Bytes
  unfolding serve_decoded
  process payload fs =
      let out = serve_decoded (w.decode_request payload) fs in (out, w.encode_response out.response)

  answer : Bytes → Bytes → Option Bytes → Option Reply
  answer id surb none = none
  answer id surb (some payload) = some (record { id = id; surb = surb; payload = payload })

  -- OnCommand with the goroutine that it starts: the reply that is written, none if it panics
  unfoldable pub on_command : Command → Files → Result (Option Reply) × Files
  unfolding answer
  on_command (request id surb payload) fs =
      let (out, bytes) = process payload fs in (ok (answer id surb bytes), out.files)
  on_command other fs = (err (codes "chatd: invalid command type"), fs)
