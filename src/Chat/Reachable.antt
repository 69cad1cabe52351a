-- ===== src/Chat/Reachable.antt =====
-- chatd/main.go: the stores that the daemon can reach, as a relation: requests are served and AI
-- jobs run in any order, each on a host of its own.
use zknode_autonomi_alpha.Prelude.{Option, none, some, [], Bytes, All, ok, Result, err, lookup}
use zknode_autonomi_alpha.Hex.{IsByte}
use zknode_autonomi_alpha.FilePath.{DirPath}
use zknode_autonomi_alpha.Files.{Files, Host, file, names}
use zknode_autonomi_alpha.Chat.{Chatd, Wire, ChatRequest, respond}
use zknode_autonomi_alpha.Chat.Daemon.{Op, dispatch, serve, op_of, process, serve_decoded}
use zknode_autonomi_alpha.Chat.Daemon.{
  send, ask_ai, poll, group_create, group_send, group_poll, group_invite, group_leave, group_list,
}
use zknode_autonomi_alpha.Chat.Groups.{process_group_ai}
use zknode_autonomi_alpha.Chat.Invariant.{KeepsMembers, Inv}
use zknode_autonomi_alpha.Chat.Keeps.{handle_poll-Keeps, handle_send-Keeps, handle_ai-Keeps}
use zknode_autonomi_alpha.Chat.Keeps.Groups.{
  handle_group_create-Keeps, handle_group_send-Keeps, handle_group_poll-Keeps,
  handle_group_invite-Keeps, handle_group_leave-Keeps, handle_group_list-Keeps,
  process_group_ai-Keeps,
}

-- One request, or one AI job.
pub data Step (w : Wire) (c : Chatd) (fs : Files) : Files → Type 0 where
  served :
      (h : Host) (payload : Bytes)
      → All IsByte h.random
      → Step w c fs (process w c h payload fs).0.files
  answered :
      (h : Host) (req : ChatRequest) (dir : DirPath)
      → All IsByte h.random
      → Step w c fs (process_group_ai w c h req dir fs).1

pub data Reach (w : Wire) (c : Chatd) : Files → Type 0 where
  start : Reach w c []
  next : {fs fs' : Files} → Reach w c fs → Step w c fs fs' → Reach w c fs'

module _ (w : Wire) (law : KeepsMembers w) (c : Chatd) (h : Host)
    (bytes : All IsByte h.random) where
  dispatch-Inv :
      (op : Option Op) (req : ChatRequest) (fs : Files)
      → Inv w fs
      → Inv w (dispatch w c h op req fs).files
  unfolding dispatch respond
  dispatch-Inv (some send) req fs v = (handle_send-Keeps w law c h bytes req).keeps fs v
  dispatch-Inv (some ask_ai) req fs v = (handle_ai-Keeps w law c h bytes req).keeps fs v
  dispatch-Inv (some poll) req fs v = (handle_poll-Keeps w law c h bytes req).keeps fs v
  dispatch-Inv (some group_create) req fs v =
      (handle_group_create-Keeps w law c h bytes req).keeps fs v
  dispatch-Inv (some group_send) req fs v = (handle_group_send-Keeps w law c h bytes req).keeps fs v
  dispatch-Inv (some group_poll) req fs v = (handle_group_poll-Keeps w law c h bytes req).keeps fs v
  dispatch-Inv (some group_invite) req fs v =
      (handle_group_invite-Keeps w law c h bytes req).keeps fs v
  dispatch-Inv (some group_leave) req fs v =
      (handle_group_leave-Keeps w law c h bytes req).keeps fs v
  dispatch-Inv (some group_list) req fs v = (handle_group_list-Keeps w law c h bytes req).keeps fs v
  dispatch-Inv none req fs v = v

  serve_decoded-Inv :
      (r : Result ChatRequest) (fs : Files) → Inv w fs → Inv w (serve_decoded w c h r fs).files
  unfolding serve_decoded serve
  serve_decoded-Inv (ok req) fs v = dispatch-Inv (op_of c req) req fs v
  serve_decoded-Inv (err e) fs v = v

  pub process-Inv :
      (payload : Bytes) (fs : Files) → Inv w fs → Inv w (process w c h payload fs).0.files
  unfolding process
  process-Inv payload fs v = serve_decoded-Inv (w.decode_request payload) fs v

module _ (w : Wire) (law : KeepsMembers w) (c : Chatd) where
  Step-Inv : {fs fs' : Files} → Step w c fs fs' → Inv w fs → Inv w fs'
  Step-Inv (served h payload bytes) v = process-Inv w law c h bytes payload _ v
  Step-Inv (answered h req dir bytes) v = (process_group_ai-Keeps w law c h bytes req dir).keeps _ v

  -- In every store that requests and AI jobs can produce from the empty one, whatever payloads
  -- arrive and whichever calls the hosts refuse, each directory names each of its files once and
  -- every group that loads is owned by one of its members; the JSON library is taken to give owners
  -- and members back.
  pub Reach-Inv : {fs : Files} → Reach w c fs → Inv w fs
  unfolding file names lookup
  Reach-Inv start = record {
    formed = record { distinct = λ p. tt };
    owned = λ p b g e. absurd (cc);
  }
  Reach-Inv (next r s) = Step-Inv s (Reach-Inv r)
