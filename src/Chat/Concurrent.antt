-- ===== src/Chat/Concurrent.antt =====
-- chatd/main.go, direct messages at the same time. OnCommand serves each request in a goroutine, and
-- nothing is locked, so the system calls of one handler come between those of the others. A step is
-- what a handler does up to and with its next change of the store, or its next look at it.
pub mod Effects
pub mod Alone
pub mod Views
pub mod Safety
pub mod NoLoss
pub mod Twice
pub mod Ending
pub mod Contents
pub mod Origins
use zknode_autonomi_alpha.Prelude.{
  set_at, ℕ, Bool, true, false, ◌≡◌, ◌≢◌, Option, none, some, List, [], ◌∷◌, ◌++◌, Bytes, Result,
  ok, err, codes, ◌==◌, nat_Eq, if◌then◌else◌,
}
use zknode_autonomi_alpha.FilePath.{DirPath}
use zknode_autonomi_alpha.Files.{
  Files, Host, IoResult, done, fault, not_exist, refused, file, put_file, mkdir_all, write_file,
  read_dir, remove,
}
use zknode_autonomi_alpha.Chat.{
  Chatd, Wire, ChatMessage, ChatRequest, ChatResponse, Action, ◌>>=◌, ◌>>◌, attempt, require,
  is_set, success, no_response, response_of,
}
use zknode_autonomi_alpha.Chat.Store.{user_dir, message_file, new_id}
use zknode_autonomi_alpha.Chat.Direct.{new_message, recipient_of, offload, readable}

-- How far handleSend is: nothing done, the mailbox is there, the file is there and empty, the
-- message is in it.
pub data Stage : Type 0 where
  fresh made created written : Stage

-- Where a handler stands. `send_at` and `sent` are handleSend. `list_next`, `read_next` and
-- `remove_next` are handlePoll before the listing, before the next of the entries that are left, and
-- between the reading of a file, whose message is the last of the list, and its removal.
pub data Handler : Type 0 where
  idle : Handler
  send_at : Stage → Host → ChatRequest → Handler
  sent : Host → ChatRequest → ChatResponse → Handler
  list_next : Host → ChatRequest → Handler
  read_next : Host → ChatRequest → DirPath → List Bytes → List ChatMessage → Handler
  remove_next : Host → ChatRequest → DirPath → Bytes → List Bytes → List ChatMessage → Handler
  polled : ChatRequest → DirPath → ChatResponse → Handler

-- The mailbox and the name of the message that a handleSend writes.
unfoldable pub mailbox_of : Chatd → ChatRequest → DirPath
mailbox_of c req = user_dir c (recipient_of req)

unfoldable pub name_of : Host → Bytes
name_of h = message_file (new_id h)

-- The write(2) of os.WriteFile on the file that it has opened: a file that was removed in between
-- does not come back.
unfoldable pub fill : DirPath → Bytes → Bytes → Files → Files
fill d n b fs = elim (file fs d n) [ none ↦ fs | some _ ↦ put_file d n b fs ]

-- handleSend up to os.MkdirAll
unfoldable pub send_begins : Chatd → Host → ChatRequest → Action (Unit {0})
unfolding mailbox_of
send_begins c h req = do
  require (is_set req.user_id) (codes "user_id required")
  require (is_set req.content) (codes "content required")
  attempt h (codes "mkdir: ") (mkdir_all h (mailbox_of c req))

unfoldable pub blob_of : Wire → Host → ChatRequest → Bytes
blob_of w h req = w.encode_message (new_message h req [])

-- The handler goes on, or ends with its error.
unfoldable pub go_on : Stage → Host → ChatRequest → Result (Unit {0}) → Handler
go_on stage h req (ok _) = send_at stage h req
go_on stage h req (err e) = sent h req (record no_response { error = e })

unfoldable pub listed : Host → ChatRequest → DirPath → IoResult (List Bytes) → Handler
listed h req d (done entries) = read_next h req d entries []
listed h req d (fault not_exist) = polled req d success
listed h req d (fault (refused e)) =
    polled req d (record no_response { error = codes "readdir: " ++ h.describe (refused e) })

unfoldable pub opened :
    Host
    → ChatRequest
    → DirPath
    → Bytes
    → List Bytes
    → List ChatMessage
    → Option ChatMessage
    → Handler
opened h req d name rest msgs none = read_next h req d rest msgs
opened h req d name rest msgs (some msg) = remove_next h req d name rest (msgs ++ msg ∷ [])

unfoldable pub begin_poll : Chatd → Host → ChatRequest → Files → Handler
unfolding listed
begin_poll c h req fs =
    if is_set req.user_id
    then listed h req (user_dir c req.user_id) (read_dir h (user_dir c req.user_id) fs)
    else polled req (user_dir c req.user_id)
        (record no_response { error = codes "user_id required" })

module _ (w : Wire) (c : Chatd) where
  -- One step of a handler.
  unfoldable pub advance : Handler → Files → Handler × Files
  unfolding go_on opened begin_poll
  advance idle fs = (idle, fs)
  advance (send_at fresh h req) fs =
      let (outcome, fs') = send_begins c h req fs in (go_on made h req outcome, fs')
  advance (send_at made h req) fs =
      let (outcome, fs') =
        attempt h (codes "write: ") (write_file h (mailbox_of c req) (name_of h) []) fs in
      (go_on created h req outcome, fs')
  advance (send_at created h req) fs =
      (send_at written h req, fill (mailbox_of c req) (name_of h) (blob_of w h req) fs)
  advance (send_at written h req) fs =
      let (outcome, fs') = offload c h (mailbox_of c req) (new_id h) (blob_of w h req) fs in
      (sent h req (response_of outcome), fs')
  advance (sent h req response) fs = (sent h req response, fs)
  advance (list_next h req) fs = (begin_poll c h req fs, fs)
  advance (read_next h req d [] msgs) fs = (polled req d (record success { messages = msgs }), fs)
  advance (read_next h req d (name ∷ rest) msgs) fs =
      (opened h req d name rest msgs (readable w h d name fs), fs)
  advance (remove_next h req d name rest msgs) fs =
      (read_next h req d rest msgs, remove h d name fs)
  advance (polled req d response) fs = (polled req d response, fs)

-- The goroutines and the store that they share.
pub record Running : Type 0 where
  pub jobs : ℕ → Handler
  pub files : Files

-- The goroutine `i` moves.
unfoldable pub move : Wire → Chatd → ℕ → Running → Running
unfolding set_at
move w c i s =
    let (job, fs) = advance w c (s.jobs i) s.files in
    record { jobs = set_at i job s.jobs; files = fs }

abbrev pub FileName : Type 0
FileName = DirPath × Bytes

abbrev pub the_file : DirPath → Bytes → Option FileName
the_file d n = some (d, n)

-- What a handleSend goes by, the file that it writes, and the one that a handlePoll is about to remove.
unfoldable pub sender : Handler → Option (Host × ChatRequest)
sender idle = none
sender (send_at stage h req) = some (h, req)
sender (sent h req response) = some (h, req)
sender (list_next h req) = none
sender (read_next h req d names msgs) = none
sender (remove_next h req d name names msgs) = none
sender (polled req d response) = none

unfoldable pub target : Chatd → Handler → Option FileName
unfolding sender
target c job = elim (sender job) [
  | none ↦ none
  | some (h, req) ↦ the_file (mailbox_of c req) (name_of h)
]

unfoldable pub pending : Handler → Option FileName
pending idle = none
pending (send_at stage h req) = none
pending (sent h req response) = none
pending (list_next h req) = none
pending (read_next h req d names msgs) = none
pending (remove_next h req d name names msgs) = the_file d name
pending (polled req d response) = none

-- The content that the file of a handleSend has, as long as nobody takes it.
unfoldable pub expected : Wire → Handler → Option Bytes
expected w idle = none
expected w (send_at fresh h req) = none
expected w (send_at made h req) = none
expected w (send_at created h req) = some []
expected w (send_at written h req) = some (blob_of w h req)
expected w (sent h req response) = if response.success then some (blob_of w h req) else none
expected w (list_next h req) = none
expected w (read_next h req d names msgs) = none
expected w (remove_next h req d name names msgs) = none
expected w (polled req d response) = none

-- The messages that a handlePoll has read so far, or returned.
unfoldable pub taken : Handler → List ChatMessage
taken idle = []
taken (send_at stage h req) = []
taken (sent h req response) = []
taken (list_next h req) = []
taken (read_next h req d names msgs) = msgs
taken (remove_next h req d name names msgs) = msgs
taken (polled req d response) = response.messages

-- The request that a handlePoll answers.
unfoldable pub poller : Handler → Option ChatRequest
poller idle = none
poller (send_at stage h req) = none
poller (sent h req response) = none
poller (list_next h req) = some req
poller (read_next h req d names msgs) = some req
poller (remove_next h req d name names msgs) = some req
poller (polled req d response) = some req

-- The mailbox that a handlePoll goes through.
unfoldable pub box : Handler → Option DirPath
box idle = none
box (send_at stage h req) = none
box (sent h req response) = none
box (list_next h req) = none
box (read_next h req d names msgs) = some d
box (remove_next h req d name names msgs) = some d
box (polled req d response) = some d

-- A message ID that nobody uses: no file has its name, and no handler writes or removes such a file.
abbrev pub Unused : Chatd → DirPath → Bytes → Running → Type 0
Unused c d n s =
    (file s.files d n ≡ none)
    × ((j : ℕ) → (target c (s.jobs j) ≢ the_file d n) × (pending (s.jobs j) ≢ the_file d n))

-- What OnCommand and the scheduler can bring about from a store. A send draws an ID that is unused,
-- which its sixteen random bytes stand for.
pub data Reach (w : Wire) (c : Chatd) (fs : Files) : Running → Type 0 where
  start : Reach w c fs (record { jobs = λ i. idle; files = fs })
  arrive_send :
      (i : ℕ) (h : Host) (req : ChatRequest) (s : Running)
      → Reach w c fs s
      → s.jobs i ≡ idle
      → Unused c (mailbox_of c req) (name_of h) s
      → Reach w c fs (record s { jobs = set_at i (send_at fresh h req) s.jobs })
  arrive_poll :
      (i : ℕ) (h : Host) (req : ChatRequest) (s : Running)
      → Reach w c fs s
      → s.jobs i ≡ idle
      → Reach w c fs (record s { jobs = set_at i (list_next h req) s.jobs })
  moved : (i : ℕ) (s : Running) → Reach w c fs s → Reach w c fs (move w c i s)
