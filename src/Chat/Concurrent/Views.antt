-- ===== src/Chat/Concurrent/Views.antt =====
-- chatd/main.go, direct messages at the same time: what a step of a handler does to what the handler has
-- taken, and to what it is about to do.
use zknode_autonomi_alpha.Prelude.{
  ◌≡◌, refl, ap, ◌∙◌, sym, none, some, List, [], ◌∷◌, ◌++◌, append-nil, ◌⊎◌, Bytes, Result, ok, err,
  codes, nat_Eq, list_Eq, arith, inl, inr, Option-cases, Bool-cases,
}
use zknode_autonomi_alpha.FilePath.{DirPath}
use zknode_autonomi_alpha.Files.{
  Files, Host, IoResult, Syscall, done, fault, not_exist, refused, file, read_file, read_dir,
}
use zknode_autonomi_alpha.Chat.{
  Chatd, Wire, ChatMessage, ChatRequest, ChatResponse, is_set, success, no_response,
}
use zknode_autonomi_alpha.Chat.Direct.{readable}
use zknode_autonomi_alpha.Chat.Store.{user_dir}
use zknode_autonomi_alpha.Chat.Concurrent.{
  Handler, Stage, idle, send_at, sent, list_next, read_next, remove_next, polled, fresh, made,
  created, written, advance, the_file, sender, target, pending, send_begins, go_on, begin_poll,
  listed, opened, taken, box, poller,
}
use zknode_autonomi_alpha.Chat.Concurrent.Effects.{named_both}

listed-cases :
    (h : Host) (req : ChatRequest) (d : DirPath) (entries : IoResult (List Bytes))
    → ((names : List Bytes) × (listed h req d entries ≡ read_next h req d names []))
      ⊎ ((response : ChatResponse) × (listed h req d entries ≡ polled req d response)
          × (response.messages ≡ []))
unfolding listed
listed-cases h req d (done names) = inl (names, refl)
listed-cases h req d (fault not_exist) = inr (success, refl, refl)
listed-cases h req d (fault (refused e)) =
    inr (record no_response { error = codes "readdir: " ++ h.describe (refused e) }, refl, refl)

-- After the listing, a handlePoll goes through the entries or is done.
pub begin_poll-cases :
    (c : Chatd) (h : Host) (req : ChatRequest) (fs : Files)
    → ((names : List Bytes) × (begin_poll c h req fs
          ≡ read_next h req (user_dir c req.user_id) names []))
      ⊎ ((response : ChatResponse) × (begin_poll c h req fs
            ≡ polled req (user_dir c req.user_id) response)
          × (response.messages ≡ []))
unfolding begin_poll
begin_poll-cases c h req fs = elim (Bool-cases (is_set req.user_id)) [
  | inl e ↦
      rw (e, begin_poll)
        (listed-cases h req (user_dir c req.user_id) (read_dir h (user_dir c req.user_id) fs))
  | inr e ↦ inr (record no_response { error = codes "user_id required" }, rw (e, begin_poll), refl)
]

pub go_on-sender :
    (stage : Stage) (h : Host) (req : ChatRequest) (outcome : Result (Unit {0}))
    → sender (go_on stage h req outcome) ≡ some (h, req)
unfolding sender go_on
go_on-sender stage h req (ok u) = refl
go_on-sender stage h req (err e) = refl

-- A handler keeps what it goes by.
pub advance-sender :
    (w : Wire) (c : Chatd) (job : Handler) (fs : Files) → sender (advance w c job fs).0 ≡ sender job
unfolding advance sender opened
advance-sender w c idle fs = refl
advance-sender w c (send_at fresh h req) fs = go_on-sender made h req (send_begins c h req fs).0
advance-sender w c (send_at made h req) fs = go_on-sender created h req _
advance-sender w c (send_at created h req) fs = refl
advance-sender w c (send_at written h req) fs = refl
advance-sender w c (sent h req response) fs = refl
advance-sender w c (list_next h req) fs = elim (begin_poll-cases c h req fs) [
  | inl (ns, e) ↦ rw (e, sender)
  | inr (r, e, _) ↦ rw (e, sender)
]
advance-sender w c (read_next h req d [] msgs) fs = refl
advance-sender w c (read_next h req d (name ∷ rest) msgs) fs =
    elim (Option-cases (readable w h d name fs)) [
      | inl e ↦ rw (e, opened, sender)
      | inr (msg, e) ↦ rw (e, opened, sender)
    ]
advance-sender w c (remove_next h req d n ns msgs) fs = refl
advance-sender w c (polled req d response) fs = refl

pub advance-target :
    (w : Wire) (c : Chatd) (job : Handler) (fs : Files)
    → target c (advance w c job fs).0 ≡ target c job
unfolding target
advance-target w c job fs = rw (advance-sender w c job fs, target) refl

pub go_on-taken :
    (stage : Stage) (h : Host) (req : ChatRequest) (outcome : Result (Unit {0}))
    → (taken (go_on stage h req outcome) ≡ []) × (pending (go_on stage h req outcome) ≡ none)
unfolding taken pending go_on
go_on-taken stage h req (ok u) = (refl, refl)
go_on-taken stage h req (err e) = (refl, refl)

-- What has been taken stays taken, in its order.
pub advance-taken :
    (w : Wire) (c : Chatd) (job : Handler) (fs : Files)
    → (more : List ChatMessage) × (taken (advance w c job fs).0 ≡ taken job ++ more)
unfolding advance taken opened
advance-taken w c idle fs = ([], refl)
advance-taken w c (send_at fresh h req) fs =
    ([], (go_on-taken made h req (send_begins c h req fs).0).0)
advance-taken w c (send_at made h req) fs = ([], (go_on-taken created h req _).0)
advance-taken w c (send_at created h req) fs = ([], refl)
advance-taken w c (send_at written h req) fs = ([], refl)
advance-taken w c (sent h req response) fs = ([], refl)
advance-taken w c (list_next h req) fs = (taken (begin_poll c h req fs), refl)
advance-taken w c (read_next h req d [] msgs) fs = ([], sym (append-nil msgs))
advance-taken w c (read_next h req d (name ∷ rest) msgs) fs =
    elim (Option-cases (readable w h d name fs)) [
      | inl e ↦ ([], rw (e, opened, taken) (sym (append-nil msgs)))
      | inr (msg, e) ↦ (msg ∷ [], rw (e, opened, taken))
    ]
advance-taken w c (remove_next h req d n ns msgs) fs = ([], sym (append-nil msgs))
advance-taken w c (polled req d response) fs = ([], sym (append-nil response.messages))

pub readable-file :
    (w : Wire) (h : Host) (d : DirPath) (n : Bytes) (fs : Files) {msg : ChatMessage}
    → readable w h d n fs ≡ some msg
    → (b : Bytes) × (file fs d n ≡ some b) × (w.decode_message b ≡ some msg)
unfolding readable read_file
readable-file w h d n fs e = elim (Option-cases (file fs d n)) [
  | inl k ↦ elim (Option-cases (h.refuses Syscall.read (n ∷ d))) [
    | inl r ↦ ground (arith, e, k, r)
    | inr (x, r) ↦ ground (arith, e, k, r)
  ]
  | inr (b, k) ↦ (b, k, ground (arith, e, k))
]

-- A handler that is about to remove a file has just read it, and its message is the last it took, or
-- it was about to do so before.
pub advance-pending :
    (w : Wire) (c : Chatd) (job : Handler) (fs : Files) (p : DirPath) (m : Bytes)
    → pending (advance w c job fs).0 ≡ the_file p m
    → (b : Bytes) × (msg : ChatMessage) × (file fs p m ≡ some b)
      × (w.decode_message b ≡ some msg)
      × (taken (advance w c job fs).0 ≡ taken job ++ msg ∷ [])
unfolding advance taken opened pending
advance-pending w c idle fs p m q = cc
advance-pending w c (send_at fresh h req) fs p m q =
    cc (q, (go_on-taken made h req (send_begins c h req fs).0).1)
advance-pending w c (send_at made h req) fs p m q = cc (q, (go_on-taken created h req _).1)
advance-pending w c (send_at created h req) fs p m q = cc
advance-pending w c (send_at written h req) fs p m q = cc
advance-pending w c (sent h req response) fs p m q = cc
advance-pending w c (list_next h req) fs p m q = elim (begin_poll-cases c h req fs) [
  | inl (ns, e) ↦ cc
  | inr (r, e, _) ↦ cc
]
advance-pending w c (read_next h req d [] msgs) fs p m q = cc
advance-pending w c (read_next h req d (name ∷ rest) msgs) fs p m q =
    elim (Option-cases (readable w h d name fs)) [
      | inl e ↦ cc
      | inr (msg, e) ↦
          let (b, k, s) = readable-file w h d name fs e in
          let (dir, same) =
            named_both (sym (ap (λ x. pending (opened h req d name rest msgs x)) e) ∙ q) in
          (b, msg, rw (← dir, ← same) k, s, rw (e, opened, taken))
    ]
advance-pending w c (remove_next h req d n ns msgs) fs p m q = cc
advance-pending w c (polled req d response) fs p m q = cc

-- A handler goes through the mailbox of the one who polls.
abbrev pub IsOwn : Chatd → Handler → Type 0
IsOwn c job =
    (q : ChatRequest) (d : DirPath)
    → poller job ≡ some q
    → box job ≡ some d
    → user_dir c q.user_id ≡ d

go_on-poller :
    (stage : Stage) (h : Host) (req : ChatRequest) (outcome : Result (Unit {0}))
    → poller (go_on stage h req outcome) ≡ none
unfolding poller go_on
go_on-poller stage h req (ok u) = refl
go_on-poller stage h req (err e) = refl

some_request : {q q' : ChatRequest} → some q ≡ some q' → q ≡ q'
some_request e = cc

own_at :
    (c : Chatd) (req q : ChatRequest) (d : DirPath)
    → some req ≡ some q
    → some (user_dir c req.user_id) ≡ some d
    → user_dir c q.user_id ≡ d
own_at c req q d e k =
    let there : user_dir c req.user_id ≡ d = cc in
    ap (λ x. user_dir c x.user_id) (sym (some_request e)) ∙ there

-- The listing is that of the mailbox of the one who polls, and it stays so.
pub advance-IsOwn :
    (w : Wire) (c : Chatd) (job : Handler) (fs : Files)
    → IsOwn c job
    → IsOwn c (advance w c job fs).0
unfolding advance poller box opened
advance-IsOwn w c idle fs k q d e b = cc
advance-IsOwn w c (send_at fresh h req) fs k q d e b =
    cc (e, go_on-poller made h req (send_begins c h req fs).0)
advance-IsOwn w c (send_at made h req) fs k q d e b = cc (e, go_on-poller created h req _)
advance-IsOwn w c (send_at created h req) fs k q d e b = cc
advance-IsOwn w c (send_at written h req) fs k q d e b = cc
advance-IsOwn w c (sent h req response) fs k q d e b = cc
advance-IsOwn w c (list_next h req) fs k q d e b = elim (begin_poll-cases c h req fs) [
  | inl (names, l) ↦ own_at c req q d (sym (ap poller l) ∙ e) (sym (ap box l) ∙ b)
  | inr (response, l, _) ↦ own_at c req q d (sym (ap poller l) ∙ e) (sym (ap box l) ∙ b)
]
advance-IsOwn w c (read_next h req p [] msgs) fs k q d e b = k q d e b
advance-IsOwn w c (read_next h req p (name ∷ rest) msgs) fs k q d e b =
    elim (Option-cases (readable w h p name fs)) [
      | inl l ↦
          k q d (sym (ap (λ x. poller (opened h req p name rest msgs x)) l) ∙ e)
            (sym (ap (λ x. box (opened h req p name rest msgs x)) l) ∙ b)
      | inr (msg, l) ↦
          k q d (sym (ap (λ x. poller (opened h req p name rest msgs x)) l) ∙ e)
            (sym (ap (λ x. box (opened h req p name rest msgs x)) l) ∙ b)
    ]
advance-IsOwn w c (remove_next h req p name rest msgs) fs k q d e b = k q d e b
advance-IsOwn w c (polled req p response) fs k q d e b = k q d e b

-- A handlePoll that has not listed its mailbox yet has read nothing.
pub poller-cases :
    (job : Handler) {q : ChatRequest}
    → poller job ≡ some q
    → (taken job ≡ []) ⊎ ((d : DirPath) × (box job ≡ some d))
unfolding poller box taken
poller-cases idle e = inl refl
poller-cases (send_at stage h req) e = inl refl
poller-cases (sent h req response) e = inl refl
poller-cases (list_next h req) e = inl refl
poller-cases (read_next h req d names msgs) e = inr (d, refl)
poller-cases (remove_next h req d name names msgs) e = inr (d, refl)
poller-cases (polled req d response) e = inr (d, refl)
