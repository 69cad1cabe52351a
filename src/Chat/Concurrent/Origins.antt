-- ===== src/Chat/Concurrent/Origins.antt =====
-- chatd/main.go, direct messages at the same time: where the messages come from that handlePoll reads.
use zknode_autonomi_alpha.Prelude.{
  set_at, set_at-cases, set_at-view, ℕ, ◌≡◌, refl, ap, ◌∙◌, none, some, [], Bytes, nat_Eq, list_Eq,
  inl, inr, ◌⊎◌, All, All-map,
}
use zknode_autonomi_alpha.FilePath.{DirPath}
use zknode_autonomi_alpha.Files.{Files, Host, file}
use zknode_autonomi_alpha.Chat.{Chatd, Wire, ChatMessage, ChatRequest}
use zknode_autonomi_alpha.Chat.Store.{user_dir}
use zknode_autonomi_alpha.Chat.Concurrent.{
  Handler, Running, Reach, start, arrive_send, arrive_poll, moved, move, idle, send_at, list_next,
  fresh, advance, sender, box, taken, poller, mailbox_of, blob_of,
}
use zknode_autonomi_alpha.Chat.Concurrent.Views.{advance-sender, advance-IsOwn, IsOwn, poller-cases}
use zknode_autonomi_alpha.Chat.Concurrent.Contents.{advance-content, advance-All}

-- A message that a file of the mailbox held at the start, or that a handleSend to it goes by.
abbrev pub Origin : Wire → Chatd → Files → (ℕ → Handler) → DirPath → ChatMessage → Type 0
Origin w c fs jobs d msg =
    ((n : Bytes) × (b : Bytes) × (file fs d n ≡ some b) × (w.decode_message b ≡ some msg))
    ⊎ ((i : ℕ) × (h : Host) × (req : ChatRequest) × (sender (jobs i) ≡ some (h, req))
        × (mailbox_of c req ≡ d)
        × (w.decode_message (blob_of w h req) ≡ some msg))

record HasOrigins (w : Wire) (c : Chatd) (fs : Files) (s : Running) : Type 0 where
  stored :
      (d : DirPath) (n b : Bytes) (msg : ChatMessage)
      → file s.files d n ≡ some b
      → w.decode_message b ≡ some msg
      → Origin w c fs s.jobs d msg
  read :
      (j : ℕ) (d : DirPath)
      → box (s.jobs j) ≡ some d
      → All (Origin w c fs s.jobs d) (taken (s.jobs j))
  own : (j : ℕ) → IsOwn c (s.jobs j)

module _ (w : Wire) (c : Chatd) (fs : Files) where
  Origin-more :
      (jobs jobs' : ℕ → Handler)
      → ((i : ℕ) (h : Host) (req : ChatRequest)
          → sender (jobs i) ≡ some (h, req)
          → sender (jobs' i) ≡ some (h, req))
      → (d : DirPath) (msg : ChatMessage) → Origin w c fs jobs d msg
      → Origin w c fs jobs' d msg
  Origin-more jobs jobs' f d msg (inl at_start) = inl at_start
  Origin-more jobs jobs' f d msg (inr (i, h, req, e, there, decoded)) =
      inr (i, h, req, f i h req e, there, decoded)

  HasOrigins-move :
      (nil : w.decode_message [] ≡ none) (k : ℕ) (s : Running)
      → HasOrigins w c fs s
      → HasOrigins w c fs (move w c k s)
  unfolding move
  HasOrigins-move nil k s v =
      let (job, after) = advance w c (s.jobs k) s.files in
      let more = Origin-more s.jobs (set_at k job s.jobs) (λ i h req e.
        set_at-view sender k job s.jobs i (advance-sender w c (s.jobs k) s.files) ∙ e) in
      record {
        stored = λ d n b msg e decoded. elim (advance-content w c (s.jobs k) s.files d n e) [
          | inl same ↦ more d msg (v.stored d n b msg same decoded)
          | inr (inl empty) ↦ cc (ap w.decode_message empty)
          | inr (inr (h, req, by, dir, full)) ↦
              more d msg (inr (k, h, req, by, dir, rw full at decoded))
        ];
        read = λ j d e. elim (set_at-cases k job s.jobs j) [
          | inr (_, there) ↦
              rw there (All-map (more d) (taken (s.jobs j)) (v.read j d (rw there at e)))
          | inl (_, here) ↦ rw here (
              advance-All w c (s.jobs k) s.files d (Origin w c fs (set_at k job s.jobs) d)
                (λ m b msg content decoded. more d msg (v.stored d m b msg content decoded))
                (λ q. All-map (more d) (taken (s.jobs k)) (v.read k d q)) (rw here at e))
        ];
        own = λ j. elim (set_at-cases k job s.jobs j) [
          | inr (_, there) ↦ rw there (v.own j)
          | inl (_, here) ↦ rw here (advance-IsOwn w c (s.jobs k) s.files (v.own k))
        ];
      }

  HasOrigins-arrive :
      (i : ℕ) (job : Handler) (s : Running)
      → s.jobs i ≡ idle
      → box job ≡ none
      → HasOrigins w c fs s
      → HasOrigins w c fs (record s { jobs = set_at i job s.jobs })
  unfolding sender
  HasOrigins-arrive i job s free blind v =
      let more = Origin-more s.jobs (set_at i job s.jobs) (λ a h req e.
        elim (set_at-cases i job s.jobs a) [
          | inl (here, _) ↦ cc (e, ap (λ x. sender (s.jobs x)) here, ap sender free)
          | inr (_, there) ↦ ap sender there ∙ e
        ]) in
      record {
        stored = λ d n b msg e decoded. more d msg (v.stored d n b msg e decoded);
        read = λ j d e. elim (set_at-cases i job s.jobs j) [
          | inl (_, here) ↦ cc (e, ap box here, blind)
          | inr (_, there) ↦
              rw there (All-map (more d) (taken (s.jobs j)) (v.read j d (rw there at e)))
        ];
        own = λ j. elim (set_at-cases i job s.jobs j) [
          | inl (_, here) ↦ rw here (λ q d e b. cc (b, blind))
          | inr (_, there) ↦ rw there (v.own j)
        ];
      }

  start-HasOrigins : HasOrigins w c fs (record { jobs = λ i. idle; files = fs })
  unfolding box
  start-HasOrigins = record {
    stored = λ d n b msg e decoded. inl (n, b, e, decoded);
    read = λ j d e. cc;
    own = λ j q d e b. cc;
  }

  Reach-HasOrigins :
      (nil : w.decode_message [] ≡ none) (s : Running) → Reach w c fs s → HasOrigins w c fs s
  unfolding box
  Reach-HasOrigins nil _ start = start-HasOrigins
  Reach-HasOrigins nil _ (arrive_send i h req s reach free unused) =
      HasOrigins-arrive i (send_at fresh h req) s free refl (Reach-HasOrigins nil s reach)
  Reach-HasOrigins nil _ (arrive_poll i h req s reach free) =
      HasOrigins-arrive i (list_next h req) s free refl (Reach-HasOrigins nil s reach)
  Reach-HasOrigins nil _ (moved i s reach) = HasOrigins-move nil i s (Reach-HasOrigins nil s reach)

  -- Nothing is made up and nothing goes astray in a race: with a codec that reads no message in an
  -- empty file, however the system calls of direct sends and polls come between each other, each
  -- message that a handlePoll has read stood at the start in the mailbox of the user who polls, or
  -- is what a handleSend to the mailbox of this user has encoded.
  pub read_was_sent :
      (s : Running) (j : ℕ) (q : ChatRequest)
      → w.decode_message [] ≡ none
      → Reach w c fs s
      → poller (s.jobs j) ≡ some q
      → All (Origin w c fs s.jobs (user_dir c q.user_id)) (taken (s.jobs j))
  read_was_sent s j q nil reach e =
      let v = Reach-HasOrigins nil s reach in
      elim (poller-cases (s.jobs j) e) [
        | inl nothing ↦ rw nothing tt
        | inr (d, b) ↦ rw (v.own j q d e b) (v.read j d b)
      ]
