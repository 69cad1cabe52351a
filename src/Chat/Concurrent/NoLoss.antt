-- ===== src/Chat/Concurrent/NoLoss.antt =====
-- chatd/main.go, direct messages at the same time: every way to go on keeps the messages, so that none is
-- lost.
use zknode_autonomi_alpha.Prelude.{
  set_at, set_at-cases, set_at-view, ℕ, true, false, ◌≡◌, ◌≢◌, refl, ap, subst, ◌∙◌, sym, none,
  some, [], Bytes, nat_Eq, list_Eq, inl, inr, ◌⊎◌,
}
use zknode_autonomi_alpha.FilePath.{DirPath}
use zknode_autonomi_alpha.Files.{Files, Host, file}
use zknode_autonomi_alpha.Chat.{Chatd, Wire, ChatRequest, ChatResponse}
use zknode_autonomi_alpha.Chat.Direct.{new_message}
use zknode_autonomi_alpha.Chat.Delivery.{Survives}
use zknode_autonomi_alpha.Chat.Concurrent.{
  Handler, Running, Reach, Unused, start, arrive_send, arrive_poll, moved, move, idle, send_at,
  sent, list_next, fresh, advance, FileName, the_file, sender, target, pending, mailbox_of, name_of,
  blob_of, expected, taken,
}
use zknode_autonomi_alpha.Chat.Concurrent.Views.{advance-sender, advance-target}
use zknode_autonomi_alpha.Chat.Concurrent.Safety.{
  Taken, Kept, IsSafe, Taken-move, kept_before, Waits-own, Kept-other,
}

module _ (w : Wire) (c : Chatd) (off : c.use_ant ≡ false) (nil : w.decode_message [] ≡ none) where
  IsSafe-move : (k : ℕ) (s : Running) → IsSafe w c s → IsSafe w c (move w c k s)
  unfolding move
  IsSafe-move k s v =
      let (job, fs) = advance w c (s.jobs k) s.files in
      let goes_by =
        λ (j : ℕ). set_at-view sender k job s.jobs j (advance-sender w c (s.jobs k) s.files) in
      let writes =
        λ (j : ℕ). set_at-view (target c) k job s.jobs j (advance-target w c (s.jobs k) s.files) in
      record {
        one_writer = λ i j t e e'. v.one_writer i j t (sym (writes i) ∙ e) (sym (writes j) ∙ e');
        kept = λ i h req e survives.
            let was = sym (goes_by i) ∙ e in
            elim (v.kept i h req was survives) [
              | inl taken_before ↦ inl (Taken-move w c k s (new_message h req []) taken_before)
              | inr waits ↦ elim (set_at-cases k job s.jobs i) [
                | inl (same, _) ↦
                    subst (λ x. Kept w c (move w c x s) i h req) (sym same)
                      (inr (Waits-own w c off nil i s h req was waits))
                | inr (other, _) ↦ Kept-other w c off nil k i s h req v other was survives waits
              ]
            ];
      }

IsSafe-arrive_poll :
    (w : Wire) (c : Chatd) (i : ℕ) (h : Host) (req : ChatRequest) (s : Running)
    → s.jobs i ≡ idle
    → IsSafe w c s
    → IsSafe w c (record s { jobs = set_at i (list_next h req) s.jobs })
unfolding target sender pending taken
IsSafe-arrive_poll w c i h req s free v =
    let s' : Running = record s { jobs = set_at i (list_next h req) s.jobs } in
    let writes =
      λ (j : ℕ). set_at-view (target c) i (list_next h req) s.jobs j (sym (ap (target c) free)) in
    record {
      one_writer = λ a b t e e'. v.one_writer a b t (sym (writes a) ∙ e) (sym (writes b) ∙ e');
      kept = λ a g r e survives. elim (set_at-cases i (list_next h req) s.jobs a) [
        | inl (_, here) ↦ cc (e, ap sender here)
        | inr (_, there) ↦
            kept_before w c s s' a g r refl
              (λ j. set_at-view taken i (list_next h req) s.jobs j (sym (ap taken free)))
              (λ j. set_at-view pending i (list_next h req) s.jobs j (sym (ap pending free))) there
              (v.kept a g r (sym (ap sender there) ∙ e) survives)
      ];
    }

one_writer-arrive :
    (c : Chatd) (i : ℕ) (job : Handler) (d : DirPath) (n : Bytes) (s : Running)
    → target c job ≡ the_file d n
    → Unused c d n s
    → ((a b : ℕ) (t : FileName)
        → target c (s.jobs a) ≡ some t
        → target c (s.jobs b) ≡ some t
        → a ≡ b)
    → (a b : ℕ) (t : FileName) → target c (set_at i job s.jobs a) ≡ some t
    → target c (set_at i job s.jobs b) ≡ some t
    → a ≡ b
one_writer-arrive c i job d n s new (_, unused) old a b t e e' =
    elim (set_at-cases i job s.jobs a) [
      | inl (here, k) ↦ elim (set_at-cases i job s.jobs b) [
        | inl (here', k') ↦ sym here ∙ here'
        | inr (_, k') ↦
            elim ((unused b).0 (sym (ap (target c) k') ∙ e' ∙ sym e ∙ ap (target c) k ∙ new)) [ ]
      ]
      | inr (_, k) ↦ elim (set_at-cases i job s.jobs b) [
        | inl (_, k') ↦
            elim ((unused a).0 (sym (ap (target c) k) ∙ e ∙ sym e' ∙ ap (target c) k' ∙ new)) [ ]
        | inr (_, k') ↦ old a b t (sym (ap (target c) k) ∙ e) (sym (ap (target c) k') ∙ e')
      ]
    ]

IsSafe-arrive_send :
    (w : Wire) (c : Chatd) (i : ℕ) (h : Host) (req : ChatRequest) (s : Running)
    → s.jobs i ≡ idle
    → Unused c (mailbox_of c req) (name_of h) s
    → IsSafe w c s
    → IsSafe w c (record s { jobs = set_at i (send_at fresh h req) s.jobs })
unfolding target sender pending taken expected
IsSafe-arrive_send w c i h req s free unused v =
    let job = send_at fresh h req in
    let s' : Running = record s { jobs = set_at i job s.jobs } in
    let calm = λ (j : ℕ). set_at-view pending i job s.jobs j (sym (ap pending free)) in
    record {
      one_writer =
          one_writer-arrive c i job (mailbox_of c req) (name_of h) s refl unused v.one_writer;
      kept = λ a g r e survives. elim (set_at-cases i job s.jobs a) [
        | inl (_, here) ↦
            let (same_host, same_req) : (h ≡ g) × (req ≡ r) =
              (cc (e, ap sender here), cc (e, ap sender here)) in
            inr (
              rw (← same_host, ← same_req) (unused.0 ∙ ap (expected w) (sym here)),
              λ j q. (unused.1 j).1 (rw (same_host, same_req) (sym (calm j) ∙ q)),
            )
        | inr (_, there) ↦
            kept_before w c s s' a g r refl
              (λ j. set_at-view taken i job s.jobs j (sym (ap taken free))) calm there
              (v.kept a g r (sym (ap sender there) ∙ e) survives)
      ];
    }

start-IsSafe :
    (w : Wire) (c : Chatd) (fs : Files) → IsSafe w c (record { jobs = λ i. idle; files = fs })
unfolding target sender
start-IsSafe w c fs = record { one_writer = λ i j t e e'. cc; kept = λ i h req e survives. cc }

module _ (w : Wire) (c : Chatd) (off : c.use_ant ≡ false) (nil : w.decode_message [] ≡ none) where
  pub Reach-IsSafe : (fs : Files) (s : Running) → Reach w c fs s → IsSafe w c s
  Reach-IsSafe fs _ start = start-IsSafe w c fs
  Reach-IsSafe fs _ (arrive_send i h req s reach free unused) =
      IsSafe-arrive_send w c i h req s free unused (Reach-IsSafe fs s reach)
  Reach-IsSafe fs _ (arrive_poll i h req s reach free) =
      IsSafe-arrive_poll w c i h req s free (Reach-IsSafe fs s reach)
  Reach-IsSafe fs _ (moved i s reach) = IsSafe-move w c off nil i s (Reach-IsSafe fs s reach)

  -- No message is lost in a race: with Autonomi off and a codec that reads no message in an empty
  -- file, however the system calls of any number of direct sends and polls come between each other,
  -- from any store, a message that survives its encoding and whose handleSend has succeeded stands
  -- whole in the mailbox of its recipient, and no handler is about to remove it, or it is among the
  -- messages that a handlePoll has read.
  pub sent_is_kept :
      (fs : Files) (s : Running) (i : ℕ) (h : Host) (req : ChatRequest) (response : ChatResponse)
      → Reach w c fs s
      → s.jobs i ≡ sent h req response
      → response.success ≡ true
      → Survives w (new_message h req [])
      → ((file s.files (mailbox_of c req) (name_of h)
            ≡ some (w.encode_message (new_message h req [])))
          × ((j : ℕ) → pending (s.jobs j) ≢ the_file (mailbox_of c req) (name_of h)))
        ⊎ Taken s (new_message h req [])
  unfolding sender expected blob_of
  sent_is_kept fs s i h req response reach here succeeded survives =
      elim ((Reach-IsSafe fs s reach).kept i h req (ap sender here) survives) [
        | inl taken_by ↦ inr taken_by
        | inr (waits, calm) ↦ inl (waits ∙ ap (expected w) here ∙ rw succeeded refl, calm)
      ]
