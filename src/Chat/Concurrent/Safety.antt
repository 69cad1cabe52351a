-- ===== src/Chat/Concurrent/Safety.antt =====
-- chatd/main.go, direct messages at the same time: what becomes of the messages that handleSend writes,
-- whoever polls meanwhile.
use zknode_autonomi_alpha.Prelude.{
  set_at-cases, ℕ, false, ◌&&◌, ◌≡◌, ◌≢◌, refl, ap, ◌∙◌, sym, Option, none, some, List, [], ◌∷◌,
  ◌++◌, append_assoc, Bytes, ◌==◌, ==_iff, nat_Eq, list_Eq, arith, inl, inr, ◌⊎◌, Bool-cases,
}
use zknode_autonomi_alpha.FilePath.{DirPath}
use zknode_autonomi_alpha.Files.{Host, file}
use zknode_autonomi_alpha.Chat.{Chatd, Wire, ChatMessage, ChatRequest}
use zknode_autonomi_alpha.Chat.Direct.{new_message}
use zknode_autonomi_alpha.Chat.Delivery.{Survives}
use zknode_autonomi_alpha.Chat.Concurrent.{
  Handler, Running, move, idle, send_at, sent, list_next, read_next, remove_next, polled, fresh,
  made, created, written, advance, FileName, the_file, sender, target, pending, mailbox_of, name_of,
  blob_of, expected, taken,
}
use zknode_autonomi_alpha.Chat.Concurrent.Effects.{
  named, named_both, advance-elsewhere, advance-expected,
}
use zknode_autonomi_alpha.Chat.Concurrent.Views.{advance-sender, advance-taken, advance-pending}

the_file-cases :
    (o : Option FileName) (d : DirPath) (n : Bytes) → (o ≡ the_file d n) ⊎ (o ≢ the_file d n)
the_file-cases none d n = inr cc
the_file-cases (some (p, m)) d n = elim (Bool-cases ((p == d) && (m == n))) [
  | inl e ↦ inl (named ((==_iff p d).0 (ground arith)) ((==_iff m n).0 (ground arith)))
  | inr e ↦ inr (λ k.
      let (dir, same) = named_both k in ground (arith, (==_iff p d).1 dir, (==_iff m n).1 same))
]

-- A message is among those that some handlePoll has read.
abbrev pub Taken : Running → ChatMessage → Type 0
Taken s msg =
    (j : ℕ) × (pre : List ChatMessage) × (post : List ChatMessage) × (taken (s.jobs j)
      ≡ pre ++ msg ∷ post)

-- The file of a handler is as the handler left it, and nobody is about to remove it.
abbrev pub Waits : Wire → Chatd → Running → ℕ → Host → ChatRequest → Type 0
Waits w c s i h req =
    (file s.files (mailbox_of c req) (name_of h) ≡ expected w (s.jobs i))
    × ((j : ℕ) → pending (s.jobs j) ≢ the_file (mailbox_of c req) (name_of h))

abbrev pub Kept : Wire → Chatd → Running → ℕ → Host → ChatRequest → Type 0
Kept w c s i h req = Taken s (new_message h req []) ⊎ Waits w c s i h req

-- No two handlers write one file, and what a handleSend has written waits or is taken.
pub record IsSafe (w : Wire) (c : Chatd) (s : Running) : Type 0 where
  pub one_writer :
      (i j : ℕ) (t : FileName) → target c (s.jobs i) ≡ some t → target c (s.jobs j) ≡ some t → i ≡ j
  pub kept :
      (i : ℕ) (h : Host) (req : ChatRequest)
      → sender (s.jobs i) ≡ some (h, req)
      → Survives w (new_message h req [])
      → Kept w c s i h req

pub Taken-move :
    (w : Wire) (c : Chatd) (k : ℕ) (s : Running) (msg : ChatMessage)
    → Taken s msg
    → Taken (move w c k s) msg
unfolding move
Taken-move w c k s msg (j, pre, post, e) =
    let job = (advance w c (s.jobs k) s.files).0 in
    elim (set_at-cases k job s.jobs j) [
      | inr (_, same) ↦ (j, pre, post, ap taken same ∙ e)
      | inl (here, same) ↦
          let (more, grown) = advance-taken w c (s.jobs k) s.files in
          (
            j,
            pre,
            post ++ more,
            ap taken same
                ∙ grown
                ∙ ap (λ x. taken (s.jobs x) ++ more) here
                ∙ ap (λ xs. xs ++ more) e
                ∙ append_assoc pre (msg ∷ post) more,
          )
    ]

pub kept_before :
    (w : Wire) (c : Chatd) (s s' : Running) (i : ℕ) (h : Host) (req : ChatRequest)
    → s'.files ≡ s.files
    → ((j : ℕ) → taken (s'.jobs j) ≡ taken (s.jobs j))
    → ((j : ℕ) → pending (s'.jobs j) ≡ pending (s.jobs j))
    → s'.jobs i ≡ s.jobs i
    → Kept w c s i h req
    → Kept w c s' i h req
kept_before w c s s' i h req f t p same (inl (j, pre, post, e)) = inl (j, pre, post, t j ∙ e)
kept_before w c s s' i h req f t p same (inr (waits, calm)) =
    inr (rw (f, same) waits, λ j q. calm j (sym (p j) ∙ q))

pub sender-target :
    (c : Chatd) (job : Handler) {h : Host} {req : ChatRequest}
    → sender job ≡ some (h, req)
    → target c job ≡ the_file (mailbox_of c req) (name_of h)
unfolding target
sender-target c job e = rw (e, target)

-- The content that is expected, while the handler is on its way.
pub expected-cases :
    (w : Wire) (job : Handler) {h : Host} {req : ChatRequest}
    → sender job ≡ some (h, req)
    → (expected w job ≡ none)
      ⊎ (expected w job ≡ some [])
      ⊎ (expected w job ≡ some (blob_of w h req))
unfolding sender expected
expected-cases w idle e = inl refl
expected-cases w (send_at fresh h req) e = inl refl
expected-cases w (send_at made h req) e = inl refl
expected-cases w (send_at created h req) e = inr (inl refl)
expected-cases w (send_at written h req) e = inr (inr cc)
expected-cases w (sent h req response) e = elim (Bool-cases response.success) [
  | inl ok ↦ inr (inr (rw (ok, expected) cc))
  | inr failed ↦ inl (rw (failed, expected))
]
expected-cases w (list_next h req) e = inl refl
expected-cases w (read_next h req d ns msgs) e = inl refl
expected-cases w (remove_next h req d n ns msgs) e = inl refl
expected-cases w (polled req d response) e = inl refl

sender-pending :
    (job : Handler) {h : Host} {req : ChatRequest} → sender job ≡ some (h, req) → pending job ≡ none
unfolding sender pending
sender-pending idle e = refl
sender-pending (send_at stage h req) e = refl
sender-pending (sent h req response) e = refl
sender-pending (list_next h req) e = refl
sender-pending (read_next h req d ns msgs) e = refl
sender-pending (remove_next h req d n ns msgs) e = cc
sender-pending (polled req d response) e = refl

module _ (w : Wire) (c : Chatd) (off : c.use_ant ≡ false) (nil : w.decode_message [] ≡ none) where
  -- The handler that wrote a file moves.
  pub Waits-own :
      (i : ℕ) (s : Running) (h : Host) (req : ChatRequest)
      → sender (s.jobs i) ≡ some (h, req)
      → Waits w c s i h req
      → Waits w c (move w c i s) i h req
  unfolding move
  Waits-own i s h req e (waits, calm) =
      let p = mailbox_of c req in
      let m = name_of h in
      let (job, fs) = advance w c (s.jobs i) s.files in
      let goes_by : sender job ≡ some (h, req) = advance-sender w c (s.jobs i) s.files ∙ e in
      (
        elim (set_at-cases i job s.jobs i) [
          | inr (other, _) ↦ elim (other refl) [ ]
          | inl (_, here) ↦
              advance-expected w c (s.jobs i) s.files p m off (sender-target c (s.jobs i) e) waits
              ∙ ap (expected w) (sym here)
        ],
        λ j q. elim (set_at-cases i job s.jobs j) [
          | inr (_, there) ↦ calm j (ap pending (sym there) ∙ q)
          | inl (_, here) ↦ cc (sender-pending job goes_by, here, q)
        ],
      )

  -- What a handlePoll reads in the file of a message is the message.
  taken_from :
      (i : ℕ) (s : Running) (h : Host) (req : ChatRequest) (b : Bytes) (msg : ChatMessage)
      → sender (s.jobs i) ≡ some (h, req)
      → Survives w (new_message h req [])
      → file s.files (mailbox_of c req) (name_of h) ≡ expected w (s.jobs i)
      → file s.files (mailbox_of c req) (name_of h) ≡ some b
      → w.decode_message b ≡ some msg
      → msg ≡ new_message h req []
  unfolding blob_of
  taken_from i s h req b msg e survives waits read decoded = elim (expected-cases w (s.jobs i) e) [
    | inl k ↦ cc
    | inr (inl k) ↦ let empty : b ≡ [] = cc in cc (ap w.decode_message empty)
    | inr (inr k) ↦
        let full : b ≡ w.encode_message (new_message h req []) = cc in cc (ap w.decode_message full)
  ]

  -- Another handler moves.
  pub Kept-other :
      (k i : ℕ) (s : Running) (h : Host) (req : ChatRequest)
      → IsSafe w c s
      → k ≢ i
      → sender (s.jobs i) ≡ some (h, req)
      → Survives w (new_message h req [])
      → Waits w c s i h req
      → Kept w c (move w c k s) i h req
  unfolding move
  Kept-other k i s h req v apart_from e survives (waits, calm) =
      let p = mailbox_of c req in
      let m = name_of h in
      let (job, fs) = advance w c (s.jobs k) s.files in
      elim (the_file-cases (pending job) p m) [
        | inl q ↦
            let (b, msg, read, decoded, grown) = advance-pending w c (s.jobs k) s.files p m q in
            inl (
              k,
              taken (s.jobs k),
              [],
              elim (set_at-cases k job s.jobs k) [
                | inr (other, _) ↦ elim (other refl) [ ]
                | inl (_, here) ↦
                    ap taken here
                    ∙ grown
                    ∙ ap (λ x. taken (s.jobs k) ++ x ∷ [])
                        (taken_from i s h req b msg e survives waits read decoded)
              ],
            )
        | inr calm_here ↦ elim (set_at-cases k job s.jobs i) [
          | inl (here, _) ↦ elim (apart_from here) [ ]
          | inr (_, there) ↦ inr (
            advance-elsewhere w c (s.jobs k) s.files p m off
                  (λ t. apart_from (v.one_writer k i (p, m) t (sender-target c (s.jobs i) e)))
                  (calm k)
                ∙ waits
                ∙ ap (expected w) (sym there),
            λ j q. elim (set_at-cases k job s.jobs j) [
              | inr (_, same) ↦ calm j (ap pending (sym same) ∙ q)
              | inl (_, same) ↦ calm_here (ap pending (sym same) ∙ q)
            ],
          )
        ]
      ]
