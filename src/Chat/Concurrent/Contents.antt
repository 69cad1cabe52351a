-- ===== src/Chat/Concurrent/Contents.antt =====
-- chatd/main.go, direct messages at the same time: what a step writes into a file, and what it reads.
use zknode_autonomi_alpha.Prelude.{
  true, ◌&&◌, ◌≡◌, refl, ap, ◌∙◌, sym, some, [], ◌∷◌, Bytes, codes, ◌==◌, ==_iff, nat_Eq, list_Eq,
  arith, inl, inr, ◌⊎◌, All, All-append, Option-cases, Bool-cases,
}
use zknode_autonomi_alpha.FilePath.{DirPath}
use zknode_autonomi_alpha.Files.{Files, Host, file, has_dir, write_file, put_file}
use zknode_autonomi_alpha.Files.Laws.{file-put_file, file-remove}
use zknode_autonomi_alpha.Chat.{Chatd, Wire, ChatMessage, ChatRequest, attempt}
use zknode_autonomi_alpha.Chat.Direct.{readable, offload}
use zknode_autonomi_alpha.Chat.Store.{message_file}
use zknode_autonomi_alpha.Chat.Concurrent.{
  Handler, idle, send_at, sent, list_next, read_next, remove_next, polled, fresh, made, created,
  written, advance, fill, sender, box, taken, mailbox_of, blob_of, opened, send_begins,
}
use zknode_autonomi_alpha.Chat.Concurrent.Effects.{send_begins-file, has_dir_of_file}
use zknode_autonomi_alpha.Chat.Concurrent.Views.{readable-file, go_on-taken, begin_poll-cases}

-- The content of a file in a mailbox is what a handleSend is to write there.
abbrev pub Written : Wire → Chatd → Handler → DirPath → Bytes → Type 0
Written w c job d b =
    (h : Host) × (req : ChatRequest) × (sender job ≡ some (h, req))
    × (mailbox_of c req ≡ d)
    × (b ≡ blob_of w h req)

put-content :
    (d : DirPath) (n x : Bytes) (fs : Files) (p : DirPath) (m : Bytes) {b : Bytes}
    → has_dir fs d ≡ true
    → file (put_file d n x fs) p m ≡ some b
    → (file fs p m ≡ some b) ⊎ ((d ≡ p) × (b ≡ x))
put-content d n x fs p m there e = elim (Bool-cases ((d == p) && (n == m))) [
  | inl here ↦
      inr ((==_iff d p).0 (ground arith), ground (arith, e, file-put_file d n x fs p m there))
  | inr other ↦ inl (ground (arith, e, other, file-put_file d n x fs p m there))
]

opening-content :
    (h : Host) (label : Bytes) (d : DirPath) (n : Bytes) (fs : Files) (p : DirPath) (m : Bytes)
    {b : Bytes}
    → file (attempt h label (write_file h d n []) fs).1 p m ≡ some b
    → (file fs p m ≡ some b) ⊎ (b ≡ [])
unfolding attempt write_file
opening-content h label d n fs p m e = elim (Bool-cases ((d == p) && (n == m))) [
  | inl here ↦ ground (arith, e, file-put_file d n [] fs p m)
  | inr there ↦ ground (arith, e, there, file-put_file d n [] fs p m)
]

filled-content :
    (d : DirPath) (n x : Bytes) (fs : Files) (p : DirPath) (m : Bytes) {b : Bytes}
    → file (fill d n x fs) p m ≡ some b
    → (file fs p m ≡ some b) ⊎ ((d ≡ p) × (b ≡ x))
unfolding fill
filled-content d n x fs p m e = elim (Option-cases (file fs d n)) [
  | inl k ↦ inl (rw (k, fill) at e)
  | inr (y, k) ↦ put-content d n x fs p m (has_dir_of_file d n fs k) (rw (k, fill) at e)
]

offload-content :
    (c : Chatd) (h : Host) (d : DirPath) (id x : Bytes) (fs : Files) (p : DirPath) (m : Bytes)
    {b : Bytes}
    → file (offload c h d id x fs).1 p m ≡ some b
    → file fs p m ≡ some b
unfolding offload
offload-content c h d id x fs p m e = ground (arith, file-remove h d (message_file id) fs p m)

-- A step leaves a file with a message only where it found the file so, or has written its own.
pub advance-content :
    (w : Wire) (c : Chatd) (job : Handler) (fs : Files) (p : DirPath) (m : Bytes) {b : Bytes}
    → file (advance w c job fs).1 p m ≡ some b
    → (file fs p m ≡ some b) ⊎ (b ≡ []) ⊎ Written w c job p b
unfolding advance sender
advance-content w c idle fs p m e = inl e
advance-content w c (send_at fresh h req) fs p m e = inl (sym (send_begins-file c h req fs p m) ∙ e)
advance-content w c (send_at made h req) fs p m e =
    elim (opening-content h (codes "write: ") _ _ fs p m e) [
      | inl same ↦ inl same
      | inr empty ↦ inr (inl empty)
    ]
advance-content w c (send_at created h req) fs p m e = elim (filled-content _ _ _ fs p m e) [
  | inl same ↦ inl same
  | inr (dir, full) ↦ inr (inr (h, req, refl, dir, full))
]
advance-content w c (send_at written h req) fs p m e = inl (offload-content c h _ _ _ fs p m e)
advance-content w c (sent h req response) fs p m e = inl e
advance-content w c (list_next h req) fs p m e = inl e
advance-content w c (read_next h req d [] msgs) fs p m e = inl e
advance-content w c (read_next h req d (name ∷ rest) msgs) fs p m e = inl e
advance-content w c (remove_next h req d name rest msgs) fs p m e =
    inl (ground (arith, e, file-remove h d name fs p m))
advance-content w c (polled req d response) fs p m e = inl e

-- What a handlePoll has read, it had read before or reads now, from a file of its mailbox.
pub advance-All :
    (w : Wire) (c : Chatd) (job : Handler) (fs : Files) (p : DirPath) (P : ChatMessage → Type 0)
    → ((m b : Bytes) (msg : ChatMessage)
        → file fs p m ≡ some b
        → w.decode_message b ≡ some msg
        → P msg)
    → (box job ≡ some p → All P (taken job))
    → box (advance w c job fs).0 ≡ some p
    → All P (taken (advance w c job fs).0)
unfolding advance box taken opened
advance-All w c idle fs p P f k e = cc
advance-All w c (send_at fresh h req) fs p P f k e =
    rw (go_on-taken made h req (send_begins c h req fs).0).0 tt
advance-All w c (send_at made h req) fs p P f k e = rw (go_on-taken created h req _).0 tt
advance-All w c (send_at created h req) fs p P f k e = tt
advance-All w c (send_at written h req) fs p P f k e = tt
advance-All w c (sent h req response) fs p P f k e = tt
advance-All w c (list_next h req) fs p P f k e = elim (begin_poll-cases c h req fs) [
  | inl (names, q) ↦ rw (q, taken) tt
  | inr (response, q, none_read) ↦ rw (q, taken, none_read) tt
]
advance-All w c (read_next h req d [] msgs) fs p P f k e = k e
advance-All w c (read_next h req d (name ∷ rest) msgs) fs p P f k e =
    elim (Option-cases (readable w h d name fs)) [
      | inl q ↦ rw (q, opened, taken) (k (rw (q, opened, box) at e))
      | inr (msg, q) ↦
          let same : some d ≡ some p =
            sym (ap (λ x. box (opened h req d name rest msgs x)) q) ∙ e in
          let dir : d ≡ p = cc in
          let (b, content, decoded) = readable-file w h d name fs q in
          rw (q, opened, taken)
            (All-append P msgs (msg ∷ []) (k same)
              (f name b msg (sym (ap (λ x. file fs x name) dir) ∙ content) decoded, tt))
    ]
advance-All w c (remove_next h req d name rest msgs) fs p P f k e = k e
advance-All w c (polled req d response) fs p P f k e = k e
