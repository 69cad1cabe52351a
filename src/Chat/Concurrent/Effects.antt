-- ===== src/Chat/Concurrent/Effects.antt =====
-- chatd/main.go, direct messages at the same time: what a step of a handler does to the store.
use zknode_autonomi_alpha.Prelude.{
  true, false, ◌&&◌, ◌≡◌, ◌≢◌, refl, ◌∙◌, sym, none, some, [], ◌∷◌, Bytes, Result, ok, err, codes,
  ◌==◌, ==_iff, ==_refl, nat_Eq, list_Eq, arith, inl, inr, Option-cases, Bool-cases,
}
use zknode_autonomi_alpha.FilePath.{DirPath}
use zknode_autonomi_alpha.Files.{Files, Host, file, has_dir, mkdir_all, write_file}
use zknode_autonomi_alpha.Files.Laws.{file-put_file, file-add_dirs, file-remove}
use zknode_autonomi_alpha.Chat.{Chatd, Wire, ChatRequest, ◌>>=◌, attempt, success}
use zknode_autonomi_alpha.Chat.Direct.{offload}
use zknode_autonomi_alpha.Chat.Concurrent.{
  Handler, idle, send_at, sent, list_next, read_next, remove_next, polled, fresh, made, created,
  written, advance, fill, the_file, target, pending, send_begins, go_on, mailbox_of, name_of,
  blob_of, expected,
}

pub named : {d p : DirPath} {n m : Bytes} → d ≡ p → n ≡ m → the_file d n ≡ the_file p m
named e e' = cc

pub named_both : {d p : DirPath} {n m : Bytes} → the_file d n ≡ the_file p m → (d ≡ p) × (n ≡ m)
named_both e = (cc, cc)

pub apart :
    (d p : DirPath) (n m : Bytes) → the_file d n ≢ the_file p m → ((d == p) && (n == m)) ≡ false
apart d p n m k = elim (Bool-cases ((d == p) && (n == m))) [
  | inr e ↦ e
  | inl e ↦ elim (k (named ((==_iff d p).0 (ground arith)) ((==_iff n m).0 (ground arith)))) [ ]
]

pub has_dir_of_file :
    (d : DirPath) (n : Bytes) (fs : Files) {b : Bytes} → file fs d n ≡ some b → has_dir fs d ≡ true
unfolding file has_dir
has_dir_of_file d n fs e = ground arith

file-fill-elsewhere :
    (d : DirPath) (n b : Bytes) (fs : Files) (p : DirPath) (m : Bytes)
    → ((d == p) && (n == m)) ≡ false
    → file (fill d n b fs) p m ≡ file fs p m
unfolding fill
file-fill-elsewhere d n b fs p m k = elim (Option-cases (file fs d n)) [
  | inl e ↦ rw (e, fill)
  | inr (x, e) ↦
      rw (e, fill) (ground (arith, k, file-put_file d n b fs p m (has_dir_of_file d n fs e)))
]

file-fill :
    (d : DirPath) (n b : Bytes) (fs : Files) {x : Bytes}
    → file fs d n ≡ some x
    → file (fill d n b fs) d n ≡ some b
unfolding fill
file-fill d n b fs e =
    rw (e, fill)
      (ground (arith, ==_refl d, ==_refl n, file-put_file d n b fs d n (has_dir_of_file d n fs e)))

pub send_begins-file :
    (c : Chatd) (h : Host) (req : ChatRequest) (fs : Files) (p : DirPath) (m : Bytes)
    → file (send_begins c h req fs).1 p m ≡ file fs p m
unfolding ◌>>=◌ send_begins mkdir_all
send_begins-file c h req fs p m = ground (arith, file-add_dirs (mailbox_of c req) fs p m)

-- Opening a file for writing changes no other one.
opening-file :
    (h : Host) (label : Bytes) (d : DirPath) (n : Bytes) (fs : Files) (p : DirPath) (m : Bytes)
    → ((d == p) && (n == m)) ≡ false
    → file (attempt h label (write_file h d n []) fs).1 p m ≡ file fs p m
unfolding attempt write_file
opening-file h label d n fs p m k = ground (arith, k, file-put_file d n [] fs p m)

offload-files :
    (c : Chatd) (h : Host) (d : DirPath) (id b : Bytes) (fs : Files)
    → c.use_ant ≡ false
    → offload c h d id b fs ≡ (ok success, fs)
unfolding offload
offload-files c h d id b fs a = ground (arith, a)

-- With Autonomi off, a step changes no file but the one that its handler writes and the one that it
-- was about to remove.
pub advance-elsewhere :
    (w : Wire) (c : Chatd) (job : Handler) (fs : Files) (p : DirPath) (m : Bytes)
    → c.use_ant ≡ false
    → target c job ≢ the_file p m
    → pending job ≢ the_file p m
    → file (advance w c job fs).1 p m ≡ file fs p m
unfolding advance target pending
advance-elsewhere w c idle fs p m a t q = refl
advance-elsewhere w c (send_at fresh h req) fs p m a t q = send_begins-file c h req fs p m
advance-elsewhere w c (send_at made h req) fs p m a t q =
    opening-file h (codes "write: ") (mailbox_of c req) (name_of h) fs p m (apart _ p _ m t)
advance-elsewhere w c (send_at created h req) fs p m a t q =
    file-fill-elsewhere (mailbox_of c req) (name_of h) (blob_of w h req) fs p m (apart _ p _ m t)
advance-elsewhere w c (send_at written h req) fs p m a t q = rw (offload-files c h _ _ _ fs a) refl
advance-elsewhere w c (sent h req response) fs p m a t q = refl
advance-elsewhere w c (list_next h req) fs p m a t q = refl
advance-elsewhere w c (read_next h req d [] msgs) fs p m a t q = refl
advance-elsewhere w c (read_next h req d (name ∷ rest) msgs) fs p m a t q = refl
advance-elsewhere w c (remove_next h req d name rest msgs) fs p m a t q =
    ground (arith, apart d p name m q, file-remove h d name fs p m)
advance-elsewhere w c (polled req d response) fs p m a t q = refl

opening-expected :
    (w : Wire) (h : Host) (req : ChatRequest) (label : Bytes) (d : DirPath) (n : Bytes) (fs : Files)
    → file fs d n ≡ none
    → let (outcome, fs') = attempt h label (write_file h d n []) fs in
      file fs' d n ≡ expected w (go_on created h req outcome)
unfolding attempt write_file go_on expected
opening-expected w h req label d n fs k =
    ground (arith, k, file-put_file d n [] fs d n, ==_refl d, ==_refl n)

begins-expected :
    (w : Wire) (h : Host) (req : ChatRequest) (outcome : Result (Unit {0}))
    → expected w (go_on made h req outcome) ≡ none
unfolding go_on expected
begins-expected w h req (ok u) = refl
begins-expected w h req (err e) = refl

-- A handleSend that finds its file as it expects it leaves it as it expects it.
pub advance-expected :
    (w : Wire) (c : Chatd) (job : Handler) (fs : Files) (p : DirPath) (m : Bytes)
    → c.use_ant ≡ false
    → target c job ≡ the_file p m
    → file fs p m ≡ expected w job
    → file (advance w c job fs).1 p m ≡ expected w (advance w c job fs).0
unfolding advance target expected
advance-expected w c (send_at fresh h req) fs p m a t e =
    send_begins-file c h req fs p m ∙ e ∙ sym (begins-expected w h req (send_begins c h req fs).0)
advance-expected w c (send_at made h req) fs p m a t e =
    let (dir, name) = named_both t in
    rw (← dir, ← name)
      (opening-expected w h req (codes "write: ") (mailbox_of c req) (name_of h) fs
        (rw (dir, name) e))
advance-expected w c (send_at created h req) fs p m a t e =
    let (dir, name) = named_both t in
    rw (← dir, ← name)
      (file-fill (mailbox_of c req) (name_of h) (blob_of w h req) fs {x = []} (rw (dir, name) e))
advance-expected w c (send_at written h req) fs p m a t e = rw (offload-files c h _ _ _ fs a) e
advance-expected w c (sent h req response) fs p m a t e = e
advance-expected w c idle fs p m a t e = cc
advance-expected w c (list_next h req) fs p m a t e = cc
advance-expected w c (read_next h req d ns msgs) fs p m a t e = cc
advance-expected w c (remove_next h req d n ns msgs) fs p m a t e = cc
advance-expected w c (polled req d response) fs p m a t e = cc
