-- ===== src/Chat/Delivery.antt =====
-- chatd/main.go, direct messages: what handleSend writes, and who gets to see it.
pub mod Offload
use zknode_autonomi_alpha.Prelude.{
  true, false, ◌&&◌, ◌≡◌, refl, ap, none, some, List, [], ◌∷◌, ◌++◌, Bytes, codes, ◌==◌, ==_iff,
  nat_Eq, list_Eq, arith, All, inl, inr, Option-cases, Bool-cases, if◌then◌else◌, contains, ok,
  ==_refl,
}
use zknode_autonomi_alpha.Hex.{IsByte}
use zknode_autonomi_alpha.FilePath.{DirPath}
use zknode_autonomi_alpha.Files.{
  Files, Host, Syscall, file, names, add_dirs, put_file, mkdir_all, write_file, read_file, remove,
}
use zknode_autonomi_alpha.Files.Laws.{
  file-remove, removable, names_iff, IsWellFormed, IsWellFormed-add_dirs, IsWellFormed-put_file,
  has_dir-add_dirs, file-put_file, file-add_dirs,
}
use zknode_autonomi_alpha.Chat.{
  Chatd, Wire, ChatMessage, ChatRequest, ◌>>=◌, is_set, success, respond,
}
use zknode_autonomi_alpha.Chat.Direct.{
  readable, handle_poll, handle_send, new_message, recipient_of, offload,
}
use zknode_autonomi_alpha.Chat.Store.{user_dir, message_file, store_ant}
use zknode_autonomi_alpha.Chat.Layout.{ext-message_file}
use zknode_autonomi_alpha.Chat.Mailbox.{inbox, Willing, handle_poll_lem}

-- The files once a message has been written.
unfoldable pub deposited : Wire → Chatd → Host → ChatRequest → Files → Files
deposited w c h req fs =
    let d = user_dir c (recipient_of req) in
    let msg = new_message h req [] in
    put_file d (message_file msg.id) (w.encode_message msg) (add_dirs d fs)

module _ (w : Wire) (c : Chatd) (h : Host) (req : ChatRequest) (fs : Files) where
  -- With a sender and a content, on a host that refuses nothing, handleSend writes the message and
  -- then offers it to Autonomi.
  pub handle_send-deposited :
      is_set req.user_id ≡ true
      → is_set req.content ≡ true
      → Willing h
      → let msg = new_message h req [] in
        handle_send w c h req fs
        ≡ offload c h
            (user_dir c (recipient_of req))
            msg.id
            (w.encode_message msg)
            (deposited w c h req fs)
  unfolding ◌>>=◌ handle_send mkdir_all write_file deposited
  handle_send-deposited u t r =
      let d = user_dir c (recipient_of req) in
      ground (
        arith,
        u,
        t,
        r Syscall.mkdirs d,
        r Syscall.write (message_file (new_message h req []).id ∷ d),
        has_dir-add_dirs d fs,
      )

  pub file-deposited :
      (p : DirPath) (m : Bytes)
      → let d = user_dir c (recipient_of req) in
        let msg = new_message h req [] in
        file (deposited w c h req fs) p m ≡ (
          if (d == p) && (message_file msg.id == m)
          then some (w.encode_message msg)
          else file fs p m)
  unfolding deposited
  file-deposited p m =
      let d = user_dir c (recipient_of req) in
      ground (
        arith,
        file-put_file d (message_file (new_message h req []).id)
            (w.encode_message (new_message h req [])) (add_dirs d fs) p m (has_dir-add_dirs d fs),
        file-add_dirs d fs p m,
      )

  pub IsWellFormed-deposited : IsWellFormed fs → IsWellFormed (deposited w c h req fs)
  unfolding deposited
  IsWellFormed-deposited v =
      let d = user_dir c (recipient_of req) in
      IsWellFormed-put_file d _ _ (add_dirs d fs) (IsWellFormed-add_dirs d fs v)

module _ (w : Wire) (h : Host) (d : DirPath) where
  inbox-member :
      (ns : List Bytes) (fs : Files) (n : Bytes) (msg : ChatMessage)
      → contains ns n ≡ true
      → readable w h d n fs ≡ some msg
      → (pre post : List ChatMessage) × (inbox w h d ns fs ≡ pre ++ msg ∷ post)
  unfolding inbox contains
  inbox-member [] fs n msg k e = cc
  inbox-member (x ∷ ns) fs n msg k e = elim (Bool-cases (x == n)) [
    | inl here ↦
        let same : readable w h d x fs ≡ some msg = rw ((==_iff x n).0 here) e in
        ([], inbox w h d ns fs, rw (same, inbox))
    | inr there ↦
        let (pre, post, q) = inbox-member ns fs n msg (ground arith) e in
        elim (Option-cases (readable w h d x fs)) [
          | inl skip ↦ (pre, post, rw (skip, inbox) q)
          | inr (m, keep) ↦ (m ∷ pre, post, rw (keep, inbox) (ap (◌∷◌ m) q))
        ]
  ]

  pub inbox-nil :
      (ns : List Bytes) (fs : Files)
      → ((n : Bytes) → readable w h d n fs ≡ none)
      → inbox w h d ns fs ≡ []
  unfolding inbox
  inbox-nil [] fs k = refl
  inbox-nil (n ∷ ns) fs k = rw (k n, inbox) (inbox-nil ns fs k)

-- The text of a message survives fxamacker/cbor.
abbrev pub Survives : Wire → ChatMessage → Type 0
Survives w msg = w.decode_message (w.encode_message msg) ≡ some msg

module _ (w : Wire) (c : Chatd) (h h' : Host) (req : ChatRequest) (fs : Files) where
  pub readable-deposited :
      All IsByte h.random
      → Willing h'
      → Survives w (new_message h req [])
      → readable w h'
          (user_dir c (recipient_of req))
          (message_file (new_message h req []).id)
          (deposited w c h req fs)
        ≡ some (new_message h req [])
  unfolding readable read_file new_message
  readable-deposited b r s =
      let d = user_dir c (recipient_of req) in
      let n = message_file (new_message h req []).id in
      ground (
        arith,
        ext-message_file h b,
        ==_refl (codes ".msg"),
        r Syscall.read (n ∷ d),
        file-deposited w c h req fs d n,
        ==_refl d,
        ==_refl n,
        s,
      )

  deposited_is_named :
      contains
        (names (deposited w c h req fs) (user_dir c (recipient_of req)))
        (message_file (new_message h req []).id)
      ≡ true
  deposited_is_named =
      let d = user_dir c (recipient_of req) in
      let n = message_file (new_message h req []).id in
      ground (
        arith,
        names_iff (deposited w c h req fs) d n,
        file-deposited w c h req fs d n,
        ==_refl d,
        ==_refl n,
      )

is_set-recipient_of :
    (req : ChatRequest) → is_set req.user_id ≡ true → is_set (recipient_of req) ≡ true
unfolding recipient_of
is_set-recipient_of req u = ground arith

module _ (w : Wire) (c : Chatd) (h : Host) (req : ChatRequest) (fs : Files) where
  -- With Autonomi off, on a host that refuses nothing, handleSend succeeds and leaves just the
  -- message behind.
  pub handle_send_local :
      c.use_ant ≡ false
      → is_set req.user_id ≡ true
      → is_set req.content ≡ true
      → Willing h
      → respond (handle_send w c h req) fs ≡ (success, deposited w c h req fs)
  unfolding ◌>>=◌ respond offload
  handle_send_local a u t r = ground (arith, handle_send-deposited w c h req fs u t r, a)

  -- What is sent is received: with Autonomi off, on hosts that refuse nothing, in a store that names
  -- each file once, a message that has a sender, a content and random bytes for its ID, and survives
  -- its encoding, is among those that the next poll by its recipient returns (by its sender, where no
  -- recipient is given).
  pub handle_poll-handle_send :
      (h' : Host) (q : ChatRequest)
      → c.use_ant ≡ false
      → is_set req.user_id ≡ true
      → is_set req.content ≡ true
      → Willing h
      → Willing h'
      → All IsByte h.random
      → Survives w (new_message h req [])
      → q.user_id ≡ recipient_of req
      → IsWellFormed fs
      → let sent = respond (handle_send w c h req) fs in
        (pre post : List ChatMessage) × ((respond (handle_poll w c h' q) sent.1).0
          ≡ record success { messages = pre ++ new_message h req [] ∷ post })
  handle_poll-handle_send h' q a u t r r' b s e v =
      let d = user_dir c (recipient_of req) in
      let (pre, post, k) =
        inbox-member w h' d (names (deposited w c h req fs) d) (deposited w c h req fs)
          (message_file (new_message h req []).id) (new_message h req [])
          (deposited_is_named w c h h' req fs) (readable-deposited w c h h' req fs b r' s) in
      (
        pre,
        post,
        rw (handle_send_local a u t r) (
            rw (← k) (
              rw (← e)
                (handle_poll_lem w c h' q (deposited w c h req fs)
                  (rw e (is_set-recipient_of req u)) (r' Syscall.list (user_dir c q.user_id))
                  (IsWellFormed-deposited w c h req fs v)).0)),
      )
