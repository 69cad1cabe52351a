-- ===== src/Chat/Mailboxes.antt =====
-- chatd/main.go, direct messages: what the service promises, with no files in it, and that the handlers
-- keep to it over any sequence of sends and polls.
pub mod Runs
use zknode_autonomi_alpha.Prelude.{
  ◌≡◌, ◌≢◌, refl, ap, ◌∙◌, sym, subst, true, false, List, [], ◌∷◌, ◌++◌, Bytes, ◌==◌, ==_iff,
  nat_Eq, list_Eq, arith, inl, inr, Bool-cases, Option-cases, lookup, contains, All, before, keys,
  insert-absent,
}
use zknode_autonomi_alpha.Hex.{IsByte}
use zknode_autonomi_alpha.FilePath.{DirPath}
use zknode_autonomi_alpha.Files.{Files, Host, Syscall, names, remove}
use zknode_autonomi_alpha.Files.Laws.{IsWellFormed}
use zknode_autonomi_alpha.Files.Names.{names-deposit, names-deposit_ne, names-remove_ne}
use zknode_autonomi_alpha.Chat.{Wire, Chatd, ChatMessage, ChatRequest, is_set, respond}
use zknode_autonomi_alpha.Chat.Store.{user_dir, message_file}
use zknode_autonomi_alpha.Chat.Direct.{
  new_message, recipient_of, handle_send, handle_poll, take_messages, readable,
}
use zknode_autonomi_alpha.Chat.Layout.{user_dir-injective}
use zknode_autonomi_alpha.Chat.Mailbox.{
  Willing, handle_poll_run, handle_poll_lem, handle_poll-IsWellFormed,
}
use zknode_autonomi_alpha.Chat.Delivery.{
  Survives, deposited, handle_send_local, file-deposited, IsWellFormed-deposited,
  readable-deposited,
}
use zknode_autonomi_alpha.Chat.Drained.{drained}
use zknode_autonomi_alpha.Chat.Letters.{
  letters, letters-cong, letters-nil, inbox-letters, readable-peek, Inserted, letters-place,
}

-- What can be seen of an operation: a message goes to a user, or a user gets messages.
pub data Event : Type 0 where
  sent : Bytes → ChatMessage → Event
  got : Bytes → List ChatMessage → Event

-- The messages that wait for each user.
abbrev pub Mailboxes : Type 0
Mailboxes = Bytes → List ChatMessage

-- The promise. A sent message is put among those of its recipient, at a place that is not promised;
-- a poll hands over all messages of its user; the mailboxes of the others stay as they are.
pub data Promise (m : Mailboxes) : Event → Mailboxes → Type 0 where
  put_in :
      (u : Bytes) (msg : ChatMessage) (m' : Mailboxes)
      → Inserted msg (m u) (m' u)
      → ((v : Bytes) → All IsByte v → v ≢ u → m' v ≡ m v)
      → Promise m (sent u msg) m'
  collect :
      (u : Bytes) (m' : Mailboxes)
      → m' u ≡ []
      → ((v : Bytes) → All IsByte v → v ≢ u → m' v ≡ m v)
      → Promise m (got u (m u)) m'

-- One request of either kind to the handlers, on a host that refuses nothing, with Autonomi off. An ID
-- is sixteen random bytes, and is taken not to be in the mailbox already.
pub data Operation (w : Wire) (c : Chatd) (fs : Files) : Event → Files → Type 0 where
  send :
      (h : Host) (req : ChatRequest)
      → Willing h
      → All IsByte h.random
      → All IsByte (recipient_of req)
      → is_set req.user_id ≡ true
      → is_set req.content ≡ true
      → Survives w (new_message h req [])
      → contains (names fs (user_dir c (recipient_of req))) (message_file (new_message h req []).id)
        ≡ false
      → Operation w c fs
          (sent (recipient_of req) (new_message h req []))
          (respond (handle_send w c h req) fs).1
  poll :
      (h : Host) (req : ChatRequest)
      → Willing h
      → All IsByte req.user_id
      → is_set req.user_id ≡ true
      → Operation w c fs
          (got req.user_id (respond (handle_poll w c h req) fs).0.messages)
          (respond (handle_poll w c h req) fs).1

module _ (w : Wire) (c : Chatd) where
  -- The abstract view of the store.
  abbrev pub mailboxes : Files → Mailboxes
  mailboxes fs u = letters w (user_dir c u) (names fs (user_dir c u)) fs

  dirs_differ :
      (u v : Bytes) → All IsByte u → All IsByte v → v ≢ u → (user_dir c u == user_dir c v) ≡ false
  dirs_differ u v hu hv ne = elim (Bool-cases (user_dir c u == user_dir c v)) [
    | inr e ↦ e
    | inl e ↦
        absurd
          (ne (sym (user_dir-injective c u v hu hv ((==_iff (user_dir c u) (user_dir c v)).0 e))))
  ]

  Inserted-cong :
      {msg : ChatMessage} {xs xs' ys ys' : List ChatMessage}
      → xs' ≡ xs
      → ys' ≡ ys
      → Inserted msg xs ys
      → Inserted msg xs' ys'
  Inserted-cong e e' (pre, post, p, q) = (pre, post, e ∙ p, e' ∙ q)

  module _ (h : Host) (req : ChatRequest) (fs : Files) where
    pub deposit-Inserted :
        Willing h
        → All IsByte h.random
        → Survives w (new_message h req [])
        → contains
            (names fs (user_dir c (recipient_of req)))
            (message_file (new_message h req []).id)
          ≡ false
        → Inserted
            (new_message h req [])
            (mailboxes fs (recipient_of req))
            (mailboxes (deposited w c h req fs) (recipient_of req))
    unfolding deposited
    deposit-Inserted r b s new =
        let d = user_dir c (recipient_of req) in
        let msg = new_message h req [] in
        let n = message_file msg.id in
        let x = w.encode_message msg in
        let fs' = deposited w c h req fs in
        let (es, old, listed) = names-deposit d n x fs in
        let absent : contains (keys es) n ≡ false = subst (λ ns. contains ns n ≡ false) old new in
        Inserted-cong (ap (λ ns. letters w d ns fs) old)
          (ap (λ ns. letters w d ns fs') (listed ∙ ap keys (insert-absent before n x es absent)))
          (letters-place w d n x es fs fs' msg absent
            (λ m ne. ground (arith, file-deposited w c h req fs d m, ne))
            (sym (readable-peek w d h n fs' r) ∙ readable-deposited w c h h req fs b r s))

    deposit-others :
        (v : Bytes)
        → All IsByte (recipient_of req)
        → All IsByte v
        → v ≢ recipient_of req
        → mailboxes (deposited w c h req fs) v ≡ mailboxes fs v
    unfolding deposited
    deposit-others v hu hv ne =
        let d = user_dir c (recipient_of req) in
        let p = user_dir c v in
        let apart = dirs_differ (recipient_of req) v hu hv ne in
        let msg = new_message h req [] in
        ap (λ ns. letters w p ns (deposited w c h req fs))
          (names-deposit_ne d (message_file msg.id) (w.encode_message msg) fs p apart)
        ∙ letters-cong w p (names fs p) (deposited w c h req fs) fs
            (λ m k. ground (arith, file-deposited w c h req fs p m, apart))

  take_messages-names :
      (h : Host) (d p : DirPath) (ns : List Bytes) (msgs : List ChatMessage) (fs : Files)
      → (d == p) ≡ false
      → names (take_messages w h d ns msgs fs).1 p ≡ names fs p
  unfolding take_messages
  take_messages-names h d p [] msgs fs ne = refl
  take_messages-names h d p (n ∷ ns) msgs fs ne = elim (Option-cases (readable w h d n fs)) [
    | inl e ↦ rw (e, take_messages) (take_messages-names h d p ns msgs fs ne)
    | inr (msg, e) ↦
        rw (e, take_messages)
          (take_messages-names h d p ns (msgs ++ msg ∷ []) (remove h d n fs) ne
            ∙ names-remove_ne h d n fs p ne)
  ]

  module _ (h : Host) (q : ChatRequest) (fs : Files) where
    poll-others :
        (v : Bytes)
        → Willing h
        → is_set q.user_id ≡ true
        → IsWellFormed fs
        → All IsByte q.user_id
        → All IsByte v
        → v ≢ q.user_id
        → mailboxes (respond (handle_poll w c h q) fs).1 v ≡ mailboxes fs v
    poll-others v r u f hu hv ne =
        let d = user_dir c q.user_id in
        let p = user_dir c v in
        let after = (respond (handle_poll w c h q) fs).1 in
        let apart = dirs_differ q.user_id v hu hv ne in
        let named : names after p ≡ names fs p =
          ap (λ x. names x.1 p) (handle_poll_run w c h q fs u (r Syscall.list d))
          ∙ take_messages-names h d p (names fs d) [] fs apart in
        ap (λ ns. letters w p ns after) named
        ∙ letters-cong w p (names fs p) after fs (λ m k.
          ground (arith, (handle_poll_lem w c h q fs u (r Syscall.list d) f).1 p m, apart))

    poll-empties :
        Willing h
        → is_set q.user_id ≡ true
        → IsWellFormed fs
        → mailboxes (respond (handle_poll w c h q) fs).1 q.user_id ≡ []
    poll-empties r u f =
        let d = user_dir c q.user_id in
        let after = (respond (handle_poll w c h q) fs).1 in
        letters-nil w d (names after d) after
          (λ n. sym (readable-peek w d h n after r) ∙ drained w c h q fs h u r f n)

    pub poll-messages :
        Willing h
        → is_set q.user_id ≡ true
        → IsWellFormed fs
        → (respond (handle_poll w c h q) fs).0.messages ≡ mailboxes fs q.user_id
    poll-messages r u f =
        let d = user_dir c q.user_id in
        ap (λ x. x.messages) (handle_poll_lem w c h q fs u (r Syscall.list d) f).0
        ∙ inbox-letters w d h (names fs d) fs r
