-- ===== src/Conversation/Arrival.antt =====
-- chatd/main.go, as a client meets it through the mixnet.
use zknode_autonomi_alpha.Prelude.{
  Bool, ◌≡◌, refl, ap, ◌∙◌, sym, subst, true, false, List, [], ◌∷◌, ◌++◌, Bytes, ok, nat_Eq,
  list_Eq, list_eq, arith, All, contains,
}
use zknode_autonomi_alpha.Hex.{IsByte}
use zknode_autonomi_alpha.Files.{Files, Host, Syscall, names}
use zknode_autonomi_alpha.Files.Laws.{IsWellFormed}
use zknode_autonomi_alpha.Chat.{
  Wire, Chatd, ChatMessage, ChatRequest, ◌>>=◌, is_set, respond, success,
}
use zknode_autonomi_alpha.Chat.Store.{user_dir, message_file}
use zknode_autonomi_alpha.Chat.Direct.{new_message, recipient_of, handle_send, handle_poll}
use zknode_autonomi_alpha.Chat.Daemon.{process, serve, serve_decoded, plain, op_of, dispatch}
use zknode_autonomi_alpha.Chat.Mailbox.{Willing, handle_poll_lem}
use zknode_autonomi_alpha.Chat.Delivery.{
  Survives, deposited, handle_send_local, IsWellFormed-deposited,
}
use zknode_autonomi_alpha.Chat.Mailboxes.{mailboxes, deposit-Inserted}
use zknode_autonomi_alpha.Chat.Letters.{Inserted, inbox-letters}
use zknode_autonomi_alpha.Client.{Crypto, Mixnet}
use zknode_autonomi_alpha.Client.Service.{send_request, deliver}
use zknode_autonomi_alpha.Conversation.{Carries, letter, look_up}

module _ (w : Wire) (c : Chatd) (h : Host) where
  pub serve-letter :
      (e2e : Bool) (a b text : Bytes) (ds : Files)
      → serve w c h (letter e2e a b text) ds
        ≡ plain (respond (handle_send w c h (letter e2e a b text)) ds)
  unfolding serve op_of dispatch list_eq
  serve-letter true a b text ds = refl
  serve-letter false a b text ds = refl

  pub serve-look_up :
      (b : Bytes) (ds : Files)
      → serve w c h (look_up b) ds ≡ plain (respond (handle_poll w c h (look_up b)) ds)
  unfolding serve op_of dispatch list_eq
  serve-look_up b ds = refl

  pub process-serve :
      (req : ChatRequest) (payload : Bytes) (ds : Files)
      → w.decode_request payload ≡ ok req
      → (process w c h payload ds).0 ≡ serve w c h req ds
  unfolding process serve_decoded
  process-serve req payload ds e = rw e refl

  module _ (k : Crypto) (x : Mixnet) (req : ChatRequest) (ds : Files)
      (r : Carries w c h k x req ds) where
    pub send_request-serve :
        (fs : Files) → send_request x k req fs ≡ (ok (serve w c h req ds).response, fs)
    unfolding ◌>>=◌ send_request deliver
    send_request-serve fs = ground (
      arith,
      r.found,
      r.carried,
      r.read,
      ap (λ o. o.response) (process-serve req (x.encode_request req) ds r.understood),
    )

module _ (w : Wire) (c : Chatd) (ha hb : Host) (e2e : Bool) (a b text payload : Bytes)
    (ds : Files) where
  recipient_of-letter : is_set b ≡ true → recipient_of (letter e2e a b text) ≡ b
  unfolding recipient_of
  recipient_of-letter h = ground (arith, h)

  -- A letter is stored, and is among the messages of the next response to its recipient.
  pub posted :
      let req = letter e2e a b text in
      let msg = new_message ha req [] in
      let after = (process w c ha (payload) ds).0.files in
      c.use_ant ≡ false
      → IsWellFormed ds
      → Willing ha
      → Willing hb
      → All IsByte ha.random
      → Survives w msg
      → contains (names ds (user_dir c b)) (message_file msg.id) ≡ false
      → is_set a ≡ true
      → is_set b ≡ true
      → is_set text ≡ true
      → w.decode_request (payload) ≡ ok req
      → (pre post : List ChatMessage) × (mailboxes w c ds b ≡ pre ++ post)
        × ((serve w c ha req ds).response ≡ success)
        × ((serve w c hb (look_up b) after).response
            ≡ record success { messages = pre ++ msg ∷ post })
  posted off formed ra rb bytes kept new ua ub ut understood =
      let req = letter e2e a b text in
      let to = recipient_of-letter ub in
      let there : contains (names ds (user_dir c (recipient_of req)))
            (message_file (new_message ha req []).id)
          ≡ false =
        subst
          (λ u.
            contains (names ds (user_dir c u)) (message_file (new_message ha req []).id) ≡ false)
          (sym to) new in
      let sent =
        serve-letter w c ha e2e a b text ds
        ∙ ap plain (handle_send_local w c ha req ds off ua ut ra) in
      let stored : (process w c ha (payload) ds).0.files ≡ deposited w c ha req ds =
        ap (λ o. o.files) (process-serve w c ha req (payload) ds understood ∙ sent) in
      let (pre, post, old, now) =
        subst
          (λ u.
            Inserted (new_message ha req []) (mailboxes w c ds u)
              (mailboxes w c (deposited w c ha req ds) u))
          to (deposit-Inserted w c ha req ds ra bytes kept there) in
      (
        pre,
        post,
        old,
        ap (λ o. o.response) sent,
        rw (stored, serve-look_up w c hb b (deposited w c ha req ds))
            ((handle_poll_lem w c hb (look_up b) (deposited w c ha req ds) ub
                (rb Syscall.list (user_dir c b)) (IsWellFormed-deposited w c ha req ds formed)).0
              ∙ ap (λ msgs. record success { messages = msgs })
                  (inbox-letters w (user_dir c b) hb
                      (names (deposited w c ha req ds) (user_dir c b)) (deposited w c ha req ds) rb
                    ∙ now)),
      )
