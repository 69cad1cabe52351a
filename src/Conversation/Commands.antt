-- ===== src/Conversation/Commands.antt =====
-- zkchat/main.go: the runs of cmdSend and cmdPoll that succeed.
use zknode_autonomi_alpha.Prelude.{
  Bool, ◌≡◌, refl, ap, ◌∙◌, sym, true, false, List, [], ◌∷◌, ◌++◌, append_assoc, append-nil, Bytes,
  ok, codes, nat_Eq, list_Eq, arith, All, if◌then◌else◌,
}
use zknode_autonomi_alpha.Hex
use zknode_autonomi_alpha.Hex.{IsByte}
use zknode_autonomi_alpha.FilePath.{DirPath}
use zknode_autonomi_alpha.Files.{Files}
use zknode_autonomi_alpha.Chat.{ChatMessage, ChatResponse, ◌>>=◌, success}
use zknode_autonomi_alpha.Client.{Machine, Crypto, Mixnet, Format}
use zknode_autonomi_alpha.Client.Keys.{get_or_create_id, cfg_dir_for}
use zknode_autonomi_alpha.Client.Service.{send_request, dial}
use zknode_autonomi_alpha.Client.Talk.{
  parse_send_flags, parse_recipient, cmd_send, cmd_poll, send_parsed, send_chat, body_for, or_error,
  stored_note, line_of, show_message, print_messages, print_poll,
}
use zknode_autonomi_alpha.Conversation.{letter, look_up, IsPlain}

-- What cmdSend prints.
unfoldable pub said : Bool → Bytes → Bytes
said e2e recipient =
    codes "Sent to " ++ Hex.encode recipient ++ (if e2e then codes " [e2e]" else [])

pub All-split :
    (xs ys : List ChatMessage) → All IsPlain (xs ++ ys) → All IsPlain xs × All IsPlain ys
All-split [] ys h = (tt, h)
All-split (x ∷ xs) ys h = let (front, back) = All-split xs ys h.1 in ((h.0, front), back)

module _ (m : Machine) (k : Crypto) (x : Mixnet) (fmt : Format) where
  -- The lines that are printed for messages that are not sealed.
  abbrev pub lines_of : List ChatMessage → Bytes
  lines_of [] = []
  lines_of (msg ∷ msgs) = line_of m k x fmt msg (msg.content, msg.kind) ++ lines_of msgs

  pub print_messages-lines_of :
      (dir : DirPath) (msgs : List ChatMessage) (out : Bytes) (fs : Files)
      → All IsPlain msgs
      → print_messages m k x fmt dir msgs out fs ≡ (ok (out ++ lines_of msgs), fs)
  unfolding ◌>>=◌ print_messages show_message
  print_messages-lines_of dir [] out fs h = rw append-nil refl
  print_messages-lines_of dir (msg ∷ msgs) out fs h =
      let line = line_of m k x fmt msg (msg.content, msg.kind) in
      rw (h.0) (
        print_messages-lines_of dir msgs (out ++ line) fs h.1
        ∙ ap (λ t. (ok t, fs)) (append_assoc out line (lines_of msgs)))

  print_messages-append :
      (dir : DirPath) (pre post : List ChatMessage) (out : Bytes) (fs : Files)
      → All IsPlain pre
      → print_messages m k x fmt dir (pre ++ post) out fs
        ≡ print_messages m k x fmt dir post (out ++ lines_of pre) fs
  unfolding ◌>>=◌ print_messages show_message
  print_messages-append dir [] post out fs h =
      ap (λ o. print_messages m k x fmt dir post o fs) (sym (append-nil out))
  print_messages-append dir (msg ∷ pre) post out fs h =
      let line = line_of m k x fmt msg (msg.content, msg.kind) in
      rw (h.0) (
        print_messages-append dir pre post (out ++ line) fs h.1
        ∙ ap (λ o. print_messages m k x fmt dir post o fs) (append_assoc out line (lines_of pre)))

  print_poll-messages :
      (dir : DirPath) (pre post : List ChatMessage) (msg : ChatMessage) (fs : Files)
      → print_poll m k x fmt dir (pre ++ msg ∷ post) fs
        ≡ print_messages m k x fmt dir (pre ++ msg ∷ post) [] fs
  unfolding print_poll
  print_poll-messages dir [] post msg fs = refl
  print_poll-messages dir (p ∷ pre) post msg fs = refl

  -- The messages around one that is not plain are printed line by line, whatever that one shows.
  pub print_poll-lines_of :
      (dir : DirPath) (pre post : List ChatMessage) (msg : ChatMessage) (shown : Bytes × Bytes)
      (fs : Files)
      → All IsPlain pre
      → All IsPlain post
      → show_message m k x dir msg fs ≡ (ok shown, fs)
      → print_poll m k x fmt dir (pre ++ msg ∷ post) fs
        ≡ (ok (lines_of pre ++ (line_of m k x fmt msg shown ++ lines_of post)), fs)
  unfolding ◌>>=◌ print_messages
  print_poll-lines_of dir pre post msg shown fs before behind e =
      print_poll-messages dir pre post msg fs
      ∙ (print_messages-append dir pre (msg ∷ post) [] fs before
          ∙ rw e (
              print_messages-lines_of dir post (lines_of pre ++ line_of m k x fmt msg shown) fs
                behind
              ∙ ap (λ o. (ok o, fs))
                  (append_assoc (lines_of pre) (line_of m k x fmt msg shown) (lines_of post))))

  send_chat_run :
      (e2e : Bool) (a b text : Bytes) (fs : Files)
      → send_request x k (letter e2e a b text) fs ≡ (ok success, fs)
      → send_chat m k x a b e2e text fs ≡ (ok (said e2e b), fs)
  unfolding ◌>>=◌ send_chat or_error stored_note said
  send_chat_run true a b text fs sent = rw sent (ap (λ t. (ok t, fs)) (append-nil _))
  send_chat_run false a b text fs sent = rw sent (ap (λ t. (ok t, fs)) (append-nil _))

  pub cmd_send_run :
      (e2e : Bool) (args : List Bytes) (config recip_hex text body a b : Bytes) (fs fs' : Files)
      → parse_send_flags args
        ≡ record { rest = config ∷ recip_hex ∷ text ∷ []; via = []; e2e = e2e }
      → get_or_create_id m config fs ≡ (ok a, fs')
      → parse_recipient k recip_hex a ≡ ok b
      → body_for m k x e2e config recip_hex text fs' ≡ (ok body, fs')
      → x.connect config ≡ ok tt
      → send_request x k (letter e2e a b body) fs' ≡ (ok success, fs')
      → cmd_send m k x args fs ≡ (ok (said e2e b), fs')
  unfolding ◌>>=◌ cmd_send send_parsed dial
  cmd_send_run e2e args config recip_hex text body a b fs fs' flags id to packed on sent =
      rw (flags, id, to, packed, on) (send_chat_run e2e a b body fs' sent)

  pub cmd_poll_run :
      (config b : Bytes) (resp : ChatResponse) (fs fs' : Files)
      → get_or_create_id m config fs ≡ (ok b, fs')
      → x.connect config ≡ ok tt
      → send_request x k (look_up b) fs' ≡ (ok resp, fs')
      → resp.success ≡ true
      → cmd_poll m k x fmt (config ∷ []) fs
        ≡ print_poll m k x fmt (cfg_dir_for m config) resp.messages fs'
  unfolding ◌>>=◌ cmd_poll dial
  cmd_poll_run config b resp fs fs' id on sent s = ground (arith, id, on, sent, s)
