-- ===== src/Conversation/Plain.antt =====
-- zkchat/main.go and chatd/main.go: a message that is not sealed.
use zknode_autonomi_alpha.Prelude.{
  ◌≡◌, refl, ap, ◌∙◌, subst, true, false, List, [], ◌∷◌, ◌++◌, Bytes, ok, codes, nat_Eq, list_Eq,
  list_eq, All, contains,
}
use zknode_autonomi_alpha.Hex.{IsByte}
use zknode_autonomi_alpha.FilePath.{DirPath}
use zknode_autonomi_alpha.Files.{Files, Host, names}
use zknode_autonomi_alpha.Files.Laws.{IsWellFormed}
use zknode_autonomi_alpha.Chat.{Wire, Chatd, ChatMessage, ◌>>=◌, is_set}
use zknode_autonomi_alpha.Chat.Store.{user_dir, message_file}
use zknode_autonomi_alpha.Chat.Direct.{new_message}
use zknode_autonomi_alpha.Chat.Daemon.{process}
use zknode_autonomi_alpha.Chat.Mailbox.{Willing}
use zknode_autonomi_alpha.Chat.Delivery.{Survives}
use zknode_autonomi_alpha.Chat.Mailboxes.{mailboxes}
use zknode_autonomi_alpha.Client.{Machine, Crypto, Mixnet, Format}
use zknode_autonomi_alpha.Client.Keys.{get_or_create_id, cfg_dir_for}
use zknode_autonomi_alpha.Client.Talk.{
  parse_send_flags, parse_recipient, cmd_send, cmd_poll, body_for, line_of, show_message,
}
use zknode_autonomi_alpha.Client.Flags.{IsPositional, parse_flags-positional}
use zknode_autonomi_alpha.Conversation.{Carries, letter, look_up, IsPlain}
use zknode_autonomi_alpha.Conversation.Arrival.{send_request-serve, posted}
use zknode_autonomi_alpha.Conversation.Commands.{
  said, lines_of, print_poll-lines_of, cmd_send_run, cmd_poll_run, All-split,
}

-- One user writes to another: two machines, each with a command line, its files and its mixnet, and
-- the daemon with its files.
module _ (w : Wire) (c : Chatd) (k : Crypto) (fmt : Format) (alice bob : Machine) (xa xb : Mixnet)
    (ha hb : Host) (a b text : Bytes) (ds : Files) where
  show_letter :
      (dir : DirPath) (fs : Files)
      → show_message bob k xb dir (new_message ha (letter false a b text) []) fs
        ≡ (ok (text, codes "text"), fs)
  unfolding ◌>>=◌ show_message new_message list_eq
  show_letter dir fs = refl

  body_for-plain :
      (config recip_hex : Bytes) (fs : Files)
      → body_for alice k xa false config recip_hex text fs ≡ (ok text, fs)
  unfolding body_for
  body_for-plain config recip_hex fs = refl

  -- A user's message arrives at another user's screen. Let both commands get the identity of their
  -- user and connect, the recipient argument name the second user, and no argument be a flag; let
  -- Autonomi be off, the hosts refuse nothing, the store name each file once, and the mixnet carry both
  -- requests; let the users' IDs and the text not be empty, the message survive the daemon's encoding,
  -- its ID be new and made of bytes, and nothing that waits be sealed. Then the first command says that
  -- it has sent the message, and the second prints the lines of all that waited and, at some place among
  -- them, the line of this message, with its text and its sender.
  pub cmd_poll-cmd_send :
      (config_a config_b recip_hex : Bytes) (fa fa' fb fb' : Files)
      → let after = (process w c ha (xa.encode_request (letter false a b text)) ds).0.files in
        c.use_ant ≡ false
        → IsWellFormed ds
        → Willing ha
        → Willing hb
        → All IsByte ha.random
        → Survives w (new_message ha (letter false a b text) [])
        → contains
            (names ds (user_dir c b))
            (message_file (new_message ha (letter false a b text) []).id)
          ≡ false
        → is_set a ≡ true
        → is_set b ≡ true
        → is_set text ≡ true
        → All IsPositional (config_a ∷ recip_hex ∷ text ∷ [])
        → get_or_create_id alice config_a fa ≡ (ok a, fa')
        → parse_recipient k recip_hex a ≡ ok b
        → get_or_create_id bob config_b fb ≡ (ok b, fb')
        → xa.connect config_a ≡ ok tt
        → xb.connect config_b ≡ ok tt
        → Carries w c ha k xa (letter false a b text) ds
        → Carries w c hb k xb (look_up b) after
        → All IsPlain (mailboxes w c ds b)
        → ((cmd_send alice k xa (config_a ∷ recip_hex ∷ text ∷ []) fa).0 ≡ ok (said false b))
          × (pre post : List ChatMessage) × (mailboxes w c ds b ≡ pre ++ post)
          × ((cmd_poll bob k xb fmt (config_b ∷ []) fb).0
              ≡ ok (
                  lines_of bob k xb fmt pre
                  ++ (line_of bob k xb fmt
                        (new_message ha (letter false a b text) [])
                        (text, codes "text")
                      ++ lines_of bob k xb fmt post)))
  unfolding parse_send_flags
  cmd_poll-cmd_send config_a config_b recip_hex fa fa' fb fb' off formed ra rb bytes kept new ua ub
        ut pos ida to idb ona onb goes comes waiting =
      let req = letter false a b text in
      let msg = new_message ha req [] in
      let (pre, post, old, first, second) =
        posted w c ha hb false a b text (xa.encode_request req) ds off formed ra rb bytes kept new
          ua ub ut goes.understood in
      let (before, behind) = All-split pre post (subst (All IsPlain) old waiting) in
      let asked =
        send_request-serve w c hb k xb (look_up b) _ comes fb' ∙ ap (λ r. (ok r, fb')) second in
      let told = send_request-serve w c ha k xa req ds goes fa' ∙ ap (λ r. (ok r, fa')) first in
      (
        ap (λ r. r.0)
            (cmd_send_run alice k xa fmt false _ config_a recip_hex text text a b fa fa'
              (parse_flags-positional (config_a ∷ recip_hex ∷ text ∷ [])
                (record { rest = []; via = []; e2e = false }) pos)
              ida to (body_for-plain config_a recip_hex fa') ona told),
        pre,
        post,
        old,
        ap (λ r. r.0)
            (cmd_poll_run bob k xb fmt config_b b _ fb fb' idb onb asked refl
              ∙ print_poll-lines_of bob k xb fmt (cfg_dir_for bob config_b) pre post msg _ fb'
                  before behind (show_letter (cfg_dir_for bob config_b) fb')),
      )
