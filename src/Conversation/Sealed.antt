-- ===== src/Conversation/Sealed.antt =====
-- zkchat/main.go and chatd/main.go: a message that is sealed for its recipient.
use zknode_autonomi_alpha.Prelude.{
  length, take, ok-injective, ◌≡◌, refl, ap, ◌∙◌, sym, subst, true, false, some, List, [], ◌∷◌,
  ◌++◌, Bytes, ok, codes, nat_Eq, list_Eq, list_eq, arith, All, contains,
}
use zknode_autonomi_alpha.Hex.{IsByte}
use zknode_autonomi_alpha.FilePath.{DirPath}
use zknode_autonomi_alpha.Files.{Files, done, read_file, Host, names}
use zknode_autonomi_alpha.Files.Laws.{IsWellFormed}
use zknode_autonomi_alpha.Chat.{Wire, Chatd, ChatMessage, ◌>>=◌, is_set}
use zknode_autonomi_alpha.Chat.Store.{user_dir, message_file}
use zknode_autonomi_alpha.Chat.Direct.{new_message}
use zknode_autonomi_alpha.Chat.Daemon.{process}
use zknode_autonomi_alpha.Chat.Mailbox.{Willing}
use zknode_autonomi_alpha.Chat.Delivery.{Survives}
use zknode_autonomi_alpha.Chat.Mailboxes.{mailboxes}
use zknode_autonomi_alpha.Client.{Machine, Crypto, Mixnet, Format}
use zknode_autonomi_alpha.Client.Keys.{
  load_e2e_pub, e2e_seal, e2e_open, keypair_file, kept, create_keypair, load_or_create_e2e_keypair,
  get_or_create_id, cfg_dir_for,
}
use zknode_autonomi_alpha.Client.Talk.{
  e2e_flag, parse_flags, stored_scalar, unlock, opened, parse_send_flags, parse_recipient, cmd_send,
  cmd_poll, body_for, line_of, show_message,
}
use zknode_autonomi_alpha.Client.Sealing.{IsSound, e2e_open-e2e_seal}
use zknode_autonomi_alpha.Client.Flags.{parse_flags-append, parse_flags-e2e, IsPositional}
use zknode_autonomi_alpha.Conversation.{Carries, letter, look_up, IsPlain}
use zknode_autonomi_alpha.Conversation.Arrival.{send_request-serve, posted}
use zknode_autonomi_alpha.Conversation.Commands.{
  said, lines_of, print_poll-lines_of, cmd_send_run, cmd_poll_run, All-split,
}

-- One user writes to another: two machines, each with a command line, its files and its mixnet, and
-- the daemon with its files.
module _ (w : Wire) (c : Chatd) (k : Crypto) (fmt : Format) (alice bob : Machine) (xa xb : Mixnet)
    (ha hb : Host) (a b text sealed : Bytes) (ds : Files) where
  parse-sealed :
      (config recip_hex : Bytes)
      → All IsPositional (config ∷ recip_hex ∷ text ∷ [])
      → parse_send_flags (config ∷ recip_hex ∷ text ∷ e2e_flag ∷ [])
        ≡ record { rest = config ∷ recip_hex ∷ text ∷ []; via = []; e2e = true }
  unfolding parse_send_flags parse_flags
  parse-sealed config recip_hex pos =
      parse_flags-append (config ∷ recip_hex ∷ text ∷ []) (e2e_flag ∷ []) _ pos
      ∙ parse_flags-e2e [] _

  body_for-sealed :
      (config recip_hex peer : Bytes) (fs : Files)
      → load_e2e_pub alice (cfg_dir_for alice config) recip_hex fs ≡ some peer
      → e2e_seal k alice peer text ≡ ok sealed
      → body_for alice k xa true config recip_hex text fs ≡ (ok sealed, fs)
  unfolding ◌>>=◌ body_for
  body_for-sealed config recip_hex peer fs held sealing = rw (body_for, held, sealing) refl

  show_sealed :
      (dir : DirPath) (raw : Bytes) (fs : Files)
      → read_file bob.host dir keypair_file fs ≡ done raw
      → length raw ≡ 64
      → e2e_open k (take 32 raw) sealed ≡ ok text
      → show_message bob k xb dir (new_message ha (letter true a b sealed) []) fs
        ≡ (ok (text, codes "e2e"), fs)
  unfolding ◌>>=◌ show_message new_message list_eq load_or_create_e2e_keypair create_keypair kept
      stored_scalar unlock opened
  show_sealed dir raw fs key full works = ground (arith, key, full, works)

  -- A sealed message arrives in the clear at another user's screen. Let both commands get the identity
  -- of their user and connect, the recipient argument name the second user, and no argument but --e2e be
  -- a flag; let Autonomi be off, the hosts refuse nothing, the store name each file once, and the mixnet
  -- carry both requests; let the users' IDs and the sealed text not be empty, the message survive the
  -- daemon's encoding, its ID be new and made of bytes, and nothing that waits be sealed. Let the first
  -- user hold the public key of the second, whose key pair is on disk, the primitives keep their
  -- promises, and the random source, with a nonce of 24 bytes, and the key agreement give a result. Then
  -- the first command says that it has sent the message, the daemon is sent the sealed text, and the
  -- second command prints the lines of all that waited and, at some place among them, the line of this
  -- message, with the text that was sealed, its sender and the tag e2e.
  pub cmd_poll-cmd_send_sealed :
      (config_a config_b recip_hex peer raw eph_priv eph_pub nonce shared : Bytes)
      (fa fa' fb fb' : Files)
      → let after = (process w c ha (xa.encode_request (letter true a b sealed)) ds).0.files in
        c.use_ant ≡ false
        → IsWellFormed ds
        → Willing ha
        → Willing hb
        → All IsByte ha.random
        → Survives w (new_message ha (letter true a b sealed) [])
        → contains
            (names ds (user_dir c b))
            (message_file (new_message ha (letter true a b sealed) []).id)
          ≡ false
        → is_set a ≡ true
        → is_set b ≡ true
        → is_set sealed ≡ true
        → All IsPositional (config_a ∷ recip_hex ∷ text ∷ [])
        → get_or_create_id alice config_a fa ≡ (ok a, fa')
        → parse_recipient k recip_hex a ≡ ok b
        → get_or_create_id bob config_b fb ≡ (ok b, fb')
        → xa.connect config_a ≡ ok tt
        → xb.connect config_b ≡ ok tt
        → Carries w c ha k xa (letter true a b sealed) ds
        → Carries w c hb k xb (look_up b) after
        → All IsPlain (mailboxes w c ds b)
        → IsSound k
        → load_e2e_pub alice (cfg_dir_for alice config_a) recip_hex fa' ≡ some peer
        → e2e_seal k alice peer text ≡ ok sealed
        → read_file bob.host (cfg_dir_for bob config_b) keypair_file fb' ≡ done raw
        → length raw ≡ 64
        → k.x25519 (take 32 raw) k.base_point ≡ ok peer
        → alice.ephemeral_bytes ≡ ok eph_priv
        → alice.nonce_bytes ≡ ok nonce
        → length nonce ≡ 24
        → k.x25519 eph_priv k.base_point ≡ ok eph_pub
        → k.x25519 eph_priv peer ≡ ok shared
        → ((cmd_send alice k xa (config_a ∷ recip_hex ∷ text ∷ e2e_flag ∷ []) fa).0
            ≡ ok (said true b))
          × (pre post : List ChatMessage) × (mailboxes w c ds b ≡ pre ++ post)
          × ((cmd_poll bob k xb fmt (config_b ∷ []) fb).0
              ≡ ok (
                  lines_of bob k xb fmt pre
                  ++ (line_of bob k xb fmt
                        (new_message ha (letter true a b sealed) [])
                        (text, codes "e2e")
                      ++ lines_of bob k xb fmt post)))
  unfolding parse_send_flags
  cmd_poll-cmd_send_sealed config_a config_b recip_hex peer raw eph_priv eph_pub nonce shared fa fa'
        fb fb' off formed ra rb bytes kept new ua ub ut pos ida to idb ona onb goes comes waiting
        sound held sealing key full own random fresh sized eph agreed =
      let (made, sealing', opening) =
        e2e_open-e2e_seal k sound alice (take 32 raw) peer text eph_priv eph_pub nonce shared own
          random fresh sized eph agreed in
      let works = ap (e2e_open k (take 32 raw)) (ok-injective (sym sealing ∙ sealing')) ∙ opening in
      let packed = body_for-sealed config_a recip_hex peer fa' held sealing in
      let req = letter true a b sealed in
      let msg = new_message ha req [] in
      let (pre, post, old, first, second) =
        posted w c ha hb true a b sealed (xa.encode_request req) ds off formed ra rb bytes kept new
          ua ub ut goes.understood in
      let (before, behind) = All-split pre post (subst (All IsPlain) old waiting) in
      let asked =
        send_request-serve w c hb k xb (look_up b) _ comes fb' ∙ ap (λ r. (ok r, fb')) second in
      let told = send_request-serve w c ha k xa req ds goes fa' ∙ ap (λ r. (ok r, fa')) first in
      (
        ap (λ r. r.0)
            (cmd_send_run alice k xa fmt true _ config_a recip_hex text sealed a b fa fa'
              (parse-sealed config_a recip_hex pos) ida to packed ona told),
        pre,
        post,
        old,
        ap (λ r. r.0)
            (cmd_poll_run bob k xb fmt config_b b _ fb fb' idb onb asked refl
              ∙ print_poll-lines_of bob k xb fmt (cfg_dir_for bob config_b) pre post msg _ fb'
                  before behind (show_sealed (cfg_dir_for bob config_b) raw fb' key full works)),
      )
