-- ===== src/Conversation/Tests/Letters.antt =====
-- zkchat/main.go and chatd/main.go, run together.
use zknode_autonomi_alpha.Prelude.{
  ◌≡◌, refl, ap, sym, subst, All, false, List, [], ◌∷◌, ◌++◌, Bytes, ok, codes, replicate, contains,
  list_eq, lookup, insert, nat_Eq, list_Eq,
}
use zknode_autonomi_alpha.Hex
use zknode_autonomi_alpha.Files.{names, mkdir_all, read_file, file, add_dirs, write_file, has_dir}
use zknode_autonomi_alpha.Chat.{labelled, ◌>>=◌, ChatMessage, ChatRequest, success}
use zknode_autonomi_alpha.Chat.Store.{user_dir, message_file}
use zknode_autonomi_alpha.Chat.Direct.{new_message}
use zknode_autonomi_alpha.Chat.Daemon.{process, serve}
use zknode_autonomi_alpha.Chat.Mailboxes.{mailboxes}
use zknode_autonomi_alpha.Chat.Letters.{letters}
use zknode_autonomi_alpha.Chat.Tests.Codec.{join_fields, decode_message-encode_message}
use zknode_autonomi_alpha.Chat.Tests.World.{
  daemon, host, later, host-Willing, later-Willing, host-bytes, empty-IsWellFormed,
}
use zknode_autonomi_alpha.Client.{Machine, Format}
use zknode_autonomi_alpha.Client.Keys.{get_or_create_id, load_or_create_identity, kept}
use zknode_autonomi_alpha.Client.Talk.{
  line_of, cmd_send, cmd_poll, parse_recipient, decoded_recipient,
}
use zknode_autonomi_alpha.Client.Flags.{IsPositional}
use zknode_autonomi_alpha.Client.Tests.{toy, laptop}
use zknode_autonomi_alpha.Conversation.{IsPlain, letter, look_up}
use zknode_autonomi_alpha.Conversation.Arrival.{posted}
use zknode_autonomi_alpha.Conversation.Commands.{said, lines_of}
use zknode_autonomi_alpha.Conversation.Plain.{cmd_poll-cmd_send}
use zknode_autonomi_alpha.Conversation.Tests.Network.{
  request_fields, wire, understood, network, carries,
}

abbrev pub alice : Bytes
alice = replicate 16 3

abbrev pub bob : Bytes
bob = 0 ∷ 1 ∷ 2 ∷ 3 ∷ 4 ∷ 5 ∷ 6 ∷ 7 ∷ 8 ∷ 9 ∷ 10 ∷ 11 ∷ 12 ∷ 13 ∷ 14 ∷ 15 ∷ []

abbrev pub bob_laptop : Machine
bob_laptop = record laptop { identity_bytes = ok bob }

abbrev pub config : Bytes
config = codes "c.toml"

abbrev pub bob_hex : Bytes
bob_hex = codes "000102030405060708090a0b0c0d0e0f"

abbrev hello : ChatRequest
hello = letter false alice bob (codes "hello")

abbrev pub format : Format
format = record { decimal = λ n. []; quote = λ s. s; time_of_day = λ t. codes "noon" }

i_am : (get_or_create_id laptop config []).0 ≡ ok alice
unfolding get_or_create_id labelled load_or_create_identity ◌>>=◌ mkdir_all kept read_file file
    lookup add_dirs insert list_eq write_file has_dir
i_am = refl

bob_is : (get_or_create_id bob_laptop config []).0 ≡ ok bob
unfolding get_or_create_id labelled load_or_create_identity ◌>>=◌ mkdir_all kept read_file file
    lookup add_dirs insert list_eq write_file has_dir
bob_is = refl

pub bob_found : parse_recipient toy bob_hex alice ≡ ok bob
unfolding parse_recipient decoded_recipient Hex.decode list_eq
bob_found = refl

nothing_there :
    contains (names [] (user_dir daemon bob)) (message_file (new_message host hello []).id) ≡ false
unfolding names lookup contains
nothing_there = refl

pub nothing_waits : mailboxes wire daemon [] bob ≡ []
unfolding names lookup letters
nothing_waits = refl

pub arguments-IsPositional : All IsPositional (config ∷ bob_hex ∷ codes "hello" ∷ [])
unfolding list_eq
arguments-IsPositional = ((refl, refl), ((refl, refl), ((refl, refl), tt)))

-- The message's arrival, before the commands are run.
arrival :
    let after = (process wire daemon host (join_fields (request_fields hello)) []).0.files in
    (pre post : List ChatMessage) × (mailboxes wire daemon [] bob ≡ pre ++ post)
    × ((serve wire daemon host hello []).response ≡ success)
    × ((serve wire daemon later (look_up bob) after).response
        ≡ record success { messages = pre ++ new_message host hello [] ∷ post })
arrival =
    posted wire daemon host later false alice bob (codes "hello")
      (join_fields (request_fields hello)) [] refl empty-IsWellFormed host-Willing later-Willing
      host-bytes (decode_message-encode_message (new_message host hello [])) nothing_there refl refl
      refl (understood hello)

cmd_poll-cmd_send_example :
    let after = (process wire daemon host (join_fields (request_fields hello)) []).0.files in
    let xa = network host [] in
    let xb = network later after in
    ((cmd_send laptop toy xa (config ∷ bob_hex ∷ codes "hello" ∷ []) []).0 ≡ ok (said false bob))
    × (pre post : List ChatMessage) × (mailboxes wire daemon [] bob ≡ pre ++ post)
    × ((cmd_poll bob_laptop toy xb format (config ∷ []) []).0
        ≡ ok (
            lines_of bob_laptop toy xb format pre
            ++ (line_of bob_laptop toy xb format
                  (new_message host hello [])
                  (codes "hello", codes "text")
                ++ lines_of bob_laptop toy xb format post)))
cmd_poll-cmd_send_example =
    let after = (process wire daemon host (join_fields (request_fields hello)) []).0.files in
    let (pre, post, _, first, second) = arrival in
    cmd_poll-cmd_send wire daemon toy format laptop bob_laptop (network host [])
      (network later after) host later alice bob (codes "hello") [] config config bob_hex []
      (get_or_create_id laptop config []).1 [] (get_or_create_id bob_laptop config []).1 refl
      empty-IsWellFormed host-Willing later-Willing host-bytes
      (decode_message-encode_message (new_message host hello [])) nothing_there refl refl refl
      arguments-IsPositional (ap (λ r. (r, (get_or_create_id laptop config []).1)) i_am) bob_found
      (ap (λ r. (r, (get_or_create_id bob_laptop config []).1)) bob_is) refl refl
      (carries host hello [] [] first)
      (carries later (look_up bob) after (pre ++ new_message host hello [] ∷ post) second)
      (subst (All IsPlain) (sym nothing_waits) tt)
