-- ===== src/Conversation/Tests/SealedLetters.antt =====
-- zkchat/main.go and chatd/main.go, run together on a sealed message.
use zknode_autonomi_alpha.Prelude.{
  ◌≡◌, refl, ap, before, sym, subst, All, true, false, some, List, [], ◌∷◌, ◌++◌, Bytes, ok, codes,
  replicate, contains, list_eq, lookup, insert, nat_Eq, list_Eq,
}
use zknode_autonomi_alpha.FilePath
use zknode_autonomi_alpha.FilePath.{DirPath}
use zknode_autonomi_alpha.Files.{
  put_file, add_dir, done, Files, names, mkdir_all, read_file, file, add_dirs, write_file, has_dir,
}
use zknode_autonomi_alpha.Chat.{labelled, ◌>>=◌, ChatMessage, ChatRequest, success}
use zknode_autonomi_alpha.Chat.Store.{user_dir, message_file}
use zknode_autonomi_alpha.Chat.Direct.{new_message}
use zknode_autonomi_alpha.Chat.Daemon.{process, serve}
use zknode_autonomi_alpha.Chat.Mailboxes.{mailboxes}
use zknode_autonomi_alpha.Chat.Tests.Codec.{join_fields, decode_message-encode_message}
use zknode_autonomi_alpha.Chat.Tests.World.{
  daemon, host, later, host-Willing, later-Willing, host-bytes, empty-IsWellFormed,
}
use zknode_autonomi_alpha.Client.Keys.{
  keypair_file, read_path, pub_path, seal_with, seal_nonce, seal_shared, fit, load_e2e_pub,
  e2e_seal, cfg_dir_for, get_or_create_id, load_or_create_identity, kept,
}
use zknode_autonomi_alpha.Client.Talk.{e2e_flag, line_of, cmd_send, cmd_poll}
use zknode_autonomi_alpha.Client.Tests.{toy, toy-IsSound, laptop}
use zknode_autonomi_alpha.Conversation.{IsPlain, letter, look_up}
use zknode_autonomi_alpha.Conversation.Arrival.{posted}
use zknode_autonomi_alpha.Conversation.Commands.{said, lines_of}
use zknode_autonomi_alpha.Conversation.Sealed.{cmd_poll-cmd_send_sealed}
use zknode_autonomi_alpha.Conversation.Tests.Network.{
  request_fields, wire, understood, network, carries,
}
use zknode_autonomi_alpha.Conversation.Tests.Letters.{
  alice, bob, bob_laptop, config, bob_hex, format, bob_found, nothing_waits, arguments-IsPositional,
}

-- A key pair of the toy primitives, and the machines that hold it, or its public key.
abbrev public_key : Bytes
public_key = 7 ∷ replicate 31 0

abbrev key_pair : Bytes
key_pair = public_key ++ public_key

abbrev home : DirPath
home = codes ".zkchat" ∷ codes "home" ∷ []

abbrev alice_files : Files
alice_files =
    put_file (codes "e2e-pubs" ∷ home) (bob_hex ++ codes ".pub") public_key
      (add_dirs (codes "e2e-pubs" ∷ home) [])

abbrev bob_files : Files
bob_files = put_file home keypair_file key_pair (add_dirs home [])

abbrev sealed_hello : Bytes
sealed_hello = replicate 24 6 ++ ((5 ∷ replicate 31 0) ++ (replicate 16 0 ++ codes "hello"))

abbrev sealed_letter : ChatRequest
sealed_letter = letter true alice bob sealed_hello

alice_starts : (get_or_create_id laptop config alice_files).0 ≡ ok alice
unfolding get_or_create_id labelled load_or_create_identity ◌>>=◌ mkdir_all kept read_file file
    lookup add_dirs put_file insert list_eq write_file has_dir
alice_starts = refl

bob_starts : (get_or_create_id bob_laptop config bob_files).0 ≡ ok bob
unfolding get_or_create_id labelled load_or_create_identity ◌>>=◌ mkdir_all kept read_file file
    lookup add_dirs put_file insert list_eq write_file has_dir
bob_starts = refl

alice_knows :
    load_e2e_pub laptop
      (cfg_dir_for laptop config)
      bob_hex
      (get_or_create_id laptop config alice_files).1
    ≡ some public_key
unfolding get_or_create_id labelled load_or_create_identity ◌>>=◌ mkdir_all kept read_file file
    lookup add_dirs put_file insert list_eq write_file has_dir add_dir cfg_dir_for load_e2e_pub
    read_path pub_path FilePath.join
alice_knows = refl

bob_holds :
    read_file host
      (cfg_dir_for bob_laptop config)
      keypair_file
      (get_or_create_id bob_laptop config bob_files).1
    ≡ done key_pair
unfolding get_or_create_id labelled load_or_create_identity ◌>>=◌ mkdir_all kept read_file file
    lookup add_dirs put_file insert list_eq write_file has_dir add_dir cfg_dir_for before
bob_holds = refl

it_is_sealed : e2e_seal toy laptop public_key (codes "hello") ≡ ok sealed_hello
unfolding e2e_seal seal_with seal_nonce seal_shared fit
it_is_sealed = refl

nothing_sealed_there :
    contains (names [] (user_dir daemon bob)) (message_file (new_message host sealed_letter []).id)
    ≡ false
unfolding names lookup contains
nothing_sealed_there = refl

sealed_arrival :
    let after =
      (process wire daemon host (join_fields (request_fields sealed_letter)) []).0.files in
    (pre post : List ChatMessage) × (mailboxes wire daemon [] bob ≡ pre ++ post)
    × ((serve wire daemon host sealed_letter []).response ≡ success)
    × ((serve wire daemon later (look_up bob) after).response
        ≡ record success { messages = pre ++ new_message host sealed_letter [] ∷ post })
sealed_arrival =
    posted wire daemon host later true alice bob sealed_hello
      (join_fields (request_fields sealed_letter)) [] refl empty-IsWellFormed host-Willing
      later-Willing host-bytes (decode_message-encode_message (new_message host sealed_letter []))
      nothing_sealed_there refl refl refl (understood sealed_letter)

cmd_poll-cmd_send_sealed_example :
    let after =
      (process wire daemon host (join_fields (request_fields sealed_letter)) []).0.files in
    let xa = network host [] in
    let xb = network later after in
    ((cmd_send laptop toy xa (config ∷ bob_hex ∷ codes "hello" ∷ e2e_flag ∷ []) alice_files).0
      ≡ ok (said true bob))
    × (pre post : List ChatMessage) × (mailboxes wire daemon [] bob ≡ pre ++ post)
    × ((cmd_poll bob_laptop toy xb format (config ∷ []) bob_files).0
        ≡ ok (
            lines_of bob_laptop toy xb format pre
            ++ (line_of bob_laptop toy xb format
                  (new_message host sealed_letter [])
                  (codes "hello", codes "e2e")
                ++ lines_of bob_laptop toy xb format post)))
cmd_poll-cmd_send_sealed_example =
    let after =
      (process wire daemon host (join_fields (request_fields sealed_letter)) []).0.files in
    let (pre, post, _, first, second) = sealed_arrival in
    cmd_poll-cmd_send_sealed wire daemon toy format laptop bob_laptop (network host [])
      (network later after) host later alice bob (codes "hello") sealed_hello [] config config
      bob_hex public_key key_pair (5 ∷ []) (5 ∷ replicate 31 0) (replicate 24 6)
      (12 ∷ replicate 31 0) alice_files (get_or_create_id laptop config alice_files).1 bob_files
      (get_or_create_id bob_laptop config bob_files).1 refl empty-IsWellFormed host-Willing
      later-Willing host-bytes (decode_message-encode_message (new_message host sealed_letter []))
      nothing_sealed_there refl refl refl arguments-IsPositional
      (ap (λ r. (r, (get_or_create_id laptop config alice_files).1)) alice_starts) bob_found
      (ap (λ r. (r, (get_or_create_id bob_laptop config bob_files).1)) bob_starts) refl refl
      (carries host sealed_letter [] [] first)
      (carries later (look_up bob) after (pre ++ new_message host sealed_letter [] ∷ post) second)
      (subst (All IsPlain) (sym nothing_waits) tt) toy-IsSound alice_knows it_is_sealed bob_holds
      refl refl refl refl refl refl refl
