-- ===== src/Client/Tests.antt =====
-- zkchat/main.go, run with toy primitives: a key agreement that adds, and a tag of zeros.
use zknode_autonomi_alpha.Prelude.{
  ℕ, ◌+◌, ◌≡◌, ◌∙◌, sym, ap, refl, true, none, List, [], ◌∷◌, All, length, ◌++◌, Bytes, ok, err,
  codes, drop, replicate, arith, list_eq, ok-injective,
}
use zknode_autonomi_alpha.Hex
use zknode_autonomi_alpha.FilePath.{DirPath}
use zknode_autonomi_alpha.Files.{Files, file, put_file, add_dirs}
use zknode_autonomi_alpha.Files.Laws.{file-put_file, has_dir-add_dirs, file-add_dirs}
use zknode_autonomi_alpha.Chat.Tests.World.{host, later, host-Willing, later-Willing}
use zknode_autonomi_alpha.Client.{Machine, Crypto}
use zknode_autonomi_alpha.Client.Keys.{e2e_seal, e2e_open, load_or_create_identity, identity_file}
use zknode_autonomi_alpha.Client.Talk.{parse_send_flags, via_flag, e2e_flag}
use zknode_autonomi_alpha.Client.Groups.{parse_members}
use zknode_autonomi_alpha.Client.Sealing.{IsSound, e2e_open-e2e_seal}
use zknode_autonomi_alpha.Client.Flags.{positional, via, e2e, parse_send_flags_lem}
use zknode_autonomi_alpha.Client.Identity.{later_loads, load_or_create_identity_again}

abbrev total : Bytes → ℕ
total [] = 0
total (c ∷ s) = c + total s

abbrev pub toy : Crypto
toy = record {
  x25519 = λ a b. ok ((total a + total b) ∷ replicate 31 0);
  base_point = [];
  sha256 = λ s. s;
  seal = λ key nonce text ad. replicate 16 0 ++ text;
  unseal = λ key nonce ct ad. ok (drop 16 ct);
  base64 = λ s. s;
  unbase64 = ok;
  blake2b = λ s. replicate 32 1;
}

pub toy-IsSound : IsSound toy
toy-IsSound = record {
  agree = λ a b pa pb s ea eb es.
      ap (λ p. ok ((total b + total p) ∷ replicate 31 0)) (sym (ok-injective ea))
      ∙ (ap (λ n. ok (n ∷ replicate 31 0)) (omega arith)
          ∙ (ap (λ p. ok ((total a + total p) ∷ replicate 31 0)) (ok-injective eb) ∙ es));
  length_x25519 = λ a b s e. rw (← ok-injective e) refl;
  length_seal = λ key nonce text ad. omega arith;
  unseal-seal = λ key nonce text ad. refl;
  unbase64-base64 = λ s. refl;
}

abbrev pub laptop : Machine
laptop = record {
  host = host;
  dir_of = λ path. codes "home" ∷ [];
  zkcfg_dir = none;
  identity_bytes = ok (replicate 16 3);
  scalar_bytes = ok (replicate 32 4);
  ephemeral_bytes = ok (5 ∷ []);
  nonce_bytes = ok (replicate 24 6);
}

e2e_open-e2e_seal_example :
    (sealed : Bytes) × (e2e_seal toy laptop (7 ∷ replicate 31 0) (codes "hi") ≡ ok sealed)
    × (e2e_open toy (7 ∷ []) sealed ≡ ok (codes "hi"))
e2e_open-e2e_seal_example =
    e2e_open-e2e_seal toy toy-IsSound laptop (7 ∷ []) (7 ∷ replicate 31 0) (codes "hi") (5 ∷ [])
      (5 ∷ replicate 31 0) (replicate 24 6) (12 ∷ replicate 31 0) refl refl refl refl refl refl

-- Two later commands: before the first nothing happens, before the second another file is written.
abbrev home : DirPath
home = codes "home" ∷ []

abbrev jots : Files → Files
jots fs = put_file home (codes "note") (codes "hi") (add_dirs home fs)

abbrev commands : List (Machine × (Files → Files))
commands =
    (record laptop { host = later; identity_bytes = err [] }, λ fs. fs)
    ∷ (record laptop { identity_bytes = ok (replicate 16 8) }, jots)
    ∷ []

jots-spares : (fs : Files) → file (jots fs) home identity_file ≡ file fs home identity_file
unfolding list_eq
jots-spares fs =
    file-put_file home (codes "note") (codes "hi") (add_dirs home fs) home identity_file
      (has_dir-add_dirs home fs)
    ∙ file-add_dirs home fs home identity_file

load_or_create_identity_again_example :
    let first = load_or_create_identity laptop home [] in
    (id : Bytes) × (first.0 ≡ ok id)
    × (length id ≡ 16)
    × All (λ r. r ≡ ok id) (later_loads home commands first.1)
load_or_create_identity_again_example =
    load_or_create_identity_again laptop home [] (replicate 16 3) commands host-Willing refl refl
      ((later-Willing, λ fs. refl), ((host-Willing, jots-spares), tt))

parse_send_flags_lem_example :
    parse_send_flags (
      codes "c.toml"
      ∷ e2e_flag
      ∷ codes "self"
      ∷ via_flag
      ∷ codes "net"
      ∷ codes "hi"
      ∷ via_flag
      ∷ [])
    ≡ record {
      rest = codes "c.toml" ∷ codes "self" ∷ codes "hi" ∷ via_flag ∷ [];
      via = codes "net";
      e2e = true;
    }
unfolding list_eq
parse_send_flags_lem_example =
    parse_send_flags_lem
      (positional (codes "c.toml")
        ∷ e2e
        ∷ positional (codes "self")
        ∷ via (codes "net")
        ∷ positional (codes "hi")
        ∷ [])
      true ((refl, refl), ((refl, refl), ((refl, refl), tt)))

sixteen :
    parse_members (codes "000102030405060708090a0b0c0d0e0f" ∷ [])
    ≡ ok ((0 ∷ 1 ∷ 2 ∷ 3 ∷ 4 ∷ 5 ∷ 6 ∷ 7 ∷ 8 ∷ 9 ∷ 10 ∷ 11 ∷ 12 ∷ 13 ∷ 14 ∷ 15 ∷ []) ∷ [])
unfolding parse_members Hex.decode
sixteen = refl
