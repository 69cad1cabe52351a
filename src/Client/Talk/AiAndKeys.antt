-- ===== src/Client/Talk/AiAndKeys.antt =====
-- katzenpost/cmd/zkchat/main.go: the commands ai, e2e-export and e2e-import.
use zknode_autonomi_alpha.Prelude.{
  Option, none, some, List, [], ◌∷◌, ◌++◌, Bytes, Result, ok, err, codes, length, ◌==◌, nat_Eq,
  list_Eq, if◌then◌else◌,
}
use zknode_autonomi_alpha.Hex
use zknode_autonomi_alpha.FilePath.{DirPath}
use zknode_autonomi_alpha.Files.{Files, done, fault, mkdir_all}
use zknode_autonomi_alpha.Chat.{Action, ◌>>=◌, ◌>>◌, pure, lift, attempt, labelled, modify}
use zknode_autonomi_alpha.Client.{Machine, Crypto, Mixnet}
use zknode_autonomi_alpha.Client.Keys.{
  get_or_create_id, cfg_dir_for, load_or_create_e2e_keypair, pub_path, write_path,
}
use zknode_autonomi_alpha.Client.Service.{dial, deliver, find_chat_service}
use zknode_autonomi_alpha.Client.Talk.{blank, parse_recipient, or_error}

module _ (m : Machine) (k : Crypto) (x : Mixnet) where
  -- cmdAI
  unfoldable pub cmd_ai : List Bytes → Action Bytes
  cmd_ai (config_path ∷ recip_hex ∷ prompt ∷ more) = do
    user_id ← get_or_create_id m config_path
    recip ← lift (parse_recipient k recip_hex user_id)
    dial x config_path
    service ← labelled (codes "service: ") (lift (find_chat_service x))
    reply ← labelled (codes "ai request failed: ") (
        lift (
          deliver x k service (
            x.encode_request (record blank {
              op = codes "send";
              user_id = user_id;
              recipient = recip;
              content = prompt;
              msg_type = codes "ai";
            }))))
    let resp = x.decode_response reply
    or_error resp resp.addr
  cmd_ai args = lift (err (codes "Usage: zkchat ai <config.toml> <recipient_hex> <prompt>"))

  -- cmdE2EExport
  unfoldable pub cmd_e2e_export : List Bytes → Action Bytes
  cmd_e2e_export [] = lift (err (codes "Usage: zkchat e2e-export <config.toml>"))
  cmd_e2e_export (config_path ∷ more) = do
    user_id ← get_or_create_id m config_path
    keys ← load_or_create_e2e_keypair m k (cfg_dir_for m config_path)
    pure (codes "identity=" ++ Hex.encode user_id ++ codes " pubkey=" ++ Hex.encode keys.1)

  peer_key : Option Bytes → Result Bytes
  peer_key none = err (codes "peer pubkey must be 32-byte hex")
  peer_key (some b) = if length b == 32 then ok b else err (codes "peer pubkey must be 32-byte hex")

  -- The write of a peer's key, whose error is dropped.
  unfoldable pub try_write_path : DirPath → Bytes → Files → Files
  try_write_path path b fs = elim (write_path m.host path b fs) [ fault e ↦ fs | done fs' ↦ fs' ]

  -- cmdE2EImport
  unfoldable pub cmd_e2e_import : List Bytes → Action Bytes
  unfolding peer_key
  cmd_e2e_import (config_path ∷ peer_hex ∷ pub_hex ∷ more) = do
    key ← lift (peer_key (Hex.decode pub_hex))
    let dir = cfg_dir_for m config_path
    attempt m.host (codes "mkdir e2e-pubs: ") (mkdir_all m.host (codes "e2e-pubs" ∷ dir))
    modify (try_write_path (pub_path m dir peer_hex) key)
    pure (codes "E2E key for " ++ Hex.encode peer_hex ++ codes " stored")
  cmd_e2e_import args =
      lift (err (codes "Usage: zkchat e2e-import <config.toml> <peer_identity_hex> <peer_pub_hex>"))
