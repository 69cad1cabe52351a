-- ===== src/Client/Program.antt =====
-- katzenpost/cmd/zkchat/main.go: main behind its flags, and cmdGroup.
use zknode_autonomi_alpha.Prelude.{
  List, [], ◌∷◌, ◌++◌, Bytes, err, codes, ◌==◌, nat_Eq, list_Eq, if◌then◌else◌,
}
use zknode_autonomi_alpha.Chat.{Action, lift}
use zknode_autonomi_alpha.Client.{Machine, Crypto, Mixnet, Format}
use zknode_autonomi_alpha.Client.Talk.{cmd_send, cmd_poll}
use zknode_autonomi_alpha.Client.Talk.AiAndKeys.{cmd_ai, cmd_e2e_export, cmd_e2e_import}
use zknode_autonomi_alpha.Client.Groups.{
  group_create, group_send, group_poll, group_invite, group_leave, group_list,
}

module _ (m : Machine) (k : Crypto) (x : Mixnet) (fmt : Format) where
  -- cmdGroup
  unfoldable pub cmd_group : List Bytes → Action Bytes
  cmd_group [] = lift (
      err (
        codes
          "Usage: zkchat group <subcommand> [args]\nSubcommands: create, send, poll, invite, leave, list"))
  cmd_group (sub ∷ args) =
      if sub == codes "create"
      then group_create m k x fmt args
      else if sub == codes "send"
      then group_send m k x args
      else if sub == codes "poll"
      then group_poll m k x fmt args
      else if sub == codes "invite"
      then group_invite m k x fmt args
      else if sub == codes "leave"
      then group_leave m k x args
      else if sub == codes "list"
      then group_list m k x fmt args
      else lift (err (codes "Unknown group subcommand: " ++ sub))

  -- The switch of main; `usage` is the text that flag.Usage prints.
  unfoldable pub run_command : Bytes → List Bytes → Action Bytes
  run_command usage [] = lift (err usage)
  run_command usage (cmd ∷ args) =
      if cmd == codes "send"
      then cmd_send m k x args
      else if cmd == codes "poll"
      then cmd_poll m k x fmt args
      else if cmd == codes "ai"
      then cmd_ai m k x args
      else if cmd == codes "group"
      then cmd_group args
      else if cmd == codes "e2e-export"
      then cmd_e2e_export m k x args
      else if cmd == codes "e2e-import"
      then cmd_e2e_import m k x args
      else lift (err (codes "Unknown command: " ++ cmd ++ codes "\n" ++ usage))
