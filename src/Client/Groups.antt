-- ===== src/Client/Groups.antt =====
-- katzenpost/cmd/zkchat/main.go: the group commands.
use zknode_autonomi_alpha.Prelude.{
  Option, none, some, List, [], ◌∷◌, ◌++◌, Bytes, Result, ok, err, codes, length, take, ltb, ◌==◌,
  nat_Eq, list_Eq, if◌then◌else◌,
}
use zknode_autonomi_alpha.Hex
use zknode_autonomi_alpha.Chat.{
  Action, ◌>>=◌, ◌>>◌, pure, lift, labelled, require, ChatRequest, ChatResponse, ChatMessage, Group,
}
use zknode_autonomi_alpha.Client.{Machine, Crypto, Mixnet, Format}
use zknode_autonomi_alpha.Client.Keys.{get_or_create_id}
use zknode_autonomi_alpha.Client.Service.{dial, send_request}
use zknode_autonomi_alpha.Client.Talk.{blank, stored_note, or_error}

-- One member of a command line, in front of the others.
unfoldable pub member_with : Bytes → Option Bytes → Result (List Bytes) → Result (List Bytes)
member_with text none rest = err (codes "invalid member hex: " ++ text)
member_with text (some b) rest =
    if length b == 16
    then elim rest [ err e ↦ err e | ok ms ↦ ok (b ∷ ms) ]
    else err (codes "member must be 16 bytes (32 hex chars)")

-- for _, m := range args[2:] { … } of groupCreate and groupInvite
unfoldable pub parse_members : List Bytes → Result (List Bytes)
unfolding member_with
parse_members [] = ok []
parse_members (a ∷ args) = member_with a (Hex.decode a) (parse_members args)

-- A group ID as a poll shows it.
unfoldable pub short_id : Bytes → Bytes
short_id gid = if ltb 8 (length gid) then take 8 gid ++ codes "..." else gid

module _ (m : Machine) (k : Crypto) (x : Mixnet) where
  -- A request with the ID of the user, over a new connection.
  unfoldable pub ask_service : Bytes → Bytes → (Bytes → ChatRequest) → Action ChatResponse
  ask_service config_path label req = do
    user_id ← get_or_create_id m config_path
    dial x config_path
    labelled label (send_request x k (req user_id))

  -- The same with members, which are read once the user's ID is there.
  unfoldable pub ask_with_members :
      Bytes
      → Bytes
      → List Bytes
      → (Bytes → List Bytes → ChatRequest)
      → Action (List Bytes × ChatResponse)
  ask_with_members config_path label args req = do
    user_id ← get_or_create_id m config_path
    members ← lift (parse_members args)
    dial x config_path
    resp ← labelled label (send_request x k (req user_id members))
    pure (members, resp)

  module _ (fmt : Format) where
    -- groupCreate
    unfoldable pub group_create : List Bytes → Action Bytes
    group_create (config_path ∷ name ∷ args) = do
      r ← ask_with_members config_path (codes "group create failed: ") args (λ user_id members.
          record blank {
            op = codes "group_create";
            user_id = user_id;
            group_name = name;
            members = members;
          })
      or_error r.1 (codes "Created group " ++ fmt.quote name ++ codes " with ID: " ++ r.1.group_id)
    group_create args =
        lift (err (codes "Usage: zkchat group create <config.toml> <name> [member_hex...]"))

    -- groupInvite
    unfoldable pub group_invite : List Bytes → Action Bytes
    group_invite (config_path ∷ group_id ∷ first ∷ args) = do
      r ←
          ask_with_members config_path (codes "group invite failed: ") (first ∷ args)
            (λ user_id members. record blank {
              op = codes "group_invite";
              user_id = user_id;
              group_id = group_id;
              members = members;
            })
      or_error r.1
          (codes "Added " ++ fmt.decimal (length r.0) ++ codes " member(s) to group " ++ group_id)
    group_invite args = lift (
        err (
          codes "Usage: zkchat group invite <config.toml> <group_id> <member_hex> [member_hex...]"))

    unfoldable pub group_line : ChatMessage → Bytes
    group_line msg =
        codes "["
        ++ fmt.time_of_day msg.timestamp
        ++ codes "] ["
        ++ short_id msg.group_id
        ++ codes "] from "
        ++ Hex.encode msg.sender
        ++ codes " ("
        ++ msg.kind
        ++ codes "):\n  "
        ++ msg.content
        ++ codes "\n"

    unfoldable pub group_lines : List ChatMessage → Bytes
    group_lines [] = []
    group_lines (msg ∷ msgs) = group_line msg ++ group_lines msgs

    unfoldable pub print_group_poll : List ChatMessage → Bytes
    print_group_poll [] = codes "No new group messages."
    print_group_poll (msg ∷ msgs) = group_lines (msg ∷ msgs)

    unfoldable pub poll_group : Bytes → Bytes → Action Bytes
    poll_group config_path group_id = do
      resp ← ask_service config_path (codes "group poll failed: ") (λ user_id. record blank {
        op = codes "group_poll";
        user_id = user_id;
        group_id = group_id;
      })
      or_error resp (print_group_poll resp.messages)

    -- groupPoll
    unfoldable pub group_poll : List Bytes → Action Bytes
    unfolding poll_group
    group_poll [] = lift (err (codes "Usage: zkchat group poll <config.toml> [group_id]"))
    group_poll (config_path ∷ []) = poll_group config_path []
    group_poll (config_path ∷ group_id ∷ more) = poll_group config_path group_id

    -- The groups of the list, up to one whose ID has no eight bytes, on which the slice panics.
    unfoldable pub print_groups : List Group → Result Bytes
    print_groups [] = ok []
    print_groups (g ∷ gs) =
        let rest = print_groups gs in
        if ltb (length g.id) 8 then err (codes "panic: slice bounds out of range") else elim rest [
          | err e ↦ err e
          | ok lines ↦ ok (
              codes "  "
              ++ take 8 g.id
              ++ codes "  "
              ++ g.name
              ++ codes "  ("
              ++ fmt.decimal (length g.members)
              ++ codes " members)\n"
              ++ lines)
        ]

    unfoldable pub listing : List Group → Result Bytes
    listing [] = ok (codes "No groups.")
    listing (g ∷ gs) = print_groups (g ∷ gs)

    -- groupList
    unfoldable pub group_list : List Bytes → Action Bytes
    unfolding listing
    group_list [] = lift (err (codes "Usage: zkchat group list <config.toml>"))
    group_list (config_path ∷ more) = do
      resp ←
          ask_service config_path (codes "group list failed: ")
            (λ user_id. record blank { op = codes "group_list"; user_id = user_id })
      require resp.success (codes "Error: " ++ resp.error)
      lift (listing resp.groups)

  -- groupSend
  unfoldable pub group_send : List Bytes → Action Bytes
  group_send (config_path ∷ group_id ∷ message ∷ more) = do
    resp ← ask_service config_path (codes "group send failed: ") (λ user_id. record blank {
      op = codes "group_send";
      user_id = user_id;
      group_id = group_id;
      content = message;
      msg_type = codes "text";
    })
    or_error resp (codes "Sent to group " ++ group_id ++ stored_note resp)
  group_send args = lift (err (codes "Usage: zkchat group send <config.toml> <group_id> <message>"))

  -- groupLeave
  unfoldable pub group_leave : List Bytes → Action Bytes
  group_leave (config_path ∷ group_id ∷ more) = do
    resp ← ask_service config_path (codes "group leave failed: ") (λ user_id. record blank {
      op = codes "group_leave";
      user_id = user_id;
      group_id = group_id;
    })
    or_error resp (codes "Left group " ++ group_id)
  group_leave args = lift (err (codes "Usage: zkchat group leave <config.toml> <group_id>"))
