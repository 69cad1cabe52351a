-- ===== src/Chat/Groups.antt =====
-- katzenpost/cmd/chatd/main.go: the group handlers.
use zknode_autonomi_alpha.Prelude.{
  not, ◌&&◌, Option, none, some, List, [], ◌∷◌, ◌++◌, Bytes, ok, err, codes, ◌==◌, nat_Eq, list_Eq,
  if◌then◌else◌, contains, is_empty,
}
use zknode_autonomi_alpha.FilePath.{DirPath}
use zknode_autonomi_alpha.Files.{
  Files, Host, done, fault, mkdir_all, write_file, read_dir, remove_all,
}
use zknode_autonomi_alpha.Chat.{
  Chatd, Wire, ChatMessage, Group, ChatRequest, ChatResponse, Action, ◌>>=◌, ◌>>◌, attempt, lift,
  pure, require, gets, modify, labelled, is_set, success,
}
use zknode_autonomi_alpha.Chat.Store.{
  group_dir, message_file, new_id, store_ant, is_member, load_group_meta, write_group_meta,
  get_user_groups, add_user_groups, remove_user_group,
}
use zknode_autonomi_alpha.Chat.Direct.{new_message, take_messages, completion_body, completion_url}

-- The members that an invitation adds: those that are in neither the group nor the earlier part.
unfoldable pub invite_members : List Bytes → List Bytes → List Bytes
invite_members members [] = members
invite_members members (m ∷ ms) =
    invite_members (if contains members m then members else members ++ m ∷ []) ms

-- Everybody but the one that leaves.
unfoldable pub without_member : Bytes → List Bytes → List Bytes
without_member user_id [] = []
without_member user_id (m ∷ ms) =
    let rest = without_member user_id ms in if m == user_id then rest else m ∷ rest

module _ (w : Wire) (c : Chatd) (h : Host) where
  -- loadGroupMeta as the handlers call it
  unfoldable pub find_group : Bytes → Action Group
  find_group group_id fs =
      labelled (codes "group not found: ") (lift (load_group_meta w c h group_id fs)) fs

  -- handleGroupCreate
  unfoldable pub handle_group_create : ChatRequest → Action ChatResponse
  handle_group_create req = do
    require (is_set req.user_id) (codes "user_id required")
    require (is_set req.group_name) (codes "group_name required")
    let members = req.user_id ∷ req.members
    attempt h (codes "mkdir: ") (mkdir_all h (group_dir c (new_id h)))
    labelled (codes "write meta: ") (
        write_group_meta w c h (new_id h) (record {
          id = new_id h;
          name = req.group_name;
          owner = req.user_id;
          members = members;
          created_at = h.now_ms;
        }))
    modify (add_user_groups w c h members (new_id h))
    pure (record success { group_id = new_id h })

  -- The end of handleGroupSend: the chunk goes to Autonomi, or else an AI request may be started,
  -- which is the second part of the result.
  unfoldable pub after_group_send : ChatRequest → DirPath → Bytes → ChatResponse × Option DirPath
  after_group_send req dir blob =
      let ai =
        if req.msg_type == codes "ai" && is_set c.fae_address
        then (success, some dir)
        else (success, none) in
      if c.use_ant
      then elim (store_ant h blob) [ err e ↦ ai | ok addr ↦ (record success { addr = addr }, none) ]
      else ai

  -- handleGroupSend
  unfoldable pub handle_group_send : ChatRequest → Action (ChatResponse × Option DirPath)
  handle_group_send req = do
    require (is_set req.user_id) (codes "user_id required")
    require (is_set req.group_id) (codes "group_id required")
    require (is_set req.content) (codes "content required")
    g ← find_group req.group_id
    require (is_member g req.user_id) (codes "not a group member")
    let msg = new_message h req req.group_id
    let dir = group_dir c req.group_id
    attempt h (codes "mkdir: ") (mkdir_all h dir)
    attempt h (codes "write: ") (write_file h dir (message_file msg.id) (w.encode_message msg))
    pure (after_group_send req dir (w.encode_message msg))

  unfoldable pub store_answer : ChatRequest → DirPath → Option (List Bytes) → Action (Unit {0})
  store_answer req dir none fs = (err (codes "group AI response parse failed"), fs)
  store_answer req dir (some []) fs = (err (codes "group AI returned no choices"), fs)
  store_answer req dir (some (content ∷ _)) fs =
      attempt h (codes "group AI store failed: ")
        (write_file h dir (message_file (new_id h)) (
          w.encode_message (record {
            id = new_id h;
            sender = [];
            content = content;
            kind = codes "ai_response";
            timestamp = h.now_ms;
            group_id = req.group_id;
          })))
        fs

  -- processGroupAI; its errors are only logged
  unfoldable pub process_group_ai : ChatRequest → DirPath → Action (Unit {0})
  unfolding store_answer
  process_group_ai req dir = do
    reply ← lift (h.post (completion_url w c h) (completion_body w c h req.content))
    body ← lift reply
    store_answer req dir (w.decode_choices body)

  unfoldable pub named_group : ChatRequest → Action (List Bytes)
  named_group req = do
    g ← find_group req.group_id
    require (is_member g req.user_id) (codes "not a group member")
    pure (req.group_id ∷ [])

  -- The groups to poll: the one that is named, if the user is a member, or all of the user's.
  unfoldable pub groups_to_poll : ChatRequest → Action (List Bytes)
  unfolding named_group
  groups_to_poll req =
      if is_set req.group_id
      then named_group req
      else gets (λ fs. elim (get_user_groups w c h req.user_id fs) [ none ↦ [] | some ids ↦ ids ])

  -- for _, gid := range groupIDs { … }; a directory that cannot be read is passed over
  unfoldable pub poll_groups : List Bytes → List ChatMessage → Files → List ChatMessage × Files
  poll_groups [] msgs fs = (msgs, fs)
  poll_groups (gid ∷ rest) msgs fs = elim (read_dir h (group_dir c gid) fs) [
    | fault e ↦ poll_groups rest msgs fs
    | done entries ↦
        let (msgs', fs') = take_messages w h (group_dir c gid) entries msgs fs in
        poll_groups rest msgs' fs'
  ]

  -- handleGroupPoll
  unfoldable pub handle_group_poll : ChatRequest → Action ChatResponse
  handle_group_poll req = do
    require (is_set req.user_id) (codes "user_id required")
    ids ← groups_to_poll req
    λ fs. let (msgs, fs') = poll_groups ids [] fs in (ok (record success { messages = msgs }), fs')

  -- handleGroupInvite
  unfoldable pub handle_group_invite : ChatRequest → Action ChatResponse
  handle_group_invite req = do
    require (is_set req.user_id) (codes "user_id required")
    require (is_set req.group_id) (codes "group_id required")
    require (not (is_empty req.members)) (codes "members required")
    g ← find_group req.group_id
    require (g.owner == req.user_id) (codes "only the group owner can invite members")
    labelled (codes "write meta: ") (
        write_group_meta w c h req.group_id
          (record g { members = invite_members g.members req.members }))
    modify (add_user_groups w c h req.members req.group_id)
    pure success

  -- The group that stays behind: an owner who leaves hands it to the first member.
  unfoldable pub store_rest : ChatRequest → Group → List Bytes → Action (Unit {0})
  store_rest req g [] = modify (remove_all h (group_dir c req.group_id))
  store_rest req g (m ∷ ms) = labelled (codes "write meta: ") (
      write_group_meta w c h req.group_id
        (record g { owner = if g.owner == req.user_id then m else g.owner; members = m ∷ ms }))

  -- handleGroupLeave
  unfoldable pub handle_group_leave : ChatRequest → Action ChatResponse
  unfolding store_rest
  handle_group_leave req = do
    require (is_set req.user_id) (codes "user_id required")
    require (is_set req.group_id) (codes "group_id required")
    g ← find_group req.group_id
    store_rest req g (without_member req.user_id g.members)
    modify (remove_user_group w c h req.user_id req.group_id)
    pure success

  -- The groups of the list that load.
  unfoldable pub load_groups : List Bytes → Files → List Group
  load_groups [] fs = []
  load_groups (gid ∷ rest) fs = elim (load_group_meta w c h gid fs) [
    | err e ↦ load_groups rest fs
    | ok g ↦ g ∷ load_groups rest fs
  ]

  -- handleGroupList
  unfoldable pub handle_group_list : ChatRequest → Action ChatResponse
  handle_group_list req = do
    require (is_set req.user_id) (codes "user_id required")
    ids ← gets (get_user_groups w c h req.user_id)
    gets (λ fs. elim ids [
      | none ↦ success
      | some gids ↦ record success { groups = load_groups gids fs }
    ])
