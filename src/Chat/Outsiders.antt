-- ===== src/Chat/Outsiders.antt =====
-- chatd/main.go, groups: those who are not entitled change nothing, and what a group poll leaves.
use zknode_autonomi_alpha.Prelude.{
  true, false, ◌≡◌, refl, ap, ◌∙◌, none, some, [], ◌∷◌, Bytes, codes, Result, ◌==◌, nat_Eq, list_Eq,
  list_eq, arith, ok, err, ==_refl,
}
use zknode_autonomi_alpha.FilePath.{DirPath}
use zknode_autonomi_alpha.Files.{Files, Host, Syscall, file, names, read_file, read_dir}
use zknode_autonomi_alpha.Files.Laws.{IsWellFormed}
use zknode_autonomi_alpha.Chat.{
  Chatd, Wire, Group, ChatRequest, ChatResponse, ◌>>=◌, is_set, success, respond,
}
use zknode_autonomi_alpha.Chat.Store.{group_dir, meta_json, is_member, load_group_meta}
use zknode_autonomi_alpha.Chat.Direct.{take_messages, readable}
use zknode_autonomi_alpha.Chat.Groups.{
  find_group, handle_group_send, groups_to_poll, named_group, poll_groups, handle_group_poll,
  handle_group_invite,
}
use zknode_autonomi_alpha.Chat.Mailbox.{Willing}
use zknode_autonomi_alpha.Chat.GroupFiles.{load_group_meta-file}
use zknode_autonomi_alpha.Chat.Mailbox.{
  is_taken, take_messages-inbox, take_messages-IsWellFormed, file-take_messages, taken_is_named,
}
use zknode_autonomi_alpha.Chat.Delivery.{inbox-nil}
use zknode_autonomi_alpha.Chat.Layout.{ext-meta_json}
use zknode_autonomi_alpha.Chat.Keeps.Groups.{load_group_meta-ok}
use zknode_autonomi_alpha.Files.{has_dir}
use zknode_autonomi_alpha.Files.Laws.{removable}

-- A request is refused: no success, no message and no group in the response, and the store as it was.
abbrev pub IsRefused : Files → ChatResponse × Files → Type 0
IsRefused fs (response, after) =
    (response.success ≡ false) × (response.messages ≡ []) × (response.groups ≡ []) × (after ≡ fs)

-- An action that answers later is stopped: it ends with an error, and the store is as it was.
abbrev pub IsStopped : {A : Type 0} → Files → Result A × Files → Type 0
IsStopped fs (ok a, after) = ⊥
IsStopped fs (err e, after) = after ≡ fs

module _ (w : Wire) (c : Chatd) (h : Host) (fs : Files) (g : Group) where
  -- Who is not a member of a stored group can neither send to it nor poll it by its ID, and who does
  -- not own it cannot invite to it, whatever else the request holds or lacks: it is refused and
  -- leaves the store as it was. A poll without a group ID is not meant: it goes through the groups
  -- that the user's own list names, and does not look at their members.
  pub outsider_excluded :
      (req invitation : ChatRequest)
      → is_set req.group_id ≡ true
      → load_group_meta w c h req.group_id fs ≡ ok g
      → is_member g req.user_id ≡ false
      → invitation.group_id ≡ req.group_id
      → (g.owner == invitation.user_id) ≡ false
      → IsStopped fs (handle_group_send w c h req fs)
        × IsRefused fs (respond (handle_group_poll w c h req) fs)
        × IsRefused fs (respond (handle_group_invite w c h invitation) fs)
  unfolding ◌>>=◌ handle_group_send handle_group_poll handle_group_invite groups_to_poll named_group
      find_group respond
  outsider_excluded req invitation i l n same o =
      let l' = ap (λ x. load_group_meta w c h x fs) same ∙ l in
      let i' = ap is_set same ∙ i in
      (ground (arith, i, l, n), ground (arith, i, l, n), ground (arith, i', l', o))

module _ (w : Wire) (c : Chatd) (h : Host) (req : ChatRequest) (fs : Files) where
  group_poll_run :
      (g : Group)
      → Willing h
      → is_set req.user_id ≡ true
      → is_set req.group_id ≡ true
      → load_group_meta w c h req.group_id fs ≡ ok g
      → is_member g req.user_id ≡ true
      → has_dir fs (group_dir c req.group_id) ≡ true
      → let d = group_dir c req.group_id in
        let taken = take_messages w h d (names fs d) [] fs in
        respond (handle_group_poll w c h req) fs ≡ (record success { messages = taken.0 }, taken.1)
  unfolding ◌>>=◌ handle_group_poll groups_to_poll named_group find_group respond poll_groups
      read_dir
  group_poll_run g r u i l m k =
      ground (arith, u, i, l, m, k, r Syscall.list (group_dir c req.group_id))

pub has_dir-file :
    (fs : Files) (d : DirPath) (n b : Bytes) → file fs d n ≡ some b → has_dir fs d ≡ true
unfolding file has_dir
has_dir-file fs d n b e = ground arith

module _ (w : Wire) (h : Host) (d : DirPath) (fs : Files) where
  -- Once a willing host has read a directory, no host finds a message in it.
  take_messages_drains :
      (h' : Host)
      → Willing h
      → IsWellFormed fs
      → (n : Bytes) → readable w h' d n (take_messages w h d (names fs d) [] fs).1 ≡ none
  unfolding readable read_file is_taken removable
  take_messages_drains h' r v n = ground (
    arith,
    file-take_messages w h d (names fs d) [] fs d n (v.distinct d),
    taken_is_named w h d fs n,
    ==_refl d,
    r Syscall.unlink (n ∷ d),
    r Syscall.read (n ∷ d),
  )

  json_is_not_msg : (codes ".json" == codes ".msg") ≡ false
  unfolding list_eq
  json_is_not_msg = refl

  -- A poll does not touch the group file.
  take_messages-meta :
      IsWellFormed fs
      → file (take_messages w h d (names fs d) [] fs).1 d meta_json ≡ file fs d meta_json
  unfolding is_taken readable
  take_messages-meta v = ground (
    arith,
    file-take_messages w h d (names fs d) [] fs d meta_json (v.distinct d),
    ext-meta_json,
    json_is_not_msg,
  )

-- A group message reaches one member only: once a member has polled a group on a host that refuses
-- nothing, the next poll of that group, by whatever member and on whatever such host, gets no
-- message; the store names each file once.
pub group_poll_consumes :
    (w : Wire) (c : Chatd) (h h' : Host) (p q : ChatRequest) (fs : Files) (g : Group)
    → Willing h
    → Willing h'
    → IsWellFormed fs
    → is_set p.user_id ≡ true
    → is_set q.user_id ≡ true
    → is_set p.group_id ≡ true
    → q.group_id ≡ p.group_id
    → load_group_meta w c h p.group_id fs ≡ ok g
    → is_member g p.user_id ≡ true
    → is_member g q.user_id ≡ true
    → (respond (handle_group_poll w c h' q) (respond (handle_group_poll w c h p) fs).1).0 ≡ success
group_poll_consumes w c h h' p q fs g r r' v u u' i s l m m' =
    let d = group_dir c p.group_id in
    let (b, there, k) = load_group_meta-ok w c h p.group_id fs g l in
    let after = (take_messages w h d (names fs d) [] fs).1 in
    let still : file after d meta_json ≡ some b = take_messages-meta w h d fs v ∙ there in
    let first = group_poll_run w c h p fs g r u i l m (has_dir-file fs d meta_json b there) in
    let formed = take_messages-IsWellFormed w h d (names fs d) [] fs v in
    rw first (
      ap (λ (x : ChatResponse × Files). x.0)
        (group_poll_run w c h' q after g r' u' (rw s i)
          (rw s (load_group_meta-file w c h' p.group_id after b r' still ∙ k)) m'
          (rw s (has_dir-file after d meta_json b still)))
      ∙ rw s (
          rw (take_messages-inbox w h' d (names after d) [] after (formed.distinct d))
            (rw (inbox-nil w h' d (names after d) after (take_messages_drains w h d fs h' r v)))))
