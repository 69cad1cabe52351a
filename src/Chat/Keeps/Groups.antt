-- ===== src/Chat/Keeps/Groups.antt =====
-- chatd/main.go: the group handlers keep the invariant of the store.
use zknode_autonomi_alpha.Prelude.{
  true, false, ◌≡◌, refl, Option, none, some, List, [], ◌∷◌, ◌++◌, Bytes, ◌==◌, ==_iff, nat_Eq,
  list_Eq, arith, All, ◌⊎◌, inl, inr, Bool-cases, if◌then◌else◌, contains, Result, ok, err,
  contains-head, contains-append,
}
use zknode_autonomi_alpha.Hex.{IsByte}
use zknode_autonomi_alpha.FilePath.{DirPath}
use zknode_autonomi_alpha.Files.{Files, Host, file, IoResult, done, fault, read_file, read_dir}
use zknode_autonomi_alpha.Files.Laws.{read_file-done}
use zknode_autonomi_alpha.Chat.{
  Chatd, Wire, Group, ChatMessage, ChatRequest, Action, lift, labelled, is_set,
}
use zknode_autonomi_alpha.Chat.Returns.{
  Returns, Returns-pure, Returns-keeps, Returns-Any, Returns-if, Returns-gets, Returns-lift,
  Returns-labelled, Returns-bind, Returns-require, Returns-modify,
}
use zknode_autonomi_alpha.Chat.Store.{group_dir, meta_json, load_group_meta}
use zknode_autonomi_alpha.Chat.Invariant.{IsOwned, KeepsMembers, Inv, remove_all-Inv}
use zknode_autonomi_alpha.Chat.Direct.{new_message, take_messages}
use zknode_autonomi_alpha.Chat.Groups.{
  invite_members, without_member, find_group, handle_group_create, handle_group_send, store_answer,
  process_group_ai, groups_to_poll, named_group, poll_groups, handle_group_poll,
  handle_group_invite, store_rest, handle_group_leave, handle_group_list,
}
use zknode_autonomi_alpha.Chat.Keeps.{
  Keeps, mkdir-Keeps, message-Keeps, write_group_meta-Keeps, add_user_groups-Inv,
  remove_user_group-Inv, take_messages-Inv,
}

-- A group that loads stands in its file.
pub load_group_meta-ok :
    (w : Wire) (c : Chatd) (h : Host) (gid : Bytes) (fs : Files) (g : Group)
    → load_group_meta w c h gid fs ≡ ok g
    → (b : Bytes) × (file fs (group_dir c gid) meta_json ≡ some b) × (w.decode_group b ≡ ok g)
unfolding load_group_meta
load_group_meta-ok w c h gid fs g e = go (read_file h (group_dir c gid) meta_json fs) refl e
  where
    loaded : IoResult Bytes → Result Group
    loaded (fault x) = err (h.describe x)
    loaded (done b) = w.decode_group b

    go :
        (r : IoResult Bytes)
        → read_file h (group_dir c gid) meta_json fs ≡ r
        → loaded r ≡ ok g
        → (b : Bytes) × (file fs (group_dir c gid) meta_json ≡ some b) × (w.decode_group b ≡ ok g)
    go (fault x) k e = absurd (cc)
    go (done b) k e = (b, read_file-done h (group_dir c gid) meta_json b fs k, e)

pub find_group-ok :
    (w : Wire) (c : Chatd) (h : Host) (gid : Bytes) (fs : Files) (g : Group)
    → (find_group w c h gid fs).0 ≡ ok g
    → load_group_meta w c h gid fs ≡ ok g
unfolding find_group labelled lift
find_group-ok w c h gid fs g e = ground arith

invite_members-contains :
    (ms ns : List Bytes) (u : Bytes)
    → contains ms u ≡ true
    → contains (invite_members ms ns) u ≡ true
unfolding invite_members
invite_members-contains ms [] u e = e
invite_members-contains ms (n ∷ ns) u e = elim (Bool-cases (contains ms n)) [
  | inl old ↦ rw (old, invite_members) (invite_members-contains ms ns u e)
  | inr new ↦
      rw (new, invite_members)
        (invite_members-contains (ms ++ n ∷ []) ns u
          (ground (arith, contains-append ms (n ∷ []) u)))
]

without_member-contains :
    (u v : Bytes) (ms : List Bytes)
    → (v == u) ≡ false
    → contains ms v ≡ true
    → contains (without_member u ms) v ≡ true
unfolding without_member contains
without_member-contains u v [] n e = e
without_member-contains u v (m ∷ ms) n e =
    ground (arith, without_member-contains u v ms n, ==_iff m u, ==_iff m v, ==_iff v u)

module _ (w : Wire) (law : KeepsMembers w) (c : Chatd) (h : Host)
    (bytes : All IsByte h.random) where
  abbrev Finds : {A : Type 0} → (A → Type 0) → Action A → Type 0
  Finds = Returns (Inv w)

  -- A group that was found is owned.
  find_group-Finds : (gid : Bytes) → Finds IsOwned (find_group w c h gid)
  unfolding find_group
  find_group-Finds gid = record {
    keeps = λ fs v. unfold labelled lift in v;
    gives = λ fs g v e.
        let (b, there, k) = load_group_meta-ok w c h gid fs g (find_group-ok w c h gid fs g e) in
        v.owned (group_dir c gid) b g there k;
  }

  pub handle_group_create-Keeps :
      (req : ChatRequest) → Keeps w law c h bytes (handle_group_create w c h req)
  unfolding handle_group_create
  handle_group_create-Keeps req = Returns-bind _ _ (Returns-require _ _) λ _ _.
      Returns-bind _ _ (Returns-require _ _) λ _ _.
        Returns-bind _ _ (mkdir-Keeps w law c h bytes _ _) λ _ _.
          Returns-bind _ _
            (Returns-labelled _ _
              (write_group_meta-Keeps w law c h bytes _ _ (contains-head req.user_id req.members)))
            λ _ _.
              Returns-bind _ _ (Returns-modify _ (add_user_groups-Inv w law c h bytes _ _))
                λ _ _. Returns-pure _

  pub handle_group_send-Keeps :
      (req : ChatRequest) → Keeps w law c h bytes (handle_group_send w c h req)
  unfolding handle_group_send new_message
  handle_group_send-Keeps req = Returns-bind _ _ (Returns-require _ _) λ _ _.
      Returns-bind _ _ (Returns-require _ _) λ _ _. Returns-bind _ _ (Returns-require _ _) λ _ _.
        Returns-bind _ _ (find_group-Finds _) λ g _. Returns-bind _ _ (Returns-require _ _) λ _ _.
          Returns-bind _ _ (mkdir-Keeps w law c h bytes _ _)
            λ _ _. Returns-bind _ _ (message-Keeps w law c h bytes _ _ _) λ _ _. Returns-pure _

  store_answer-Keeps :
      (req : ChatRequest) (d : DirPath) (r : Option (List Bytes))
      → Keeps w law c h bytes (store_answer w c h req d r)
  unfolding store_answer
  store_answer-Keeps req d none = Returns-keeps _ (λ fs v. v)
  store_answer-Keeps req d (some []) = Returns-keeps _ (λ fs v. v)
  store_answer-Keeps req d (some (a ∷ as')) =
      Returns-keeps _ (message-Keeps w law c h bytes _ d _).keeps

  -- The AI job that a group message may start keeps the invariant too.
  pub process_group_ai-Keeps :
      (req : ChatRequest) (d : DirPath) → Keeps w law c h bytes (process_group_ai w c h req d)
  unfolding process_group_ai
  process_group_ai-Keeps req d = Returns-bind _ _ (Returns-lift _) λ reply _.
      Returns-bind _ _ (Returns-lift _) λ body _. store_answer-Keeps req d (w.decode_choices body)

  poll_groups-Inv :
      (gids : List Bytes) (msgs : List ChatMessage) (fs : Files)
      → Inv w fs
      → Inv w (poll_groups w c h gids msgs fs).1
  unfolding poll_groups
  poll_groups-Inv [] msgs fs v = v
  poll_groups-Inv (gid ∷ gids) msgs fs v =
      go (read_dir h (group_dir c gid) fs) (poll_groups-Inv gids)
    where
      next : IoResult (List Bytes) → List ChatMessage × Files
      next (done ns) =
          let (msgs', fs') = take_messages w h (group_dir c gid) ns msgs fs in
          poll_groups w c h gids msgs' fs'
      next (fault x) = poll_groups w c h gids msgs fs

      go :
          (r : IoResult (List Bytes))
          → ((ms : List ChatMessage) (gs : Files)
              → Inv w gs
              → Inv w (poll_groups w c h gids ms gs).1)
          → Inv w (next r).1
      go (done ns) rest =
          rest _ _ (take_messages-Inv w law c h bytes (group_dir c gid) ns msgs fs v)
      go (fault x) rest = rest msgs fs v

  named_group-Keeps : (req : ChatRequest) → Keeps w law c h bytes (named_group w c h req)
  unfolding named_group
  named_group-Keeps req =
      Returns-bind _ _ (find_group-Finds _)
        λ g _. Returns-bind _ _ (Returns-require _ _) λ _ _. Returns-pure _

  groups_to_poll-Keeps : (req : ChatRequest) → Keeps w law c h bytes (groups_to_poll w c h req)
  unfolding groups_to_poll
  groups_to_poll-Keeps req =
      Returns-if (is_set req.group_id) _ _ (named_group-Keeps req) (Returns-gets _)

  pub handle_group_poll-Keeps :
      (req : ChatRequest) → Keeps w law c h bytes (handle_group_poll w c h req)
  unfolding handle_group_poll
  handle_group_poll-Keeps req = Returns-bind _ _ (Returns-require _ _) λ _ _.
      Returns-bind _ _ (groups_to_poll-Keeps req) λ ids _. Returns-keeps _ (poll_groups-Inv ids [])

  pub handle_group_invite-Keeps :
      (req : ChatRequest) → Keeps w law c h bytes (handle_group_invite w c h req)
  unfolding handle_group_invite
  handle_group_invite-Keeps req = Returns-bind _ _ (Returns-require _ _) λ _ _.
      Returns-bind _ _ (Returns-require _ _) λ _ _. Returns-bind _ _ (Returns-require _ _) λ _ _.
        Returns-bind _ _ (find_group-Finds _) λ g owned.
          Returns-bind _ _ (Returns-require _ _) λ _ _.
            Returns-bind _ _
              (Returns-labelled _ _ (
                write_group_meta-Keeps w law c h bytes _ _
                  (invite_members-contains g.members req.members g.owner owned)))
              λ _ _.
                Returns-bind _ _ (Returns-modify _ (add_user_groups-Inv w law c h bytes _ _))
                  λ _ _. Returns-pure _

  store_rest-Keeps :
      (req : ChatRequest) (g : Group) (ms : List Bytes)
      → ms ≡ without_member req.user_id g.members
      → IsOwned g
      → Keeps w law c h bytes (store_rest w c h req g ms)
  unfolding store_rest
  store_rest-Keeps req g [] e o =
      Returns-Any _ (Returns-modify _ (remove_all-Inv w h (group_dir c req.group_id)))
  store_rest-Keeps req g (m ∷ ms) e o =
      Returns-labelled _ _
        (write_group_meta-Keeps w law c h bytes _ _ (heir (Bool-cases (g.owner == req.user_id))))
    where
      next_owner : Bytes
      next_owner = if g.owner == req.user_id then m else g.owner

      heir :
          ((g.owner == req.user_id) ≡ true) ⊎ ((g.owner == req.user_id) ≡ false)
          → contains (m ∷ ms) next_owner ≡ true
      heir (inl leaves) = rw leaves (contains-head m ms)
      heir (inr stays) =
          rw (stays, e) (without_member-contains req.user_id g.owner g.members stays o)

  pub handle_group_leave-Keeps :
      (req : ChatRequest) → Keeps w law c h bytes (handle_group_leave w c h req)
  unfolding handle_group_leave
  handle_group_leave-Keeps req = Returns-bind _ _ (Returns-require _ _) λ _ _.
      Returns-bind _ _ (Returns-require _ _) λ _ _. Returns-bind _ _ (find_group-Finds _) λ g owned.
        Returns-bind _ _ (store_rest-Keeps req g _ refl owned) λ _ _.
          Returns-bind _ _ (Returns-modify _ (remove_user_group-Inv w law c h bytes _ _))
            λ _ _. Returns-pure _

  pub handle_group_list-Keeps :
      (req : ChatRequest) → Keeps w law c h bytes (handle_group_list w c h req)
  unfolding handle_group_list
  handle_group_list-Keeps req =
      Returns-bind _ _ (Returns-require _ _)
        λ _ _. Returns-bind _ _ (Returns-gets _) λ ids _. Returns-gets _
