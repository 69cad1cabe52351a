-- ===== src/Chat/Keeps.antt =====
-- chatd/main.go: the invariant of the store is kept by the parts that the handlers share, and by the
-- handlers of direct messages.
pub mod Groups
use zknode_autonomi_alpha.Prelude.{
  ℕ, Bool, true, false, not, ◌&&◌, ◌≡◌, ◌≢◌, refl, ap, subst, ◌∙◌, sym, Option, none, some, List,
  [], ◌∷◌, ◌++◌, Bytes, codes, ◌==◌, ==_iff, nat_Eq, list_Eq, list_eq, arith, All, inl, inr,
  Option-cases, Bool-cases, Result-cases, if◌then◌else◌, contains, Distinct, Result, ok, err,
  ==_refl, is_empty, contains-append,
}
use zknode_autonomi_alpha.Hex.{IsByte}
use zknode_autonomi_alpha.FilePath.{DirPath}
use zknode_autonomi_alpha.Files.{
  Files, Host, Syscall, file, names, add_dirs, put_file, IoResult, done, fault, not_exist, refused,
  mkdir_all, write_file, read_file, read_dir, remove, remove_all,
}
use zknode_autonomi_alpha.Files.Laws.{
  file-remove, IsWellFormed, IsWellFormed-add_dirs, IsWellFormed-put_file, IsWellFormed-remove,
  IsWellFormed-remove_all, file-put_file, file-add_dirs, file-remove_all, mkdir_all-done,
  write_file-done, read_file-done,
}
use zknode_autonomi_alpha.Chat.{
  Chatd, Wire, Group, ChatMessage, ChatRequest, ChatResponse, Action, ◌>>=◌, ◌>>◌, pure, modify,
  gets, lift, attempt, labelled, require, is_set, success, no_response, respond,
}
use zknode_autonomi_alpha.Chat.Returns.{
  Returns, Any, Returns-pure, Returns-keeps, Returns-Any, Returns-if, Returns-gets, Returns-lift,
  Returns-labelled, Returns-bind, Returns-require, Returns-modify, Returns-attempt,
}
use zknode_autonomi_alpha.Chat.Store.{
  user_dir, group_dir, message_file, new_id, meta_json, groups_json, is_member, store_ant,
  load_group_meta, write_group_meta, save_group, get_user_groups, or_no_groups, add_user_group,
  add_user_groups, remove_user_group,
}
use zknode_autonomi_alpha.Chat.Layout.{message_file-ne-meta_json}
use zknode_autonomi_alpha.Chat.Invariant.{
  IsOwned, KeepsMembers, Inv, mkdir_all-Inv, write_file-Inv, remove-Inv, remove_all-Inv,
}
use zknode_autonomi_alpha.Chat.Direct.{
  handle_send, handle_poll, handle_ai, poll_entries, offload, new_message, recipient_of,
  take_messages, readable, completion,
}
use zknode_autonomi_alpha.Chat.Groups.{
  invite_members, without_member, find_group, handle_group_create, after_group_send,
  handle_group_send, store_answer, process_group_ai, groups_to_poll, named_group, poll_groups,
  handle_group_poll, handle_group_invite, store_rest, handle_group_leave, handle_group_list,
}

head_code : Bytes → ℕ
head_code [] = 0
head_code (c ∷ s) = c

pub groups_json-ne-meta_json : groups_json ≢ meta_json
unfolding head_code
groups_json-ne-meta_json e = omega (arith, ap head_code e)

module _ (w : Wire) (law : KeepsMembers w) (c : Chatd) (h : Host)
    (bytes : All IsByte h.random) where
  abbrev pub Keeps : {A : Type 0} → Action A → Type 0
  Keeps = Returns (Inv w) Any

  pub mkdir-Keeps : (label : Bytes) (d : DirPath) → Keeps (attempt h label (mkdir_all h d))
  mkdir-Keeps label d = Returns-attempt h label _ (mkdir_all-Inv w h d)

  pub message-Keeps :
      (label : Bytes) (d : DirPath) (b : Bytes)
      → Keeps (attempt h label (write_file h d (message_file (new_id h)) b))
  message-Keeps label d b = Returns-attempt h label _ (λ fs fs'.
      write_file-Inv w h d _ b fs fs' (λ e. absurd (message_file-ne-meta_json h bytes e)))

  groups-Keeps :
      (label : Bytes) (d : DirPath) (b : Bytes)
      → Keeps (attempt h label (write_file h d groups_json b))
  groups-Keeps label d b =
      Returns-attempt h label _
        (λ fs fs'. write_file-Inv w h d _ b fs fs' (λ e. absurd (groups_json-ne-meta_json e)))

  save_group-Keeps :
      (d : DirPath) (g : Group) → IsOwned g → Keeps (save_group w c h d (w.encode_group g))
  unfolding save_group
  save_group-Keeps d g o = go (w.encode_group g) refl
    where
      written :
          (b : Bytes)
          → w.encode_group g ≡ ok b
          → (g' : Group) → w.decode_group b ≡ ok g'
          → IsOwned g'
      written b e g' k = rw (law.owner g g' b e k, law.members g g' b e k) o

      go : (r : Result Bytes) → w.encode_group g ≡ r → Keeps (save_group w c h d r)
      go (err x) e = record { keeps = λ fs v. v; gives = λ fs a v k. tt }
      go (ok b) e = record {
        keeps =
            (Returns-attempt h [] (write_file h d meta_json b)
              (λ fs fs'. write_file-Inv w h d meta_json b fs fs' (λ _. written b e))).keeps;
        gives = λ fs a v k. tt;
      }

  pub write_group_meta-Keeps :
      (gid : Bytes) (g : Group) → IsOwned g → Keeps (write_group_meta w c h gid g)
  unfolding write_group_meta
  write_group_meta-Keeps gid g o =
      Returns-bind _ _ (mkdir-Keeps [] (group_dir c gid))
        (λ _ _. save_group-Keeps (group_dir c gid) g o)

  add_user_group-Inv :
      (u gid : Bytes) (fs : Files) → Inv w fs → Inv w (add_user_group w c h u gid fs).1
  unfolding add_user_group
  add_user_group-Inv u gid fs v =
      elim (Bool-cases (contains (or_no_groups w c h (get_user_groups w c h u fs)) gid)) [
        | inl old ↦ rw (old, add_user_group) v
        | inr new ↦
            rw (new, add_user_group)
              ((Returns-bind _ _ (mkdir-Keeps [] (user_dir c u))
                  (λ _ _. groups-Keeps [] (user_dir c u) _)).keeps
                fs v)
      ]

  pub add_user_groups-Inv :
      (us : List Bytes) (gid : Bytes) (fs : Files)
      → Inv w fs
      → Inv w (add_user_groups w c h us gid fs)
  unfolding add_user_groups
  add_user_groups-Inv [] gid fs v = v
  add_user_groups-Inv (u ∷ us) gid fs v =
      add_user_groups-Inv us gid _ (add_user_group-Inv u gid fs v)

  pub remove_user_group-Inv :
      (u gid : Bytes) (fs : Files) → Inv w fs → Inv w (remove_user_group w c h u gid fs)
  unfolding remove_user_group
  remove_user_group-Inv u gid fs v = elim (Option-cases (get_user_groups w c h u fs)) [
    | inl e ↦ rw (e, remove_user_group) v
    | inr (gs, e) ↦ rw (e, remove_user_group) ((groups-Keeps [] (user_dir c u) _).keeps fs v)
  ]

  pub take_messages-Inv :
      (d : DirPath) (ns : List Bytes) (msgs : List ChatMessage) (fs : Files)
      → Inv w fs
      → Inv w (take_messages w h d ns msgs fs).1
  unfolding take_messages
  take_messages-Inv d [] msgs fs v = v
  take_messages-Inv d (n ∷ ns) msgs fs v = elim (Option-cases (readable w h d n fs)) [
    | inl e ↦ rw (e, take_messages) (take_messages-Inv d ns msgs fs v)
    | inr (msg, e) ↦
        rw (e, take_messages)
          (take_messages-Inv d ns (msgs ++ msg ∷ []) (remove h d n fs) (remove-Inv w h d n fs v))
  ]

  poll_entries-Keeps : (d : DirPath) (r : IoResult (List Bytes)) → Keeps (poll_entries w c h d r)
  unfolding poll_entries
  poll_entries-Keeps d (done ns) = record {
    keeps = λ fs v. take_messages-Inv d ns [] fs v;
    gives = λ fs a v e. tt;
  }
  poll_entries-Keeps d (fault not_exist) = record { keeps = λ fs v. v; gives = λ fs a v e. tt }
  poll_entries-Keeps d (fault (refused x)) = record { keeps = λ fs v. v; gives = λ fs a v e. tt }

  pub handle_poll-Keeps : (req : ChatRequest) → Keeps (handle_poll w c h req)
  unfolding handle_poll
  handle_poll-Keeps req =
      Returns-bind _ _ (Returns-require _ _)
        λ _ _. Returns-bind _ _ (Returns-gets _) λ entries _. poll_entries-Keeps _ entries

  offload-Keeps : (d : DirPath) (id b : Bytes) → Keeps (offload c h d id b)
  unfolding offload
  offload-Keeps d id b = Returns-keeps _ λ fs v. elim (Bool-cases c.use_ant) [
    | inr off ↦ rw (off, offload) v
    | inl on ↦ elim (Result-cases (store_ant h b)) [
      | inl (addr, e) ↦ rw (on, e, offload) (remove-Inv w h d (message_file id) fs v)
      | inr (x, e) ↦ rw (on, e, offload) v
    ]
  ]

  pub handle_send-Keeps : (req : ChatRequest) → Keeps (handle_send w c h req)
  unfolding handle_send new_message
  handle_send-Keeps req = Returns-bind _ _ (Returns-require _ _) λ _ _.
      Returns-bind _ _ (Returns-require _ _) λ _ _.
        Returns-bind _ _ (mkdir-Keeps _ _)
          λ _ _. Returns-bind _ _ (message-Keeps _ _ _) λ _ _. offload-Keeps _ _ _

  pub handle_ai-Keeps : (req : ChatRequest) → Keeps (handle_ai w c h req)
  unfolding handle_ai
  handle_ai-Keeps req = Returns-bind _ _ (Returns-require _ _) λ _ _. Returns-Any _ (Returns-lift _)
