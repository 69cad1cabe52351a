-- ===== src/Chat/Mailbox.antt =====
-- chatd/main.go, direct messages: what a poll returns and removes, and that what is sent arrives.
use zknode_autonomi_alpha.Prelude.{
  Bool, true, false, ◌&&◌, ◌≡◌, refl, ◌∙◌, sym, none, some, List, [], ◌∷◌, ◌++◌, append_assoc,
  append-nil, Bytes, ◌==◌, ==_iff, nat_Eq, list_Eq, arith, inl, inr, Option-cases, if◌then◌else◌,
  contains, Distinct, lookup,
}
use zknode_autonomi_alpha.FilePath.{DirPath}
use zknode_autonomi_alpha.Files.{
  Files, Host, Syscall, file, names, has_dir, read_file, read_dir, remove,
}
use zknode_autonomi_alpha.Files.Laws.{
  file-remove, removable, read_file-cong, names_iff, IsWellFormed, IsWellFormed-remove,
}
use zknode_autonomi_alpha.Chat.{
  Chatd, Wire, ChatMessage, ChatRequest, ◌>>=◌, is_set, success, respond,
}
use zknode_autonomi_alpha.Chat.Direct.{readable, take_messages, handle_poll}
use zknode_autonomi_alpha.Chat.Store.{user_dir}

module _ (w : Wire) (h : Host) (d : DirPath) where
  -- The readable messages among some files, in the order of the files.
  unfoldable pub inbox : List Bytes → Files → List ChatMessage
  inbox [] fs = []
  inbox (n ∷ ns) fs = elim (readable w h d n fs) [
    | none ↦ inbox ns fs
    | some msg ↦ msg ∷ inbox ns fs
  ]

  -- Whether a poll takes a file away: it is readable, and the host lets it go.
  unfoldable pub is_taken : Files → Bytes → Bool
  is_taken fs n = elim (readable w h d n fs) [ none ↦ false | some msg ↦ removable h d n ]

module _ (w : Wire) (h : Host) (d : DirPath) where
  readable-cong :
      (n : Bytes) (fs fs' : Files)
      → file fs d n ≡ file fs' d n
      → readable w h d n fs ≡ readable w h d n fs'
  unfolding readable
  readable-cong n fs fs' e = ground (arith, read_file-cong h d n fs fs' e)

  file_after_remove :
      (m n : Bytes) (fs : Files) → (m == n) ≡ false → file (remove h d m fs) d n ≡ file fs d n
  file_after_remove m n fs e = ground (arith, file-remove h d m fs d n, ==_iff m n)

  inbox-remove :
      (m : Bytes) (ns : List Bytes) (fs : Files)
      → contains ns m ≡ false
      → inbox w h d ns (remove h d m fs) ≡ inbox w h d ns fs
  unfolding inbox contains
  inbox-remove m [] fs e = refl
  inbox-remove m (n ∷ ns) fs e = ground (
    arith,
    inbox-remove m ns fs,
    ==_iff n m,
    ==_iff m n,
    readable-cong n (remove h d m fs) fs,
    file_after_remove m n fs,
  )

  is_taken-none :
      (n : Bytes) (fs : Files) → readable w h d n fs ≡ none → is_taken w h d fs n ≡ false
  unfolding is_taken
  is_taken-none n fs e = rw (e, is_taken)

  is_taken-some :
      (n : Bytes) (msg : ChatMessage) (fs : Files)
      → readable w h d n fs ≡ some msg
      → is_taken w h d fs n ≡ removable h d n
  unfolding is_taken
  is_taken-some n msg fs e = rw (e, is_taken)

  is_taken-remove :
      (n m : Bytes) (fs : Files)
      → (n == m) ≡ false
      → is_taken w h d (remove h d n fs) m ≡ is_taken w h d fs m
  unfolding is_taken
  is_taken-remove n m fs e =
      ground (arith, readable-cong m (remove h d n fs) fs (file_after_remove n m fs e))

  -- The loop returns the readable messages behind those that it has.
  pub take_messages-inbox :
      (ns : List Bytes) (msgs : List ChatMessage) (fs : Files)
      → Distinct ns
      → (take_messages w h d ns msgs fs).0 ≡ msgs ++ inbox w h d ns fs
  unfolding take_messages inbox
  take_messages-inbox [] msgs fs k = sym (append-nil msgs)
  take_messages-inbox (n ∷ ns) msgs fs k = elim (Option-cases (readable w h d n fs)) [
    | inl e ↦ rw (e, take_messages, inbox) (take_messages-inbox ns msgs fs k.1)
    | inr (msg, e) ↦
        rw (e, take_messages, inbox)
          (take_messages-inbox ns (msgs ++ msg ∷ []) (remove h d n fs) k.1
            ∙ rw (inbox-remove n ns fs k.0, append_assoc))
  ]

  -- It removes the files that it read, if the host lets it, and leaves every other file.
  pub file-take_messages :
      (ns : List Bytes) (msgs : List ChatMessage) (fs : Files) (p : DirPath) (m : Bytes)
      → Distinct ns
      → file (take_messages w h d ns msgs fs).1 p m
        ≡ (if (d == p) && (contains ns m && is_taken w h d fs m) then none else file fs p m)
  unfolding take_messages contains
  file-take_messages [] msgs fs p m k = ground arith
  file-take_messages (n ∷ ns) msgs fs p m k = elim (Option-cases (readable w h d n fs)) [
    | inl e ↦
        rw (e, take_messages)
          (ground (arith, is_taken-none n fs e, file-take_messages ns msgs fs p m k.1, ==_iff n m))
    | inr (msg, e) ↦
        rw (e, take_messages)
          (ground (
            arith,
            is_taken-some n msg fs e,
            file-take_messages ns (msgs ++ msg ∷ []) (remove h d n fs) p m k.1,
            file-remove h d n fs p m,
            is_taken-remove n m fs,
            k.0,
            ==_iff n m,
            ==_iff d p,
          ))
  ]

  pub taken_is_named :
      (fs : Files) (m : Bytes)
      → (contains (names fs d) m && is_taken w h d fs m) ≡ is_taken w h d fs m
  unfolding is_taken readable read_file
  taken_is_named fs m = ground (arith, names_iff fs d m)

  pub take_messages-IsWellFormed :
      (ns : List Bytes) (msgs : List ChatMessage) (fs : Files)
      → IsWellFormed fs
      → IsWellFormed (take_messages w h d ns msgs fs).1
  unfolding take_messages
  take_messages-IsWellFormed [] msgs fs v = v
  take_messages-IsWellFormed (n ∷ ns) msgs fs v = elim (Option-cases (readable w h d n fs)) [
    | inl e ↦ rw (e, take_messages) (take_messages-IsWellFormed ns msgs fs v)
    | inr (msg, e) ↦
        rw (e, take_messages)
          (take_messages-IsWellFormed ns (msgs ++ msg ∷ []) (remove h d n fs)
            (IsWellFormed-remove h d n fs v))
  ]

-- The state of the service in which the host refuses nothing.
abbrev pub Willing : Host → Type 0
Willing h = (s : Syscall) (p : DirPath) → h.refuses s p ≡ none

module _ (w : Wire) (c : Chatd) (h : Host) (req : ChatRequest) (fs : Files) where
  pub handle_poll_run :
      is_set req.user_id ≡ true
      → h.refuses Syscall.list (user_dir c req.user_id) ≡ none
      → let d = user_dir c req.user_id in
        let taken = take_messages w h d (names fs d) [] fs in
        respond (handle_poll w c h req) fs ≡ (record success { messages = taken.0 }, taken.1)
  unfolding ◌>>=◌ handle_poll respond read_dir names has_dir take_messages
  handle_poll_run u l = elim (Option-cases (lookup (user_dir c req.user_id) fs)) [
    | inl e ↦ ground (arith, u, l, e)
    | inr (es, e) ↦ ground (arith, u, l, e)
  ]

  -- A poll by a named user of a mailbox that can be listed and names each file once returns the
  -- readable messages in the order of their file names. It removes the files that were read and
  -- that the host lets go, and every other file, in every directory, stays as it is.
  pub handle_poll_lem :
      is_set req.user_id ≡ true
      → h.refuses Syscall.list (user_dir c req.user_id) ≡ none
      → IsWellFormed fs
      → let d = user_dir c req.user_id in
        let after = respond (handle_poll w c h req) fs in
        (after.0 ≡ record success { messages = inbox w h d (names fs d) fs })
        × ((p : DirPath) (m : Bytes)
            → file after.1 p m ≡ (if (d == p) && is_taken w h d fs m then none else file fs p m))
  handle_poll_lem u l v =
      let d = user_dir c req.user_id in
      rw (handle_poll_run u l) (
        rw (take_messages-inbox w h d (names fs d) [] fs (v.distinct d)),
        λ p m.
            rw (file-take_messages w h d (names fs d) [] fs p m (v.distinct d))
              (rw (taken_is_named w h d fs m)),
      )

  pub handle_poll-IsWellFormed :
      is_set req.user_id ≡ true
      → h.refuses Syscall.list (user_dir c req.user_id) ≡ none
      → IsWellFormed fs
      → IsWellFormed (respond (handle_poll w c h req) fs).1
  handle_poll-IsWellFormed u l v =
      let d = user_dir c req.user_id in
      rw (handle_poll_run u l) (take_messages-IsWellFormed w h d (names fs d) [] fs v)
