-- ===== src/Chat/Concurrent/Alone.antt =====
-- chatd/main.go: the steps of a handler, taken without an interruption, are the handler.
use zknode_autonomi_alpha.Prelude.{
  ℕ, zero, suc, true, ◌≡◌, refl, ap, ◌∙◌, none, some, List, [], ◌∷◌, ◌++◌, Bytes, ==_refl, nat_Eq,
  list_Eq, arith, inl, inr, Option-cases, Bool-cases, lookup, lookup-insert, insert, before,
  insert-insert,
}
use zknode_autonomi_alpha.FilePath.{DirPath}
use zknode_autonomi_alpha.Files.{
  Files, Entries, Host, IoResult, done, fault, not_exist, refused, has_dir, add_dirs, put_file,
  mkdir_all, write_file, read_dir, remove, no_order,
}
use zknode_autonomi_alpha.Files.Laws.{file-put_file, has_dir-add_dirs}
use zknode_autonomi_alpha.Chat.{
  Chatd, Wire, ChatMessage, ChatRequest, ◌>>=◌, is_set, success, respond,
}
use zknode_autonomi_alpha.Chat.Direct.{
  new_message, readable, handle_send, handle_poll, poll_entries, take_messages,
}
use zknode_autonomi_alpha.Chat.Store.{user_dir}
use zknode_autonomi_alpha.Chat.Concurrent.{
  Handler, send_at, sent, list_next, read_next, polled, fresh, advance, fill, send_begins, go_on,
  begin_poll, listed, opened, mailbox_of, name_of, blob_of,
}

-- Some steps of a handler, one after the other.
unfoldable pub run : Wire → Chatd → ℕ → Handler → Files → Handler × Files
run w c zero job fs = (job, fs)
run w c (suc n) job fs = let (job', fs') = advance w c job fs in run w c n job' fs'

put_file_nowhere :
    (d : DirPath) (n b : Bytes) (fs : Files) → lookup d fs ≡ none → put_file d n b fs ≡ fs
unfolding put_file
put_file_nowhere d n b fs e = rw (e, put_file) refl

put_file_there :
    (d : DirPath) (n b : Bytes) (fs : Files) {es : Entries}
    → lookup d fs ≡ some es
    → put_file d n b fs ≡ insert no_order d (insert before n b es) fs
unfolding put_file
put_file_there d n b fs e = rw (e, put_file) refl

put_file_twice :
    (d : DirPath) (n a b : Bytes) (fs : Files)
    → put_file d n b (put_file d n a fs) ≡ put_file d n b fs
put_file_twice d n a b fs = elim (Option-cases (lookup d fs)) [
  | inl e ↦ ap (put_file d n b) (put_file_nowhere d n a fs e)
  | inr (es, e) ↦
      rw (put_file_there d n a fs e, put_file_there d n b fs e)
        (put_file_there d n b (insert no_order d (insert before n a es) fs)
            (rw (lookup-insert no_order d (insert before n a es) fs d, ==_refl d) refl)
          ∙ insert-insert no_order d (insert before n a es) _ fs
          ∙ ap (λ x. insert no_order d x fs) (insert-insert before n a b es))
]

-- os.WriteFile is the opening and the writing.
fill-put_file :
    (d : DirPath) (n b : Bytes) (fs : Files)
    → has_dir fs d ≡ true
    → fill d n b (put_file d n [] fs) ≡ put_file d n b fs
unfolding fill
fill-put_file d n b fs here =
    rw (file-put_file d n [] fs d n here, ==_refl d, ==_refl n, fill) (put_file_twice d n [] b fs)

module _ (w : Wire) (c : Chatd) (h : Host) (req : ChatRequest) (fs : Files) where
  -- Four steps of a handleSend, from its start, are handleSend, on every host, errors included.
  run-handle_send :
      run w c 4 (send_at fresh h req) fs
      ≡ (let (response, fs') = respond (handle_send w c h req) fs in (sent h req response, fs'))
  unfolding ◌>>=◌ run advance send_begins go_on handle_send respond mkdir_all write_file mailbox_of
      name_of blob_of new_message
  run-handle_send =
      let d = mailbox_of c req in
      let full = add_dirs d fs in
      ground (
        arith,
        has_dir-add_dirs d fs,
        fill-put_file d (name_of h) (blob_of w h req) full (has_dir-add_dirs d fs),
      )

  -- The rest of a handlePoll runs like the loop of handlePoll.
  run-take_messages :
      (d : DirPath) (names : List Bytes) (msgs : List ChatMessage) (fs' : Files)
      → (n : ℕ) × (run w c n (read_next h req d names msgs) fs' ≡ (
          let (read, after) = take_messages w h d names msgs fs' in
          (polled req d (record success { messages = read }), after)))
  unfolding run advance take_messages opened
  run-take_messages d [] msgs fs' = (1, refl)
  run-take_messages d (name ∷ rest) msgs fs' = elim (Option-cases (readable w h d name fs')) [
    | inl e ↦
        let (n, k) = run-take_messages d rest msgs fs' in (suc n, rw (e, opened, take_messages) k)
    | inr (msg, e) ↦
        let (n, k) = run-take_messages d rest (msgs ++ msg ∷ []) (remove h d name fs') in
        (suc (suc n), rw (e, opened, take_messages) k)
  ]

  run-poll_entries :
      (d : DirPath) (entries : IoResult (List Bytes))
      → (n : ℕ) × (run w c n (listed h req d entries) fs ≡ (
          let (response, fs') = respond (poll_entries w c h d entries) fs in
          (polled req d response, fs')))
  unfolding run listed poll_entries respond
  run-poll_entries d (done names) = run-take_messages d names [] fs
  run-poll_entries d (fault not_exist) = (0, refl)
  run-poll_entries d (fault (refused e)) = (0, refl)

  begin_poll-listed :
      is_set req.user_id ≡ true
      → begin_poll c h req fs
        ≡ listed h req (user_dir c req.user_id) (read_dir h (user_dir c req.user_id) fs)
  unfolding begin_poll
  begin_poll-listed u = rw (u, begin_poll) refl

  -- A handlePoll that nobody interrupts ends, and has done what handlePoll does, errors included.
  pub run-handle_poll :
      (n : ℕ) × (run w c n (list_next h req) fs ≡ (
        let (response, fs') = respond (handle_poll w c h req) fs in
        (polled req (user_dir c req.user_id) response, fs')))
  unfolding ◌>>=◌ run advance begin_poll handle_poll respond
  run-handle_poll = elim (Bool-cases (is_set req.user_id)) [
    | inr e ↦ (1, ground (arith, e))
    | inl u ↦
        let d = user_dir c req.user_id in
        let (n, k) = run-poll_entries d (read_dir h d fs) in
        (suc n, rw u (ap (λ job. run w c n job fs) (begin_poll-listed u) ∙ k))
  ]

  -- The steps of a handler are the handler, errors included and on every host: four steps of a
  -- handleSend from its start are handleSend, and some number of steps of a handlePoll is handlePoll.
  run-respond :
      (run w c 4 (send_at fresh h req) fs
        ≡ (let (response, fs') = respond (handle_send w c h req) fs in (sent h req response, fs')))
      × ((n : ℕ) × (run w c n (list_next h req) fs ≡ (
            let (response, fs') = respond (handle_poll w c h req) fs in
            (polled req (user_dir c req.user_id) response, fs'))))
  run-respond = (run-handle_send, run-handle_poll)
