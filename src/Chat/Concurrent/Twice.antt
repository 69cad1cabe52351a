-- ===== src/Chat/Concurrent/Twice.antt =====
-- chatd/main.go: two polls of one mailbox at the same time.
use zknode_autonomi_alpha.Prelude.{
  ℕ, zero, suc, true, false, ◌≡◌, refl, ap, ◌∙◌, List, [], ◌∷◌, ◌++◌, append_assoc, append-nil,
  Bytes, ==_iff, nat_Eq, list_Eq, arith, inl, inr, Option-cases, Bool-cases, if◌then◌else◌,
  contains, Distinct,
}
use zknode_autonomi_alpha.FilePath.{DirPath}
use zknode_autonomi_alpha.Files.{Files, Host, Syscall, names, has_dir, read_dir, remove}
use zknode_autonomi_alpha.Files.Laws.{file-remove, IsWellFormed}
use zknode_autonomi_alpha.Chat.{Chatd, Wire, ChatMessage, ChatRequest, is_set, success}
use zknode_autonomi_alpha.Chat.Store.{user_dir}
use zknode_autonomi_alpha.Chat.Mailbox.{Willing}
use zknode_autonomi_alpha.Chat.Letters.{letters, peek, readable-peek, letters-cong}
use zknode_autonomi_alpha.Chat.Concurrent.{
  Handler, list_next, read_next, polled, advance, begin_poll, listed, opened,
}

-- Two handlers that move in turns.
unfoldable pub in_turns : Wire → Chatd → ℕ → Handler → Handler → Files → Handler × Handler × Files
in_turns w c zero a b fs = (a, b, fs)
in_turns w c (suc n) a b fs =
    let (a', fs') = advance w c a fs in
    let (b', after) = advance w c b fs' in in_turns w c n a' b' after

abbrev pub returned : ChatRequest → DirPath → List ChatMessage → Handler
returned q d msgs = polled q d (record success { messages = msgs })

module _ (w : Wire) (c : Chatd) (h h' : Host) (d : DirPath) where
  twice : Bytes → Files → Files
  twice n fs = remove h' d n (remove h d n fs)

  letters-twice :
      (n : Bytes) (ns : List Bytes) (fs : Files)
      → contains ns n ≡ false
      → letters w d ns (twice n fs) ≡ letters w d ns fs
  unfolding twice
  letters-twice n ns fs new = letters-cong w d ns (twice n fs) fs (λ m k. ground (
    arith,
    new,
    k,
    ==_iff n m,
    file-remove h' d n (remove h d n fs) d m,
    file-remove h d n fs d m,
  ))

  in_turns-entries :
      (q q' : ChatRequest) (ns : List Bytes) (msgs : List ChatMessage) (fs : Files)
      → Willing h
      → Willing h'
      → Distinct ns
      → let all = msgs ++ letters w d ns fs in
        (n : ℕ) × (after : Files) × (in_turns w c n
            (read_next h q d ns msgs)
            (read_next h' q' d ns msgs)
            fs
          ≡ (returned q d all, returned q' d all, after))
  unfolding in_turns advance opened letters twice
  in_turns-entries q q' [] msgs fs r r' k = (1, fs, rw (append-nil msgs) refl)
  in_turns-entries q q' (name ∷ rest) msgs fs r r' k = elim (Option-cases (peek w d name fs)) [
    | inl e ↦
        let (n, after, done_) = in_turns-entries q q' rest msgs fs r r' k.1 in
        (
          suc n,
          after,
          rw (readable-peek w d h name fs r, readable-peek w d h' name fs r', e, opened, letters)
              done_,
        )
    | inr (msg, e) ↦
        let (n, after, done_) =
          in_turns-entries q q' rest (msgs ++ msg ∷ []) (twice name fs) r r' k.1 in
        let all : (msgs ++ msg ∷ []) ++ letters w d rest (twice name fs)
            ≡ msgs ++ msg ∷ letters w d rest fs =
          append_assoc msgs (msg ∷ []) _
          ∙ ap (λ x. msgs ++ msg ∷ x) (letters-twice name rest fs k.0) in
        (
          suc (suc n),
          after,
          rw (readable-peek w d h name fs r, readable-peek w d h' name fs r', e, opened, letters)
              (rw (← all) done_),
        )
  ]

module _ (w : Wire) (c : Chatd) where
  begin_poll-listed :
      (h : Host) (q : ChatRequest) (d : DirPath) (fs : Files)
      → is_set q.user_id ≡ true
      → user_dir c q.user_id ≡ d
      → Willing h
      → begin_poll c h q fs
        ≡ (if has_dir fs d then read_next h q d (names fs d) [] else returned q d [])
  unfolding begin_poll listed read_dir
  begin_poll-listed h q d fs u e r = ground (arith, u, e, r Syscall.list d)

  names-missing : (d : DirPath) (fs : Files) → has_dir fs d ≡ false → names fs d ≡ []
  unfolding names has_dir
  names-missing d fs e = ground arith

  in_turns-listed :
      (n : ℕ) (h h' : Host) (q q' : ChatRequest) (fs : Files)
      → in_turns w c (suc n) (list_next h q) (list_next h' q') fs
        ≡ in_turns w c n (begin_poll c h q fs) (begin_poll c h' q' fs) fs
  unfolding in_turns advance
  in_turns-listed n h h' q q' fs = refl

  -- A message is delivered twice: if two polls of one mailbox take their turns, on hosts that refuse
  -- nothing and in a store that names each file once, both end, and both return every message of the
  -- mailbox.
  pub in_turns_twice :
      (h h' : Host) (q q' : ChatRequest) (fs : Files)
      → is_set q.user_id ≡ true
      → q'.user_id ≡ q.user_id
      → Willing h
      → Willing h'
      → IsWellFormed fs
      → let d = user_dir c q.user_id in
        let all = letters w d (names fs d) fs in
        (n : ℕ) × (after : Files) × (in_turns w c n (list_next h q) (list_next h' q') fs
          ≡ (returned q d all, returned q' d all, after))
  unfolding in_turns letters
  in_turns_twice h h' q q' fs u same r r' v =
      let d = user_dir c q.user_id in
      let first = begin_poll-listed h q d fs u refl r in
      let second = begin_poll-listed h' q' d fs (rw same u) (ap (user_dir c) same) r' in
      let (n, after, k) = in_turns-entries w c h h' d q q' (names fs d) [] fs r r' (v.distinct d) in
      elim (Bool-cases (has_dir fs d)) [
        | inl e ↦ (suc n, after, in_turns-listed n h h' q q' fs ∙ rw (first, second, e) k)
        | inr e ↦ (
          1,
          fs,
          in_turns-listed 0 h h' q q' fs
              ∙ rw (first, second, e, names-missing d fs e, in_turns, letters) refl,
        )
      ]
