-- ===== src/Chat/Concurrent/Ending.antt =====
-- chatd/main.go: whether a handler of direct messages ends while others change the store.
use zknode_autonomi_alpha.Prelude.{
  ℕ, zero, suc, Bool, true, false, ◌≡◌, refl, ap, ◌∙◌, List, [], ◌∷◌, ◌++◌, Bytes, ok, err, codes,
  Result, inl, inr, Option-cases, nat_Eq, list_Eq,
}
use zknode_autonomi_alpha.FilePath.{DirPath}
use zknode_autonomi_alpha.Files.{Files, Host, write_file}
use zknode_autonomi_alpha.Chat.{Chatd, Wire, ChatMessage, ChatRequest, attempt}
use zknode_autonomi_alpha.Chat.Direct.{readable}
use zknode_autonomi_alpha.Chat.Concurrent.{
  Handler, Stage, idle, send_at, sent, list_next, read_next, remove_next, polled, fresh, made,
  created, written, advance, send_begins, go_on, opened, mailbox_of, name_of,
}
use zknode_autonomi_alpha.Chat.Concurrent.Views.{begin_poll-cases}

-- The handler after some steps, where `env` says which store it finds at each.
unfoldable pub amid : Wire → Chatd → (ℕ → Files) → ℕ → Handler → Handler
amid w c env zero job = job
amid w c env (suc n) job = amid w c (λ k. env (suc k)) n (advance w c job (env 0)).0

abbrev pub is_over : Handler → Bool
is_over idle = true
is_over (send_at stage h req) = false
is_over (sent h req response) = true
is_over (list_next h req) = false
is_over (read_next h req d names msgs) = false
is_over (remove_next h req d name names msgs) = false
is_over (polled req d response) = true

abbrev Ends : Wire → Chatd → (ℕ → Files) → Handler → Type 0
Ends w c env job = (n : ℕ) × (is_over (amid w c env n job) ≡ true)

module _ (w : Wire) (c : Chatd) where
  -- One step, and the end from there.
  Ends-suc :
      (env : ℕ → Files) (job : Handler) {job' : Handler}
      → (advance w c job (env 0)).0 ≡ job'
      → Ends w c (λ k. env (suc k)) job'
      → Ends w c env job
  unfolding amid
  Ends-suc env job e (n, k) = (suc n, ap (λ x. is_over (amid w c (λ i. env (suc i)) n x)) e ∙ k)

  Ends-entries :
      (h : Host) (req : ChatRequest) (d : DirPath) (names : List Bytes) (msgs : List ChatMessage)
      (env : ℕ → Files)
      → Ends w c env (read_next h req d names msgs)
  unfolding amid advance opened
  Ends-entries h req d [] msgs env = (1, refl)
  Ends-entries h req d (name ∷ rest) msgs env = elim (Option-cases (readable w h d name (env 0))) [
    | inl e ↦
        Ends-suc env _ {job' = read_next h req d rest msgs} (rw (e, opened) refl)
          (Ends-entries h req d rest msgs _)
    | inr (msg, e) ↦
        Ends-suc env _ {job' = remove_next h req d name rest (msgs ++ msg ∷ [])}
          (rw (e, opened) refl) (Ends-suc _ _ refl (Ends-entries h req d rest _ _))
  ]

  Ends-go_on :
      (stage : Stage) (h : Host) (req : ChatRequest) (outcome : Result (Unit {0})) (env : ℕ → Files)
      → Ends w c env (send_at stage h req)
      → Ends w c env (go_on stage h req outcome)
  unfolding amid go_on
  Ends-go_on stage h req (ok u) env k = k
  Ends-go_on stage h req (err e) env k = (0, refl)

  Ends-written :
      (h : Host) (req : ChatRequest) (env : ℕ → Files) → Ends w c env (send_at written h req)
  unfolding amid advance
  Ends-written h req env = (1, refl)

  Ends-created :
      (h : Host) (req : ChatRequest) (env : ℕ → Files) → Ends w c env (send_at created h req)
  unfolding advance
  Ends-created h req env = Ends-suc env _ refl (Ends-written h req _)

  Ends-made : (h : Host) (req : ChatRequest) (env : ℕ → Files) → Ends w c env (send_at made h req)
  unfolding advance
  Ends-made h req env = Ends-suc env _ refl (
      Ends-go_on created h req
        (attempt h (codes "write: ") (write_file h (mailbox_of c req) (name_of h) []) (env 0)).0 _
        (Ends-created h req _))

  -- No handler waits for another: whatever the others have made of the store before each of its
  -- steps, a handler of a direct message or a poll is over after some of them.
  pub amid_ends :
      (job : Handler) (env : ℕ → Files) → (n : ℕ) × (is_over (amid w c env n job) ≡ true)
  unfolding amid advance
  amid_ends idle env = (0, refl)
  amid_ends (send_at fresh h req) env =
      Ends-suc env _ refl
        (Ends-go_on made h req (send_begins c h req (env 0)).0 _ (Ends-made h req _))
  amid_ends (send_at made h req) env = Ends-made h req env
  amid_ends (send_at created h req) env = Ends-created h req env
  amid_ends (send_at written h req) env = Ends-written h req env
  amid_ends (sent h req response) env = (0, refl)
  amid_ends (list_next h req) env = elim (begin_poll-cases c h req (env 0)) [
    | inl (names, e) ↦ Ends-suc env _ e (Ends-entries h req _ names [] _)
    | inr (response, e, _) ↦ Ends-suc env _ e (0, refl)
  ]
  amid_ends (read_next h req d names msgs) env = Ends-entries h req d names msgs env
  amid_ends (remove_next h req d name names msgs) env =
      Ends-suc env _ refl (Ends-entries h req d names msgs _)
  amid_ends (polled req d response) env = (0, refl)
