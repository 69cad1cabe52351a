-- ===== src/Shield/Turns/Steps.antt =====
-- walletshield-fix/main.go, requests at the same time: what a step does to the request, and to the client
-- that all share.
use zknode_autonomi_alpha.Prelude.{
  ℕ, zero, suc, ◌<◌, ◌≤◌, ◌≡◌, ◌⊎◌, refl, Bool, true, false, Bytes, Result, ok, err, arith,
  Result-cases, Bool-cases, ◌==◌, ==_iff, nat_Eq, inl, inr, contains, length,
}
use zknode_autonomi_alpha.Shield.Texts.{has_text}
use zknode_autonomi_alpha.Shield.Server.{Thin, exceeds, payload_length, send_request}
use zknode_autonomi_alpha.Shield.Turns.{
  Shared, Request, absent, asking, holding, failing, over, redial, send_with, outcome, turn,
}

-- A request that has not dialled yet, and has no error to end with.
unfoldable pub is_early : Request → Bool
is_early absent = true
is_early (asking payload) = true
is_early (holding k left payload) = left == 3
is_early (failing left payload e) = left == 3
is_early (over (ok reply)) = true
is_early (over (err e)) = false

-- The payload of a request is within the limit.
abbrev pub IsSized : Request → Type 0
IsSized absent = Unit
IsSized (asking payload) = length payload ≤ payload_length
IsSized (holding k left payload) = length payload ≤ payload_length
IsSized (failing left payload e) = length payload ≤ payload_length
IsSized (over r) = Unit

module _ (decimal : ℕ → Bytes) (client : ℕ → Thin) (gone : Bytes) where
  -- No client fails a request within the limit with the text that ends the attempts.
  abbrev pub IsOrdinary : Type 0
  IsOrdinary =
      (k : ℕ) (payload e : Bytes)
      → length payload ≤ payload_length
      → send_request decimal (client k) payload ≡ err e
      → has_text e exceeds ≡ false

  -- Every client that is dialled later answers a request within the limit.
  abbrev pub Answers : Type 0
  Answers =
      (k : ℕ) (payload : Bytes)
      → 0 < k
      → length payload ≤ payload_length
      → (reply : Bytes) × (send_request decimal (client k) payload ≡ ok reply)

  abbrev pub OnlyOlder : Shared → Type 0
  OnlyOlder s = (k : ℕ) → contains s.closed k ≡ true → k < s.thin

  pub redial-OnlyOlder : (up : Bool) (s : Shared) → OnlyOlder s → OnlyOlder (redial up s)
  unfolding redial contains
  redial-OnlyOlder false s v = v
  redial-OnlyOlder true s v = λ k c. ground (arith, c, v k, ==_iff s.thin k)

  pub turn-OnlyOlder :
      (job : Request) (s : Shared) → OnlyOlder s → OnlyOlder (turn decimal client gone true job s).1
  unfolding turn
  turn-OnlyOlder absent s v = v
  turn-OnlyOlder (asking payload) s v = v
  turn-OnlyOlder (holding k left payload) s v = v
  turn-OnlyOlder (failing zero payload e) s v = v
  turn-OnlyOlder (failing (suc left) payload e) s v = redial-OnlyOlder true s v
  turn-OnlyOlder (over r) s v = v

  -- A request with the client in use, which is not the first.
  abbrev pub Holds : Request → Shared → Type 0
  Holds job s = (left : ℕ) × (payload : Bytes) × (job ≡ holding s.thin left payload) × (0 < s.thin)

  abbrev pub Answered : Request → Type 0
  Answered job = (reply : Bytes) × (job ≡ over (ok reply))

  -- Only a request that dials changes the server, and then it holds the new client.
  pub turn-shared :
      (job : Request) (s : Shared)
      → let (job', s') = turn decimal client gone true job s in (s' ≡ s) ⊎ Holds job' s'
  unfolding turn redial
  turn-shared absent s = inl refl
  turn-shared (asking payload) s = inl refl
  turn-shared (holding k left payload) s = inl refl
  turn-shared (failing zero payload e) s = inl refl
  turn-shared (failing (suc left) payload e) s = inr (left, payload, refl, omega arith)
  turn-shared (over r) s = inl refl

  send_with-ordinary :
      (k : ℕ) (payload e : Bytes) (s : Shared)
      → IsOrdinary
      → has_text gone exceeds ≡ false
      → length payload ≤ payload_length
      → send_with decimal client gone k payload s ≡ err e
      → has_text e exceeds ≡ false
  unfolding send_with
  send_with-ordinary k payload e s o g fits q = elim (Bool-cases (contains s.closed k)) [
    | inl shut ↦ let same : gone ≡ e = cc (rw (shut, send_with) at q) in rw (← same) g
    | inr live ↦ o k payload e fits (rw (live, send_with) at q)
  ]

  pub turn-early :
      (job : Request) (s : Shared)
      → IsOrdinary
      → has_text gone exceeds ≡ false
      → IsSized job
      → is_early job ≡ true
      → let (job', s') = turn decimal client gone true job s in
        (is_early job' ≡ true) ⊎ Holds job' s'
  unfolding turn is_early outcome redial
  turn-early absent s o g z e = inl refl
  turn-early (asking payload) s o g z e = inl refl
  turn-early (holding k left payload) s o g z e =
      elim (Result-cases (send_with decimal client gone k payload s)) [
        | inl (reply, q) ↦ inl (rw (q, outcome) refl)
        | inr (x, q) ↦ inl (rw (q, outcome, send_with-ordinary k payload x s o g z q) e)
      ]
  turn-early (failing zero payload x) s o g z e = cc
  turn-early (failing (suc left) payload x) s o g z e = inr (left, payload, refl, omega arith)
  turn-early (over (ok reply)) s o g z e = inl refl
  turn-early (over (err x)) s o g z e = cc

  -- The client in use answers the request that holds it.
  pub turn-Holds :
      (job : Request) (s : Shared)
      → Answers
      → OnlyOlder s
      → IsSized job
      → Holds job s
      → Answered (turn decimal client gone true job s).0
  unfolding turn send_with outcome
  turn-Holds job s answers older z (left, payload, e, later) =
      let (reply, q) = answers s.thin payload later (rw e at z) in
      let live : contains s.closed s.thin ≡ false = elim (Bool-cases (contains s.closed s.thin)) [
        | inr k ↦ k
        | inl k ↦ absurd (omega (arith, older s.thin k))
      ] in
      (reply, rw (e, turn, send_with, live, q, outcome) refl)

  pub turn-Answered :
      (job : Request) (s : Shared) → Answered job → Answered (turn decimal client gone true job s).0
  unfolding turn
  turn-Answered job s (reply, e) = (reply, rw (e, turn) refl)

  outcome-IsSized :
      (left : ℕ) (payload : Bytes) (r : Result Bytes)
      → length payload ≤ payload_length
      → IsSized (outcome left payload r)
  unfolding outcome
  outcome-IsSized left payload (ok reply) z = tt
  outcome-IsSized left payload (err e) z = elim (Bool-cases (has_text e exceeds)) [
    | inl k ↦ rw (k, outcome) tt
    | inr k ↦ rw (k, outcome) z
  ]

  pub turn-IsSized :
      (job : Request) (s : Shared) → IsSized job → IsSized (turn decimal client gone true job s).0
  unfolding turn
  turn-IsSized absent s z = z
  turn-IsSized (asking payload) s z = z
  turn-IsSized (holding k left payload) s z =
      outcome-IsSized left payload (send_with decimal client gone k payload s) z
  turn-IsSized (failing zero payload e) s z = tt
  turn-IsSized (failing (suc left) payload e) s z = z
  turn-IsSized (over r) s z = z
