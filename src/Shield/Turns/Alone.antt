-- ===== src/Shield/Turns/Alone.antt =====
-- walletshield-fix/main.go: the steps of a request, taken without an interruption, are its exchange.
use zknode_autonomi_alpha.Prelude.{
  ℕ, zero, suc, ◌+◌, ◌≡◌, refl, ap, subst, sym, ◌∙◌, true, Bytes, Result, ok, err, map, arith,
  Result-cases, Bool-cases, nat_Eq, inl, inr, contains, if◌then◌else◌,
}
use zknode_autonomi_alpha.Shield.Texts.{has_text}
use zknode_autonomi_alpha.Shield.Server.{
  Thin, Server, exceeds, send_request, reconnect, retry, exchange,
}
use zknode_autonomi_alpha.Shield.Turns.{
  Shared, Request, asking, holding, failing, over, redial, send_with, outcome, turn,
}
use zknode_autonomi_alpha.Shield.Turns.Steps.{OnlyOlder, redial-OnlyOlder}

-- The server that the numbers stand for.
abbrev server_of : (ℕ → Thin) → Shared → Server
server_of client s = record { thin = client s.thin; closed = map client s.closed }

redial-reconnect :
    (client : ℕ → Thin) (k : ℕ) (s : Shared)
    → suc s.thin ≡ k
    → reconnect (ok (client k)) (server_of client s) ≡ server_of client (redial true s)
unfolding reconnect redial
redial-reconnect client k s e = rw (← e) refl

redial-thin : (s : Shared) → (redial true s).thin ≡ suc s.thin
unfolding redial
redial-thin s = refl

module _ (decimal : ℕ → Bytes) (dial : ℕ → Result Thin) (left attempt : ℕ) (payload last : Bytes)
    (s s' : Server) where
  retry-ok :
      (reply : Bytes)
      → reconnect (dial attempt) s ≡ s'
      → send_request decimal s'.thin payload ≡ ok reply
      → retry decimal dial (suc left) attempt payload last s ≡ (ok reply, s')
  unfolding retry
  retry-ok reply d e = ground (arith, ap (λ x. send_request decimal x.thin payload) d, d, e)

  retry-err :
      (x : Bytes)
      → reconnect (dial attempt) s ≡ s'
      → send_request decimal s'.thin payload ≡ err x
      → retry decimal dial (suc left) attempt payload last s ≡ (
          if has_text x exceeds
          then (err x, s')
          else retry decimal dial left (attempt + 1) payload x s')
  unfolding retry
  retry-err x d e = ground (arith, ap (λ x. send_request decimal x.thin payload) d, d, e)

module _ (decimal : ℕ → Bytes) (client : ℕ → Thin) (gone : Bytes) where
  -- Some steps of a request, one after the other.
  unfoldable run : ℕ → Request → Shared → Request × Shared
  run zero job s = (job, s)
  run (suc n) job s = let (job', s') = turn decimal client gone true job s in run n job' s'

  -- A request runs to its end, with this result and this server.
  abbrev RunsTo : Request → Shared → Result Bytes × Server → Type 0
  RunsTo job s (r, server) =
      (n : ℕ) × (s' : Shared) × (run n job s ≡ (over r, s')) × (server_of client s' ≡ server)

  send_with-live :
      (payload : Bytes) (s : Shared)
      → OnlyOlder decimal client gone s
      → send_with decimal client gone s.thin payload s
        ≡ send_request decimal (client s.thin) payload
  unfolding send_with
  send_with-live payload s older = elim (Bool-cases (contains s.closed s.thin)) [
    | inl shut ↦ absurd (omega (arith, older s.thin shut))
    | inr live ↦ rw (live, send_with) refl
  ]

  turn-live :
      (left : ℕ) (payload : Bytes) (s : Shared)
      → OnlyOlder decimal client gone s
      → turn decimal client gone true (holding s.thin left payload) s
        ≡ (outcome left payload (send_request decimal (client s.thin) payload), s)
  unfolding turn
  turn-live left payload s older = rw (send_with-live payload s older) refl

  run-suc :
      (n : ℕ) (job : Request) (s : Shared) {job' : Request} {s' : Shared}
      → turn decimal client gone true job s ≡ (job', s')
      → run (suc n) job s ≡ run n job' s'
  unfolding run
  run-suc n job s e = ap (λ x. run n x.0 x.1) e

  RunsTo-suc :
      (job : Request) (s : Shared) (r : Result Bytes × Server) {job' : Request} {s' : Shared}
      → turn decimal client gone true job s ≡ (job', s')
      → RunsTo job' s' r
      → RunsTo job s r
  RunsTo-suc job s r e (n, after, k, same) = (suc n, after, run-suc n job s e ∙ k, same)

  RunsTo-over : (r : Result Bytes) (s : Shared) → RunsTo (over r) s (r, server_of client s)
  unfolding run
  RunsTo-over r s = (0, s, refl, refl)

  run-retry :
      (base left attempt : ℕ) (payload last : Bytes) (s : Shared)
      → OnlyOlder decimal client gone s
      → suc s.thin ≡ base + attempt
      → RunsTo (failing left payload last) s (
          retry decimal
            (λ k. ok (client (base + k)))
            left
            attempt
            payload
            last
            (server_of client s))
  unfolding turn retry outcome
  run-retry base zero attempt payload last s older at_ =
      RunsTo-suc (failing zero payload last) s _ refl (RunsTo-over (err last) s)
  run-retry base (suc left) attempt payload last s older at_ =
      let dial = λ (k : ℕ). ok (client (base + k)) in
      let s' = redial true s in
      let start = server_of client s in
      let dialled = redial-reconnect client (base + attempt) s at_ in
      let older' = redial-OnlyOlder decimal client gone true s older in
      RunsTo-suc (failing (suc left) payload last) s _ refl (
        RunsTo-suc (holding s'.thin left payload) s' _ (turn-live left payload s' older')
          (elim (Result-cases (send_request decimal (client s'.thin) payload)) [
            | inl (reply, e) ↦
                subst (RunsTo _ s')
                  (sym (
                    retry-ok decimal dial left attempt payload last start (server_of client s')
                      reply dialled e))
                  (rw (e, outcome) (RunsTo-over (ok reply) s'))
            | inr (x, e) ↦
                subst (RunsTo _ s')
                  (sym (
                    retry-err decimal dial left attempt payload last start (server_of client s') x
                      dialled e))
                  (elim (Bool-cases (has_text x exceeds)) [
                    | inl large ↦ rw (e, outcome, large) (RunsTo-over (err x) s')
                    | inr again ↦
                        rw (e, outcome, again)
                          (run-retry base left (attempt + 1) payload x s' older'
                            (omega (arith, at_, redial-thin s)))
                  ])
          ]))

  -- A request that nobody interrupts ends, and what it ends with is the exchange of Handler, over a
  -- server whose closed clients all came before the one in use, where the daemon can be dialled.
  run-exchange :
      (payload : Bytes) (s : Shared)
      → OnlyOlder decimal client gone s
      → RunsTo
          (asking payload)
          s
          (exchange decimal (λ k. ok (client (s.thin + k))) payload (server_of client s))
  unfolding turn exchange outcome
  run-exchange payload s older = RunsTo-suc (asking payload) s _ refl (
      RunsTo-suc (holding s.thin 3 payload) s _ (turn-live 3 payload s older)
        (elim (Result-cases (send_request decimal (client s.thin) payload)) [
          | inl (reply, e) ↦ rw (e, outcome, exchange) (RunsTo-over (ok reply) s)
          | inr (x, e) ↦ elim (Bool-cases (has_text x exceeds)) [
            | inl large ↦ rw (e, outcome, exchange, large) (RunsTo-over (err x) s)
            | inr again ↦
                rw (e, outcome, exchange, again)
                  (run-retry s.thin 3 1 payload x s older (omega arith))
          ]
        ]))
