-- ===== src/Shield/Recovery.antt =====
-- walletshield-fix/main.go: when Handler finds a client that works.
use zknode_autonomi_alpha.Prelude.{
  ℕ, zero, suc, ◌+◌, ◌<◌, ◌≤◌, ◌≡◌, ◌⊎◌, refl, ap, ◌∙◌, false, some, Bytes, Result, ok, err, arith,
  Result-cases, Bool-cases, ltb, inl, inr,
}
use zknode_autonomi_alpha.Shield.Texts.{has_text}
use zknode_autonomi_alpha.Shield.Server.{
  Thin, Server, reconnect, exceeds, send_request, retry, exchange, Library, write_result, handler,
}

attempt_or_later : (attempt found : ℕ) → attempt ≤ found → (attempt ≡ found) ⊎ (attempt + 1 ≤ found)
attempt_or_later attempt found h = elim (Bool-cases (ltb attempt found)) [
  | inl less ↦ inr (ground (arith, less))
  | inr more ↦ inl (ground (arith, more, h))
]

module _ (decimal : ℕ → Bytes) where
  -- A client that may fail, but not with the text that ends the attempts.
  abbrev pub IsOrdinary : Bytes → Thin → Type 0
  IsOrdinary payload t =
      (e : Bytes) → send_request decimal t payload ≡ err e → has_text e exceeds ≡ false

  -- What the exchange ends with: a reply, which the client in use gives.
  abbrev pub Answered : Bytes → Result Bytes × Server → Type 0
  Answered payload r =
      (reply : Bytes) × (r.0 ≡ ok reply) × (send_request decimal r.1.thin payload ≡ ok reply)

  reconnect-IsOrdinary :
      (payload : Bytes) (r : Result Thin) (s : Server)
      → IsOrdinary payload s.thin
      → ((t : Thin) → r ≡ ok t → IsOrdinary payload t)
      → IsOrdinary payload (reconnect r s).thin
  unfolding reconnect
  reconnect-IsOrdinary payload (err x) s old new = old
  reconnect-IsOrdinary payload (ok t) s old new = new t refl

  module _ (dial : ℕ → Result Thin) (payload : Bytes) (client : Thin) (found : ℕ) where
    retry-Answered :
        (answer : Bytes) (rounds attempt : ℕ) (last : Bytes) (s : Server)
        → IsOrdinary payload s.thin
        → ((k : ℕ) (t : Thin) → dial k ≡ ok t → IsOrdinary payload t)
        → dial found ≡ ok client
        → send_request decimal client payload ≡ ok answer
        → attempt ≤ found
        → found < attempt + rounds
        → Answered payload (retry decimal dial rounds attempt payload last s)
    unfolding reconnect retry
    retry-Answered answer zero attempt last s old new d works from to =
        absurd (omega (arith, from, to))
    retry-Answered answer (suc rounds) attempt last s old new d works from to =
        let s' = reconnect (dial attempt) s in
        let fine = reconnect-IsOrdinary payload (dial attempt) s old (new attempt) in
        elim (Result-cases (send_request decimal s'.thin payload)) [
          | inl (reply, e) ↦ rw (retry, e) (reply, refl, e)
          | inr (x, e) ↦ elim (attempt_or_later attempt found from) [
            | inl same ↦
                let here : s'.thin ≡ client = ap (λ r. (reconnect r s).thin) (ap dial same ∙ d) in
                absurd (cc (ap (λ t. send_request decimal t payload) here, works, e))
            | inr later ↦
                rw (retry, e, fine x e)
                  (retry-Answered answer rounds (attempt + 1) x s' fine new d works later
                    (omega (arith, to)))
          ]
        ]

  -- Handler recovers: if one of the three dials gives a client that answers the request, and no client
  -- fails with the text of an oversized request, then the wallet gets the response that is made of a
  -- reply, and the client in use afterwards is one that gives this reply.
  pub handler_recovers :
      (lib : Library) (dial : ℕ → Result Thin) (payload answer : Bytes) (client : Thin) (found : ℕ)
      (s : Server)
      → IsOrdinary payload s.thin
      → ((k : ℕ) (t : Thin) → dial k ≡ ok t → IsOrdinary payload t)
      → dial found ≡ ok client
      → send_request decimal client payload ≡ ok answer
      → 1 ≤ found
      → found ≤ 3
      → let r = handler decimal lib dial (some payload) s in
        (reply : Bytes) × (r.0 ≡ write_result decimal lib (ok reply))
        × (send_request decimal r.1.thin payload ≡ ok reply)
  unfolding handler exchange
  handler_recovers lib dial payload answer client found s old new d works from to =
      elim (Result-cases (send_request decimal s.thin payload)) [
        | inl (reply, e) ↦ rw (e, exchange) (reply, refl, e)
        | inr (x, e) ↦
            let (reply, got, after) =
              retry-Answered dial payload client found answer 3 1 x s old new d works from
                (omega (arith, to)) in
            rw (e, exchange, old x e) (reply, ap (write_result decimal lib) got, after)
      ]
