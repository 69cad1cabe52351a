-- ===== src/Proxy/Chain.antt =====
-- mixnet-proxy/main.go: the byte count and the proof chain tell the same story, and the chain binds
-- the payloads that it was made of.
use zknode_autonomi_alpha.Prelude.{
  ℕ, suc, ◌+◌, ◌%◌, ◌^◌, ◌<◌, ◌≤◌, ◌≡◌, ◌≢◌, ◌⊎◌, inl, inr, ◌∙◌, sym, ap, refl, Bool, true, false,
  Option, none, some, List, [], ◌∷◌, ◌++◌, Bytes, Result, ok, err, codes, length, take, drop, arith,
  Result-cases, Bool-cases, ◌==◌, ==_iff, nat_Eq, list_Eq, take-append, drop-append_past,
}
use zknode_autonomi_alpha.Proxy.Forward.{
  State, HttpRequest, Exchange, Library, update_proof_chain, account, write_response, pass_on,
  forward, answer_request, round, serve_http, cut_payload,
}

abbrev pub total_length : List Bytes → ℕ
total_length [] = 0
total_length (p ∷ ps) = length p + total_length ps

-- The state after the payloads have been counted and chained.
unfoldable pub accounted : Library → List Bytes → State → State
accounted lib [] st = st
accounted lib (p ∷ ps) st = accounted lib ps (account lib p st)

-- The chain over payloads.
abbrev pub chain_over : Library → Bytes → List Bytes → Bytes
chain_over lib chain [] = chain
chain_over lib chain (p ∷ ps) = chain_over lib (update_proof_chain lib chain p) ps

module _ (lib : Library) where
  accounted-chain :
      (ps : List Bytes) (st : State)
      → (accounted lib ps st).proof_chain ≡ chain_over lib st.proof_chain ps
  unfolding accounted account
  accounted-chain [] st = refl
  accounted-chain (p ∷ ps) st = accounted-chain ps (account lib p st)

  accounted-bytes :
      (ps : List Bytes) (st : State)
      → st.bytes_forwarded < 2 ^ 64
      → (accounted lib ps st).bytes_forwarded ≡ (st.bytes_forwarded + total_length ps) % 2 ^ 64
  unfolding accounted account
  accounted-bytes [] st h = omega arith
  accounted-bytes (p ∷ ps) st h = accounted-bytes ps (account lib p st) (omega arith) ∙ omega arith

  -- A round counts one payload, or none.
  abbrev IsAccounted : State → State → Type 0
  IsAccounted st st' = (st' ≡ st) ⊎ ((p : Bytes) × (st' ≡ account lib p st))

  write_response-state :
      (b : Bool) (p : Bytes) (o : Option Bytes) (st : State)
      → (write_response lib b p o st).state ≡ st
  unfolding write_response
  write_response-state b p none st = refl
  write_response-state true p (some t) st = refl
  write_response-state false p (some t) st = refl

  pass_on-IsAccounted :
      (b : Bool) (req : HttpRequest) (reply : Bytes) (o : Option Bytes) (st : State)
      → IsAccounted st (pass_on lib b req reply o st).state
  unfolding pass_on
  pass_on-IsAccounted b req reply none st = inr (reply, refl)
  pass_on-IsAccounted b req reply (some p) st = inr (p, write_response-state b p _ _)

  forward-IsAccounted :
      (ex : Exchange) (service : Bytes × Bytes) (req : HttpRequest) (raw : Result Bytes)
      (st : State)
      → IsAccounted st (forward lib ex service req raw st).state
  unfolding forward
  forward-IsAccounted ex service req (err e) st = inl refl
  forward-IsAccounted ex service req (ok raw) st =
      elim (Result-cases (ex.send (cut_payload lib raw) service.0 service.1)) [
        | inl (reply, e) ↦
            rw (e, forward) (pass_on-IsAccounted ex.writable req reply (lib.unwrap reply) st)
        | inr (x, e) ↦ rw (e, forward) (inl refl)
      ]

  answer_request-IsAccounted :
      (ex : Exchange) (service : Bytes × Bytes) (host : Bytes) (req : Result HttpRequest)
      (st : State)
      → IsAccounted st (answer_request lib ex service host req st).state
  unfolding answer_request
  answer_request-IsAccounted ex service host (err e) st = inl refl
  answer_request-IsAccounted ex service host (ok req) st =
      elim (Bool-cases (req.method == codes "CONNECT")) [
        | inl e ↦ rw (e, answer_request) (inl refl)
        | inr e ↦ rw (e, answer_request) (forward-IsAccounted ex service _ _ st)
      ]

  extend :
      (st st' s : State) (n : ℕ)
      → IsAccounted st st'
      → (ps : List Bytes) × (length ps ≤ n) × (s ≡ accounted lib ps st')
      → (ps : List Bytes) × (length ps ≤ suc n) × (s ≡ accounted lib ps st)
  unfolding accounted
  extend st st' s n (inl e) (ps, h, q) = (ps, omega (arith, h), q ∙ ap (accounted lib ps) e)
  extend st st' s n (inr (p, e)) (ps, h, q) =
      (p ∷ ps, omega (arith, h), q ∙ ap (accounted lib ps) e)

  pub serve_http-accounted :
      (service : Bytes × Bytes) (host : Bytes) (exs : List Exchange) (st : State)
      → (ps : List Bytes) × (length ps ≤ length exs)
        × ((serve_http lib service host exs st).1 ≡ accounted lib ps st)
  unfolding serve_http round accounted
  serve_http-accounted service host [] st = ([], omega arith, refl)
  serve_http-accounted service host (ex ∷ exs) st =
      let st' = (round lib service host ex st).state in
      let counted = answer_request-IsAccounted ex service host ex.request st in
      elim (Bool-cases (round lib service host ex st).goes_on) [
        | inl e ↦
            rw e (extend st st' _ (length exs) counted (serve_http-accounted service host exs st'))
        | inr e ↦ rw e (extend st st' st' (length exs) counted ([], omega arith, refl))
      ]

  -- Over one connection the byte count and the proof chain tell the same story: there are payloads, at
  -- most one for each round, that are chained in their order and whose lengths the count has grown by,
  -- modulo 2^64.
  pub serve_http_lem :
      (service : Bytes × Bytes) (host : Bytes) (exs : List Exchange) (st : State)
      → st.bytes_forwarded < 2 ^ 64
      → let after = (serve_http lib service host exs st).1 in
        (ps : List Bytes) × (length ps ≤ length exs)
        × (after.proof_chain ≡ chain_over lib st.proof_chain ps)
        × (after.bytes_forwarded ≡ (st.bytes_forwarded + total_length ps) % 2 ^ 64)
  serve_http_lem service host exs st h =
      let (ps, small, e) = serve_http-accounted service host exs st in
      (
        ps,
        small,
        ap (λ s. s.proof_chain) e ∙ accounted-chain ps st,
        ap (λ s. s.bytes_forwarded) e ∙ accounted-bytes ps st h,
      )

-- Two texts with one hash.
abbrev pub Collision : Library → Type 0
Collision lib = (x y : Bytes) × (x ≢ y) × (lib.sha256 x ≡ lib.sha256 y)

halves :
    (c c' p p' : Bytes) → length c ≡ 32 → length c' ≡ 32 → c ++ p ≡ c' ++ p' → (c ≡ c') × (p ≡ p')
halves c c' p p' h h' e = (
  front c p h ∙ (ap (take 32) e ∙ sym (front c' p' h')),
  sym (drop-append_past c p 32 (sym h)) ∙ (ap (drop 32) e ∙ drop-append_past c' p' 32 (sym h')),
)
  where
    front : (s t : Bytes) → length s ≡ 32 → s ≡ take 32 (s ++ t)
    front s t k = sym (ap (λ i. take i (s ++ t)) (sym k) ∙ take-append s t)

-- The chain binds what it was made of: two chains that are equal after equally many payloads began
-- alike and were given the same payloads, or else two texts with one hash are found. A hash and the
-- first values are taken to have 32 bytes.
pub chain_over-binding :
    (lib : Library)
    → ((s : Bytes) → length (lib.sha256 s) ≡ 32)
    → (chain chain' : Bytes) (ps qs : List Bytes) → length chain ≡ 32
    → length chain' ≡ 32
    → length ps ≡ length qs
    → chain_over lib chain ps ≡ chain_over lib chain' qs
    → ((chain ≡ chain') × (ps ≡ qs)) ⊎ Collision lib
unfolding update_proof_chain
chain_over-binding lib size chain chain' [] [] h h' n e = inl (e, refl)
chain_over-binding lib size chain chain' [] (q ∷ qs) h h' n e = absurd (omega (arith, n))
chain_over-binding lib size chain chain' (p ∷ ps) [] h h' n e = absurd (omega (arith, n))
chain_over-binding lib size chain chain' (p ∷ ps) (q ∷ qs) h h' n e =
    elim (chain_over-binding lib size _ _ ps qs (size _) (size _) (omega (arith, n)) e) [
      | inr found ↦ inr found
      | inl (same, rest) ↦ elim (Bool-cases ((chain ++ p) == (chain' ++ q))) [
        | inl eq ↦
            let (c, t) = halves chain chain' p q h h' ((==_iff (chain ++ p) (chain' ++ q)).0 eq) in
            inl (c, ap (λ x. x ∷ ps) t ∙ ap (λ r. q ∷ r) rest)
        | inr ne ↦ inr (
          chain ++ p,
          chain' ++ q,
          (λ eq. cc ((==_iff (chain ++ p) (chain' ++ q)).1 eq, ne)),
          same,
        )
      ]
    ]
