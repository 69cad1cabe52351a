-- ===== src/Shield/Retries.antt =====
-- walletshield-fix/main.go: how often Handler reconnects, and when it does not.
use zknode_autonomi_alpha.Prelude.{
  ℕ, zero, suc, ◌+◌, ◌<◌, ◌≤◌, ◌≡◌, refl, true, Option, none, some, ◌++◌, Bytes, Result, ok, err,
  codes, length, ltb, arith, Result-cases, Bool-cases, inl, inr,
}
use zknode_autonomi_alpha.Shield.Texts.{has_text, has_text-append}
use zknode_autonomi_alpha.Shield.Server.{
  Thin, Server, reconnect, exceeds, send_request, retry, exchange, http_error, Library,
  write_result, handler, too_long, payload_length,
}

module _ (decimal : ℕ → Bytes) where
  too_long_lem : (payload : Bytes) → has_text (too_long decimal payload) exceeds ≡ true
  unfolding too_long
  too_long_lem payload =
      has_text-append (codes "payload size " ++ decimal (length payload) ++ codes " ") exceeds
        (codes " " ++ decimal payload_length ++ codes " bytes")

  exchange_oversize :
      (dial : ℕ → Result Thin) (payload : Bytes) (s : Server)
      → 2000 < length payload
      → exchange decimal dial payload s ≡ (err (too_long decimal payload), s)
  unfolding exchange send_request
  exchange_oversize dial payload s h =
      let big : ltb 2000 (length payload) ≡ true = ground arith in
      rw (exchange, big, too_long_lem payload) refl

  -- A request that is too large for the mixnet fails at once: the wallet gets the error 500, and no
  -- client is closed or opened, whatever the dials would give.
  pub handler_oversize :
      (lib : Library) (dial : ℕ → Result Thin) (payload : Bytes) (s : Server)
      → 2000 < length payload
      → handler decimal lib dial (some payload) s ≡ (http_error 500 (codes "custom 500"), s)
  unfolding handler write_result
  handler_oversize lib dial payload s h =
      rw (exchange_oversize dial payload s h, too_long_lem payload) refl

  reconnect-closed :
      (r : Result Thin) (s : Server) → length (reconnect r s).closed ≤ length s.closed + 1
  unfolding reconnect
  reconnect-closed (err e) s = omega arith
  reconnect-closed (ok client) s = omega arith

  retry-closed :
      (dial : ℕ → Result Thin) (rounds attempt : ℕ) (payload last : Bytes) (s : Server)
      → length (retry decimal dial rounds attempt payload last s).1.closed
        ≤ length s.closed + rounds
  unfolding retry
  retry-closed dial zero attempt payload last s = omega arith
  retry-closed dial (suc rounds) attempt payload last s =
      let s' = reconnect (dial attempt) s in
      let once = reconnect-closed (dial attempt) s in
      elim (Result-cases (send_request decimal s'.thin payload)) [
        | inl (reply, e) ↦ rw (e, retry) (omega (arith, once))
        | inr (x, e) ↦ elim (Bool-cases (has_text x exceeds)) [
          | inl big ↦ rw (e, big, retry) (omega (arith, once))
          | inr small ↦
              rw (e, small, retry)
                (omega (arith, once, retry-closed dial rounds (attempt + 1) payload x s'))
        ]
      ]

  -- One request of a wallet replaces the client three times at most.
  handler-closed :
      (lib : Library) (dial : ℕ → Result Thin) (payload : Option Bytes) (s : Server)
      → length (handler decimal lib dial payload s).1.closed ≤ length s.closed + 3
  unfolding handler exchange
  handler-closed lib dial none s = omega arith
  handler-closed lib dial (some payload) s =
      elim (Result-cases (send_request decimal s.thin payload)) [
        | inl (reply, e) ↦ rw (e, exchange) (omega arith)
        | inr (x, e) ↦ elim (Bool-cases (has_text x exceeds)) [
          | inl big ↦ rw (e, big, exchange) (omega arith)
          | inr small ↦ rw (e, small, exchange) (retry-closed dial 3 1 payload x s)
        ]
      ]
