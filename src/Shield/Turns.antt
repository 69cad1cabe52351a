-- ===== src/Shield/Turns.antt =====
-- walletshield-fix/main.go: many requests at the same time. http.Serve runs Handler in a goroutine for
-- each, and all of them share the client of the server, which `reconnect` closes when it has a new one;
-- getThin and reconnect hold the mutex. The clients are numbered in the order in which they were
-- dialled.
pub mod Steps
pub mod Progress
pub mod Starving
pub mod Alone
use zknode_autonomi_alpha.Prelude.{
  ℕ, zero, suc, ◌+◌, ◌<◌, ◌≤◌, ◌≡◌, ◌≢◌, ◌⊎◌, refl, ap, sym, ◌∙◌, Bool, true, false, Bytes, Result,
  ok, err, List, [], ◌∷◌, arith, Result-cases, Bool-cases, ◌==◌, ==_iff, nat_Eq, inl, inr, contains,
  if◌then◌else◌, set_at, length,
}
use zknode_autonomi_alpha.Shield.Texts.{has_text}
use zknode_autonomi_alpha.Shield.Server.{Thin, exceeds, payload_length, send_request}

-- Server.thin, and the clients that were closed.
pub record Shared : Type 0 where
  pub thin : ℕ
  pub closed : List ℕ

-- Where a Handler stands: before getThin; with a client in hand, as many attempts left, and the
-- payload; with an error, before the next attempt; at its end. An `absent` request has not come.
pub data Request : Type 0 where
  absent : Request
  asking : Bytes → Request
  holding : ℕ → ℕ → Bytes → Request
  failing : ℕ → Bytes → Bytes → Request
  over : Result Bytes → Request

-- reconnect, by whether the daemon could be dialled
unfoldable pub redial : Bool → Shared → Shared
redial false s = s
redial true s = record { thin = suc s.thin; closed = s.thin ∷ s.closed }

-- Whether the attempts go on after a reply or an error.
unfoldable pub outcome : ℕ → Bytes → Result Bytes → Request
outcome left payload (ok reply) = over (ok reply)
outcome left payload (err e) = if has_text e exceeds then over (err e) else failing left payload e

module _ (decimal : ℕ → Bytes) (client : ℕ → Thin) (gone : Bytes) where
  -- sendRequest on a client; one that was closed before the reply has come gives the error `gone`.
  unfoldable pub send_with : ℕ → Bytes → Shared → Result Bytes
  send_with k payload s =
      if contains s.closed k then err gone else send_request decimal (client k) payload

  -- One step of a Handler.
  unfoldable pub turn : Bool → Request → Shared → Request × Shared
  unfolding outcome
  turn up absent s = (absent, s)
  turn up (asking payload) s = (holding s.thin 3 payload, s)
  turn up (holding k left payload) s = (outcome left payload (send_with k payload s), s)
  turn up (failing zero payload e) s = (over (err e), s)
  turn up (failing (suc left) payload e) s =
      let s' = redial up s in (holding s'.thin left payload, s')
  turn up (over r) s = (over r, s)

  -- Two requests, by a schedule that says who moves, `true` is the first, where the daemon can be
  -- dialled.
  unfoldable pub by_turns : List Bool → Request → Request → Shared → Request × Request × Shared
  by_turns [] a b s = (a, b, s)
  by_turns (true ∷ rest) a b s = let (a', s') = turn true a s in by_turns rest a' b s'
  by_turns (false ∷ rest) a b s = let (b', s') = turn true b s in by_turns rest a b' s'

-- The requests and the server that they share.
pub record Wallets : Type 0 where
  pub requests : ℕ → Request
  pub shared : Shared

abbrev pub first_client : Shared
first_client = record { thin = 0; closed = [] }

-- The goroutine `i` moves.
unfoldable pub go : (ℕ → Bytes) → (ℕ → Thin) → Bytes → ℕ → Wallets → Wallets
go decimal client gone i s =
    let (request, shared) = turn decimal client gone true (s.requests i) s.shared in
    record { requests = set_at i request s.requests; shared = shared }

-- What wallets and the scheduler can bring about, where the daemon can be dialled and no request is
-- over the limit, which would fail at once.
pub data Reach (decimal : ℕ → Bytes) (client : ℕ → Thin) (gone : Bytes) : Wallets → Type 0 where
  begin : Reach decimal client gone (record { requests = λ i. absent; shared = first_client })
  come :
      (i : ℕ) (payload : Bytes) (s : Wallets)
      → Reach decimal client gone s
      → s.requests i ≡ absent
      → length payload ≤ payload_length
      → Reach decimal client gone (record s { requests = set_at i (asking payload) s.requests })
  gone_on :
      (i : ℕ) (s : Wallets)
      → Reach decimal client gone s
      → Reach decimal client gone (go decimal client gone i s)
