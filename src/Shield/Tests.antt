-- ===== src/Shield/Tests.antt =====
-- walletshield-fix/main.go, run with a client that fails and a large request.
mod Turns
use zknode_autonomi_alpha.Prelude.{
  ℕ, refl, sym, ap, ◌∙◌, inl, inr, Bool-cases, ok-injective, list_eq, ltb, if◌then◌else◌, ◌+◌, ◌≤◌,
  ◌≡◌, true, false, none, some, [], ◌∷◌, Bytes, Result, ok, err, codes, length, replicate,
  length-replicate, arith, ◌<◌,
}
use zknode_autonomi_alpha.Shield.Texts.{starts_with, has_text}
use zknode_autonomi_alpha.Shield.Server.{
  Thin, Server, Library, send_request, send_to, exceeds, write_result, http_error, handler,
}
use zknode_autonomi_alpha.Shield.Retries.{handler_oversize}
use zknode_autonomi_alpha.Shield.Requests.{WalletRequest, raw_request, body_of, body_of-raw_request}
use zknode_autonomi_alpha.Shield.Program.{pos, answered, send_test_probes}
use zknode_autonomi_alpha.Shield.Recovery.{IsOrdinary, handler_recovers}

abbrev broken : Thin
broken = record {
  has_document = true;
  service = ok (codes "node", codes "queue");
  send = λ payload node queue. err (codes "timeout");
}

abbrev server : Server
server = record { thin = broken; closed = [] }

abbrev library : Library
library = record { unwrap = λ raw. none; parse = λ raw. none; format = λ s. s }

abbrev unary : ℕ → Bytes
unary n = n ∷ []

abbrev redial : ℕ → Result Thin
redial attempt = ok broken

abbrev large : Bytes
large = replicate 2001 65

long_enough : 2000 < length large
long_enough = omega (arith, length-replicate {A = ℕ} 2001 65)

handler_oversize_example :
    handler unary library redial (some large) server ≡ (http_error 500 (codes "custom 500"), server)
handler_oversize_example = handler_oversize unary library redial large server long_enough

abbrev call : WalletRequest
call = record {
  body = ok (codes "{}");
  upstream_host = ok (codes "node:80");
  rewritten = err (codes "no URI");
}

body_of-raw_request_example :
    (raw : Bytes) × (raw_request unary (codes "http://node:80") call ≡ some raw)
    × (body_of raw ≡ some (codes "{}"))
body_of-raw_request_example =
    body_of-raw_request unary (codes "http://node:80") (codes "node:80") (codes "{}") call refl refl
      refl (omega arith) (omega arith) (omega arith)

abbrev sound : Thin
sound = record broken { send = λ payload node queue. ok (codes "HTTP/1.1 200 OK") }

abbrev third_dial : ℕ → Result Thin
third_dial attempt = if ltb attempt 3 then err (codes "offline") else ok sound

error_of : Result Bytes → Bytes
error_of (ok reply) = []
error_of (err e) = e

broken_fails : send_request unary broken (codes "GET") ≡ err (codes "timeout")
unfolding send_request send_to
broken_fails = refl

timeout_text : has_text (codes "timeout") exceeds ≡ false
unfolding has_text starts_with list_eq
timeout_text = refl

broken-IsOrdinary : IsOrdinary unary (codes "GET") broken
unfolding error_of
broken-IsOrdinary e q =
    ap (λ t. has_text t exceeds) (ap error_of (sym q ∙ broken_fails)) ∙ timeout_text

third_is_sound : (k : ℕ) (t : Thin) → third_dial k ≡ ok t → t ≡ sound
third_is_sound k t e = elim (Bool-cases (ltb k 3)) [
  | inl early ↦ absurd (ground (arith, early, e))
  | inr late ↦ ok-injective (sym e ∙ rw late refl)
]

sound_answers : send_request unary sound (codes "GET") ≡ ok (codes "HTTP/1.1 200 OK")
unfolding send_request send_to
sound_answers = refl

handler_recovers_example :
    let r = handler unary library third_dial (some (codes "GET")) server in
    (reply : Bytes) × (r.0 ≡ write_result unary library (ok reply))
    × (send_request unary r.1.thin (codes "GET") ≡ ok reply)
handler_recovers_example =
    handler_recovers unary library third_dial (codes "GET") (codes "HTTP/1.1 200 OK") sound 3 server
      broken-IsOrdinary
      (λ k t d e q. absurd (
        cc (ap (λ u. send_request unary u (codes "GET")) (third_is_sound k t d), sound_answers, q)))
      refl sound_answers (omega arith) (omega arith)
