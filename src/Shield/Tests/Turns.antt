-- ===== src/Shield/Tests/Turns.antt =====
-- walletshield-fix/main.go: requests at the same time, run.
use zknode_autonomi_alpha.Prelude.{
  ℕ, zero, suc, refl, ap, subst, ◌∙◌, inl, inr, Bool-cases, list_eq, ◌≤◌, ◌≡◌, true, false, Bytes,
  ok, err, codes, length, arith, set_at, contains, nat_Eq, ◌==◌, ==_iff,
}
use zknode_autonomi_alpha.Shield.Texts.{starts_with, has_text}
use zknode_autonomi_alpha.Shield.Server.{Thin, send_request, send_to, exceeds, payload_length}
use zknode_autonomi_alpha.Shield.Turns.{
  Wallets, Reach, absent, asking, over, begin, come, gone_on, go, redial, send_with, outcome, turn,
  by_turns, first_client,
}
use zknode_autonomi_alpha.Shield.Turns.Steps.{IsOrdinary, Answers}
use zknode_autonomi_alpha.Shield.Turns.Progress.{is_done, some_answered}
use zknode_autonomi_alpha.Shield.Turns.Starving.{crossing, by_turns_starved}
use zknode_autonomi_alpha.Shield.Tests.{unary, broken, sound, timeout_text}

abbrev nth_client : ℕ → Thin
nth_client zero = broken
nth_client (suc k) = sound

abbrev shut : Bytes
shut = codes "closed"

abbrev get : Bytes
get = codes "GET"

shut_text : has_text shut exceeds ≡ false
unfolding has_text starts_with list_eq
shut_text = refl

first_fails :
    (p : Bytes) → length p ≤ payload_length → send_request unary broken p ≡ err (codes "timeout")
unfolding send_request send_to
first_fails p z = ground (arith, z)

others_answer :
    (p : Bytes)
    → length p ≤ payload_length
    → send_request unary sound p ≡ ok (codes "HTTP/1.1 200 OK")
unfolding send_request send_to
others_answer p z = ground (arith, z)

ordinary : IsOrdinary unary nth_client shut
ordinary zero p e z q =
    let same : e ≡ codes "timeout" = cc (q, first_fails p z) in
    ap (λ t. has_text t exceeds) same ∙ timeout_text
ordinary (suc k) p e z q = cc (q, others_answer p z)

answer : Answers unary nth_client shut
answer zero p early z = absurd (omega (arith, early))
answer (suc k) p later z = (codes "HTTP/1.1 200 OK", others_answer p z)

by_turns_starved_example :
    let (a, b, s) =
      by_turns unary nth_client shut crossing (asking get) (asking get) first_client in
    (a ≡ over (err shut)) × (b ≡ over (ok (codes "HTTP/1.1 200 OK"))) × (s.thin ≡ 6)
by_turns_starved_example =
    by_turns_starved unary nth_client shut get get (codes "timeout") (codes "timeout")
      (codes "HTTP/1.1 200 OK") (first_fails get (omega arith)) (first_fails get (omega arith))
      (others_answer get (omega arith)) timeout_text timeout_text shut_text

abbrev nobody : Wallets
nobody = record { requests = λ i. absent; shared = first_client }

abbrev somebody : Wallets
somebody = record nobody { requests = set_at 0 (asking get) nobody.requests }

abbrev then_ : Wallets → Wallets
then_ w = go unary nth_client shut 0 w

abbrev finished : Wallets
finished = then_ (then_ (then_ (then_ somebody)))

finished-Reach : Reach unary nth_client shut finished
finished-Reach =
    gone_on 0 _
      (gone_on 0 _ (gone_on 0 _ (gone_on 0 _ (come 0 get nobody begin refl (omega arith)))))

answered_there : finished.requests 0 ≡ over (ok (codes "HTTP/1.1 200 OK"))
unfolding go set_at turn send_with outcome redial contains
answered_there =
    ground (arith, first_fails get (omega arith), others_answer get (omega arith), timeout_text)

all_done : (i : ℕ) → is_done (finished.requests i) ≡ true
unfolding go set_at is_done
all_done i = elim (Bool-cases (0 == i)) [
  | inl here ↦
      subst (λ x. is_done (finished.requests x) ≡ true) ((==_iff 0 i).0 here)
        (ap is_done answered_there)
  | inr other ↦ ground (arith, other)
]

some_answered_example : (i : ℕ) × (reply : Bytes) × (finished.requests i ≡ over (ok reply))
some_answered_example =
    some_answered unary nth_client shut finished 0 (ok (codes "HTTP/1.1 200 OK")) ordinary shut_text
      answer finished-Reach answered_there all_done
