-- ===== src/Shield/Turns/Starving.antt =====
-- walletshield-fix/main.go: two requests, of which one takes the other's client away every time.
use zknode_autonomi_alpha.Prelude.{
  ℕ, ◌≡◌, Bool, true, false, Bytes, ok, err, List, [], ◌∷◌, arith, nat_Eq, contains,
}
use zknode_autonomi_alpha.Shield.Texts.{has_text}
use zknode_autonomi_alpha.Shield.Server.{Thin, exceeds, send_request}
use zknode_autonomi_alpha.Shield.Turns.{
  asking, over, redial, send_with, outcome, turn, by_turns, first_client,
}

-- Both fail with the first client, and from then on each dials before the other has its answer.
abbrev pub crossing : List Bool
crossing =
    true ∷ false ∷ true ∷ false ∷ true ∷ false ∷ true ∷ true ∷ false ∷ false ∷ true ∷ true ∷ false
    ∷ false ∷ true ∷ true ∷ false ∷ []

module _ (decimal : ℕ → Bytes) (client : ℕ → Thin) (gone : Bytes) where
  -- A request can fail whatever the clients would answer: if the client in use fails two requests and
  -- these cross, then the first one ends with the error of a closed client after its three attempts,
  -- though the daemon could be dialled each time; only the second one is answered, by the sixth
  -- client. No error has the text that ends the attempts.
  pub by_turns_starved :
      (p q e e' reply : Bytes)
      → send_request decimal (client 0) p ≡ err e
      → send_request decimal (client 0) q ≡ err e'
      → send_request decimal (client 6) q ≡ ok reply
      → has_text e exceeds ≡ false
      → has_text e' exceeds ≡ false
      → has_text gone exceeds ≡ false
      → let (a, b, s) = by_turns decimal client gone crossing (asking p) (asking q) first_client in
        (a ≡ over (err gone)) × (b ≡ over (ok reply)) × (s.thin ≡ 6)
  unfolding by_turns turn send_with outcome redial contains
  by_turns_starved p q e e' reply first second sixth o o' g =
      ground (arith, first, second, sixth, o, o', g)
