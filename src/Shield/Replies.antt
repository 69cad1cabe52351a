-- ===== src/Shield/Replies.antt =====
-- walletshield-fix/main.go: what Handler makes of a reply.
use zknode_autonomi_alpha.Prelude.{
  ◌≡◌, refl, ◌⊎◌, inl, inr, true, false, List, [], ◌∷◌, Bytes, codes, All, All-append, Bool-cases,
  contains, nat_Eq, list_Eq,
}
use zknode_autonomi_alpha.Shield.Texts.{has_text, starts_with, from_text_lem, to_lower}
use zknode_autonomi_alpha.Shield.Server.{strip, passed_headers, each_value, dropped_names}

-- Any framing in front of an HTTP response is cut off: what is parsed begins with `HTTP/` if that
-- stands in the payload, and is the payload itself if not.
pub strip_lem :
    (payload : Bytes)
    → (starts_with (strip payload) (codes "HTTP/") ≡ true)
      ⊎ ((strip payload ≡ payload) × (has_text payload (codes "HTTP/") ≡ false))
unfolding strip
strip_lem payload = elim (from_text_lem payload (codes "HTTP/")) [
  | inl (r, e, h) ↦ inl (rw (strip, e) h)
  | inr (e, h) ↦ inr (rw (strip, e) refl, h)
]

abbrev pub IsPassed : Bytes × Bytes → Type 0
IsPassed header = contains dropped_names (to_lower header.0) ≡ false

each_value-IsPassed :
    (name : Bytes) (values : List Bytes)
    → contains dropped_names (to_lower name) ≡ false
    → All IsPassed (each_value name values)
unfolding each_value
each_value-IsPassed name [] h = tt
each_value-IsPassed name (v ∷ vs) h = (h, each_value-IsPassed name vs h)

-- No header of the reply that speaks of its length, its type, its encoding, its connection, its date
-- or its host reaches the wallet, in whatever case it is written.
passed_headers-IsPassed :
    (headers : List (Bytes × List Bytes)) → All IsPassed (passed_headers headers)
unfolding passed_headers
passed_headers-IsPassed [] = tt
passed_headers-IsPassed ((name, values) ∷ hs) =
    elim (Bool-cases (contains dropped_names (to_lower name))) [
      | inl drop ↦ rw (drop, passed_headers) (passed_headers-IsPassed hs)
      | inr keep ↦
          rw (keep, passed_headers)
            (All-append IsPassed (each_value name values) (passed_headers hs)
              (each_value-IsPassed name values keep) (passed_headers-IsPassed hs))
    ]
