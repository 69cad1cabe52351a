-- ===== src/Shield/Texts.antt =====
-- Go's strings and bytes packages as walletshield-fix/main.go calls them.
use zknode_autonomi_alpha.Prelude.{
  ℕ, ◌+◌, ◌≡◌, refl, Bool, true, false, ◌&&◌, ◌||◌, Option, none, some, [], ◌∷◌, ◌++◌, Bytes, ◌==◌,
  nat_Eq, list_Eq, leb, if◌then◌else◌, arith, ◌⊎◌, inl, inr, Bool-cases,
}
use mathlib.Core.List.{reverse}

unfoldable pub starts_with : Bytes → Bytes → Bool
starts_with s [] = true
starts_with [] (c ∷ t) = false
starts_with (b ∷ s) (c ∷ t) = (b == c) && starts_with s t

-- strings.Contains
unfoldable pub has_text : Bytes → Bytes → Bool
has_text [] t = starts_with [] t
has_text (b ∷ s) t = starts_with (b ∷ s) t || has_text s t

-- s[idx:] for the first place where t stands, or s
unfoldable pub from_text : Bytes → Bytes → Option Bytes
from_text [] t = if starts_with [] t then some [] else none
from_text (b ∷ s) t =
    let rest = from_text s t in if starts_with (b ∷ s) t then some (b ∷ s) else rest

lower : ℕ → ℕ
lower c = if leb 65 c && leb c 90 then c + 32 else c

-- strings.ToLower on ASCII
unfoldable pub to_lower : Bytes → Bytes
unfolding lower
to_lower [] = []
to_lower (c ∷ s) = lower c ∷ to_lower s

skip_zeros : Bytes → Bytes
skip_zeros [] = []
skip_zeros (c ∷ s) = let rest = skip_zeros s in if c == 0 then rest else c ∷ s

-- bytes.TrimRight(s, "\x00")
unfoldable pub trim_zeros : Bytes → Bytes
unfolding skip_zeros
trim_zeros s = reverse (skip_zeros (reverse s))

starts_with-append : (t rest : Bytes) → starts_with (t ++ rest) t ≡ true
unfolding starts_with
starts_with-append [] [] = refl
starts_with-append [] (c ∷ rest) = refl
starts_with-append (c ∷ t) rest = ground (arith, starts_with-append t rest)

has_text-here : (s t : Bytes) → starts_with s t ≡ true → has_text s t ≡ true
unfolding has_text
has_text-here [] t h = h
has_text-here (b ∷ s) t h = ground (arith, h)

-- A text is found where it stands.
pub has_text-append : (a t b : Bytes) → has_text (a ++ (t ++ b)) t ≡ true
unfolding has_text
has_text-append [] t b = has_text-here (t ++ b) t (starts_with-append t b)
has_text-append (c ∷ a) t b = ground (arith, has_text-append a t b)

-- What from_text finds begins with the text, and the text stands nowhere if it finds nothing.
pub from_text_lem :
    (s t : Bytes)
    → ((r : Bytes) × (from_text s t ≡ some r) × (starts_with r t ≡ true))
      ⊎ ((from_text s t ≡ none) × (has_text s t ≡ false))
unfolding from_text has_text
from_text_lem [] t = elim (Bool-cases (starts_with [] t)) [
  | inl h ↦ inl ([], ground (arith, h), h)
  | inr h ↦ inr (ground (arith, h), h)
]
from_text_lem (b ∷ s) t = elim (Bool-cases (starts_with (b ∷ s) t)) [
  | inl h ↦ inl (b ∷ s, ground (arith, h), h)
  | inr h ↦ elim (from_text_lem s t) [
    | inl (r, e, k) ↦ inl (r, ground (arith, h, e), k)
    | inr (e, k) ↦ inr (ground (arith, h, e), ground (arith, h, k))
  ]
]
