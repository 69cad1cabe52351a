-- ===== src/Prelude/Maps.antt =====
-- Association lists: Go maps, directories and their files. `order` says where a new key goes.
use Prim.Native.Nat.{ℕ}
use mathlib.Core.Path.{◌≡◌, refl, ap, ◌∙◌}
use mathlib.Core.Bool.{Bool, false, ◌||◌}
use mathlib.Core.Option.{Option, none, some}
use mathlib.Core.List.{List, [], ◌∷◌, map}
use native.Mathlib.Omega.{arith}
use zknode_autonomi_alpha.Prelude.Tests.{nat_Eq, ==_iff, Eq, ◌==◌, if◌then◌else◌, Bool-cases}
use mathlib.Core.Logic.{inl, inr, ◌↔◌, ◌⊎◌, ◌≢◌}
use zknode_autonomi_alpha.Prelude.Lists.{contains, Distinct}

module _ {ℓ} {K V : Type ℓ} ⦃e : Eq K⦄ where
  unfoldable pub lookup : K → List (K × V) → Option V
  lookup k [] = none
  lookup k ((j, v) ∷ m) = if j == k then some v else lookup k m

  unfoldable pub erase : K → List (K × V) → List (K × V)
  erase k [] = []
  erase k ((j, v) ∷ m) = let rest = erase k m in if j == k then rest else (j, v) ∷ rest

  unfoldable pub place : (K → K → Bool) → K → V → List (K × V) → List (K × V)
  place order k v [] = (k, v) ∷ []
  place order k v ((j, w) ∷ m) =
      let rest = place order k v m in if order k j then (k, v) ∷ (j, w) ∷ m else (j, w) ∷ rest

  -- The old value goes, and the new one stands where its key belongs.
  unfoldable pub insert : (K → K → Bool) → K → V → List (K × V) → List (K × V)
  unfolding place erase
  insert order k v m = place order k v (erase k m)

  abbrev pub keys : List (K × V) → List K
  keys = map (λ p. p.0)

  pub lookup-erase :
      (k : K) (m : List (K × V)) (j : K)
      → lookup j (erase k m) ≡ (if k == j then none else lookup j m)
  unfolding lookup erase
  lookup-erase k [] j = ground arith
  lookup-erase k ((i, w) ∷ m) j =
      ground (arith, e.equals_iff k j, e.equals_iff i k, e.equals_iff i j, lookup-erase k m j)

  lookup-place :
      (order : K → K → Bool) (k : K) (v : V) (m : List (K × V)) (j : K)
      → lookup k m ≡ none
      → lookup j (place order k v m) ≡ (if k == j then some v else lookup j m)
  unfolding lookup place
  lookup-place order k v [] j h = refl
  lookup-place order k v ((i, w) ∷ m) j h =
      ground
        (arith, e.equals_iff k j, e.equals_iff i k, e.equals_iff i j, lookup-place order k v m j)

  pub lookup-insert :
      (order : K → K → Bool) (k : K) (v : V) (m : List (K × V)) (j : K)
      → lookup j (insert order k v m) ≡ (if k == j then some v else lookup j m)
  lookup-insert order k v m j =
      unfold insert in
      ground (
        arith,
        lookup-place order k v (erase k m) j,
        lookup-erase k m k,
        lookup-erase k m j,
        e.equals_iff k k,
      )

  contains-place :
      (order : K → K → Bool) (k : K) (v : V) (m : List (K × V)) (j : K)
      → contains (keys (place order k v m)) j ≡ ((k == j) || contains (keys m) j)
  unfolding place contains
  contains-place order k v [] j = refl
  contains-place order k v ((i, w) ∷ m) j = ground (arith, contains-place order k v m j)

  contains-erase :
      (k : K) (m : List (K × V)) (j : K)
      → contains (keys (erase k m)) j ≡ (if k == j then false else contains (keys m) j)
  unfolding erase contains
  contains-erase k [] j = ground arith
  contains-erase k ((i, w) ∷ m) j =
      ground (arith, contains-erase k m j, e.equals_iff i k, e.equals_iff i j, e.equals_iff k j)

  Distinct-place :
      (order : K → K → Bool) (k : K) (v : V) (m : List (K × V))
      → contains (keys m) k ≡ false
      → Distinct (keys m)
      → Distinct (keys (place order k v m))
  unfolding place contains
  Distinct-place order k v [] n h = (refl, tt)
  Distinct-place order k v ((i, w) ∷ m) n h = elim (Bool-cases (order k i)) [
    | inl first ↦ rw first (n, h)
    | inr later ↦ rw later (
      ground (arith, contains-place order k v m i, e.equals_iff i k, e.equals_iff k i, h.0),
      Distinct-place order k v m (ground arith) h.1,
    )
  ]

  pub Distinct-erase : (k : K) (m : List (K × V)) → Distinct (keys m) → Distinct (keys (erase k m))
  unfolding erase
  Distinct-erase k [] h = tt
  Distinct-erase k ((i, w) ∷ m) h = elim (Bool-cases (i == k)) [
    | inl gone ↦ rw gone (Distinct-erase k m h.1)
    | inr kept ↦ rw kept (ground (arith, contains-erase k m i, h.0), Distinct-erase k m h.1)
  ]

  pub Distinct-insert :
      (order : K → K → Bool) (k : K) (v : V) (m : List (K × V))
      → Distinct (keys m)
      → Distinct (keys (insert order k v m))
  unfolding insert
  Distinct-insert order k v m h =
      Distinct-place order k v (erase k m) (ground (arith, contains-erase k m k, e.equals_iff k k))
        (Distinct-erase k m h)

  pub contains-keys :
      (k : K) (m : List (K × V)) → (contains (keys m) k ≡ false) ↔ (lookup k m ≡ none)
  unfolding contains lookup
  contains-keys k [] = ground arith
  contains-keys k ((i, w) ∷ m) = ground (arith, contains-keys k m)

  erase-absent : (k : K) (m : List (K × V)) → contains (keys m) k ≡ false → erase k m ≡ m
  unfolding erase contains
  erase-absent k [] h = refl
  erase-absent k ((i, w) ∷ m) h = ground (arith, erase-absent k m, h)

  -- A key that is not there is put in its place.
  pub insert-absent :
      (order : K → K → Bool) (k : K) (v : V) (m : List (K × V))
      → contains (keys m) k ≡ false
      → insert order k v m ≡ place order k v m
  unfolding insert
  insert-absent order k v m h = rw (erase-absent k m h) refl

  erase-erase : (k : K) (m : List (K × V)) → erase k (erase k m) ≡ erase k m
  unfolding erase
  erase-erase k [] = refl
  erase-erase k ((i, w) ∷ m) = ground (arith, erase-erase k m)

  erase-place :
      (order : K → K → Bool) (k : K) (v : V) (m : List (K × V))
      → erase k (place order k v m) ≡ erase k m
  unfolding erase place
  erase-place order k v [] = ground (arith, e.equals_iff k k)
  erase-place order k v ((i, w) ∷ m) = ground (arith, erase-place order k v m, e.equals_iff k k)

  -- The last value wins.
  pub insert-insert :
      (order : K → K → Bool) (k : K) (u v : V) (m : List (K × V))
      → insert order k v (insert order k u m) ≡ insert order k v m
  unfolding insert
  insert-insert order k u v m =
      ap (place order k v) (rw (erase-place order k u (erase k m)) (erase-erase k m))

-- A family with one member replaced.
unfoldable pub set_at {ℓ} : {A : Type ℓ} → ℕ → A → (ℕ → A) → ℕ → A
set_at i x f j = if i == j then x else f j

pub set_at-cases {ℓ} :
    {A : Type ℓ} (i : ℕ) (x : A) (f : ℕ → A) (j : ℕ)
    → ((i ≡ j) × (set_at i x f j ≡ x)) ⊎ ((i ≢ j) × (set_at i x f j ≡ f j))
unfolding set_at
set_at-cases i x f j = elim (Bool-cases (i == j)) [
  | inl e ↦ inl ((==_iff i j).0 e, rw (e, set_at))
  | inr e ↦ inr (λ k. ground (arith, (==_iff i j).1 k), rw (e, set_at))
]

-- A member is replaced by one that looks the same.
pub set_at-view {ℓ κ} :
    {A : Type ℓ} {B : Type κ} (view : A → B) (i : ℕ) (x : A) (f : ℕ → A) (j : ℕ)
    → view x ≡ view (f i)
    → view (set_at i x f j) ≡ view (f j)
set_at-view view i x f j same = elim (set_at-cases i x f j) [
  | inl (e, k) ↦ ap view k ∙ same ∙ ap (λ y. view (f y)) e
  | inr (_, k) ↦ ap view k
]
