-- ===== src/Chat/Returns.antt =====
-- Rules for the handlers of chatd/main.go: which invariant an action keeps, whether it returns or
-- ends with an error, and what holds of the value that it returns.
use zknode_autonomi_alpha.Prelude.{
  Bool, true, false, ◌≡◌, refl, Bytes, Result, ok, err, if◌then◌else◌,
}
use zknode_autonomi_alpha.Files.{Files, Host, IoResult, done, fault}
use zknode_autonomi_alpha.Chat.{
  Action, ◌>>=◌, pure, modify, gets, require, lift, attempt, labelled, settle, relabel,
  continue_with,
}

pub record Returns {A : Type 0} (P : Files → Type 0) (Q : A → Type 0) (m : Action A) : Type 0 where
  pub keeps : (fs : Files) → P fs → P (m fs).1
  pub gives : (fs : Files) (a : A) → P fs → (m fs).0 ≡ ok a → Q a

-- No claim about the value.
abbrev pub Any : {A : Type 0} → A → Type 0
Any _ = Unit {0}

module _ {A : Type 0} {P : Files → Type 0} where
  pub Returns-keeps : (m : Action A) → ((fs : Files) → P fs → P (m fs).1) → Returns P Any m
  Returns-keeps m k = record { keeps = k; gives = λ fs a p e. tt }

  pub Returns-Any : {Q : A → Type 0} (m : Action A) → Returns P Q m → Returns P Any m
  Returns-Any m k = Returns-keeps m k.keeps

  pub Returns-if :
      {Q : A → Type 0} (b : Bool) (m n : Action A)
      → Returns P Q m
      → Returns P Q n
      → Returns P Q (if b then m else n)
  Returns-if true m n km kn = km
  Returns-if false m n km kn = kn

  pub Returns-pure : (a : A) → Returns P Any (pure a)
  unfolding pure
  Returns-pure a = record { keeps = λ fs p. p; gives = λ fs b p e. tt }

  pub Returns-gets : (f : Files → A) → Returns P Any (gets f)
  unfolding gets
  Returns-gets f = record { keeps = λ fs p. p; gives = λ fs b p e. tt }

  pub Returns-lift : (r : Result A) → Returns P (λ a. r ≡ ok a) (lift r)
  unfolding lift
  Returns-lift r = record { keeps = λ fs p. p; gives = λ fs b p e. e }

  pub Returns-labelled :
      {Q : A → Type 0} (label : Bytes) (m : Action A)
      → Returns P Q m
      → Returns P Q (labelled label m)
  unfolding labelled
  Returns-labelled label m k = record {
    keeps = k.keeps;
    gives = λ fs a p e. k.gives fs a p (back (m fs).0 a e);
  }
    where
      back : (r : Result A) (a : A) → relabel label r ≡ ok a → r ≡ ok a
      back (ok b) a e = e
      back (err x) a e = absurd (cc)

module _ {A B : Type 0} {P : Files → Type 0} {Q : A → Type 0} {R : B → Type 0} where
  pub Returns-bind :
      (m : Action A) (f : A → Action B)
      → Returns P Q m
      → ((a : A) → Q a → Returns P R (f a))
      → Returns P R (m >>= f)
  unfolding ◌>>=◌
  Returns-bind m f km kf = record {
    keeps = λ fs p. go (m fs).0 (m fs).1 (km.keeps fs p) (λ a e. km.gives fs a p e);
    gives = λ fs b p e. back (m fs).0 (m fs).1 b (km.keeps fs p) (λ a k. km.gives fs a p k) e;
  }
    where
      go :
          (r : Result A) (fs : Files)
          → P fs
          → ((a : A) → r ≡ ok a → Q a)
          → P (continue_with f r fs).1
      go (ok a) fs p q = (kf a (q a refl)).keeps fs p
      go (err e) fs p q = p

      back :
          (r : Result A) (fs : Files) (b : B)
          → P fs
          → ((a : A) → r ≡ ok a → Q a)
          → (continue_with f r fs).0 ≡ ok b
          → R b
      back (ok a) fs b p q e = (kf a (q a refl)).gives fs b p e
      back (err x) fs b p q e = absurd (cc)

module _ {P : Files → Type 0} where
  pub Returns-require : (b : Bool) (e : Bytes) → Returns P (λ _. b ≡ true) (require b e)
  unfolding require
  Returns-require true e = record { keeps = λ fs p. p; gives = λ fs a p k. refl }
  Returns-require false e = record { keeps = λ fs p. p; gives = λ fs a p k. cc }

  pub Returns-modify :
      (f : Files → Files) → ((fs : Files) → P fs → P (f fs)) → Returns P Any (modify f)
  unfolding modify
  Returns-modify f k = record { keeps = k; gives = λ fs a p e. tt }

  pub Returns-attempt :
      (h : Host) (label : Bytes) (call : Files → IoResult Files)
      → ((fs fs' : Files) → P fs → call fs ≡ done fs' → P fs')
      → Returns P Any (attempt h label call)
  unfolding attempt
  Returns-attempt h label call k = record {
    keeps = λ fs p. go fs p (call fs) refl;
    gives = λ fs a p e. tt;
  }
    where
      go : (fs : Files) → P fs → (r : IoResult Files) → call fs ≡ r → P (settle h label fs r).1
      go fs p (done fs') e = k fs fs' p e
      go fs p (fault x) e = p
