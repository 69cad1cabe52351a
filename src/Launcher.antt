-- ===== src/Launcher.antt =====
-- cmd/zkclientd/main.go: the start of the Katzenpost client daemon.
pub mod Tests
use zknode_autonomi_alpha.Prelude.{
  ℕ, zero, suc, Bool, true, false, not, ◌||◌, ◌+◌, ◌-◌, ◌*◌, ◌/◌, ◌≤◌, ◌<◌, ◌≡◌, ◌∙◌, ap, sym, ◌⊎◌,
  refl, ==_iff, ==_refl, inl, inr, Option, none, some, Option-cases, Bool-cases, List, [], ◌∷◌,
  ◌++◌, Bytes, Result, ok, err, codes, ◌==◌, nat_Eq, list_Eq, arith, if◌then◌else◌,
}

-- What the program calls of the library. `new_daemon` and everything behind it read the variable
-- epochtime.Epoch, in seconds; `current_document` is what CurrentDocument gives at the n-th look.
pub record Library {ℓ} (Settings Daemon Document : Type ℓ) : Type ℓ where
  pub load_file : Bytes → Result Settings
  pub new_daemon : ℕ → Settings → Result Daemon
  pub begin : Daemon → Result Daemon
  pub current_document : Daemon → ℕ → Option Document

-- How main ends, or what runs when it waits for a signal: the daemon, the seconds that it slept, and
-- the document that it found.
pub data Launch {ℓ} (Daemon Document : Type ℓ) : Type ℓ where
  fatal : Bytes → Launch Daemon Document
  running : Daemon → ℕ → Option Document → Launch Daemon Document

abbrev pub minute : ℕ
minute = 60

-- epochtime.Epoch = epochtime.Epoch.Add(-20 * time.Minute), for an epoch that is not within twenty
-- minutes of the zero of the clock, where ℕ stops
unfoldable pub shifted : ℕ → ℕ
shifted epoch = epoch - 20 * minute

module _ {ℓ} {Settings Daemon Document : Type ℓ} (lib : Library Settings Daemon Document) where
  -- for i := …; i < 120; i++, with the rounds that are left
  unfoldable pub await_document : Daemon → ℕ → ℕ → ℕ × Option Document
  await_document d zero i = (i, none)
  await_document d (suc left) i = elim (lib.current_document d i) [
    | some doc ↦ (i, some doc)
    | none ↦ await_document d left (suc i)
  ]

  unfoldable pub launched : Result Daemon → Launch Daemon Document
  launched (err e) = fatal (codes "start: " ++ e)
  launched (ok d) = let (slept, doc) = await_document d 120 0 in running d slept doc

  unfoldable pub built : Result Daemon → Launch Daemon Document
  unfolding launched
  built (err e) = fatal (codes "daemon: " ++ e)
  built (ok d) = launched (lib.begin d)

  unfoldable pub loaded : ℕ → Result Settings → Launch Daemon Document
  unfolding built
  loaded epoch (err e) = fatal (codes "config: " ++ e)
  loaded epoch (ok settings) = built (lib.new_daemon (shifted epoch) settings)

  -- main, with os.Args behind the name of the program and epochtime.Epoch as the library sets it
  unfoldable pub launch : List Bytes → ℕ → Launch Daemon Document
  unfolding loaded
  launch [] epoch = fatal (codes "usage: zkclientd -c <config.toml>")
  launch (flag ∷ []) epoch = fatal (codes "usage: zkclientd -c <config.toml>")
  launch (flag ∷ file ∷ rest) epoch =
      if flag == codes "-c"
      then loaded epoch (lib.load_file file)
      else fatal (codes "usage: zkclientd -c <config.toml>")

  -- The first look that finds a document, among some looks.
  abbrev Waited : Daemon → ℕ → ℕ → ℕ × Option Document → Type ℓ
  Waited d left i (slept, doc) =
      (i ≤ slept)
      × ((k : ℕ) → i ≤ k → k < slept → lib.current_document d k ≡ none)
      × (((slept ≡ i + left) × (doc ≡ none))
          ⊎ ((slept < i + left)
              × ((found : Document) × (doc ≡ some found)
                  × (lib.current_document d slept ≡ some found))))

  await_document-Waited : (d : Daemon) (left i : ℕ) → Waited d left i (await_document d left i)
  unfolding await_document
  await_document-Waited d zero i =
      (omega arith, λ k a b. ground (arith, a, b), inl (omega arith, refl))
  await_document-Waited d (suc left) i = elim (Option-cases (lib.current_document d i)) [
    | inl e ↦
        let (late, silent, outcome) = await_document-Waited d left (suc i) in
        rw (e, await_document)
          (
            omega (arith, late),
            λ k a b. elim (Bool-cases (k == i)) [
              | inl here ↦ rw ((==_iff k i).0 here) e
              | inr there ↦ silent k (ground (arith, a, there, ==_iff k i)) b
            ],
            elim outcome [
              | inl (all, nothing) ↦ inl (omega (arith, all), nothing)
              | inr (early, found) ↦ inr (omega (arith, early), found)
            ],
          )
    | inr (doc, e) ↦
        rw (e, await_document)
          (omega arith, λ k a b. ground (arith, a, b), inr (omega arith, (doc, refl, e)))
  ]

  -- With `-c` and the name of a file, where the library loads the file, builds the daemon for an epoch
  -- twenty minutes before its own and starts it, the daemon runs, and main has looked for a document
  -- once a second: it has the first that it found, with one second of sleep for each look before, or
  -- it slept 120 seconds and found none.
  pub launch_lem :
      (file : Bytes) (rest : List Bytes) (epoch : ℕ) (settings : Settings) (d d' : Daemon)
      → lib.load_file file ≡ ok settings
      → lib.new_daemon (epoch - 20 * 60) settings ≡ ok d
      → lib.begin d ≡ ok d'
      → (slept : ℕ) × (doc : Option Document) × (launch (codes "-c" ∷ file ∷ rest) epoch
          ≡ running d' slept doc)
        × ((k : ℕ) → k < slept → lib.current_document d' k ≡ none)
        × (((slept ≡ 120) × (doc ≡ none))
            ⊎ ((slept < 120)
                × ((found : Document) × (doc ≡ some found)
                    × (lib.current_document d' slept ≡ some found))))
  unfolding launch loaded built launched shifted
  launch_lem file rest epoch settings d d' l n b =
      let (_, silent, outcome) = await_document-Waited d' 120 0 in
      (
        (await_document d' 120 0).0,
        (await_document d' 120 0).1,
        rw (==_refl (codes "-c"), l, loaded, n, built, b, launched) refl,
        λ k early. silent k (omega arith) early,
        outcome,
      )

-- The shift makes the number of the current epoch one larger, where the library numbers the epochs by
-- the whole periods of twenty minutes since its variable, and that is set to a time that has passed.
shifted-number :
    (number : ℕ → ℕ → ℕ) (epoch now : ℕ)
    → ((e t : ℕ) → e ≤ t → number e t ≡ (t - e) / (20 * 60))
    → 20 * 60 ≤ epoch
    → epoch ≤ now
    → number (shifted epoch) now ≡ suc (number epoch now)
unfolding shifted
shifted-number number epoch now periods old past =
    periods (shifted epoch) now (omega (arith, past))
    ∙ omega (arith, old, past)
    ∙ ap suc (sym (periods epoch now past))
