-- ===== src/Launcher/Tests.antt =====
-- cmd/zkclientd/main.go: the launch, run.
use zknode_autonomi_alpha.Prelude.{
  ℕ, ◌<◌, ◌≡◌, ◌⊎◌, refl, Option, none, some, [], ◌∷◌, Bytes, codes, ok, ltb, nat_Eq, if◌then◌else◌,
}
use zknode_autonomi_alpha.Launcher.{Library, launch, launch_lem, running, fatal}

-- A library whose daemon is the epoch it was built for, and finds document 7 from the third look on.
abbrev library : Library Bytes ℕ ℕ
library = record {
  load_file = λ file. ok file;
  new_daemon = λ epoch settings. ok epoch;
  begin = λ d. ok d;
  current_document = λ d n. if ltb n 2 then none else some 7;
}

launch_lem_example :
    (slept : ℕ) × (doc : Option ℕ) × (launch library
        (codes "-c" ∷ codes "client.toml" ∷ [])
        1496275200
      ≡ running 1496274000 slept doc)
    × ((k : ℕ) → k < slept → library.current_document 1496274000 k ≡ none)
    × (((slept ≡ 120) × (doc ≡ none))
        ⊎ ((slept < 120)
            × ((found : ℕ) × (doc ≡ some found)
                × (library.current_document 1496274000 slept ≡ some found))))
launch_lem_example =
    launch_lem library (codes "client.toml") [] 1496275200 (codes "client.toml") 1496274000
      1496274000 refl refl refl

no_flag :
    launch library (codes "client.toml" ∷ []) 1496275200
    ≡ fatal (codes "usage: zkclientd -c <config.toml>")
unfolding launch
no_flag = refl
