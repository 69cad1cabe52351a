-- ===== src/Shield/Turns/Progress.antt =====
-- walletshield-fix/main.go, requests at the same time: one of them at least gets through.
use zknode_autonomi_alpha.Prelude.{
  ℕ, ◌≤◌, ◌≡◌, ◌⊎◌, refl, ap, ◌∙◌, Bool, true, false, Bytes, Result, ok, err, nat_Eq, inl, inr,
  contains, length, set_at, set_at-cases,
}
use zknode_autonomi_alpha.Shield.Texts.{has_text}
use zknode_autonomi_alpha.Shield.Server.{Thin, exceeds, payload_length}
use zknode_autonomi_alpha.Shield.Turns.{
  Request, Wallets, Reach, absent, asking, holding, failing, over, begin, come, gone_on, go, turn,
  first_client,
}
use zknode_autonomi_alpha.Shield.Turns.Steps.{
  is_early, IsSized, IsOrdinary, Answers, OnlyOlder, turn-OnlyOlder, Holds, Answered, turn-shared,
  turn-early, turn-Holds, turn-Answered, turn-IsSized,
}

unfoldable pub is_done : Request → Bool
is_done absent = true
is_done (asking payload) = false
is_done (holding k left payload) = false
is_done (failing left payload e) = false
is_done (over r) = true

module _ (decimal : ℕ → Bytes) (client : ℕ → Thin) (gone : Bytes) where
  record IsLive (w : Wallets) : Type 0 where
    older : OnlyOlder decimal client gone w.shared
    sized : (i : ℕ) → IsSized (w.requests i)
    chance :
        ((i : ℕ) × Answered decimal client gone (w.requests i))
        ⊎ ((i : ℕ) × Holds decimal client gone (w.requests i) w.shared)
        ⊎ ((i : ℕ) → is_early (w.requests i) ≡ true)

  begin-IsLive : IsLive (record { requests = λ i. absent; shared = first_client })
  unfolding is_early contains
  begin-IsLive = record { older = λ k c. cc; sized = λ i. tt; chance = inr (inr (λ i. refl)) }

  come-IsLive :
      (i : ℕ) (payload : Bytes) (w : Wallets)
      → w.requests i ≡ absent
      → length payload ≤ payload_length
      → IsLive w
      → IsLive (record w { requests = set_at i (asking payload) w.requests })
  unfolding is_early
  come-IsLive i payload w free fits v = record {
    older = v.older;
    sized = λ j. elim (set_at-cases i (asking payload) w.requests j) [
      | inl (_, here) ↦ rw here fits
      | inr (_, there) ↦ rw there (v.sized j)
    ];
    chance = elim v.chance [
      | inl (j, (reply, e)) ↦ elim (set_at-cases i (asking payload) w.requests j) [
        | inl (here, _) ↦ cc (e, free, ap w.requests here)
        | inr (_, there) ↦ inl (j, (reply, there ∙ e))
      ]
      | inr (inl (j, (left, p, e, later))) ↦ elim (set_at-cases i (asking payload) w.requests j) [
        | inl (here, _) ↦ cc (e, free, ap w.requests here)
        | inr (_, there) ↦ inr (inl (j, (left, p, there ∙ e, later)))
      ]
      | inr (inr early) ↦ inr (
          inr (λ j. elim (set_at-cases i (asking payload) w.requests j) [
            | inl (_, here) ↦ rw (here, is_early) refl
            | inr (_, there) ↦ rw there (early j)
          ]))
    ];
  }

  go-IsLive :
      (i : ℕ) (w : Wallets)
      → IsOrdinary decimal client gone
      → has_text gone exceeds ≡ false
      → Answers decimal client gone
      → IsLive w
      → IsLive (go decimal client gone i w)
  unfolding go
  go-IsLive i w o g answers v =
      let (job, s) = turn decimal client gone true (w.requests i) w.shared in
      let here : set_at i job w.requests i ≡ job = elim (set_at-cases i job w.requests i) [
        | inl (_, k) ↦ k
        | inr (other, _) ↦ absurd (other refl)
      ] in
      record {
        older = turn-OnlyOlder decimal client gone (w.requests i) w.shared v.older;
        sized = λ j. elim (set_at-cases i job w.requests j) [
          | inl (_, there) ↦
              rw there (turn-IsSized decimal client gone (w.requests i) w.shared (v.sized i))
          | inr (_, there) ↦ rw there (v.sized j)
        ];
        chance = elim v.chance [
          | inl (j, answered) ↦ inl (
            j,
            elim (set_at-cases i job w.requests j) [
              | inr (_, there) ↦ rw there answered
              | inl (same, there) ↦ rw there (
                  turn-Answered decimal client gone (w.requests i) w.shared
                    (rw (← same) at answered))
            ],
          )
          | inr (inl (j, holds)) ↦ elim (set_at-cases i job w.requests j) [
            | inl (same, _) ↦ inl (
              i,
              rw here (
                  turn-Holds decimal client gone (w.requests i) w.shared answers v.older (v.sized i)
                    (rw (← same) at holds)),
            )
            | inr (_, there) ↦ elim (turn-shared decimal client gone (w.requests i) w.shared) [
              | inl kept ↦ inr (inl (j, rw (there, kept) holds))
              | inr newer ↦ inr (inl (i, rw here newer))
            ]
          ]
          | inr (inr early) ↦
              elim (turn-early decimal client gone (w.requests i) w.shared o g (v.sized i)
                (early i)) [
                  | inl still ↦ inr (
                      inr (λ j. elim (set_at-cases i job w.requests j) [
                        | inl (_, there) ↦ rw there still
                        | inr (_, there) ↦ rw there (early j)
                      ]))
                  | inr newer ↦ inr (inl (i, rw here newer))
                ]
        ];
      }

  Reach-IsLive :
      (w : Wallets)
      → IsOrdinary decimal client gone
      → has_text gone exceeds ≡ false
      → Answers decimal client gone
      → Reach decimal client gone w
      → IsLive w
  Reach-IsLive _ o g answers begin = begin-IsLive
  Reach-IsLive _ o g answers (come i payload w reach free fits) =
      come-IsLive i payload w free fits (Reach-IsLive w o g answers reach)
  Reach-IsLive _ o g answers (gone_on i w reach) =
      go-IsLive i w o g answers (Reach-IsLive w o g answers reach)

  early-Answered :
      (job : Request) {r : Result Bytes}
      → job ≡ over r
      → is_early job ≡ true
      → Answered decimal client gone job
  unfolding is_early
  early-Answered (over (ok reply)) e early = (reply, refl)
  early-Answered (over (err x)) e early = cc
  early-Answered absent e early = cc
  early-Answered (asking payload) e early = cc
  early-Answered (holding k left payload) e early = cc
  early-Answered (failing left payload x) e early = cc

  -- Something gets through: while the daemon can be dialled, every later client answers, and no
  -- error, that of a closed client included, has the text that ends the attempts, then, however
  -- requests within the limit take each other's clients away, one of them at least is answered,
  -- once all of those that came are over.
  pub some_answered :
      (w : Wallets) (one : ℕ) (r : Result Bytes)
      → IsOrdinary decimal client gone
      → has_text gone exceeds ≡ false
      → Answers decimal client gone
      → Reach decimal client gone w
      → w.requests one ≡ over r
      → ((i : ℕ) → is_done (w.requests i) ≡ true)
      → (i : ℕ) × (reply : Bytes) × (w.requests i ≡ over (ok reply))
  unfolding is_done
  some_answered w one r o g answers reach came done =
      elim (Reach-IsLive w o g answers reach).chance [
        | inl (i, (reply, e)) ↦ (i, reply, e)
        | inr (inl (i, (left, p, e, later))) ↦ cc (done i, ap is_done e)
        | inr (inr early) ↦
            let (reply, e) = early-Answered (w.requests one) came (early one) in (one, reply, e)
      ]
