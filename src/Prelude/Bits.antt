-- ===== src/Prelude/Bits.antt =====
-- A byte put behind another by `<<8` and `|`.
use Prim.Native.Nat.{ℕ, zero, suc, ◌+◌, ◌*◌, ◌<◌, bit_or}
use mathlib.Core.Path.{◌≡◌, refl}
use mathlib.Core.Bool.{Bool, true, ◌&&◌}
use native.Mathlib.Omega.{arith}
use zknode_autonomi_alpha.Prelude.Tests.{◌==◌, nat_Eq, ==_iff}

every_below : ℕ → (ℕ → Bool) → Bool
every_below zero p = true
every_below (suc n) p = p n && every_below n p

every_below_sound : (n : ℕ) (p : ℕ → Bool) (x : ℕ) → every_below n p ≡ true → x < n → p x ≡ true
unfolding every_below
every_below_sound zero p x h lt = absurd (omega arith)
every_below_sound (suc n) p x h lt = ground (arith, every_below_sound n p x)

joins : ℕ → ℕ → Bool
joins hi lo = bit_or (hi * 256) lo == (hi * 256 + lo)

joins_table : every_below 256 (λ hi. every_below 256 (joins hi)) ≡ true
unfolding every_below joins
joins_table = refl

pub bit_or-byte : (hi lo : ℕ) → hi < 256 → lo < 256 → bit_or (hi * 256) lo ≡ hi * 256 + lo
unfolding joins
bit_or-byte hi lo h l = (==_iff (bit_or (hi * 256) lo) (hi * 256 + lo)).0 (
    every_below_sound 256 (joins hi) lo
      (every_below_sound 256 (λ x. every_below 256 (joins x)) hi joins_table h) l)
