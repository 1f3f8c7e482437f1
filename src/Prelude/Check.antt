-- ===== src/Prelude/Check.antt =====
-- A test of every number below a bound, for facts about fixed tables.
use Prim.Native.Nat.{ℕ, zero, suc, ◌<◌}
use mathlib.Core.Path.{◌≡◌}
use mathlib.Core.Bool.{Bool, true, ◌&&◌}
use native.Mathlib.Omega.{arith}

unfoldable pub every : ℕ → (ℕ → Bool) → Bool
every zero test = true
every (suc n) test = every n test && test n

pub every_sound : (n : ℕ) (test : ℕ → Bool) (i : ℕ) → every n test ≡ true → i < n → test i ≡ true
unfolding every
every_sound zero test i e h = absurd (omega arith)
every_sound (suc n) test i e h = ground (arith, every_sound n test i)
