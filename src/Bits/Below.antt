-- ===== src/Bits/Below.antt =====
-- A property of the numbers below a bound, checked by evaluation.
use swift_lib_modbus.Prelude.{ℕ, zero, suc, ◌<◌, ◌≡◌, Bool, true, false, arith, if◌then◌else◌}

unfoldable pub holds_below : (ℕ → Bool) → ℕ → Bool
holds_below test zero = true
holds_below test (suc n) = if test n then holds_below test n else false

pub holds_at : (test : ℕ → Bool) (n x : ℕ) → holds_below test n ≡ true → x < n → test x ≡ true
unfolding holds_below
holds_at test zero x h below = absurd (omega arith)
holds_at test (suc n) x h below = ground (arith, holds_at test n x)
