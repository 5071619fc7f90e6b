-- ===== src/Prelude/Int.antt =====
-- The signed integers of C, as far as the program uses them: a value, and its conversion to
-- `uint8_t`. The library's ℤ stands on another type of numbers.
use Prim.Native.Nat.{ℕ, ◌-◌, ◌%◌}

-- `negsuc n` is -(n + 1).
pub data ℤ : Type 0 where
  pos : ℕ → ℤ
  negsuc : ℕ → ℤ

abbrev pub minus_one : ℤ
minus_one = negsuc 0

-- `(uint8_t) z`: two's complement.
abbrev pub to_u8 : ℤ → ℕ
to_u8 (pos n) = n % 256
to_u8 (negsuc n) = 255 - n % 256
