-- ===== src/Bits/Digit.antt =====
-- The bitwise operations as equations for the lowest digit.
use Prim.Native.Nat.{differ, digits, bitwise, bit_and-bitwise, bit_or-bitwise, bit_xor-bitwise}
use swift_lib_modbus.Prelude.{
  ℕ, zero, suc, ◌+◌, ◌*◌, ◌/◌, ◌%◌, ◌≤◌, ◌≡◌, refl, arith, bit_and, bit_or, bit_xor, min, max,
}

module _ (at_end : ℕ → ℕ) (op : ℕ → ℕ → ℕ) where
  -- Fuel above the number changes nothing.
  more_fuel : (k j a b : ℕ) → a ≤ k → a ≤ j → digits at_end op k a b ≡ digits at_end op j a b
  more_fuel zero zero a b h h' = refl
  more_fuel zero (suc j) zero b h h' = refl
  more_fuel zero (suc j) (suc a) b h h' = absurd (omega arith)
  more_fuel (suc k) zero zero b h h' = refl
  more_fuel (suc k) zero (suc a) b h h' = absurd (omega arith)
  more_fuel (suc k) (suc j) zero b h h' = refl
  more_fuel (suc k) (suc j) (suc a) b h h' =
      omega (arith, more_fuel k j (suc a / 2) (b / 2) (omega arith) (omega arith))

  lowest :
      (a b : ℕ)
      → bitwise at_end op (suc a) b
        ≡ bitwise at_end op (suc a / 2) (b / 2) * 2 + op (suc a % 2) (b % 2)
  lowest a b =
      omega (arith, more_fuel a (suc a / 2) (suc a / 2) (b / 2) (omega arith) (omega arith))

pub bit_xor_digit : (a b : ℕ) → bit_xor a b ≡ bit_xor (a / 2) (b / 2) * 2 + differ (a % 2) (b % 2)
bit_xor_digit zero b = simp bit_xor-bitwise (omega arith)
bit_xor_digit (suc a) b = simp bit_xor-bitwise (lowest (λ y. y) differ a b)

pub bit_or_digit : (a b : ℕ) → bit_or a b ≡ bit_or (a / 2) (b / 2) * 2 + max (a % 2) (b % 2)
bit_or_digit zero b = simp bit_or-bitwise (omega arith)
bit_or_digit (suc a) b = simp bit_or-bitwise (lowest (λ y. y) max a b)

pub bit_and_digit : (a b : ℕ) → bit_and a b ≡ bit_and (a / 2) (b / 2) * 2 + min (a % 2) (b % 2)
bit_and_digit zero b = simp bit_and-bitwise (omega arith)
bit_and_digit (suc a) b = simp bit_and-bitwise (lowest (λ y. 0) min a b)
