-- ===== src/Bits/Bit.antt =====
-- The binary digits of a number, and the tests and sums of C that read and set them.
use native.Mathlib.Nat.{pow-suc, one-le-pow}
use swift_lib_modbus.Prelude.{
  ℕ, zero, suc, ◌+◌, ◌*◌, ◌/◌, ◌%◌, ◌^◌, ◌<◌, ◌≤◌, ◌≡◌, refl, ap, ◌∙◌, arith, bit_and, not, ◌==◌,
  if◌then◌else◌,
}
use swift_lib_modbus.Bits.Fields.{bit_and-bit, div-pow_suc}

-- The digit of weight `2 ^ p`.
abbrev pub bit : ℕ → ℕ → ℕ
bit zero a = a % 2
bit (suc p) a = bit p (a / 2)

pub bit-lt_two : (p a : ℕ) → bit p a < 2
bit-lt_two zero a = omega arith
bit-lt_two (suc p) a = bit-lt_two p (a / 2)

bit_lem : (p a : ℕ) → bit p a ≡ a / 2 ^ p % 2
bit_lem zero a = omega arith
bit_lem (suc p) a = rw (div-pow_suc a p) (bit_lem p (a / 2))

twice : (v s : ℕ) → v * 2 ^ suc s ≡ 2 * (v * 2 ^ s)
twice v s = omega (arith, ap (λ (t : ℕ). v * t) (pow-suc 2 s))

truth_of_digit : (d p : ℕ) → d < 2 → (if not (d * 2 ^ p == 0) then 1 else 0) ≡ d
truth_of_digit zero p h = ground arith
truth_of_digit (suc zero) p h = ground (arith, one-le-pow p 2)
truth_of_digit (suc (suc d)) p h = absurd (omega arith)

-- `(a & (1 << p)) ? 1 : 0`.
pub bit_test : (p a : ℕ) → (if not (bit_and a (1 * 2 ^ p) == 0) then 1 else 0) ≡ bit p a
bit_test p a = rw (bit_and-bit p a, bit_lem p a) (truth_of_digit (a / 2 ^ p % 2) p (omega arith))

pub bit-add_low : (p s a v : ℕ) → p < s → bit p (a + v * 2 ^ s) ≡ bit p a
bit-add_low p zero a v h = absurd (omega arith)
bit-add_low zero (suc s) a v h = omega (arith, twice v s)
bit-add_low (suc p) (suc s) a v h =
    let half : (a + v * 2 ^ suc s) / 2 ≡ a / 2 + v * 2 ^ s = omega (arith, twice v s) in
    ap (bit p) half ∙ bit-add_low p s (a / 2) v (omega arith)

pub bit-add_top : (s a v : ℕ) → a < 2 ^ s → bit s (a + v * 2 ^ s) ≡ v % 2
bit-add_top zero a v h = omega arith
bit-add_top (suc s) a v h =
    let half : (a + v * 2 ^ suc s) / 2 ≡ a / 2 + v * 2 ^ s = omega (arith, twice v s) in
    ap (bit s) half ∙ bit-add_top s (a / 2) v (omega (arith, pow-suc 2 s))

pub bit-zero : (p : ℕ) → bit p 0 ≡ 0
bit-zero zero = refl
bit-zero (suc p) = bit-zero p

pub bit_above : (s p a : ℕ) → a < 2 ^ s → s ≤ p → bit p a ≡ 0
bit_above zero p zero h le = bit-zero p
bit_above zero p (suc a) h le = absurd (omega arith)
bit_above (suc s) zero a h le = absurd (omega arith)
bit_above (suc s) (suc p) a h le = bit_above s p (a / 2) (omega (arith, pow-suc 2 s)) (omega arith)
