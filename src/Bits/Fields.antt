-- ===== src/Bits/Fields.antt =====
-- `|` of fields that do not overlap is a sum, and `&` picks a bit.
use Prim.Native.Nat.{bit_or-bitwise}
use native.Mathlib.Nat.{pow-suc, mul_comm, div-div-eq-div-mul}
use swift_lib_modbus.Prelude.{
  ℕ, zero, suc, ◌+◌, ◌*◌, ◌/◌, ◌%◌, ◌^◌, ◌≤◌, ◌<◌, ◌≡◌, refl, sym, ap, arith, bit_or, bit_and,
}
use swift_lib_modbus.Bits.Digit.{bit_or_digit, bit_and_digit}

zero-bit_or : (b : ℕ) → bit_or 0 b ≡ b
zero-bit_or b = bit_or-bitwise 0 b

below_or_zero : (k a : ℕ) → a ≤ k → bit_or a 0 ≡ a
below_or_zero zero zero h = refl
below_or_zero zero (suc a) h = absurd (omega arith)
below_or_zero (suc k) a h = omega (arith, bit_or_digit a 0, below_or_zero k (a / 2) (omega arith))

pub bit_or-zero : (a : ℕ) → bit_or a 0 ≡ a
bit_or-zero a = below_or_zero a a (omega arith)

-- `acc | (v << s)` when `acc` fits into the low `s` bits.
pub bit_or_above : (s acc v : ℕ) → acc < 2 ^ s → bit_or acc (v * 2 ^ s) ≡ acc + v * 2 ^ s
bit_or_above zero zero v h = rw (zero-bit_or (v * 2 ^ 0)) (omega arith)
bit_or_above zero (suc a) v h = absurd (omega arith)
bit_or_above (suc s) acc v h =
    let shifted : v * 2 ^ suc s ≡ 2 * (v * 2 ^ s) =
      omega (arith, ap (λ (t : ℕ). v * t) (pow-suc 2 s)) in
    let half : v * 2 ^ suc s / 2 ≡ v * 2 ^ s = omega arith in
    let rest : bit_or (acc / 2) (v * 2 ^ suc s / 2) ≡ acc / 2 + v * 2 ^ s =
      rw half (bit_or_above s (acc / 2) v (omega (arith, pow-suc 2 s))) in
    omega (arith, bit_or_digit acc (v * 2 ^ suc s), rest, shifted)

-- `(v << s) | low` when `low` fits into the low `s` bits.
pub bit_or_below : (s v low : ℕ) → low < 2 ^ s → bit_or (v * 2 ^ s) low ≡ v * 2 ^ s + low
bit_or_below zero v zero h = rw (bit_or-zero (v * 2 ^ 0)) (omega arith)
bit_or_below zero v (suc a) h = absurd (omega arith)
bit_or_below (suc s) v low h =
    let shifted : v * 2 ^ suc s ≡ 2 * (v * 2 ^ s) =
      omega (arith, ap (λ (t : ℕ). v * t) (pow-suc 2 s)) in
    let half : v * 2 ^ suc s / 2 ≡ v * 2 ^ s = omega arith in
    let rest : bit_or (v * 2 ^ suc s / 2) (low / 2) ≡ v * 2 ^ s + low / 2 =
      rw half (bit_or_below s v (low / 2) (omega (arith, pow-suc 2 s))) in
    omega (arith, bit_or_digit (v * 2 ^ suc s) low, rest, shifted)

-- Two bytes as a word, `(hi << 8) | lo`.
pub bit_or_word : (hi lo : ℕ) → lo < 256 → bit_or (hi * 256) lo ≡ hi * 256 + lo
bit_or_word hi lo h = bit_or_below 8 hi lo h

below_and_zero : (k a : ℕ) → a ≤ k → bit_and a 0 ≡ 0
below_and_zero zero zero h = refl
below_and_zero zero (suc a) h = absurd (omega arith)
below_and_zero (suc k) a h =
    omega (arith, bit_and_digit a 0, below_and_zero k (a / 2) (omega arith))

pub bit_and-zero : (a : ℕ) → bit_and a 0 ≡ 0
bit_and-zero a = below_and_zero a a (omega arith)

pub div-pow_suc : (a s : ℕ) → a / 2 ^ suc s ≡ a / 2 / 2 ^ s
div-pow_suc a s = rw (pow-suc 2 s, mul_comm (2 ^ s) 2) (sym (div-div-eq-div-mul a 2 (2 ^ s)))

-- `a & (1 << s)` is the digit of weight `2 ^ s`.
pub bit_and-bit : (s a : ℕ) → bit_and a (1 * 2 ^ s) ≡ (a / 2 ^ s) % 2 * 2 ^ s
bit_and-bit zero a = omega (arith, bit_and_digit a 1, bit_and-zero (a / 2))
bit_and-bit (suc s) a =
    let half : 1 * 2 ^ suc s / 2 ≡ 1 * 2 ^ s = omega (arith, pow-suc 2 s) in
    let rest : bit_and (a / 2) (1 * 2 ^ suc s / 2) ≡ (a / 2 / 2 ^ s) % 2 * 2 ^ s =
      rw half (bit_and-bit s (a / 2)) in
    rw (div-pow_suc a s) (
      omega (
        arith,
        bit_and_digit a (1 * 2 ^ suc s),
        rest,
        pow-suc 2 s,
        ap (λ (t : ℕ). (a / 2 / 2 ^ s) % 2 * t) (pow-suc 2 s),
      ))
