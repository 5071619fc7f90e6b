-- ===== src/Bits/Xor.antt =====
-- The laws of `^` on numbers of any width.
use Prim.Native.Nat.{differ, bit_xor-bitwise}
use native.Mathlib.Nat.{pow-suc}
use swift_lib_modbus.Prelude.{
  ℕ, zero, suc, ◌+◌, ◌*◌, ◌/◌, ◌%◌, ◌^◌, ◌≤◌, ◌<◌, ◌≡◌, refl, sym, ap, ◌∙◌, arith, bit_xor,
}
use swift_lib_modbus.Bits.Digit.{bit_xor_digit}

differ_digits : (x y : ℕ) → x < 2 → y < 2 → differ x y ≡ (x + y) % 2
differ_digits zero zero h k = refl
differ_digits zero (suc zero) h k = refl
differ_digits (suc zero) zero h k = refl
differ_digits (suc zero) (suc zero) h k = refl
differ_digits zero (suc (suc y)) h k = absurd (omega arith)
differ_digits (suc zero) (suc (suc y)) h k = absurd (omega arith)
differ_digits (suc (suc x)) y h k = absurd (omega arith)

-- The lowest digit of an exclusive or is that of the sum.
pub bit_xor_sum : (a b : ℕ) → bit_xor a b ≡ bit_xor (a / 2) (b / 2) * 2 + (a + b) % 2
bit_xor_sum a b =
    omega (arith, bit_xor_digit a b, differ_digits (a % 2) (b % 2) (omega arith) (omega arith))

pub bit_xor_half : (a b : ℕ) → bit_xor a b / 2 ≡ bit_xor (a / 2) (b / 2)
bit_xor_half a b = omega (arith, bit_xor_sum a b)

pub bit_xor_odd : (a b : ℕ) → bit_xor a b % 2 ≡ (a + b) % 2
bit_xor_odd a b = omega (arith, bit_xor_sum a b)

pub zero-bit_xor : (b : ℕ) → bit_xor 0 b ≡ b
zero-bit_xor b = bit_xor-bitwise 0 b

comm_below : (k a b : ℕ) → a ≤ k → b ≤ k → bit_xor a b ≡ bit_xor b a
comm_below zero zero zero h h' = refl
comm_below zero (suc a) b h h' = absurd (omega arith)
comm_below zero zero (suc b) h h' = absurd (omega arith)
comm_below (suc k) a b h h' = omega (
  arith,
  bit_xor_sum a b,
  bit_xor_sum b a,
  comm_below k (a / 2) (b / 2) (omega arith) (omega arith),
)

pub bit_xor_comm : (a b : ℕ) → bit_xor a b ≡ bit_xor b a
bit_xor_comm a b = comm_below (a + b) a b (omega arith) (omega arith)

pub bit_xor-zero : (a : ℕ) → bit_xor a 0 ≡ a
bit_xor-zero a = bit_xor_comm a 0 ∙ zero-bit_xor a

assoc_below :
    (k a b c : ℕ) → a ≤ k → b ≤ k → c ≤ k → bit_xor (bit_xor a b) c ≡ bit_xor a (bit_xor b c)
assoc_below zero zero b c h h' h'' = rw (zero-bit_xor b, zero-bit_xor (bit_xor b c))
assoc_below zero (suc a) b c h h' h'' = absurd (omega arith)
assoc_below (suc k) a b c h h' h'' =
    let left : bit_xor (bit_xor a b / 2) (c / 2) ≡ bit_xor (bit_xor (a / 2) (b / 2)) (c / 2) =
      rw (bit_xor_half a b) in
    let right : bit_xor (a / 2) (bit_xor b c / 2) ≡ bit_xor (a / 2) (bit_xor (b / 2) (c / 2)) =
      rw (bit_xor_half b c) in
    omega (
      arith,
      bit_xor_sum (bit_xor a b) c,
      bit_xor_sum a (bit_xor b c),
      bit_xor_odd a b,
      bit_xor_odd b c,
      left,
      right,
      assoc_below k (a / 2) (b / 2) (c / 2) (omega arith) (omega arith) (omega arith),
    )

pub bit_xor_assoc : (a b c : ℕ) → bit_xor (bit_xor a b) c ≡ bit_xor a (bit_xor b c)
bit_xor_assoc a b c = assoc_below (a + b + c) a b c (omega arith) (omega arith) (omega arith)

self_below : (k a : ℕ) → a ≤ k → bit_xor a a ≡ 0
self_below zero zero h = refl
self_below zero (suc a) h = absurd (omega arith)
self_below (suc k) a h = omega (arith, bit_xor_sum a a, self_below k (a / 2) (omega arith))

pub bit_xor_self : (a : ℕ) → bit_xor a a ≡ 0
bit_xor_self a = self_below a a (omega arith)

-- Exclusive or with a number undoes itself.
pub bit_xor_cancel : (a b : ℕ) → bit_xor (bit_xor a b) b ≡ a
bit_xor_cancel a b = rw (bit_xor_assoc a b b, bit_xor_self b) (bit_xor-zero a)

pub bit_xor_injective : (a b c : ℕ) → bit_xor a c ≡ bit_xor b c → a ≡ b
bit_xor_injective a b c h = sym (bit_xor_cancel a c) ∙ ap (λ x. bit_xor x c) h ∙ bit_xor_cancel b c

pub bit_xor-lt-pow : (k a b : ℕ) → a < 2 ^ k → b < 2 ^ k → bit_xor a b < 2 ^ k
bit_xor-lt-pow zero a b h h' = ground (arith, zero-bit_xor 0)
bit_xor-lt-pow (suc k) a b h h' = omega (
  arith,
  pow-suc 2 k,
  bit_xor_sum a b,
  bit_xor-lt-pow k (a / 2) (b / 2) (omega (arith, pow-suc 2 k)) (omega (arith, pow-suc 2 k)),
)

pub bit_xor-lt_byte : (a b : ℕ) → a < 256 → b < 256 → bit_xor a b < 256
bit_xor-lt_byte a b h h' = bit_xor-lt-pow 8 a b h h'

-- Exclusive or with what lies above the low `s` bits is a sum.
pub bit_xor_above : (s a v : ℕ) → a < 2 ^ s → bit_xor a (v * 2 ^ s) ≡ a + v * 2 ^ s
bit_xor_above zero zero v h = rw (zero-bit_xor (v * 2 ^ 0)) (omega arith)
bit_xor_above zero (suc a) v h = absurd (omega arith)
bit_xor_above (suc s) a v h =
    let shifted : v * 2 ^ suc s ≡ 2 * (v * 2 ^ s) =
      omega (arith, ap (λ (t : ℕ). v * t) (pow-suc 2 s)) in
    let half : v * 2 ^ suc s / 2 ≡ v * 2 ^ s = omega arith in
    let rest : bit_xor (a / 2) (v * 2 ^ suc s / 2) ≡ a / 2 + v * 2 ^ s =
      rw half (bit_xor_above s (a / 2) v (omega (arith, pow-suc 2 s))) in
    omega (arith, bit_xor_sum a (v * 2 ^ suc s), rest, shifted)
