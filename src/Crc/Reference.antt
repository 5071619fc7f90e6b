-- ===== src/Crc/Reference.antt =====
-- The CRC by its definition, division by the reflected polynomial 0xA001 one bit at a time, and
-- the step of `crc16` as eight such shifts.
use native.Mathlib.Nat.{pow-suc}
use swift_lib_modbus.Prelude.{
  ℕ, zero, suc, ◌+◌, ◌*◌, ◌/◌, ◌%◌, ◌^◌, ◌<◌, ◌≡◌, refl, ap, sym, ◌∙◌, ◌≡⟨◌⟩◌, ◌∎, arith, bit_xor,
  List, [], ◌∷◌, ◌==◌, ==_iff, ltb, if◌then◌else◌, true, ◌&&◌, get_or, All,
}
use swift_lib_modbus.Bits.Xor.{
  bit_xor_half, bit_xor_odd, bit_xor_assoc, bit_xor_comm, bit_xor-lt_byte, bit_xor_above,
}
use swift_lib_modbus.Bits.Below.{holds_below, holds_at}
use swift_lib_modbus.Crc.Table.{table_crc_hi, table_crc_lo}
use swift_lib_modbus.Crc.{Crc, crc_step}

swap_last : (a b c : ℕ) → bit_xor (bit_xor a b) c ≡ bit_xor (bit_xor a c) b
swap_last a b c = rw (bit_xor_assoc a b c, bit_xor_comm b c) (sym (bit_xor_assoc a c b))

-- One bit is shifted out of the register.
pub shift_bit : ℕ → ℕ
shift_bit r = bit_xor (r / 2) (if r % 2 == 1 then 0xa001 else 0)

pub shift_bits : ℕ → ℕ → ℕ
shift_bits zero r = r
shift_bits (suc k) r = shift_bits k (shift_bit r)

-- A byte enters the register at its low end.
pub reference_step : ℕ → ℕ → ℕ
reference_step r b = shift_bits 8 (bit_xor r b)

pub reference : ℕ → List ℕ → ℕ
reference r [] = r
reference r (b ∷ bs) = reference (reference_step r b) bs

-- The high part of a register moves down unchanged.
shift_bit_even : (a b : ℕ) → b % 2 ≡ 0 → shift_bit (bit_xor a b) ≡ bit_xor (shift_bit a) (b / 2)
unfolding shift_bit
shift_bit_even a b even =
    let same : bit_xor a b % 2 ≡ a % 2 = omega (arith, bit_xor_odd a b) in
    let m : ℕ = if a % 2 == 1 then 0xa001 else 0 in
    rw (bit_xor_half a b, same)
      (bit_xor_assoc (a / 2) (b / 2) m
        ∙ ap (λ x. bit_xor (a / 2) x) (bit_xor_comm (b / 2) m)
        ∙ sym (bit_xor_assoc (a / 2) m (b / 2)))

shift_bits_high : (k a h : ℕ) → shift_bits k (bit_xor a (h * 2 ^ k)) ≡ bit_xor (shift_bits k a) h
unfolding shift_bits
shift_bits_high zero a h = ap (λ x. bit_xor a x) (omega arith)
shift_bits_high (suc k) a h =
    let twice : h * 2 ^ suc k ≡ 2 * (h * 2 ^ k) =
      omega (arith, ap (λ (t : ℕ). h * t) (pow-suc 2 k)) in
    let half : h * 2 ^ suc k / 2 ≡ h * 2 ^ k = omega arith in
    rw (shift_bit_even a (h * 2 ^ suc k) (omega arith), half) (shift_bits_high k (shift_bit a) h)

-- The tables hold the register that each byte is shifted into.
tables :
    holds_below (λ i. shift_bits 8 i == get_or table_crc_hi i 0 + get_or table_crc_lo i 0 * 256) 256
    ≡ true
unfolding holds_below shift_bits shift_bit table_crc_hi table_crc_lo
tables = refl

tables_small :
    holds_below (λ i. ltb (get_or table_crc_hi i 0) 256 && ltb (get_or table_crc_lo i 0) 256) 256
    ≡ true
unfolding holds_below table_crc_hi table_crc_lo
tables_small = refl

table_entry :
    (i : ℕ) → i < 256 → shift_bits 8 i ≡ get_or table_crc_hi i 0 + get_or table_crc_lo i 0 * 256
table_entry i h = (==_iff _ _).0 (holds_at _ 256 i tables h)

pub table-lt_byte :
    (i : ℕ) → i < 256 → (get_or table_crc_hi i 0 < 256) × (get_or table_crc_lo i 0 < 256)
table-lt_byte i h =
    let both : (ltb (get_or table_crc_hi i 0) 256 && ltb (get_or table_crc_lo i 0) 256) ≡ true =
      holds_at _ 256 i tables_small h in
    ground arith

-- The register of the definition: `crc_hi` is its low byte.
abbrev pub register : Crc → ℕ
register c = c.crc_hi + c.crc_lo * 256

pub record IsCrc (c : Crc) : Type 0 where
  pub hi_byte : c.crc_hi < 256
  pub lo_byte : c.crc_lo < 256

pub crc_step-IsCrc : (c : Crc) (b : ℕ) → IsCrc c → b < 256 → IsCrc (crc_step c b)
unfolding crc_step
crc_step-IsCrc c b is small =
    let below : bit_xor c.crc_hi b < 256 = bit_xor-lt_byte _ _ is.hi_byte small in
    let entry = table-lt_byte _ below in
    record { hi_byte = bit_xor-lt_byte _ _ is.lo_byte entry.0; lo_byte = entry.1 }

pub crc_step-reference :
    (c : Crc) (b : ℕ) → IsCrc c → b < 256 → register (crc_step c b) ≡ reference_step (register c) b
unfolding crc_step reference_step
crc_step-reference c b is small =
    let i : ℕ = bit_xor c.crc_hi b in
    let below : i < 256 = bit_xor-lt_byte _ _ is.hi_byte small in
    let hi : ℕ = get_or table_crc_hi i 0 in
    let lo : ℕ = get_or table_crc_lo i 0 in
    sym (
      shift_bits 8 (bit_xor (register c) b)
      ≡⟨ ap (λ x. shift_bits 8 (bit_xor x b)) (sym (bit_xor_above 8 c.crc_hi c.crc_lo is.hi_byte)) ⟩
        shift_bits 8 (bit_xor (bit_xor c.crc_hi (c.crc_lo * 256)) b)
      ≡⟨ ap (λ x. shift_bits 8 x) (swap_last c.crc_hi (c.crc_lo * 256) b) ⟩
        shift_bits 8 (bit_xor i (c.crc_lo * 256))
      ≡⟨ shift_bits_high 8 i c.crc_lo ⟩ bit_xor (shift_bits 8 i) c.crc_lo
      ≡⟨ ap (λ x. bit_xor x c.crc_lo)
          (table_entry i below ∙ sym (bit_xor_above 8 hi lo (table-lt_byte i below).0)) ⟩
        bit_xor (bit_xor hi (lo * 256)) c.crc_lo
      ≡⟨ swap_last hi (lo * 256) c.crc_lo ⟩ bit_xor (bit_xor hi c.crc_lo) (lo * 256)
      ≡⟨ ap (λ x. bit_xor x (lo * 256)) (bit_xor_comm hi c.crc_lo) ⟩
        bit_xor (bit_xor c.crc_lo hi) (lo * 256)
      ≡⟨ bit_xor_above 8 (bit_xor c.crc_lo hi) lo
          (bit_xor-lt_byte _ _ is.lo_byte (table-lt_byte i below).0) ⟩
        bit_xor c.crc_lo hi + lo * 256 ∎)

unfoldable pub fold_crc : Crc → List ℕ → Crc
fold_crc c [] = c
fold_crc c (b ∷ bs) = fold_crc (crc_step c b) bs

pub fold_crc-reference :
    (c : Crc) (bs : List ℕ)
    → IsCrc c
    → All (λ b. b < 256) bs
    → IsCrc (fold_crc c bs) × (register (fold_crc c bs) ≡ reference (register c) bs)
unfolding fold_crc reference
fold_crc-reference c [] is small = (is, refl)
fold_crc-reference c (b ∷ bs) is small =
    rw (← crc_step-reference c b is small.0)
      (fold_crc-reference (crc_step c b) bs (crc_step-IsCrc c b is small.0) small.1)
