-- ===== src/Data/Bits.antt =====
-- What the loops of modbus-data.c store.
use swift_lib_modbus.Prelude.{
  ℕ, zero, suc, ◌+◌, ◌/◌, ◌%◌, ◌<◌, ◌≤◌, ◌≡◌, refl, ◌⊎◌, arith, Option, some,
}
use swift_lib_modbus.Bits.Bit.{bit, bit_test, bit-lt_two}
use swift_lib_modbus.Memory.{Buf, update}
use swift_lib_modbus.Memory.Laws.{read_inside, write_inside}
use swift_lib_modbus.Data.{set_bits_loop, set_bits_from_bytes, truth_of_bit}

-- The bit at position `p` of the bytes that begin at `start`, the lowest bit of a byte first.
abbrev pub bit_at : Buf → ℕ → ℕ → ℕ
bit_at b start p = bit (p % 8) (b.cell (start + p / 8))

-- `result` is `dest` with its elements from `index + k` to `index + k + left - 1` taken from the bits
-- of `tab_byte`, and with nothing else changed.
pub record IsUnpacked (dest : Buf) (index : ℕ) (tab_byte : Buf) (start k left : ℕ)
    (result : Option Buf) : Type 0 where
  pub out : Buf
  pub returns : result ≡ some out
  pub same_cap : out.cap ≡ dest.cap
  pub inside : (j : ℕ) → k ≤ j → j < k + left → out.cell (index + j) ≡ bit_at tab_byte start j
  pub outside : (i : ℕ) → (i < index + k) ⊎ (index + k + left ≤ i) → out.cell i ≡ dest.cell i

pub stored : (b p : ℕ) → truth_of_bit b p % 256 ≡ bit p b
stored b p = rw (bit_test p b) (omega (arith, bit-lt_two p b))

set_bits_loop-suc :
    (dest : Buf) (index : ℕ) (tab_byte : Buf) (start left k : ℕ)
    → start + k / 8 < tab_byte.cap
    → index + k < dest.cap
    → set_bits_loop dest index tab_byte start (suc left) k (k % 8)
      ≡ set_bits_loop
          (record dest { cell = update dest.cell (index + k) (bit_at tab_byte start k) })
          index
          tab_byte
          start
          left
          (k + 1)
          ((k + 1) % 8)
unfolding set_bits_loop
set_bits_loop-suc dest index tab_byte start left k h h' =
    let next : (k % 8 + 1) % 8 ≡ (k + 1) % 8 = omega arith in
    rw (read_inside tab_byte (start + k / 8) h, write_inside 256 dest (index + k) _ h', next)
      (rw (stored (tab_byte.cell (start + k / 8)) (k % 8)) refl)

pub set_bits_loop-IsUnpacked :
    (left : ℕ) (dest : Buf) (index : ℕ) (tab_byte : Buf) (start k : ℕ)
    → start + (k + left + 7) / 8 ≤ tab_byte.cap
    → index + k + left ≤ dest.cap
    → IsUnpacked dest index tab_byte start k left
        (set_bits_loop dest index tab_byte start left k (k % 8))
set_bits_loop-IsUnpacked zero dest index tab_byte start k h h' = record {
  out = dest;
  returns = unfold set_bits_loop in refl;
  same_cap = refl;
  inside = λ j p q. absurd (omega arith);
  outside = λ i p. refl;
}
set_bits_loop-IsUnpacked (suc left) dest index tab_byte start k h h' =
    let dest' : Buf = record dest {
      cell = update dest.cell (index + k) (bit_at tab_byte start k);
    } in
    let rest =
      set_bits_loop-IsUnpacked left dest' index tab_byte start (k + 1) (omega arith)
        (omega arith) in
    rw (set_bits_loop-suc dest index tab_byte start left k (omega arith) (omega arith)) (record {
      out = rest.out;
      returns = rest.returns;
      same_cap = rest.same_cap;
      inside = λ j p q. ground (arith, rest.inside j, rest.outside (index + j));
      outside = λ i p. ground (arith, rest.outside i);
    })

-- `modbus_set_bits_from_bytes` sets the `nb_bits` elements from `index` to the bits of the bytes, the
-- lowest bit first, changes nothing else, and stays inside both arrays if the bits do.
pub set_bits_from_bytes-IsUnpacked :
    (dest : Buf) (index nb_bits : ℕ) (tab_byte : Buf) (start : ℕ)
    → start + (nb_bits + 7) / 8 ≤ tab_byte.cap
    → index + nb_bits ≤ dest.cap
    → IsUnpacked dest index tab_byte start 0 nb_bits
        (set_bits_from_bytes dest index nb_bits tab_byte start)
unfolding set_bits_from_bytes
set_bits_from_bytes-IsUnpacked dest index nb_bits tab_byte start h h' =
    set_bits_loop-IsUnpacked nb_bits dest index tab_byte start 0 (omega (arith, h))
      (omega (arith, h'))
