-- ===== src/Values/Bits.antt =====
-- What the loops of `read_io_status` do: the bits of a response in the elements of the client's array.
use native.Mathlib.Decide.{dec_lt, ℕ_discrete}
use swift_lib_modbus.Prelude.{
  ℕ, zero, suc, ◌+◌, ◌-◌, ◌*◌, ◌/◌, ◌%◌, ◌<◌, ◌≤◌, ◌≡◌, refl, ◌⊎◌, inl, arith, Option, some, ap,
  ◌∙◌, min, sym,
}
use swift_lib_modbus.Bits.Bit.{bit}
use swift_lib_modbus.Memory.{Buf, write_mod, update}
use swift_lib_modbus.Memory.Laws.{read_inside}
use swift_lib_modbus.Data.Bits.{bit_at, stored}
use swift_lib_modbus.Values.{store_byte, store_bits}

-- `result` is `dest` with the elements from `pos` to `nb`, at most `left` of them, taken from the bits
-- of `temp` from bit `k`, and with nothing else changed, and the position behind them.
record IsByteStored (dest : Buf) (pos nb temp left k : ℕ) (result : Option (Buf × ℕ)) : Type 0 where
  out : Buf
  returns : result ≡ some (out, min (pos + left) nb)
  same_cap : out.cap ≡ dest.cap
  inside : (j : ℕ) → j < left → pos + j < nb → out.cell (pos + j) ≡ bit (k + j) temp
  outside : (i : ℕ) → (i < pos) ⊎ (pos + left ≤ i) ⊎ (nb ≤ i) → out.cell i ≡ dest.cell i

abbrev with_bit : Buf → ℕ → ℕ → ℕ → Buf
with_bit dest pos temp k = record dest { cell = update dest.cell pos (bit k temp) }

store_byte-suc :
    (dest : Buf) (pos nb temp left k : ℕ)
    → pos < nb
    → nb ≤ dest.cap
    → store_byte dest pos nb temp (suc left) k
      ≡ store_byte (with_bit dest pos temp k) (pos + 1) nb temp left (k + 1)
unfolding store_byte write_mod
store_byte-suc dest pos nb temp left k h h' = ground (arith, stored temp k)

store_byte-IsByteStored :
    (left : ℕ) (dest : Buf) (pos nb temp k : ℕ)
    → pos ≤ nb
    → nb ≤ dest.cap
    → IsByteStored dest pos nb temp left k (store_byte dest pos nb temp left k)
store_byte-IsByteStored zero dest pos nb temp k h h' = record {
  out = dest;
  returns = unfold store_byte in ground arith;
  same_cap = refl;
  inside = λ j p q. absurd (omega arith);
  outside = λ i p. refl;
}
store_byte-IsByteStored (suc left) dest pos nb temp k h h' = elim (dec_lt pos nb) [
  | yes more ↦
      let rest =
        store_byte-IsByteStored left (with_bit dest pos temp k) (pos + 1) nb temp (k + 1)
          (omega (arith, more)) h' in
      rw (store_byte-suc dest pos nb temp left k more h') (record {
        out = rest.out;
        returns = rest.returns ∙ ap (λ p. Option.some (rest.out, min p nb)) (omega arith);
        same_cap = rest.same_cap;
        inside = λ j p q. elim (ℕ_discrete j 0) [
          | yes e ↦
              let here : pos + j ≡ pos = omega (arith, e) in
              let first : k + j ≡ k = omega (arith, e) in
              rw (here, first) (rest.outside pos (inl (omega arith)) ∙ ground arith)
          | no ne ↦
              let there : pos + j ≡ pos + 1 + (j - 1) = omega (arith, ne) in
              let next : k + j ≡ k + 1 + (j - 1) = omega (arith, ne) in
              ap rest.out.cell there
              ∙ rest.inside (j - 1) (omega (arith, ne, p)) (omega (arith, ne, q))
              ∙ ap (λ b. bit b temp) (sym next)
        ];
        outside = λ i p. rest.outside i (ground (arith, p)) ∙ ground (arith, p, more);
      })
  | no full ↦ record {
    out = dest;
    returns = unfold store_byte in ground (arith, full);
    same_cap = refl;
    inside = λ j p q. absurd (omega (arith, full));
    outside = λ i p. refl;
  }
]

-- `result` is `dest` with the elements from `pos` to `nb`, at most 8 for each of the `left` bytes, taken
-- from the bits of the bytes, the lowest of a byte first, and with nothing else changed.
pub record IsStored (dest : Buf) (pos nb : ℕ) (rsp : Buf) (left i : ℕ) (result : Option Buf)
    : Type 0 where
  pub out : Buf
  pub returns : result ≡ some out
  pub inside : (j : ℕ) → j < 8 * left → pos + j < nb → out.cell (pos + j) ≡ bit_at rsp i j
  pub outside : (k : ℕ) → (k < pos) ⊎ (nb ≤ k) → out.cell k ≡ dest.cell k

pub store_bits-IsStored :
    (left : ℕ) (dest : Buf) (pos nb : ℕ) (rsp : Buf) (i : ℕ)
    → pos ≤ nb
    → nb ≤ dest.cap
    → i + left ≤ rsp.cap
    → IsStored dest pos nb rsp left i (store_bits dest pos nb rsp left i)
unfolding store_bits
store_bits-IsStored zero dest pos nb rsp i h h' room = record {
  out = dest;
  returns = refl;
  inside = λ j p q. absurd (omega arith);
  outside = λ k p. refl;
}
store_bits-IsStored (suc left) dest pos nb rsp i h h' room =
    let byte = store_byte-IsByteStored 8 dest pos nb (rsp.cell i) 0 h h' in
    let rest =
      store_bits-IsStored left byte.out (min (pos + 8) nb) nb rsp (i + 1) (omega arith)
        (omega (arith, byte.same_cap, h')) (omega arith) in
    record {
      out = rest.out;
      returns = rw (read_inside rsp i (omega arith)) (rw byte.returns rest.returns);
      inside = λ j p q. elim (dec_lt j 8) [
        | yes first ↦
            let low : j % 8 ≡ 0 + j = omega (arith, first) in
            let here : i + j / 8 ≡ i = omega (arith, first) in
            rw (low, here)
              (rest.outside (pos + j) (inl (omega (arith, first, q))) ∙ byte.inside j first q)
        | no later ↦
            let low : j % 8 ≡ (j - 8) % 8 = omega (arith, later) in
            let there : i + j / 8 ≡ i + 1 + (j - 8) / 8 = omega (arith, later) in
            let place : pos + j ≡ min (pos + 8) nb + (j - 8) = omega (arith, later, q) in
            rw (low, there)
              (ap rest.out.cell place
                ∙ rest.inside (j - 8) (omega (arith, p, later)) (omega (arith, q, later)))
      ];
      outside = λ k p. rest.outside k (ground (arith, p)) ∙ byte.outside k (ground (arith, p));
    }
