-- ===== src/Server/IoStatus/Laws.antt =====
-- What `response_io_status` stores.
use swift_lib_modbus.Prelude.{
  ℕ, zero, suc, ◌+◌, ◌-◌, ◌*◌, ◌/◌, ◌%◌, ◌^◌, ◌<◌, ◌≤◌, ◌≡◌, refl, ◌⊎◌, inl, inr, arith, Option,
  some, ap, ◌∙◌, Bool-cases, ◌==◌, if◌then◌else◌, ◌>>=◌, sym,
}
use native.Mathlib.Nat.{pow-suc, pow-le-pow_right}
use native.Mathlib.Decide.{ℕ_discrete}
use swift_lib_modbus.Bits.Bit.{bit, bit-add_low, bit-add_top, bit_above}
use swift_lib_modbus.Bits.Fields.{bit_or_above}
use swift_lib_modbus.Memory.{Buf, read, write_mod, update, IsBytes}
use swift_lib_modbus.Data.{set_bits_from_bytes}
use swift_lib_modbus.Data.Bits.{bit_at, set_bits_from_bytes-IsUnpacked}
use swift_lib_modbus.Server.IoStatus.{io_loop, response_io_status}

-- Every element is 0 or 1.
abbrev pub IsBits : Buf → Type 0
IsBits b = (i : ℕ) → b.cell i < 2

-- The number of bytes that hold `n` bits.
abbrev pub bytes_for : ℕ → ℕ
bytes_for n = (n + 7) / 8

-- `result` is `rsp` with the low `shift` bits of `byte` and then `left` bits of the table from `i`
-- packed into its bytes from `offset`, the rest of the last byte zero, and nothing else changed.
pub record IsPacked (tab : Buf) (left i shift byte : ℕ) (rsp : Buf) (offset : ℕ)
    (result : Option (Buf × ℕ)) : Type 0 where
  pub out : Buf
  pub returns : result ≡ some (out, offset + bytes_for (shift + left))
  pub same_cap : out.cap ≡ rsp.cap
  pub before : (p : ℕ) → p < shift → bit_at out offset p ≡ bit p byte
  pub inside : (j : ℕ) → j < left → bit_at out offset (shift + j) ≡ tab.cell (i + j)
  pub padding :
      (p : ℕ) → shift + left ≤ p → p < 8 * bytes_for (shift + left) → bit_at out offset p ≡ 0
  pub outside :
      (k : ℕ) → (k < offset) ⊎ (offset + bytes_for (shift + left) ≤ k) → out.cell k ≡ rsp.cell k
  pub bytes : IsBytes rsp → IsBytes out

byte_small : (s b : ℕ) → s ≤ 8 → b < 2 ^ s → b % 256 ≡ b
byte_small s b h hb = let cap : 2 ^ s ≤ 2 ^ 8 = pow-le-pow_right (omega arith) h in omega arith

grown-lt_pow : (s b v : ℕ) → b < 2 ^ s → v < 2 → b + v * 2 ^ s < 2 ^ (s + 1)
grown-lt_pow s b zero h hv =
    let up : 2 ^ (s + 1) ≡ 2 ^ suc s = ap (λ k. 2 ^ k) (omega arith) in omega (arith, pow-suc 2 s)
grown-lt_pow s b (suc zero) h hv =
    let up : 2 ^ (s + 1) ≡ 2 ^ suc s = ap (λ k. 2 ^ k) (omega arith) in omega (arith, pow-suc 2 s)
grown-lt_pow s b (suc (suc v)) h hv = absurd (omega arith)

-- The first byte, and the bytes behind it.
bit_at_byte : (b : Buf) (offset p v : ℕ) → p < 8 → b.cell offset ≡ v → bit_at b offset p ≡ bit p v
bit_at_byte b offset p v h e =
    let low : p % 8 ≡ p = omega arith in
    let here : offset + p / 8 ≡ offset = omega arith in rw (low, here) (ap (bit p) e)

bit_at_next : (b : Buf) (offset p q : ℕ) → p ≡ 8 + q → bit_at b offset p ≡ bit_at b (offset + 1) q
bit_at_next b offset p q e =
    let low : p % 8 ≡ q % 8 = omega arith in
    let there : offset + p / 8 ≡ offset + 1 + q / 8 = omega arith in rw (low, there)

-- The loop has ended inside a byte.
last-IsPacked :
    (tab : Buf) (i shift byte : ℕ) (rsp : Buf) (offset : ℕ)
    → 0 < shift
    → shift < 8
    → byte < 2 ^ shift
    → offset < rsp.cap
    → IsPacked tab 0 i shift byte rsp offset (io_loop tab 0 i shift byte rsp offset)
last-IsPacked tab i shift byte rsp offset pos_s hs hb hr =
    let small : byte % 256 ≡ byte = byte_small shift byte (omega arith) hb in
    let one : 1 ≡ bytes_for (shift + 0) = omega arith in
    let out : Buf = record rsp { cell = update rsp.cell offset (byte % 256) } in
    let stored : out.cell offset ≡ byte = ground arith in
    record {
      out = out;
      returns = unfold io_loop write_mod in ground arith;
      same_cap = refl;
      before = λ p q. bit_at_byte out offset p byte (omega arith) stored;
      inside = λ j q. absurd (omega arith);
      padding = λ p q r.
          bit_at_byte out offset p byte (omega arith) stored
          ∙ bit_above shift p byte hb (omega arith);
      outside = λ k q. ground arith;
      bytes = λ of_bytes k. ground (arith, of_bytes k);
    }

module _ (left : ℕ) (tab : Buf) (i shift byte : ℕ) (rsp : Buf) (offset : ℕ) where
  abbrev grown : ℕ
  grown = byte + tab.cell i * 2 ^ shift

  -- The next bit goes into the same byte.
  more-IsPacked :
      {result : Option (Buf × ℕ)}
      → tab.cell i < 2
      → byte < 2 ^ shift
      → IsPacked tab left (i + 1) (shift + 1) grown rsp offset result
      → IsPacked tab (suc left) i shift byte rsp offset result
  more-IsPacked bit_i hb rest = record {
    out = rest.out;
    returns = rest.returns ∙ ap (λ m. Option.some (rest.out, offset + bytes_for m)) (omega arith);
    same_cap = rest.same_cap;
    before = λ p q. rest.before p (omega arith) ∙ bit-add_low p shift byte (tab.cell i) q;
    inside = λ j q. elim (ℕ_discrete j 0) [
      | yes e ↦
          let at_end : shift + j ≡ shift = omega arith in
          let first : i + j ≡ i = omega arith in
          let same : tab.cell i % 2 ≡ tab.cell i = omega arith in
          rw (at_end, first)
            (rest.before shift (omega arith) ∙ bit-add_top shift byte (tab.cell i) hb ∙ same)
      | no ne ↦
          let later : shift + j ≡ shift + 1 + (j - 1) = omega arith in
          let further : i + j ≡ i + 1 + (j - 1) = omega arith in
          rw (later, further) (rest.inside (j - 1) (omega arith))
    ];
    padding = λ p q r. rest.padding p (omega arith) (omega arith);
    outside = λ k q. rest.outside k (omega arith);
    bytes = rest.bytes;
  }

  -- The byte is full, and is stored.
  abbrev stored_full : Buf
  stored_full = record rsp { cell = update rsp.cell offset (grown % 256) }

  full-IsPacked :
      {result : Option (Buf × ℕ)}
      → shift ≡ 7
      → tab.cell i < 2
      → byte < 2 ^ shift
      → IsPacked tab left (i + 1) 0 0 stored_full (offset + 1) result
      → IsPacked tab (suc left) i shift byte rsp offset result
  full-IsPacked seven bit_i hb rest =
      let small : grown % 256 ≡ grown =
        let power : 2 ^ shift ≡ 128 = rw seven in ground (arith, power) in
      let in_place : rest.out.cell offset ≡ grown =
        rest.outside offset (inl (omega arith)) ∙ ground arith in
      record {
        out = rest.out;
        returns = rest.returns ∙ ap (λ m. Option.some (rest.out, m)) (omega arith);
        same_cap = rest.same_cap;
        before = λ p q.
            bit_at_byte rest.out offset p grown (omega arith) in_place
            ∙ bit-add_low p shift byte (tab.cell i) q;
        inside = λ j q. elim (ℕ_discrete j 0) [
          | yes e ↦
              let at_end : shift + j ≡ shift = omega arith in
              let first : i + j ≡ i = omega arith in
              let same : tab.cell i % 2 ≡ tab.cell i = omega arith in
              rw (at_end, first)
                (bit_at_byte rest.out offset shift grown (omega arith) in_place
                  ∙ bit-add_top shift byte (tab.cell i) hb
                  ∙ same)
          | no ne ↦
              let further : i + j ≡ i + 1 + (0 + (j - 1)) = omega arith in
              rw further (
                bit_at_next rest.out offset (shift + j) (0 + (j - 1)) (omega arith)
                ∙ rest.inside (j - 1) (omega arith)
                ∙ ap tab.cell (omega arith))
        ];
        padding = λ p q r.
            bit_at_next rest.out offset p (p - 8) (omega arith)
            ∙ rest.padding (p - 8) (omega arith) (omega arith);
        outside = λ k q. rest.outside k (omega arith) ∙ ground arith;
        bytes = λ of_bytes. rest.bytes (λ k. ground (arith, of_bytes k));
      }

-- One round of the loop, inside the table and the array.
io_loop-suc :
    (left : ℕ) (tab : Buf) (i shift byte : ℕ) (rsp : Buf) (offset : ℕ)
    → i < tab.cap
    → offset < rsp.cap
    → byte < 2 ^ shift
    → io_loop tab (suc left) i shift byte rsp offset ≡ (
        if shift == 7
        then io_loop tab left
            (i + 1)
            0
            0
            (stored_full left tab i shift byte rsp offset)
            (offset + 1)
        else io_loop tab left
            (i + 1)
            (shift + 1)
            (grown left tab i shift byte rsp offset)
            rsp
            offset)
unfolding io_loop read write_mod
io_loop-suc left tab i shift byte rsp offset hi ho hb =
    ground (arith, bit_or_above shift byte (tab.cell i) hb)

io_loop-IsPacked :
    (left : ℕ) (tab : Buf) (i shift byte : ℕ) (rsp : Buf) (offset : ℕ)
    → IsBits tab
    → i + left ≤ tab.cap
    → shift < 8
    → byte < 2 ^ shift
    → offset + bytes_for (shift + left) ≤ rsp.cap
    → IsPacked tab left i shift byte rsp offset (io_loop tab left i shift byte rsp offset)
io_loop-IsPacked zero tab i zero byte rsp offset bits h hs hb hr = record {
  out = rsp;
  returns = unfold io_loop in ground arith;
  same_cap = refl;
  before = λ p q. absurd (omega arith);
  inside = λ j q. absurd (omega arith);
  padding = λ p q r. absurd (omega arith);
  outside = λ k q. refl;
  bytes = λ of_bytes. of_bytes;
}
io_loop-IsPacked zero tab i (suc shift) byte rsp offset bits h hs hb hr =
    last-IsPacked tab i (suc shift) byte rsp offset (omega arith) hs hb (omega arith)
io_loop-IsPacked (suc left) tab i shift byte rsp offset bits h hs hb hr =
    rw (io_loop-suc left tab i shift byte rsp offset (omega arith) (omega arith) hb)
      (elim (Bool-cases (shift == 7)) [
        | inl full ↦
            let seven : shift ≡ 7 = ground arith in
            rw full (
              full-IsPacked left tab i shift byte rsp offset seven (bits i) hb (
                io_loop-IsPacked left tab (i + 1) 0 0 (stored_full left tab i shift byte rsp offset)
                  (offset + 1) bits (omega arith) (omega arith) (omega arith) (omega arith)))
        | inr more ↦
            let below : shift + 1 < 8 = ground arith in
            let next : byte + tab.cell i * 2 ^ shift < 2 ^ (shift + 1) =
              grown-lt_pow shift byte (tab.cell i) hb (bits i) in
            rw more (
              more-IsPacked left tab i shift byte rsp offset (bits i) hb (
                io_loop-IsPacked left tab (i + 1) (shift + 1) _ rsp offset bits (omega arith) below
                  next (omega arith)))
      ])

-- `response_io_status`, given a table of zeros and ones and room for the bytes, packs `nb` elements
-- from `address` into the bytes from `offset`, the lowest bit of a byte first and the unused bits of
-- the last byte zero; it returns the offset behind them, and changes no other byte.
pub response_io_status-IsPacked :
    (address nb : ℕ) (tab rsp : Buf) (offset : ℕ)
    → IsBits tab
    → address + nb ≤ tab.cap
    → offset + bytes_for nb ≤ rsp.cap
    → IsPacked tab nb address 0 0 rsp offset (response_io_status address nb tab rsp offset)
unfolding response_io_status
response_io_status-IsPacked address nb tab rsp offset bits h hr =
    io_loop-IsPacked nb tab address 0 0 rsp offset bits h (omega arith) (omega arith) (omega arith)

-- What `response_io_status` packs, `modbus_set_bits_from_bytes` unpacks: the `nb` elements of the
-- table come back, at any place of any array that has room for them.
pub unpack-response_io_status :
    (address nb : ℕ) (tab rsp : Buf) (offset : ℕ) (dest : Buf) (index : ℕ)
    → IsBits tab
    → address + nb ≤ tab.cap
    → offset + bytes_for nb ≤ rsp.cap
    → index + nb ≤ dest.cap
    → (out : Buf) × ((response_io_status address nb tab rsp offset >>= λ packed.
          set_bits_from_bytes dest index nb packed.0 offset)
        ≡ some out)
      × ((j : ℕ) → j < nb → out.cell (index + j) ≡ tab.cell (address + j))
unpack-response_io_status address nb tab rsp offset dest index bits h hr hd =
    let packed = response_io_status-IsPacked address nb tab rsp offset bits h hr in
    let room : offset + bytes_for nb ≤ packed.out.cap = rw packed.same_cap hr in
    let unpacked = set_bits_from_bytes-IsUnpacked dest index nb packed.out offset room hd in
    (
      unpacked.out,
      rw packed.returns unpacked.returns,
      λ j q.
          let place : 0 + j ≡ j = omega arith in
          unpacked.inside j (omega arith) (omega arith)
          ∙ ap (bit_at packed.out offset) (sym place)
          ∙ packed.inside j q,
    )
