-- ===== src/Server/Loops.antt =====
-- What the copying loops of the server do: registers to bytes, bytes to registers, and `memcpy`.
use native.Mathlib.Decide.{ℕ_discrete}
use swift_lib_modbus.Prelude.{
  ℕ, zero, suc, ◌+◌, ◌-◌, ◌*◌, ◌/◌, ◌%◌, ◌<◌, ◌≤◌, ◌≡◌, refl, ◌⊎◌, arith, Option, some, ap, ◌∙◌,
}
use swift_lib_modbus.Memory.{Buf, read, write_mod, update, IsBytes}
use swift_lib_modbus.Length.{word_at}
use swift_lib_modbus.Server.Reply.{put_registers, take_registers}

-- The word whose two bytes begin at `k`, high byte first.
abbrev pub word_cells : Buf → ℕ → ℕ
word_cells b k = b.cell k * 256 + b.cell (k + 1)

-- Every element is a `uint16_t`.
abbrev pub IsWords : Buf → Type 0
IsWords b = (i : ℕ) → b.cell i < 65536

pub word_at_inside : (b : Buf) (k : ℕ) → k + 1 < b.cap → word_at b k ≡ some (word_cells b k)
unfolding word_at read
word_at_inside b k h = ground arith

pub word_cells-lt : (b : Buf) (k : ℕ) → IsBytes b → word_cells b k < 65536
word_cells-lt b k small = omega (arith, small k, small (k + 1))

-- `result` is `rsp` with `left` registers from `tab[i]` in its bytes from `at`, and with nothing
-- else changed.
pub record IsPut (tab : Buf) (left i : ℕ) (rsp : Buf) (at : ℕ) (result : Option (Buf × ℕ))
    : Type 0 where
  pub out : Buf
  pub returns : result ≡ some (out, at + 2 * left)
  pub same_cap : out.cap ≡ rsp.cap
  pub inside : (j : ℕ) → j < left → word_cells out (at + 2 * j) ≡ tab.cell (i + j)
  pub bytes : (k : ℕ) → at ≤ k → k < at + 2 * left → out.cell k < 256
  pub outside : (k : ℕ) → (k < at) ⊎ (at + 2 * left ≤ k) → out.cell k ≡ rsp.cell k

abbrev pub with_word : Buf → ℕ → ℕ → Buf
with_word b k v = record b {
  cell = update (update b.cell k (v / 256 % 256)) (k + 1) (v % 256 % 256);
}

pub put_registers-suc :
    (tab : Buf) (left i : ℕ) (rsp : Buf) (at : ℕ)
    → i < tab.cap
    → at + 2 ≤ rsp.cap
    → put_registers tab (suc left) i rsp at
      ≡ put_registers tab left (i + 1) (with_word rsp at (tab.cell i)) (at + 2)
unfolding put_registers read write_mod
put_registers-suc tab left i rsp at h h' = ground arith

word-with_word : (b : Buf) (k v : ℕ) → v < 65536 → word_cells (with_word b k v) k ≡ v
word-with_word b k v h = ground arith

pub put_registers-IsPut :
    (left : ℕ) (tab : Buf) (i : ℕ) (rsp : Buf) (at : ℕ)
    → IsWords tab
    → i + left ≤ tab.cap
    → at + 2 * left ≤ rsp.cap
    → IsPut tab left i rsp at (put_registers tab left i rsp at)
put_registers-IsPut zero tab i rsp at words h h' = record {
  out = rsp;
  returns = unfold put_registers in ground arith;
  same_cap = refl;
  inside = λ j p. absurd (omega arith);
  bytes = λ k p q. absurd (omega arith);
  outside = λ k p. refl;
}
put_registers-IsPut (suc left) tab i rsp at words h h' =
    let rsp' : Buf = with_word rsp at (tab.cell i) in
    let rest =
      put_registers-IsPut left tab (i + 1) rsp' (at + 2) words (omega arith) (omega arith) in
    let first : word_cells rest.out at ≡ tab.cell i = ground (
      arith,
      rest.outside at,
      rest.outside (at + 1),
      word-with_word rsp at (tab.cell i) (words i),
    ) in
    rw (put_registers-suc tab left i rsp at (omega arith) (omega arith)) (record {
      out = rest.out;
      returns = rest.returns ∙ ap (λ n. Option.some (rest.out, n)) (omega arith);
      same_cap = rest.same_cap;
      inside = λ j p. elim (ℕ_discrete j 0) [
        | yes e ↦
            let here : at + 2 * j ≡ at = omega arith in
            let i_is : i + j ≡ i = omega arith in rw (here, i_is) first
        | no ne ↦
            let there : at + 2 * j ≡ at + 2 + 2 * (j - 1) = omega arith in
            let i_is : i + j ≡ i + 1 + (j - 1) = omega arith in
            rw (there, i_is) (rest.inside (j - 1) (omega arith))
      ];
      bytes = λ k p q. ground (arith, rest.bytes k, rest.outside k);
      outside = λ k p. ground (arith, rest.outside k);
    })

-- `result` is `tab` with `left` words from `req[k]` in its elements from `i`, and with nothing else
-- changed.
pub record IsTaken (tab : Buf) (left i : ℕ) (req : Buf) (k : ℕ) (result : Option Buf) : Type 0 where
  pub out : Buf
  pub returns : result ≡ some out
  pub same_cap : out.cap ≡ tab.cap
  pub inside : (j : ℕ) → j < left → out.cell (i + j) ≡ word_cells req (k + 2 * j)
  pub outside : (m : ℕ) → (m < i) ⊎ (i + left ≤ m) → out.cell m ≡ tab.cell m

abbrev with_register : Buf → ℕ → ℕ → Buf
with_register tab i v = record tab { cell = update tab.cell i (v % 65536) }

take_registers-suc :
    (tab : Buf) (left i : ℕ) (req : Buf) (k : ℕ)
    → k + 2 ≤ req.cap
    → i < tab.cap
    → take_registers tab (suc left) i req k
      ≡ take_registers (with_register tab i (word_cells req k)) left (i + 1) req (k + 2)
unfolding take_registers word_at read write_mod
take_registers-suc tab left i req k h h' = ground arith

pub take_registers-IsTaken :
    (left : ℕ) (tab : Buf) (i : ℕ) (req : Buf) (k : ℕ)
    → IsBytes req
    → k + 2 * left ≤ req.cap
    → i + left ≤ tab.cap
    → IsTaken tab left i req k (take_registers tab left i req k)
take_registers-IsTaken zero tab i req k small h h' = record {
  out = tab;
  returns = unfold take_registers in refl;
  same_cap = refl;
  inside = λ j p. absurd (omega arith);
  outside = λ m p. refl;
}
take_registers-IsTaken (suc left) tab i req k small h h' =
    let tab' : Buf = with_register tab i (word_cells req k) in
    let rest =
      take_registers-IsTaken left tab' (i + 1) req (k + 2) small (omega arith) (omega arith) in
    let first : rest.out.cell i ≡ word_cells req k =
      ground (arith, rest.outside i, word_cells-lt req k small) in
    rw (take_registers-suc tab left i req k (omega arith) (omega arith)) (record {
      out = rest.out;
      returns = rest.returns;
      same_cap = rest.same_cap;
      inside = λ j p. elim (ℕ_discrete j 0) [
        | yes e ↦
            let here : k + 2 * j ≡ k = omega arith in
            let i_is : i + j ≡ i = omega arith in rw (here, i_is) first
        | no ne ↦
            let there : k + 2 * j ≡ k + 2 + 2 * (j - 1) = omega arith in
            let i_is : i + j ≡ i + 1 + (j - 1) = omega arith in
            rw (there, i_is) (rest.inside (j - 1) (omega arith))
      ];
      outside = λ m p. ground (arith, rest.outside m);
    })
