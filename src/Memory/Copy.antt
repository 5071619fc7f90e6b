-- ===== src/Memory/Copy.antt =====
-- What `memcpy` does.
use native.Mathlib.Decide.{ℕ_discrete}
use swift_lib_modbus.Prelude.{
  ℕ, zero, suc, ◌+◌, ◌-◌, ◌%◌, ◌<◌, ◌≤◌, ◌≡◌, refl, ◌⊎◌, arith, Option, some,
}
use swift_lib_modbus.Memory.{Buf, read, write_mod, update, memcpy, IsBytes}

-- `result` is `dst` with `n` bytes from `src[s]` in its elements from `d`, and with nothing else
-- changed.
pub record IsCopied (dst : Buf) (d : ℕ) (src : Buf) (s n : ℕ) (result : Option Buf) : Type 0 where
  pub out : Buf
  pub returns : result ≡ some out
  pub same_cap : out.cap ≡ dst.cap
  pub inside : (j : ℕ) → j < n → out.cell (d + j) ≡ src.cell (s + j)
  pub outside : (m : ℕ) → (m < d) ⊎ (d + n ≤ m) → out.cell m ≡ dst.cell m

abbrev with_byte : Buf → ℕ → ℕ → Buf
with_byte b k v = record b { cell = update b.cell k (v % 256) }

memcpy-suc :
    (dst : Buf) (d : ℕ) (src : Buf) (s n : ℕ)
    → s < src.cap
    → d < dst.cap
    → memcpy dst d src s (suc n) ≡ memcpy (with_byte dst d (src.cell s)) (d + 1) src (s + 1) n
unfolding memcpy read write_mod
memcpy-suc dst d src s n h h' = ground arith

pub memcpy-IsCopied :
    (n : ℕ) (dst : Buf) (d : ℕ) (src : Buf) (s : ℕ)
    → IsBytes src
    → s + n ≤ src.cap
    → d + n ≤ dst.cap
    → IsCopied dst d src s n (memcpy dst d src s n)
memcpy-IsCopied zero dst d src s small h h' = record {
  out = dst;
  returns = unfold memcpy in refl;
  same_cap = refl;
  inside = λ j p. absurd (omega arith);
  outside = λ m p. refl;
}
memcpy-IsCopied (suc n) dst d src s small h h' =
    let dst' : Buf = with_byte dst d (src.cell s) in
    let rest = memcpy-IsCopied n dst' (d + 1) src (s + 1) small (omega arith) (omega arith) in
    let first : rest.out.cell d ≡ src.cell s = ground (arith, rest.outside d, small s) in
    rw (memcpy-suc dst d src s n (omega arith) (omega arith)) (record {
      out = rest.out;
      returns = rest.returns;
      same_cap = rest.same_cap;
      inside = λ j p. elim (ℕ_discrete j 0) [
        | yes e ↦
            let here : d + j ≡ d = omega arith in
            let there : s + j ≡ s = omega arith in rw (here, there) first
        | no ne ↦
            let here : d + j ≡ d + 1 + (j - 1) = omega arith in
            let there : s + j ≡ s + 1 + (j - 1) = omega arith in
            rw (here, there) (rest.inside (j - 1) (omega arith))
      ];
      outside = λ m p. ground (arith, rest.outside m);
    })
