-- ===== src/Memory.antt =====
-- C arrays of numbers: a capacity and the cells. An access at or beyond the capacity is
-- undefined behaviour, `none`. The cells of an array that C leaves uninitialised are arbitrary.
pub mod Laws
pub mod Copy
use swift_lib_modbus.Prelude.{
  ℕ, zero, suc, ◌+◌, ◌%◌, ◌<◌, Bool, Option, none, some, List, [], ◌∷◌, ltb, ◌==◌, if◌then◌else◌,
  ◌>>=◌,
}

pub record Buf : Type 0 where
  pub cap : ℕ
  pub cell : ℕ → ℕ

-- `b[i]` read.
unfoldable pub read : Buf → ℕ → Option ℕ
read b i = if ltb i b.cap then some (b.cell i) else none

abbrev pub update : (ℕ → ℕ) → ℕ → ℕ → ℕ → ℕ
update f i v j = if j == i then v else f j

-- `b[i] = v` for an element type that holds the numbers below `bound`: v is converted to it.
unfoldable pub write_mod : ℕ → Buf → ℕ → ℕ → Option Buf
write_mod bound b i v =
    if ltb i b.cap then some (record b { cell = update b.cell i (v % bound) }) else none

-- `b[i] = v` for `uint8_t b[]`.
abbrev pub write : Buf → ℕ → ℕ → Option Buf
write = write_mod 256

-- `b[i] = v` for `uint16_t b[]`.
abbrev pub write16 : Buf → ℕ → ℕ → Option Buf
write16 = write_mod 65536

-- `memcpy(dst + d, src + s, n)`, the bytes in ascending order; the arrays do not overlap.
pub memcpy : Buf → ℕ → Buf → ℕ → ℕ → Option Buf
memcpy dst d src s zero = some dst
memcpy dst d src s (suc n) = do
  v ← read src s
  dst' ← write dst d v
  memcpy dst' (d + 1) src (s + 1) n

-- The elements `b[i]`, ..., `b[i + n - 1]`.
abbrev pub cells : (ℕ → ℕ) → ℕ → ℕ → List ℕ
cells f i zero = []
cells f i (suc n) = f i ∷ cells f (i + 1) n

-- Every element is a `uint8_t`.
abbrev pub IsBytes : Buf → Type 0
IsBytes b = (i : ℕ) → b.cell i < 256
