-- ===== src/Memory/Laws.antt =====
-- Accesses inside an array: their results, and the cells they change.
use swift_lib_modbus.Prelude.{
  ℕ, zero, suc, ◌+◌, ◌-◌, ◌%◌, ◌<◌, ◌≤◌, ◌≡◌, refl, some, lt→ltb, ap, ap₂, ◌∙◌, length, ◌∷◌, ◌++◌,
  ◌⊎◌, arith,
}
use swift_lib_modbus.Memory.{Buf, read, write_mod, update, cells}

pub read_inside : (b : Buf) (i : ℕ) → i < b.cap → read b i ≡ some (b.cell i)
unfolding read
read_inside b i h = rw (lt→ltb _ _ h)

pub write_inside :
    (m : ℕ) (b : Buf) (i v : ℕ)
    → i < b.cap
    → write_mod m b i v ≡ some (record b { cell = update b.cell i (v % m) })
unfolding write_mod
write_inside m b i v h = rw (lt→ltb _ _ h)

pub length-cells : (f : ℕ → ℕ) (i n : ℕ) → length (cells f i n) ≡ n
length-cells f i zero = refl
length-cells f i (suc n) = ap suc (length-cells f (i + 1) n)

-- A write outside a range does not change the range.
pub cells-update :
    (f : ℕ → ℕ) (j v i n : ℕ) → (j < i) ⊎ (i + n ≤ j) → cells (update f j v) i n ≡ cells f i n
cells-update f j v i zero out = refl
cells-update f j v i (suc n) out =
    ap₂ ◌∷◌ (ground arith) (cells-update f j v (i + 1) n (omega arith))

pub cells-append : (f : ℕ → ℕ) (i m n : ℕ) → cells f i (m + n) ≡ cells f i m ++ cells f (i + m) n
cells-append f i zero n = ap₂ (cells f) (omega arith) (omega arith)
cells-append f i (suc m) n =
    let e : suc m + n ≡ suc (m + n) = omega arith in
    let j : i + 1 + m ≡ i + suc m = omega arith in
    rw e (
      ap (λ xs. f i ∷ xs)
        (cells-append f (i + 1) m n ∙ ap (λ k. cells f (i + 1) m ++ cells f k n) j))

pub cells-split :
    (f : ℕ → ℕ) (j n : ℕ) → j < n → cells f 0 n ≡ cells f 0 j ++ f j ∷ cells f (j + 1) (n - j - 1)
cells-split f j n h =
    let e : n ≡ j + suc (n - j - 1) = omega arith in
    let z : 0 + j ≡ j = omega arith in
    ap (cells f 0) e
    ∙ cells-append f 0 j (suc (n - j - 1))
    ∙ ap (λ k. cells f 0 j ++ cells f k (suc (n - j - 1))) z

-- Functions that agree on a range have the same elements there.
pub cells-same :
    (f g : ℕ → ℕ) (i n : ℕ) → ((k : ℕ) → i ≤ k → k < i + n → f k ≡ g k) → cells f i n ≡ cells g i n
cells-same f g i zero same = refl
cells-same f g i (suc n) same =
    ap₂ ◌∷◌ (same i (omega arith) (omega arith))
      (cells-same f g (i + 1) n (λ k h h'. same k (omega (arith, h)) (omega (arith, h'))))
