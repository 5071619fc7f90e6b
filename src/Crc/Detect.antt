-- ===== src/Crc/Detect.antt =====
-- The CRC of two messages that differ in one byte.
use swift_lib_modbus.Prelude.{
  ℕ, suc, ◌+◌, ◌*◌, ◌<◌, ◌≡◌, ◌≢◌, refl, ap, sym, ◌∙◌, arith, bit_xor, List, [], ◌∷◌, ◌++◌, ◌==◌,
  ==_iff, if◌then◌else◌, true, get_or, All,
}
use swift_lib_modbus.Bits.Xor.{bit_xor_injective, bit_xor_comm, bit_xor-lt_byte}
use swift_lib_modbus.Bits.Below.{holds_below, holds_at}
use swift_lib_modbus.Bits.Fields.{bit_or_word}
use swift_lib_modbus.Crc.{Crc, initial, crc_step, crc_word}
use swift_lib_modbus.Crc.Table.{table_crc_hi, table_crc_lo}
use swift_lib_modbus.Crc.Reference.{IsCrc, fold_crc, crc_step-IsCrc}
use swift_lib_modbus.Crc.Bytes.{crc_bytes, initial-IsCrc}

index_of : ℕ → List ℕ → ℕ
index_of x [] = 0
index_of x (y ∷ ys) = if x == y then 0 else suc (index_of x ys)

each_once : holds_below (λ i. index_of (get_or table_crc_lo i 0) table_crc_lo == i) 256 ≡ true
unfolding holds_below index_of table_crc_lo
each_once = refl

table_crc_lo_injective :
    (i j : ℕ) → i < 256 → j < 256 → get_or table_crc_lo i 0 ≡ get_or table_crc_lo j 0 → i ≡ j
table_crc_lo_injective i j h k e =
    sym ((==_iff _ _).0 (holds_at _ 256 i each_once h))
    ∙ ap (λ x. index_of x table_crc_lo) e
    ∙ (==_iff _ _).0 (holds_at _ 256 j each_once k)

-- From the register after a byte, the index and the low byte before it can be had back.
crc_step_back :
    (c d : Crc) (a b : ℕ)
    → IsCrc c
    → IsCrc d
    → a < 256
    → b < 256
    → crc_step c a ≡ crc_step d b
    → (bit_xor c.crc_hi a ≡ bit_xor d.crc_hi b) × (c.crc_lo ≡ d.crc_lo)
unfolding crc_step
crc_step_back c d a b isc isd ha hb e =
    let i : ℕ = bit_xor c.crc_hi a in
    let j : ℕ = bit_xor d.crc_hi b in
    let same : i ≡ j =
      table_crc_lo_injective i j (bit_xor-lt_byte _ _ isc.hi_byte ha)
        (bit_xor-lt_byte _ _ isd.hi_byte hb) (ap (λ r. r.crc_lo) e) in
    let high : bit_xor c.crc_lo (get_or table_crc_hi i 0)
        ≡ bit_xor d.crc_lo (get_or table_crc_hi i 0) =
      ap (λ r. r.crc_hi) e ∙ ap (λ k. bit_xor d.crc_lo (get_or table_crc_hi k 0)) (sym same) in
    (same, bit_xor_injective _ _ _ high)

crc_step_injective :
    (c d : Crc) (b : ℕ) → IsCrc c → IsCrc d → b < 256 → crc_step c b ≡ crc_step d b → c ≡ d
crc_step_injective c d b isc isd hb e =
    let back = crc_step_back c d b b isc isd hb hb e in
    λ i. record { crc_hi = bit_xor_injective _ _ _ back.0 i; crc_lo = back.1 i }

fold_crc_injective :
    (bs : List ℕ) (c d : Crc)
    → IsCrc c
    → IsCrc d
    → All (λ b. b < 256) bs
    → fold_crc c bs ≡ fold_crc d bs
    → c ≡ d
unfolding fold_crc
fold_crc_injective [] c d isc isd small e = e
fold_crc_injective (b ∷ bs) c d isc isd small e = crc_step_injective c d b isc isd small.0 (
    fold_crc_injective bs (crc_step c b) (crc_step d b) (crc_step-IsCrc c b isc small.0)
      (crc_step-IsCrc d b isd small.0) small.1 e)

crc_word_injective : (c d : Crc) → IsCrc c → IsCrc d → crc_word c ≡ crc_word d → c ≡ d
crc_word_injective c d isc isd e =
    let words : c.crc_hi * 256 + c.crc_lo ≡ d.crc_hi * 256 + d.crc_lo =
      sym (bit_or_word c.crc_hi c.crc_lo isc.lo_byte)
      ∙ e
      ∙ bit_or_word d.crc_hi d.crc_lo isd.lo_byte in
    let hi : c.crc_hi ≡ d.crc_hi = omega (arith, words, isc.lo_byte, isd.lo_byte) in
    let lo : c.crc_lo ≡ d.crc_lo = omega (arith, words, isc.lo_byte, isd.lo_byte) in
    λ i. record { crc_hi = hi i; crc_lo = lo i }

fold_crc-append : (xs ys : List ℕ) (c : Crc) → fold_crc c (xs ++ ys) ≡ fold_crc (fold_crc c xs) ys
unfolding fold_crc
fold_crc-append [] ys c = refl
fold_crc-append (x ∷ xs) ys c = fold_crc-append xs ys (crc_step c x)

fold_crc-IsCrc : (bs : List ℕ) (c : Crc) → IsCrc c → All (λ b. b < 256) bs → IsCrc (fold_crc c bs)
unfolding fold_crc
fold_crc-IsCrc [] c is small = is
fold_crc-IsCrc (b ∷ bs) c is small =
    fold_crc-IsCrc bs (crc_step c b) (crc_step-IsCrc c b is small.0) small.1

-- Two messages that differ in exactly one byte, wherever it stands, have different CRCs.
pub crc_bytes-detects :
    (before after : List ℕ) (a b : ℕ)
    → All (λ x. x < 256) before
    → All (λ x. x < 256) after
    → a < 256
    → b < 256
    → a ≢ b
    → crc_bytes (before ++ a ∷ after) ≢ crc_bytes (before ++ b ∷ after)
unfolding crc_bytes fold_crc
crc_bytes-detects before after a b hb ha la lb different e =
    let c : Crc = fold_crc initial before in
    let is : IsCrc c = fold_crc-IsCrc before initial initial-IsCrc hb in
    let isa : IsCrc (crc_step c a) = crc_step-IsCrc c a is la in
    let isb : IsCrc (crc_step c b) = crc_step-IsCrc c b is lb in
    let ends : crc_word (fold_crc (crc_step c a) after) ≡ crc_word (fold_crc (crc_step c b) after) =
      sym (ap (λ r. crc_word r) (fold_crc-append before (a ∷ after) initial))
      ∙ e
      ∙ ap (λ r. crc_word r) (fold_crc-append before (b ∷ after) initial) in
    let steps : crc_step c a ≡ crc_step c b = fold_crc_injective after _ _ isa isb ha (
      crc_word_injective _ _ (fold_crc-IsCrc after _ isa ha) (fold_crc-IsCrc after _ isb ha)
        ends) in
    let index = (crc_step_back c c a b is is la lb steps).0 in
    different
      (bit_xor_injective a b c.crc_hi (bit_xor_comm a c.crc_hi ∙ index ∙ bit_xor_comm c.crc_hi b))
