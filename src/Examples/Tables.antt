-- ===== src/Examples/Tables.antt =====
-- Arrays given by their elements, and the tables of a small server.
use swift_lib_modbus.Prelude.{ℕ, zero, suc, ◌<◌, List, [], ◌∷◌, get_or, length, All, arith, refl}
use swift_lib_modbus.Memory.{Buf}
use swift_lib_modbus.Server.Mapping.{Mapping, IsTable, IsMapping}

abbrev pub array : List ℕ → Buf
array xs = record { cap = length xs; cell = λ i. get_or xs i 0 }

pub array_below :
    (bound : ℕ) (xs : List ℕ)
    → 0 < bound
    → All (λ x. x < bound) xs
    → (i : ℕ) → get_or xs i 0 < bound
array_below bound [] pos_b h i = pos_b
array_below bound (x ∷ xs) pos_b h zero = h.0
array_below bound (x ∷ xs) pos_b h (suc i) = array_below bound xs pos_b h.1 i

abbrev pub coils : List ℕ
coils = 1 ∷ 0 ∷ 1 ∷ 1 ∷ 0 ∷ 0 ∷ 1 ∷ 0 ∷ 1 ∷ 1 ∷ []

abbrev pub registers : List ℕ
registers = 10 ∷ 300 ∷ 65535 ∷ 4 ∷ []

abbrev pub tables : Mapping
tables = record {
  nb_bits = 10;
  nb_input_bits = 0;
  nb_input_registers = 0;
  nb_registers = 4;
  tab_bits = array coils;
  tab_input_bits = array [];
  tab_input_registers = array [];
  tab_registers = array registers;
}

table :
    (bound : ℕ) (xs : List ℕ)
    → 0 < bound
    → All (λ x. x < bound) xs
    → IsTable bound (length xs) (array xs)
table bound xs pos_b h = record { cap_is = refl; small = array_below bound xs pos_b h }

pub tables-IsMapping : IsMapping tables
tables-IsMapping = record {
  bits = table 2 coils (omega arith) (omega arith);
  input_bits = table 2 [] (omega arith) tt;
  registers = table 65536 registers (omega arith) (omega arith);
  input_registers = table 65536 [] (omega arith) tt;
}

-- An array of 260 bytes that holds what was there before.
abbrev pub scratch : Buf
scratch = record { cap = 260; cell = λ i. 0xaa }
