-- ===== src/Server/Mapping.antt =====
-- `modbus_mapping_t`: the four tables of a server. A table that is not allocated has no elements.
use swift_lib_modbus.Prelude.{ℕ, ◌≡◌, ◌<◌}
use swift_lib_modbus.Memory.{Buf}

pub record Mapping : Type 0 where
  pub nb_bits : ℕ
  pub nb_input_bits : ℕ
  pub nb_input_registers : ℕ
  pub nb_registers : ℕ
  pub tab_bits : Buf
  pub tab_input_bits : Buf
  pub tab_input_registers : Buf
  pub tab_registers : Buf

-- The array is as long as its count says, and its elements are below the bound.
pub record IsTable (bound count : ℕ) (tab : Buf) : Type 0 where
  pub cap_is : tab.cap ≡ count
  pub small : (i : ℕ) → tab.cell i < bound

-- The tables of bits hold zeros and ones, those of registers words.
pub record IsMapping (mb : Mapping) : Type 0 where
  pub bits : IsTable 2 mb.nb_bits mb.tab_bits
  pub input_bits : IsTable 2 mb.nb_input_bits mb.tab_input_bits
  pub registers : IsTable 65536 mb.nb_registers mb.tab_registers
  pub input_registers : IsTable 65536 mb.nb_input_registers mb.tab_input_registers
