-- ===== src/Server/Reply/Stores.antt =====
-- The loops of `modbus_reply` that store in a table keep it well formed.
use swift_lib_modbus.Prelude.{ℕ, zero, suc, ◌+◌, ◌/◌, ◌%◌, ◌<◌, arith, none, ltb}
use swift_lib_modbus.Memory.{Buf, read, write_mod, write, write16}
use swift_lib_modbus.Length.{word_at}
use swift_lib_modbus.Data.{truth_of_bit, set_bits_loop, set_bits_from_bytes}
use swift_lib_modbus.Server.Mapping.{IsTable}
use swift_lib_modbus.Server.Reply.{take_registers}
use swift_lib_modbus.Prelude.Defined.{IfDefined, result, no_result, bind_rule, any_rule, if_rule}

pub write_mod-IsTable :
    (bound count m : ℕ) (tab : Buf) (i v : ℕ)
    → IsTable bound count tab
    → v % m < bound
    → IfDefined (IsTable bound count) (write_mod m tab i v)
unfolding write_mod
write_mod-IsTable bound count m tab i v is small =
    if_rule (IsTable bound count) (ltb i tab.cap) _ none
      (result (IsTable bound count) _
        (record { cap_is = is.cap_is; small = λ j. ground (arith, is.small j, small) }))
      (no_result (IsTable bound count))

pub take_registers-IsTable :
    (left count : ℕ) (tab : Buf) (i : ℕ) (req : Buf) (j : ℕ)
    → IsTable 65536 count tab
    → IfDefined (IsTable 65536 count) (take_registers tab left i req j)
unfolding take_registers
take_registers-IsTable zero count tab i req j is = result (IsTable 65536 count) tab is
take_registers-IsTable (suc left) count tab i req j is =
    any_rule (IsTable 65536 count) (word_at req j) _ (λ w.
      bind_rule (IsTable 65536 count) (IsTable 65536 count) (write16 tab i w) _
        (write_mod-IsTable 65536 count 65536 tab i w is (omega arith))
        (λ tab' is'. take_registers-IsTable left count tab' (i + 1) req (j + 2) is'))

truth_of_bit-lt : (b shift : ℕ) → truth_of_bit b shift % 256 < 2
truth_of_bit-lt b shift = ground arith

set_bits_loop-IsTable :
    (left count : ℕ) (tab : Buf) (index : ℕ) (bytes : Buf) (start k shift : ℕ)
    → IsTable 2 count tab
    → IfDefined (IsTable 2 count) (set_bits_loop tab index bytes start left k shift)
unfolding set_bits_loop
set_bits_loop-IsTable zero count tab index bytes start k shift is = result (IsTable 2 count) tab is
set_bits_loop-IsTable (suc left) count tab index bytes start k shift is =
    any_rule (IsTable 2 count) (read bytes (start + k / 8)) _ (λ b.
      bind_rule (IsTable 2 count) (IsTable 2 count) (write tab (index + k) (truth_of_bit b shift)) _
        (write_mod-IsTable 2 count 256 tab (index + k) (truth_of_bit b shift) is
          (truth_of_bit-lt b shift))
        (λ tab' is'.
          set_bits_loop-IsTable left count tab' index bytes start (k + 1) ((shift + 1) % 8) is'))

pub set_bits_from_bytes-IsTable :
    (count : ℕ) (tab : Buf) (index nb : ℕ) (bytes : Buf) (start : ℕ)
    → IsTable 2 count tab
    → IfDefined (IsTable 2 count) (set_bits_from_bytes tab index nb bytes start)
unfolding set_bits_from_bytes
set_bits_from_bytes-IsTable count tab index nb bytes start is =
    set_bits_loop-IsTable nb count tab index bytes start 0 0 is
