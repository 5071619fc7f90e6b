-- ===== src/Server/Reply/Switch.antt =====
-- The `switch` of `modbus_reply`, by function code.
use swift_lib_modbus.Prelude.{ℕ, ◌≡◌}
use swift_lib_modbus.Memory.{Buf}
use swift_lib_modbus.Context.{Backend}
use swift_lib_modbus.Protocol.{Sft}
use swift_lib_modbus.Server.Mapping.{Mapping}
use swift_lib_modbus.Server.Reply.{
  reply_to, reply_read_bits, reply_read_registers, reply_write_single_coil,
  reply_write_single_register, reply_write_multiple_coils, reply_write_multiple_registers,
  reply_write_and_read_registers,
}

module _ (backend : Backend) (req : Buf) (n : ℕ) (mb : Mapping) (sft : Sft) (address : ℕ)
    (rsp : Buf) (function : ℕ) where
  pub to_read_coils :
      function ≡ 0x01
      → reply_to backend req n mb sft address rsp function
        ≡ reply_read_bits backend req n mb sft address rsp mb.nb_bits mb.tab_bits
  unfolding reply_to
  to_read_coils e = rw e

  pub to_read_discrete_inputs :
      function ≡ 0x02
      → reply_to backend req n mb sft address rsp function
        ≡ reply_read_bits backend req n mb sft address rsp mb.nb_input_bits mb.tab_input_bits
  unfolding reply_to
  to_read_discrete_inputs e = rw e

  pub to_read_holding_registers :
      function ≡ 0x03
      → reply_to backend req n mb sft address rsp function
        ≡ reply_read_registers backend req n mb sft address rsp mb.nb_registers mb.tab_registers
  unfolding reply_to
  to_read_holding_registers e = rw e

  pub to_read_input_registers :
      function ≡ 0x04
      → reply_to backend req n mb sft address rsp function
        ≡ reply_read_registers backend req n mb sft address rsp mb.nb_input_registers
            mb.tab_input_registers
  unfolding reply_to
  to_read_input_registers e = rw e

  pub to_write_single_coil :
      function ≡ 0x05
      → reply_to backend req n mb sft address rsp function
        ≡ reply_write_single_coil backend req n mb sft address rsp
  unfolding reply_to
  to_write_single_coil e = rw e

  pub to_write_single_register :
      function ≡ 0x06
      → reply_to backend req n mb sft address rsp function
        ≡ reply_write_single_register backend req n mb sft address rsp
  unfolding reply_to
  to_write_single_register e = rw e

  pub to_write_multiple_coils :
      function ≡ 0x0f
      → reply_to backend req n mb sft address rsp function
        ≡ reply_write_multiple_coils backend req n mb sft address rsp
  unfolding reply_to
  to_write_multiple_coils e = rw e

  pub to_write_multiple_registers :
      function ≡ 0x10
      → reply_to backend req n mb sft address rsp function
        ≡ reply_write_multiple_registers backend req n mb sft address rsp
  unfolding reply_to
  to_write_multiple_registers e = rw e

  pub to_write_and_read_registers :
      function ≡ 0x17
      → reply_to backend req n mb sft address rsp function
        ≡ reply_write_and_read_registers backend req n mb sft address rsp
  unfolding reply_to
  to_write_and_read_registers e = rw e
