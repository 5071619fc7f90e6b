-- ===== src/Server/Reply/Invariant.antt =====
-- The tables after any request: `modbus_reply` keeps them well formed.
use swift_lib_modbus.Prelude.{
  ℕ, ◌+◌, ◌-◌, ◌*◌, ◌%◌, ◌≡◌, refl, arith, Option, ◌==◌, ltb, leb, ◌||◌, if◌then◌else◌,
}
use swift_lib_modbus.Context.{Backend}
use swift_lib_modbus.Backend.{header_length, prepare_response_tid, build_response_basis}
use swift_lib_modbus.Protocol.{
  Sft, exception_illegal_data_address, exception_illegal_data_value, exception_illegal_function,
  report_slave_id_byte, fc_read_coils, fc_read_discrete_inputs, fc_read_holding_registers,
  fc_read_input_registers, fc_write_single_coil, fc_write_single_register, fc_write_multiple_coils,
  fc_write_multiple_registers, fc_report_slave_id, fc_read_exception_status,
  fc_write_and_read_registers,
}
use swift_lib_modbus.Memory.{Buf, read, write}
use swift_lib_modbus.Length.{word_at}
use swift_lib_modbus.Data.{set_bits_from_bytes}
use swift_lib_modbus.Server.Mapping.{Mapping, IsTable, IsMapping}
use swift_lib_modbus.Server.Reply.{
  Reply, response, not_implemented, answer, echo, confirm_write, reply_read_bits,
  reply_read_registers, reply_write_single_coil, reply_write_single_register,
  reply_write_multiple_coils, reply_write_multiple_registers, reply_report_slave_id,
  reply_write_and_read_registers, reply_to, reply_message, refuse, put_registers, put_text,
  slave_text, response_exception,
}
use swift_lib_modbus.Prelude.Defined.{IfDefined, result, bind_rule, any_rule, if_rule}
use swift_lib_modbus.Server.Reply.Stores.{
  write_mod-IsTable, take_registers-IsTable, set_bits_from_bytes-IsTable,
}

-- The tables are well formed and as large as before; those that a request only reads are the same.
pub record IsPreserved (mb mb' : Mapping) : Type 0 where
  pub well_formed : IsMapping mb'
  pub same_bits : mb'.nb_bits ≡ mb.nb_bits
  pub same_registers : mb'.nb_registers ≡ mb.nb_registers
  pub same_input_bits : mb'.tab_input_bits ≡ mb.tab_input_bits
  pub same_input_registers : mb'.tab_input_registers ≡ mb.tab_input_registers

abbrev pub Preserves : Mapping → Reply → Type 0
Preserves mb (response rsp rsp_length mb') = IsPreserved mb mb'
Preserves mb not_implemented = Unit

pub unchanged : (mb : Mapping) → IsMapping mb → IsPreserved mb mb
unchanged mb is = record {
  well_formed = is;
  same_bits = refl;
  same_registers = refl;
  same_input_bits = refl;
  same_input_registers = refl;
}

module _ (backend : Backend) (req : Buf) (n : ℕ) (mb : Mapping) (sft : Sft) (address : ℕ)
    (rsp : Buf) (is : IsMapping mb) where
  with_bits : (tab : Buf) → IsTable 2 mb.nb_bits tab → IsPreserved mb (record mb { tab_bits = tab })
  with_bits tab table = record {
    well_formed = record {
      bits = table;
      input_bits = is.input_bits;
      registers = is.registers;
      input_registers = is.input_registers;
    };
    same_bits = refl;
    same_registers = refl;
    same_input_bits = refl;
    same_input_registers = refl;
  }

  with_registers :
      (tab : Buf)
      → IsTable 65536 mb.nb_registers tab
      → IsPreserved mb (record mb { tab_registers = tab })
  with_registers tab table = record {
    well_formed = record {
      bits = is.bits;
      input_bits = is.input_bits;
      registers = table;
      input_registers = is.input_registers;
    };
    same_bits = refl;
    same_registers = refl;
    same_input_bits = refl;
    same_input_registers = refl;
  }

  answer-Preserves :
      (r : Option (Buf × ℕ)) → IfDefined (Preserves mb) (answer backend req n mb sft address rsp r)
  answer-Preserves r =
      any_rule (Preserves mb) r _ (λ out. result (Preserves mb) _ (unchanged mb is))

  refuse-Preserves :
      (code : ℕ) → IfDefined (Preserves mb) (refuse backend req n mb sft address rsp code)
  refuse-Preserves code = answer-Preserves (response_exception backend sft code rsp)

  echo-Preserves :
      (mb' : Mapping)
      → IsPreserved mb mb'
      → IfDefined (Preserves mb) (echo backend req n mb sft address rsp mb')
  echo-Preserves mb' kept = any_rule (Preserves mb) _ _ (λ rsp'. result (Preserves mb) _ kept)

  confirm_write-Preserves :
      (mb' : Mapping)
      → IsPreserved mb mb'
      → IfDefined (Preserves mb) (confirm_write backend req n mb sft address rsp mb')
  unfolding confirm_write
  confirm_write-Preserves mb' kept = record { holds = ground arith }

  reply_write_single_register-Preserves :
      IfDefined (Preserves mb) (reply_write_single_register backend req n mb sft address rsp)
  unfolding reply_write_single_register
  reply_write_single_register-Preserves =
      let same : address ≡ address = refl in
      rw (reply_write_single_register, same)
        (if_rule (Preserves mb) _ _ _ (answer-Preserves _) (
          any_rule (Preserves mb) _ _ (λ data_value.
            bind_rule (IsTable 65536 mb.nb_registers) (Preserves mb) _ _
              (write_mod-IsTable 65536 mb.nb_registers 65536 mb.tab_registers address data_value
                is.registers (omega arith))
              (λ tab table. echo-Preserves _ (with_registers tab table)))))

  reply_write_single_coil-Preserves :
      IfDefined (Preserves mb) (reply_write_single_coil backend req n mb sft address rsp)
  unfolding reply_write_single_coil
  reply_write_single_coil-Preserves =
      let same : address ≡ address = refl in
      rw (reply_write_single_coil, same)
        (if_rule (Preserves mb) (leb mb.nb_bits address) _ _
          (refuse-Preserves exception_illegal_data_address)
          (any_rule (Preserves mb) (word_at req (header_length backend + 3)) _ (λ data_value.
            if_rule (Preserves mb) (data_value == 0xff00 || data_value == 0) _ _
              (bind_rule (IsTable 2 mb.nb_bits) (Preserves mb) _ _
                (write_mod-IsTable 2 mb.nb_bits 256 mb.tab_bits address
                  (if data_value == 0 then 0 else 1) is.bits (ground arith))
                (λ tab table. echo-Preserves _ (with_bits tab table)))
              (refuse-Preserves exception_illegal_data_value))))

  reply_write_multiple_coils-Preserves :
      IfDefined (Preserves mb) (reply_write_multiple_coils backend req n mb sft address rsp)
  unfolding reply_write_multiple_coils set_bits_from_bytes
  reply_write_multiple_coils-Preserves =
      let same : address ≡ address = refl in
      rw (reply_write_multiple_coils, same)
        (any_rule (Preserves mb) (word_at req (header_length backend + 3)) _ (λ nb.
          if_rule (Preserves mb) (ltb mb.nb_bits (address + nb)) _ _
            (refuse-Preserves exception_illegal_data_address)
            (bind_rule (IsTable 2 mb.nb_bits) (Preserves mb) _ _
              (set_bits_from_bytes-IsTable mb.nb_bits mb.tab_bits address nb req
                (header_length backend + 6) is.bits)
              (λ tab table. confirm_write-Preserves _ (with_bits tab table)))))

  reply_write_multiple_registers-Preserves :
      IfDefined (Preserves mb) (reply_write_multiple_registers backend req n mb sft address rsp)
  unfolding reply_write_multiple_registers
  reply_write_multiple_registers-Preserves =
      let same : address ≡ address = refl in
      rw (reply_write_multiple_registers, same)
        (any_rule (Preserves mb) (word_at req (header_length backend + 3)) _ (λ nb.
          if_rule (Preserves mb) (ltb mb.nb_registers (address + nb)) _ _
            (refuse-Preserves exception_illegal_data_address)
            (bind_rule (IsTable 65536 mb.nb_registers) (Preserves mb) _ _
              (take_registers-IsTable nb mb.nb_registers mb.tab_registers address req
                (header_length backend + 6) is.registers)
              (λ tab table. confirm_write-Preserves _ (with_registers tab table)))))

  reply_write_and_read_registers-Preserves :
      IfDefined (Preserves mb) (reply_write_and_read_registers backend req n mb sft address rsp)
  unfolding reply_write_and_read_registers
  reply_write_and_read_registers-Preserves =
      let same : address ≡ address = refl in
      rw (reply_write_and_read_registers, same)
        (any_rule (Preserves mb) (word_at req (header_length backend + 3)) _ (λ nb.
          any_rule (Preserves mb) (word_at req (header_length backend + 5)) _ (λ address_write.
            any_rule (Preserves mb) (word_at req (header_length backend + 7)) _ (λ nb_write.
              if_rule (Preserves mb)
                (ltb mb.nb_registers (address + nb)
                  || ltb mb.nb_registers (address_write + nb_write))
                _ _ (refuse-Preserves exception_illegal_data_address)
                (any_rule (Preserves mb) (build_response_basis backend sft rsp) _ (λ built.
                  any_rule (Preserves mb) (write built.0 built.1 (nb * 2)) _ (λ rsp'.
                    bind_rule (IsTable 65536 mb.nb_registers) (Preserves mb) _ _
                      (take_registers-IsTable nb_write mb.nb_registers mb.tab_registers
                        address_write req (header_length backend + 10) is.registers)
                      (λ tab table.
                        any_rule (Preserves mb) (put_registers tab nb address rsp' (built.1 + 1)) _
                          (λ out. result (Preserves mb) _ (with_registers tab table))))))))))

  reply_report_slave_id-Preserves :
      IfDefined (Preserves mb) (reply_report_slave_id backend req n mb sft address rsp)
  unfolding reply_report_slave_id
  reply_report_slave_id-Preserves =
      let same : mb ≡ mb = refl in
      rw (reply_report_slave_id, same)
        (any_rule (Preserves mb) (build_response_basis backend sft rsp) _ (λ built.
          any_rule (Preserves mb) (write built.0 (built.1 + 1) report_slave_id_byte) _ (λ a.
            any_rule (Preserves mb) (write a (built.1 + 2) 0xff) _ (λ b.
              any_rule (Preserves mb) (put_text b (built.1 + 3) slave_text) _ (λ c.
                any_rule (Preserves mb) (write c built.1 (built.1 + 3 + 8 - built.1 - 1)) _
                  (λ d. result (Preserves mb) _ (unchanged mb is)))))))

  read_bits-Preserves :
      (nb_table : ℕ) (tab : Buf)
      → IfDefined (Preserves mb) (reply_read_bits backend req n mb sft address rsp nb_table tab)
  unfolding reply_read_bits
  read_bits-Preserves nb_table tab =
      let same : address ≡ address = refl in
      rw (reply_read_bits, same)
        (any_rule (Preserves mb) (word_at req (header_length backend + 3)) _ (λ nb.
          if_rule (Preserves mb) (ltb nb_table (address + nb)) _ _
            (refuse-Preserves exception_illegal_data_address) (answer-Preserves _)))

  read_registers-Preserves :
      (nb_table : ℕ) (tab : Buf)
      → IfDefined
          (Preserves mb)
          (reply_read_registers backend req n mb sft address rsp nb_table tab)
  unfolding reply_read_registers
  read_registers-Preserves nb_table tab =
      let same : address ≡ address = refl in
      rw (reply_read_registers, same)
        (any_rule (Preserves mb) (word_at req (header_length backend + 3)) _ (λ nb.
          if_rule (Preserves mb) (ltb nb_table (address + nb)) _ _
            (refuse-Preserves exception_illegal_data_address) (answer-Preserves _)))

  reply_to-Preserves :
      (function : ℕ) → IfDefined (Preserves mb) (reply_to backend req n mb sft address rsp function)
  unfolding reply_to
  reply_to-Preserves function =
      let same : function ≡ function = refl in
      rw (reply_to, same)
        (if_rule (Preserves mb) (function == fc_read_coils) _ _
          (read_bits-Preserves mb.nb_bits mb.tab_bits)
          (if_rule (Preserves mb) (function == fc_read_discrete_inputs) _ _
            (read_bits-Preserves mb.nb_input_bits mb.tab_input_bits)
            (if_rule (Preserves mb) (function == fc_read_holding_registers) _ _
              (read_registers-Preserves mb.nb_registers mb.tab_registers)
              (if_rule (Preserves mb) (function == fc_read_input_registers) _ _
                (read_registers-Preserves mb.nb_input_registers mb.tab_input_registers)
                (if_rule (Preserves mb) (function == fc_write_single_coil) _ _
                  reply_write_single_coil-Preserves
                  (if_rule (Preserves mb) (function == fc_write_single_register) _ _
                    reply_write_single_register-Preserves
                    (if_rule (Preserves mb) (function == fc_write_multiple_coils) _ _
                      reply_write_multiple_coils-Preserves
                      (if_rule (Preserves mb) (function == fc_write_multiple_registers) _ _
                        reply_write_multiple_registers-Preserves
                        (if_rule (Preserves mb) (function == fc_report_slave_id) _ _
                          reply_report_slave_id-Preserves
                          (if_rule (Preserves mb) (function == fc_read_exception_status) _ _
                            (result (Preserves mb) not_implemented tt)
                            (if_rule (Preserves mb) (function == fc_write_and_read_registers) _ _
                              reply_write_and_read_registers-Preserves
                              (refuse-Preserves exception_illegal_function))))))))))))

-- Whatever the request is, `modbus_reply` keeps the tables well formed and as large as they are, and
-- changes neither the discrete inputs nor the input registers, as long as it does not access an
-- array out of bounds.
pub reply_message-Preserves :
    (backend : Backend) (req : Buf) (req_length : ℕ) (mb : Mapping) (rsp : Buf)
    → IsMapping mb
    → IfDefined (Preserves mb) (reply_message backend req req_length mb rsp)
unfolding reply_message
reply_message-Preserves backend req req_length mb rsp is =
    let same : mb ≡ mb = refl in
    rw (reply_message, same)
      (any_rule (Preserves mb) (read req (header_length backend - 1)) _ (λ slave.
        any_rule (Preserves mb) (read req (header_length backend)) _ (λ function.
          any_rule (Preserves mb) (word_at req (header_length backend + 1)) _ (λ address.
            any_rule (Preserves mb) (prepare_response_tid backend req req_length) _ (λ tid.
              reply_to-Preserves backend req tid.1 mb
                (record { slave = slave; function = function; t_id = tid.0 }) (address % 65536) rsp
                is function)))))
