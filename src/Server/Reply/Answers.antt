-- ===== src/Server/Reply/Answers.antt =====
-- `modbus_reply` of the four requests that read.
use swift_lib_modbus.Prelude.{ℕ, ◌+◌, ◌≤◌, ◌≡◌, ◌⊎◌, inl, inr, arith, ◌==◌, if◌then◌else◌, ◌-◌, ap}
use swift_lib_modbus.Memory.{Buf, IsBytes}
use swift_lib_modbus.Context.{Backend}
use swift_lib_modbus.Backend.{header_length, checksum_length}
use swift_lib_modbus.Server.Mapping.{Mapping, IsMapping}
use swift_lib_modbus.Server.Reply.{reply_message}
use swift_lib_modbus.Server.Reply.Start.{
  request_function, request_address, request_quantity, request_sft, reply_message-reply_to,
}
use swift_lib_modbus.Server.Reply.Switch.{
  to_read_coils, to_read_discrete_inputs, to_read_holding_registers, to_read_input_registers,
}
use swift_lib_modbus.Server.Reply.Read.{
  IsRegisterAnswer, IsBitAnswer, reply_read_registers-IsRegisterAnswer, reply_read_bits-IsBitAnswer,
}

-- A complete request in an array of bytes.
pub record IsRequest (backend : Backend) (req : Buf) : Type 0 where
  pub bytes : IsBytes req
  pub present : header_length backend + 5 ≤ req.cap
  pub header : 8 ≤ req.cap

-- The table that a request to read registers, or bits, is about.
abbrev pub register_table : Mapping → ℕ → Buf
register_table mb function = if function == 0x03 then mb.tab_registers else mb.tab_input_registers

abbrev pub bit_table : Mapping → ℕ → Buf
bit_table mb function = if function == 0x01 then mb.tab_bits else mb.tab_input_bits

module _ (backend : Backend) (req : Buf) (n : ℕ) (mb : Mapping) (rsp : Buf) where
  -- For every request to read at most 125 holding or input registers that lie in the table, the
  -- response, built in an array of 260 bytes of any contents, names the slave and the function of the
  -- request, says twice the quantity as its number of bytes, and holds exactly the registers asked
  -- for, high byte first; its length is the header, the function, the count and the data. The tables
  -- are unchanged, and no access is out of bounds.
  pub reply-registers :
      IsRequest backend req
      → IsMapping mb
      → (request_function backend req ≡ 0x03) ⊎ (request_function backend req ≡ 0x04)
      → request_address backend req + request_quantity backend req
        ≤ (register_table mb (request_function backend req)).cap
      → request_quantity backend req ≤ 125
      → rsp.cap ≡ 260
      → IsRegisterAnswer backend
          (request_sft backend req)
          mb
          (register_table mb (request_function backend req))
          (request_address backend req)
          (request_quantity backend req)
          rsp
          (reply_message backend req n mb rsp)
  reply-registers is mapping (inl e) fits small room =
      let fc : ℕ = request_function backend req in
      let table : mb.tab_registers ≡ register_table mb fc = rw e in
      let cap_is = mapping.registers.cap_is in
      let inside : request_address backend req + request_quantity backend req ≤ mb.nb_registers =
        omega (arith, ap (λ b. b.cap) table) in
      rw
        (
          reply_message-reply_to backend req n mb rsp is.bytes is.present is.header,
          to_read_holding_registers backend req (n - checksum_length backend) mb _ _ rsp fc e,
          ← table,
        )
        (reply_read_registers-IsRegisterAnswer backend req _ mb _ _ rsp mb.nb_registers
          mb.tab_registers is.present mapping.registers.small cap_is inside small room)
  reply-registers is mapping (inr e) fits small room =
      let fc : ℕ = request_function backend req in
      let table : mb.tab_input_registers ≡ register_table mb fc = rw e in
      let cap_is = mapping.input_registers.cap_is in
      let inside : request_address backend req + request_quantity backend req
          ≤ mb.nb_input_registers =
        omega (arith, ap (λ b. b.cap) table) in
      rw
        (
          reply_message-reply_to backend req n mb rsp is.bytes is.present is.header,
          to_read_input_registers backend req (n - checksum_length backend) mb _ _ rsp fc e,
          ← table,
        )
        (reply_read_registers-IsRegisterAnswer backend req _ mb _ _ rsp mb.nb_input_registers
          mb.tab_input_registers is.present mapping.input_registers.small cap_is inside small room)

  -- For every request to read at most 2000 coils or discrete inputs that lie in the table, the
  -- response names the slave and the function of the request, says the number of bytes that the bits
  -- take, and holds exactly the bits asked for, the lowest bit of a byte first and the last byte
  -- filled up with zeros; its length is the header, the function, the count and the bytes. The tables
  -- are unchanged, and no access is out of bounds.
  pub reply-bits :
      IsRequest backend req
      → IsMapping mb
      → (request_function backend req ≡ 0x01) ⊎ (request_function backend req ≡ 0x02)
      → request_address backend req + request_quantity backend req
        ≤ (bit_table mb (request_function backend req)).cap
      → request_quantity backend req ≤ 2000
      → rsp.cap ≡ 260
      → IsBitAnswer backend
          (request_sft backend req)
          mb
          (bit_table mb (request_function backend req))
          (request_address backend req)
          (request_quantity backend req)
          rsp
          (reply_message backend req n mb rsp)
  reply-bits is mapping (inl e) fits small room =
      let fc : ℕ = request_function backend req in
      let table : mb.tab_bits ≡ bit_table mb fc = rw e in
      let cap_is = mapping.bits.cap_is in
      let inside : request_address backend req + request_quantity backend req ≤ mb.nb_bits =
        omega (arith, ap (λ b. b.cap) table) in
      rw
        (
          reply_message-reply_to backend req n mb rsp is.bytes is.present is.header,
          to_read_coils backend req (n - checksum_length backend) mb _ _ rsp fc e,
          ← table,
        )
        (reply_read_bits-IsBitAnswer backend req _ mb _ _ rsp mb.nb_bits mb.tab_bits is.present
          mapping.bits.small cap_is inside small room)
  reply-bits is mapping (inr e) fits small room =
      let fc : ℕ = request_function backend req in
      let table : mb.tab_input_bits ≡ bit_table mb fc = rw e in
      let cap_is = mapping.input_bits.cap_is in
      let inside : request_address backend req + request_quantity backend req ≤ mb.nb_input_bits =
        omega (arith, ap (λ b. b.cap) table) in
      rw
        (
          reply_message-reply_to backend req n mb rsp is.bytes is.present is.header,
          to_read_discrete_inputs backend req (n - checksum_length backend) mb _ _ rsp fc e,
          ← table,
        )
        (reply_read_bits-IsBitAnswer backend req _ mb _ _ rsp mb.nb_input_bits mb.tab_input_bits
          is.present mapping.input_bits.small cap_is inside small room)
