-- ===== src/Server/Reply/Overflow.antt =====
-- `modbus_reply` on requests for more registers than its response has room for.
use native.Mathlib.Decide.{dec_le}
use swift_lib_modbus.Prelude.{
  ℕ, zero, suc, ◌+◌, ◌-◌, ◌*◌, ◌%◌, ◌<◌, ◌≤◌, ◌≡◌, ◌⊎◌, inl, inr, arith, none, le→ltb, ap, ◌∙◌,
}
use swift_lib_modbus.Memory.{Buf, read, write_mod, update}
use swift_lib_modbus.Memory.Laws.{write_inside}
use swift_lib_modbus.Context.{Backend}
use swift_lib_modbus.Backend.{header_length, header_length-le, checksum_length}
use swift_lib_modbus.Protocol.{Sft}
use swift_lib_modbus.Server.Loops.{word_at_inside, put_registers-suc}
use swift_lib_modbus.Server.Header.{build_response_basis-IsHeader}
use swift_lib_modbus.Server.Mapping.{Mapping, IsMapping}
use swift_lib_modbus.Server.Reply.{reply_message, reply_read_registers, put_registers}
use swift_lib_modbus.Server.Reply.Start.{
  request_function, request_address, request_quantity, reply_message-reply_to,
}
use swift_lib_modbus.Server.Reply.Switch.{to_read_holding_registers, to_read_input_registers}
use swift_lib_modbus.Server.Reply.Answers.{IsRequest, register_table}

put_registers_full :
    (tab : Buf) (left i : ℕ) (rsp : Buf) (at : ℕ)
    → rsp.cap < at + 2
    → i < tab.cap
    → put_registers tab (suc left) i rsp at ≡ none
unfolding put_registers read write_mod
put_registers_full tab left i rsp at h h' = ground arith

put_registers_overflow :
    (left : ℕ) (tab : Buf) (i : ℕ) (rsp : Buf) (at : ℕ)
    → at ≤ rsp.cap
    → rsp.cap < at + 2 * left
    → i + left ≤ tab.cap
    → put_registers tab left i rsp at ≡ none
put_registers_overflow zero tab i rsp at h over h' = absurd (omega arith)
put_registers_overflow (suc left) tab i rsp at h over h' = elim (dec_le (at + 2) rsp.cap) [
  | yes fits ↦
      put_registers-suc tab left i rsp at (omega arith) fits
      ∙ put_registers_overflow left tab (i + 1) _ (at + 2) fits (omega arith) (omega arith)
  | no full ↦ put_registers_full tab left i rsp at (omega arith) (omega arith)
]

module _ (backend : Backend) (req : Buf) (n : ℕ) (mb : Mapping) (sft : Sft) (address : ℕ)
    (rsp : Buf) where
  reply_read_registers_overflow :
      (nb_table : ℕ) (tab : Buf)
      → header_length backend + 5 ≤ req.cap
      → tab.cap ≡ nb_table
      → address + request_quantity backend req ≤ nb_table
      → 260 < header_length backend + 2 + 2 * request_quantity backend req
      → rsp.cap ≡ 260
      → reply_read_registers backend req n mb sft address rsp nb_table tab ≡ none
  unfolding reply_read_registers
  reply_read_registers_overflow nb_table tab present cap_is fits over room =
      let h : ℕ = header_length backend in
      let nb : ℕ = request_quantity backend req in
      let h_small = header_length-le backend in
      let hd = build_response_basis-IsHeader backend sft rsp (omega arith) in
      let hd_room : hd.out.cap ≡ 260 = hd.same_cap ∙ room in
      let full =
        put_registers_overflow nb tab address
          (record hd.out { cell = update hd.out.cell (h + 1) (nb * 2 % 256) }) (h + 1 + 1)
          (omega arith) (omega arith) (omega arith) in
      rw (word_at_inside req (h + 3) (omega arith), le→ltb nb_table (address + nb) fits, hd.returns)
        (rw (write_inside 256 hd.out (h + 1) (nb * 2) (omega arith)) (rw full))

module _ (backend : Backend) (req : Buf) (n : ℕ) (mb : Mapping) (rsp : Buf) where
  -- Of every request to read so many holding or input registers that the header, the count and the
  -- data take more than 260 bytes, `modbus_reply` makes a write behind its array of 260 bytes, if
  -- the table is large enough to hold the registers: no test of the quantity stops it.
  pub reply-registers_overflow :
      IsRequest backend req
      → IsMapping mb
      → (request_function backend req ≡ 0x03) ⊎ (request_function backend req ≡ 0x04)
      → request_address backend req + request_quantity backend req
        ≤ (register_table mb (request_function backend req)).cap
      → 260 < header_length backend + 2 + 2 * request_quantity backend req
      → rsp.cap ≡ 260
      → reply_message backend req n mb rsp ≡ none
  reply-registers_overflow is mapping (inl e) fits over room =
      let fc : ℕ = request_function backend req in
      let table : mb.tab_registers ≡ register_table mb fc = rw e in
      let cap_is = mapping.registers.cap_is in
      reply_message-reply_to backend req n mb rsp is.bytes is.present is.header
      ∙ to_read_holding_registers backend req (n - checksum_length backend) mb _ _ rsp fc e
      ∙ reply_read_registers_overflow backend req _ mb _ _ rsp mb.nb_registers mb.tab_registers
          is.present cap_is (omega (arith, ap (λ b. b.cap) table)) over room
  reply-registers_overflow is mapping (inr e) fits over room =
      let fc : ℕ = request_function backend req in
      let table : mb.tab_input_registers ≡ register_table mb fc = rw e in
      let cap_is = mapping.input_registers.cap_is in
      reply_message-reply_to backend req n mb rsp is.bytes is.present is.header
      ∙ to_read_input_registers backend req (n - checksum_length backend) mb _ _ rsp fc e
      ∙ reply_read_registers_overflow backend req _ mb _ _ rsp mb.nb_input_registers
          mb.tab_input_registers is.present cap_is (omega (arith, ap (λ b. b.cap) table)) over room
