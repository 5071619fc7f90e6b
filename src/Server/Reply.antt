-- ===== src/Server/Reply.antt =====
-- `modbus_reply` and `modbus_reply_exception` of modbus.c, up to the call of `send_msg`: the response
-- in the array `rsp`, whose first contents are arbitrary, and the tables after the request.
pub mod Start
pub mod Switch
pub mod Read
pub mod Answers
pub mod Write
pub mod WriteAndRead
pub mod Refuse
pub mod Stores
pub mod Invariant
pub mod Illegal
pub mod Overflow
pub mod Single
use swift_lib_modbus.Prelude.{
  ℕ, zero, suc, ◌+◌, ◌-◌, ◌*◌, ◌/◌, ◌%◌, ◌||◌, Option, none, some, List, [], ◌∷◌, ltb, leb, ◌==◌,
  if◌then◌else◌, ◌>>=◌,
}
use swift_lib_modbus.Memory.{Buf, read, write, write16, write_mod, memcpy}
use swift_lib_modbus.Context.{Backend}
use swift_lib_modbus.Backend.{header_length, build_response_basis, prepare_response_tid}
use swift_lib_modbus.Protocol.{
  Sft, fc_read_coils, fc_read_discrete_inputs, fc_read_holding_registers, fc_read_input_registers,
  fc_write_single_coil, fc_write_single_register, fc_read_exception_status, fc_write_multiple_coils,
  fc_write_multiple_registers, fc_report_slave_id, fc_write_and_read_registers,
  exception_illegal_function, exception_illegal_data_address, exception_illegal_data_value,
  exception_max, report_slave_id_byte,
}
use swift_lib_modbus.Length.{word_at, byte_count}
use swift_lib_modbus.Data.{set_bits_from_bytes}
use swift_lib_modbus.Server.Mapping.{Mapping}
use swift_lib_modbus.Server.IoStatus.{response_io_status}

-- `response rsp rsp_length mb_mapping` is what is handed to `send_msg`; `not_implemented` is the
-- return of -1 with ENOPROTOOPT.
pub data Reply : Type 0 where
  response : Buf → ℕ → Mapping → Reply
  not_implemented : Reply

-- `response_exception`: the array and its length. `sft->function` is changed in the caller's
-- structure, which is not read again.
unfoldable pub response_exception : Backend → Sft → ℕ → Buf → Option (Buf × ℕ)
response_exception backend sft exception_code rsp = do
  (rsp, rsp_length) ←
      build_response_basis backend (record sft { function = sft.function + 0x80 }) rsp
  rsp ← write rsp rsp_length exception_code
  some (rsp, rsp_length + 1)

-- The loops that copy registers `tab[i]`, ... to the response, high byte first.
unfoldable pub put_registers : Buf → ℕ → ℕ → Buf → ℕ → Option (Buf × ℕ)
put_registers tab zero i rsp rsp_length = some (rsp, rsp_length)
put_registers tab (suc left) i rsp rsp_length = do
  v ← read tab i
  rsp ← write rsp rsp_length (v / 256)
  rsp ← write rsp (rsp_length + 1) (v % 256)
  put_registers tab left (i + 1) rsp (rsp_length + 2)

-- The loops that copy words of the request from `req[j]` to the registers `tab[i]`, ....
unfoldable pub take_registers : Buf → ℕ → ℕ → Buf → ℕ → Option Buf
take_registers tab zero i req j = some tab
take_registers tab (suc left) i req j = do
  w ← word_at req j
  tab ← write16 tab i w
  take_registers tab left (i + 1) req (j + 2)

-- `memcpy` from a string.
unfoldable pub put_text : Buf → ℕ → List ℕ → Option Buf
put_text rsp pos [] = some rsp
put_text rsp pos (c ∷ cs) = do rsp ← write rsp pos c; put_text rsp (pos + 1) cs

-- "LMB" LIBMODBUS_VERSION_STRING.
abbrev pub slave_text : List ℕ
slave_text = b'L' ∷ b'M' ∷ b'B' ∷ b'3' ∷ b'.' ∷ b'0' ∷ b'.' ∷ b'1' ∷ []

module _ (backend : Backend) (req : Buf) (req_length : ℕ) (mb_mapping : Mapping) (sft : Sft)
    (address : ℕ) (rsp : Buf) where
  abbrev pub offset : ℕ
  offset = header_length backend

  -- A response that leaves the tables alone.
  abbrev pub answer : Option (Buf × ℕ) → Option Reply
  answer r = r >>= λ out. some (response out.0 out.1 mb_mapping)

  abbrev pub refuse : ℕ → Option Reply
  refuse code = answer (response_exception backend sft code rsp)

  -- The two cases that read bits, for a table of `nb_table` elements.
  unfoldable pub reply_read_bits : ℕ → Buf → Option Reply
  reply_read_bits nb_table tab = word_at req (offset + 3) >>= λ nb.
      if ltb nb_table (address + nb)
      then refuse exception_illegal_data_address
      else answer (do
        (rsp, rsp_length) ← build_response_basis backend sft rsp
        rsp ← write rsp rsp_length (byte_count nb)
        response_io_status address nb tab rsp (rsp_length + 1))

  -- The two cases that read registers.
  unfoldable pub reply_read_registers : ℕ → Buf → Option Reply
  reply_read_registers nb_table tab = word_at req (offset + 3) >>= λ nb.
      if ltb nb_table (address + nb)
      then refuse exception_illegal_data_address
      else answer (do
        (rsp, rsp_length) ← build_response_basis backend sft rsp
        rsp ← write rsp rsp_length (nb * 2)
        put_registers tab nb address rsp (rsp_length + 1))

  -- The echo of the request: `memcpy(rsp, req, req_length)`.
  abbrev pub echo : Mapping → Option Reply
  echo mb = memcpy rsp 0 req 0 req_length >>= λ rsp'. some (response rsp' req_length mb)

  unfoldable pub reply_write_single_coil : Option Reply
  reply_write_single_coil =
      if leb mb_mapping.nb_bits address then refuse exception_illegal_data_address else do
        data_value ← word_at req (offset + 3)
        if data_value == 0xff00 || data_value == 0
            then (write mb_mapping.tab_bits address (if data_value == 0 then 0 else 1) >>= λ tab.
                echo (record mb_mapping { tab_bits = tab }))
            else refuse exception_illegal_data_value

  unfoldable pub reply_write_single_register : Option Reply
  reply_write_single_register =
      if leb mb_mapping.nb_registers address then refuse exception_illegal_data_address else do
        data_value ← word_at req (offset + 3)
        tab ← write16 mb_mapping.tab_registers address data_value
        echo (record mb_mapping { tab_registers = tab })

  -- The header, and four bytes of the request: the address and the quantity.
  unfoldable pub confirm_write : Mapping → Option Reply
  confirm_write mb = do
    (rsp, rsp_length) ← build_response_basis backend sft rsp
    rsp ← memcpy rsp rsp_length req rsp_length 4
    some (response rsp (rsp_length + 4) mb)

  unfoldable pub reply_write_multiple_coils : Option Reply
  unfolding confirm_write
  reply_write_multiple_coils = word_at req (offset + 3) >>= λ nb.
      if ltb mb_mapping.nb_bits (address + nb) then refuse exception_illegal_data_address else do
        tab ← set_bits_from_bytes mb_mapping.tab_bits address nb req (offset + 6)
        confirm_write (record mb_mapping { tab_bits = tab })

  unfoldable pub reply_write_multiple_registers : Option Reply
  unfolding confirm_write
  reply_write_multiple_registers = word_at req (offset + 3) >>= λ nb.
      if ltb mb_mapping.nb_registers (address + nb)
      then refuse exception_illegal_data_address
      else do
        tab ← take_registers mb_mapping.tab_registers nb address req (offset + 6)
        confirm_write (record mb_mapping { tab_registers = tab })

  unfoldable pub reply_report_slave_id : Option Reply
  unfolding put_text
  reply_report_slave_id = do
    (rsp, byte_count_pos) ← build_response_basis backend sft rsp
    rsp ← write rsp (byte_count_pos + 1) report_slave_id_byte
    rsp ← write rsp (byte_count_pos + 2) 0xff
    rsp ← put_text rsp (byte_count_pos + 3) slave_text
    let rsp_length = byte_count_pos + 3 + 8
    rsp ← write rsp byte_count_pos (rsp_length - byte_count_pos - 1)
    some (response rsp rsp_length mb_mapping)

  unfoldable pub reply_write_and_read_registers : Option Reply
  reply_write_and_read_registers = word_at req (offset + 3) >>= λ nb.
      word_at req (offset + 5) >>= λ address_write. word_at req (offset + 7) >>= λ nb_write.
      if ltb mb_mapping.nb_registers (address + nb)
        || ltb mb_mapping.nb_registers (address_write + nb_write)
      then refuse exception_illegal_data_address
      else do
        (rsp, rsp_length) ← build_response_basis backend sft rsp
        rsp ← write rsp rsp_length (nb * 2)
        tab ← take_registers mb_mapping.tab_registers nb_write address_write req (offset + 10)
        (rsp, rsp_length) ← put_registers tab nb address rsp (rsp_length + 1)
        some (response rsp rsp_length (record mb_mapping { tab_registers = tab }))

  -- The `switch` on the function code.
  unfoldable pub reply_to : ℕ → Option Reply
  unfolding reply_read_bits reply_read_registers reply_write_single_coil reply_write_single_register
  reply_to function =
      if function == fc_read_coils
      then reply_read_bits mb_mapping.nb_bits mb_mapping.tab_bits
      else if function == fc_read_discrete_inputs
      then reply_read_bits mb_mapping.nb_input_bits mb_mapping.tab_input_bits
      else if function == fc_read_holding_registers
      then reply_read_registers mb_mapping.nb_registers mb_mapping.tab_registers
      else if function == fc_read_input_registers
      then reply_read_registers mb_mapping.nb_input_registers mb_mapping.tab_input_registers
      else if function == fc_write_single_coil
      then reply_write_single_coil
      else if function == fc_write_single_register
      then reply_write_single_register
      else if function == fc_write_multiple_coils
      then reply_write_multiple_coils
      else if function == fc_write_multiple_registers
      then reply_write_multiple_registers
      else if function == fc_report_slave_id
      then reply_report_slave_id
      else if function == fc_read_exception_status
      then some not_implemented
      else if function == fc_write_and_read_registers
      then reply_write_and_read_registers
      else refuse exception_illegal_function

-- `modbus_reply(ctx, req, req_length, mb_mapping)` before `send_msg`.
unfoldable pub reply_message : Backend → Buf → ℕ → Mapping → Buf → Option Reply
reply_message backend req req_length mb_mapping rsp = do
  slave ← read req (header_length backend - 1)
  function ← read req (header_length backend)
  address ← word_at req (header_length backend + 1)
  (t_id, req_length) ← prepare_response_tid backend req req_length
  let sft : Sft = record { slave = slave; function = function; t_id = t_id }
  reply_to backend req req_length mb_mapping sft (address % 65536) rsp function

-- `modbus_reply_exception` before `send_msg`; `none` inside is the return of -1 with EINVAL.
unfoldable pub reply_exception_message : Backend → Buf → ℕ → Buf → Option (Option (Buf × ℕ))
reply_exception_message backend req exception_code rsp = do
  slave ← read req (header_length backend - 1)
  function ← read req (header_length backend)
  (t_id, dummy_length) ← prepare_response_tid backend req 99
  (rsp, rsp_length) ←
      build_response_basis backend
        (record { slave = slave; function = function + 0x80; t_id = t_id }) rsp
  if ltb exception_code exception_max
      then (write rsp rsp_length exception_code >>= λ rsp'. some (some (rsp', rsp_length + 1)))
      else some none
