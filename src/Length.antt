-- ===== src/Length.antt =====
-- The lengths that modbus.c computes while it receives: how much of a message is still to come,
-- and how long the response to a request is.
use swift_lib_modbus.Prelude.{
  ℕ, ◌+◌, ◌*◌, ◌/◌, ◌%◌, ◌||◌, Option, some, leb, ◌==◌, bit_or, if◌then◌else◌, ◌>>=◌,
}
use swift_lib_modbus.Memory.{Buf, read}
use swift_lib_modbus.Context.{Backend}
use swift_lib_modbus.Backend.{header_length, checksum_length}
use swift_lib_modbus.Protocol.{
  MsgType, indication, confirmation, fc_read_coils, fc_read_discrete_inputs,
  fc_read_holding_registers, fc_read_input_registers, fc_write_single_coil,
  fc_write_single_register, fc_read_exception_status, fc_write_multiple_coils,
  fc_write_multiple_registers, fc_report_slave_id, fc_write_and_read_registers,
}

-- The number of bytes for `nb` bits, as the code writes it: `(nb / 8) + ((nb % 8) ? 1 : 0)`.
abbrev pub byte_count : ℕ → ℕ
byte_count nb = nb / 8 + (if nb % 8 == 0 then 0 else 1)

-- `compute_meta_length_after_function`: what follows the function code.
unfoldable pub compute_meta_length_after_function : ℕ → MsgType → ℕ
compute_meta_length_after_function function indication =
    if leb function fc_write_single_register
    then 4
    else if function == fc_write_multiple_coils || function == fc_write_multiple_registers
    then 5
    else if function == fc_write_and_read_registers
    then 9
    else 0
compute_meta_length_after_function function confirmation =
    if function == fc_write_single_coil
      || function == fc_write_single_register
      || function == fc_write_multiple_coils
      || function == fc_write_multiple_registers
    then 4
    else 1

-- `compute_data_length_after_meta`: what follows the address, the count and so on, the checksum
-- included.
unfoldable pub compute_data_length_after_meta : Backend → Buf → MsgType → Option ℕ
compute_data_length_after_meta backend msg indication = do
  function ← read msg (header_length backend)
  length ←
      if function == fc_write_multiple_coils || function == fc_write_multiple_registers
      then read msg (header_length backend + 5)
      else if function == fc_write_and_read_registers
      then read msg (header_length backend + 9)
      else some 0
  some (length + checksum_length backend)
compute_data_length_after_meta backend msg confirmation = do
  function ← read msg (header_length backend)
  length ←
      if leb function fc_read_input_registers
        || function == fc_report_slave_id
        || function == fc_write_and_read_registers
      then read msg (header_length backend + 1)
      else some 0
  some (length + checksum_length backend)

-- The length of a response: MSG_LENGTH_UNDEFINED, or a number.
pub data ResponseLength : Type 0 where
  undefined : ResponseLength
  computed : ℕ → ResponseLength

-- `(msg[i] << 8) + msg[i + 1]`.
unfoldable pub word_at : Buf → ℕ → Option ℕ
word_at msg i = do hi ← read msg i; lo ← read msg (i + 1); some (hi * 256 + lo)

-- `(msg[i] << 8) | msg[i + 1]`.
unfoldable pub word_or_at : Buf → ℕ → Option ℕ
word_or_at msg i = do hi ← read msg i; lo ← read msg (i + 1); some (bit_or (hi * 256) lo)

-- `compute_response_length_from_request`.
unfoldable pub compute_response_length_from_request : Backend → Buf → Option ResponseLength
compute_response_length_from_request backend req =
    let offset = header_length backend in
    let total = λ (length : ℕ). computed (offset + length + checksum_length backend) in
    read req offset >>= λ function.
    if function == fc_read_coils || function == fc_read_discrete_inputs
    then (word_or_at req (offset + 3) >>= λ nb. some (total (2 + byte_count nb)))
    else if function == fc_write_and_read_registers
        || function == fc_read_holding_registers
        || function == fc_read_input_registers
    then (word_or_at req (offset + 3) >>= λ nb. some (total (2 + 2 * nb)))
    else if function == fc_read_exception_status
    then some (total 3)
    else if function == fc_report_slave_id
    then some undefined
    else some (total 5)
