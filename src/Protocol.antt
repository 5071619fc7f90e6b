-- ===== src/Protocol.antt =====
-- The constants of modbus.h, modbus-private.h, modbus-rtu-private.h and modbus-tcp-private.h:
-- function codes, exception codes, error numbers, limits and lengths.
use swift_lib_modbus.Prelude.{ℕ}

-- Function codes.
abbrev pub fc_read_coils : ℕ
fc_read_coils = 0x01

abbrev pub fc_read_discrete_inputs : ℕ
fc_read_discrete_inputs = 0x02

abbrev pub fc_read_holding_registers : ℕ
fc_read_holding_registers = 0x03

abbrev pub fc_read_input_registers : ℕ
fc_read_input_registers = 0x04

abbrev pub fc_write_single_coil : ℕ
fc_write_single_coil = 0x05

abbrev pub fc_write_single_register : ℕ
fc_write_single_register = 0x06

abbrev pub fc_read_exception_status : ℕ
fc_read_exception_status = 0x07

abbrev pub fc_write_multiple_coils : ℕ
fc_write_multiple_coils = 0x0f

abbrev pub fc_write_multiple_registers : ℕ
fc_write_multiple_registers = 0x10

abbrev pub fc_report_slave_id : ℕ
fc_report_slave_id = 0x11

abbrev pub fc_write_and_read_registers : ℕ
fc_write_and_read_registers = 0x17

-- Protocol exceptions.
abbrev pub exception_illegal_function : ℕ
exception_illegal_function = 0x01

abbrev pub exception_illegal_data_address : ℕ
exception_illegal_data_address = 0x02

abbrev pub exception_illegal_data_value : ℕ
exception_illegal_data_value = 0x03

abbrev pub exception_max : ℕ
exception_max = 12

-- `errno`: the library's own numbers, MODBUS_ENOBASE + n, and the system's that the code names.
pub data Errno : Type 0 where
  enobase : ℕ → Errno
  einval etimedout econnreset econnrefused ebadf epipe eintr einprogress enoprotoopt : Errno
  enotsup : Errno
  system : ℕ → Errno

abbrev pub embbadcrc : Errno
embbadcrc = enobase 12

abbrev pub embbaddata : Errno
embbaddata = enobase 13

abbrev pub embbadexc : Errno
embbadexc = enobase 14

abbrev pub embmdata : Errno
embmdata = enobase 16

abbrev pub embbadslave : Errno
embbadslave = enobase 17

-- Limits and lengths.
abbrev pub max_read_bits : ℕ
max_read_bits = 2000

abbrev pub max_write_bits : ℕ
max_write_bits = 1968

abbrev pub max_read_registers : ℕ
max_read_registers = 125

abbrev pub max_write_registers : ℕ
max_write_registers = 123

abbrev pub max_rw_write_registers : ℕ
max_rw_write_registers = 121

abbrev pub max_message_length : ℕ
max_message_length = 260

abbrev pub min_req_length : ℕ
min_req_length = 12

abbrev pub broadcast_address : ℕ
broadcast_address = 0

abbrev pub report_slave_id_byte : ℕ
report_slave_id_byte = 180

-- The direction of a message.
pub data MsgType : Type 0 where
  indication confirmation : MsgType

-- `sft_t`: what a response's header is built from.
pub record Sft : Type 0 where
  pub slave : ℕ
  pub function : ℕ
  pub t_id : ℕ

-- A call that returns a value, or -1 with `errno` set.
pub data Result {ℓ} (A : Type ℓ) : Type ℓ where
  ok : A → Result A
  err : Errno → Result A
