-- ===== src/Confirm.antt =====
-- `check_confirmation` of modbus.c: whether a response belongs to a request.
pub mod Accepted
pub mod Sound
use swift_lib_modbus.Prelude.{
  ℕ, ◌+◌, ◌-◌, ◌*◌, ◌/◌, Bool, true, not, ◌&&◌, ◌||◌, Option, some, ltb, leb, ◌==◌, if◌then◌else◌,
  ◌>>=◌,
}
use swift_lib_modbus.Protocol.{
  Errno, enobase, Result, ok, err, embbaddata, embbadexc, exception_max, fc_read_coils,
  fc_read_discrete_inputs, fc_read_holding_registers, fc_read_input_registers,
  fc_write_multiple_coils, fc_write_multiple_registers, fc_report_slave_id,
  fc_write_and_read_registers,
}
use swift_lib_modbus.Context.{Ctx, recovers_protocol}
use swift_lib_modbus.Backend.{header_length, checksum_length, pre_check_confirmation}
use swift_lib_modbus.Length.{
  byte_count, word_at, word_or_at, ResponseLength, undefined, computed,
  compute_response_length_from_request,
}
use swift_lib_modbus.Memory.{Buf, read}
use swift_lib_modbus.Link.{Link, sleep_and_flush}

-- `rsp_length == rsp_length_computed || rsp_length_computed == MSG_LENGTH_UNDEFINED`.
abbrev pub length_agrees : ℕ → ResponseLength → Bool
length_agrees rsp_length undefined = true
length_agrees rsp_length (computed n) = rsp_length == n

-- `req_nb_value` and `rsp_nb_value`.
unfoldable pub nb_values : ℕ → ℕ → Buf → Buf → Option (ℕ × ℕ)
nb_values offset function req rsp =
    if function == fc_read_coils || function == fc_read_discrete_inputs
    then (do nb ← word_at req (offset + 3); n ← read rsp (offset + 1); some (byte_count nb, n))
    else if function == fc_write_and_read_registers
        || function == fc_read_holding_registers
        || function == fc_read_input_registers
    then (do nb ← word_at req (offset + 3); n ← read rsp (offset + 1); some (nb, n / 2))
    else if function == fc_write_multiple_coils || function == fc_write_multiple_registers
    then (do nb ← word_at req (offset + 3); n ← word_or_at rsp (offset + 3); some (nb, n))
    else if function == fc_report_slave_id
    then (do n ← read rsp (offset + 1); some (n, n))
    else some (1, 1)

module _ {ℓ} {W : Type ℓ} (link : Link W) (ctx : Ctx) where
  -- -1 after `_sleep_and_flush` in the recovery mode of the protocol: `errno` is set behind it.
  unfoldable pub protocol_error : Errno → W → Result ℕ × W
  unfolding recovers_protocol sleep_and_flush
  protocol_error e w = (err e, if recovers_protocol ctx then (sleep_and_flush link ctx w).1 else w)

  -- -1 with `errno` set before `_sleep_and_flush`, which may set it again.
  unfoldable pub pre_check_error : Errno → W → Result ℕ × W
  unfolding recovers_protocol sleep_and_flush
  pre_check_error e w =
      let flushed = sleep_and_flush link ctx w in
      let e' : Errno = elim flushed.0 [ ok n ↦ e | err e' ↦ e' ] in
      if recovers_protocol ctx then (err e', flushed.1) else (err e, w)

  module _ (req rsp : Buf) (rsp_length : ℕ) (w : W) where
    abbrev offset : ℕ
    offset = header_length ctx.backend

    -- The answer has the code of an exception.
    unfoldable pub check_exception : ℕ → Option (Result ℕ × W)
    check_exception function = do
      asked ← read req offset
      if rsp_length == offset + 2 + checksum_length ctx.backend && asked == function - 0x80
          then (do
            exception_code ← read rsp (offset + 1)
            some (
              (if ltb exception_code exception_max
                  then err (enobase exception_code)
                  else err embbadexc),
              w,
            ))
          else some (err embbadexc, w)

    -- The answer is of the length that was computed.
    unfoldable pub check_values : ℕ → Option (Result ℕ × W)
    unfolding nb_values protocol_error
    check_values function = do
      asked ← read req offset
      if not (function == asked) then some (protocol_error embbaddata w) else do
        values ← nb_values offset function req rsp
        some (if values.0 == values.1 then (ok values.1, w) else protocol_error embbaddata w)

    -- After `pre_check_confirmation`.
    unfoldable pub check_function : ℕ → Option (Result ℕ × W)
    unfolding check_exception check_values
    check_function function = do
      rsp_length_computed ← compute_response_length_from_request ctx.backend req
      if leb 0x80 function
          then check_exception function
          else if length_agrees rsp_length rsp_length_computed && ltb function 0x80
          then check_values function
          else some (protocol_error embbaddata w)

    abbrev after_pre_check : ℕ → Result ℕ → Option (Result ℕ × W)
    after_pre_check function (ok n) = check_function function
    after_pre_check function (err e) = some (pre_check_error e w)

    -- `check_confirmation(ctx, req, rsp, rsp_length)`.
    unfoldable pub check_confirmation : Option (Result ℕ × W)
    unfolding check_function pre_check_error
    check_confirmation = do
      function ← read rsp offset
      pre_check ← pre_check_confirmation ctx.backend req rsp
      after_pre_check function pre_check
