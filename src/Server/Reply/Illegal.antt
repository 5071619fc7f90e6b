-- ===== src/Server/Reply/Illegal.antt =====
-- The other two exceptions of `modbus_reply`, and the request that it does not answer.
use swift_lib_modbus.Prelude.{
  ℕ, ◌+◌, ◌-◌, ◌<◌, ◌≡◌, ◌≢◌, arith, leb, ◌==◌, ◌∙◌, Bool, false, ◌||◌, ne→==, ◌&&◌, not,
}
use swift_lib_modbus.Memory.{Buf}
use swift_lib_modbus.Context.{Backend}
use swift_lib_modbus.Backend.{header_length, checksum_length}
use swift_lib_modbus.Server.Loops.{word_at_inside}
use swift_lib_modbus.Server.Mapping.{Mapping}
use swift_lib_modbus.Server.Reply.{reply_message, reply_to, reply_write_single_coil}
use swift_lib_modbus.Server.Reply.Start.{
  request_function, request_address, request_quantity, request_sft,
}
use swift_lib_modbus.Server.Reply.Switch.{to_write_single_coil}
use swift_lib_modbus.Server.Reply.Answers.{IsRequest}
use swift_lib_modbus.Server.Reply.Refuse.{IsRefused, started}

-- The function codes with a case of their own.
abbrev pub is_known : ℕ → Bool
is_known fc = leb fc 0x07 && not (fc == 0) || fc == 0x0f || fc == 0x10 || fc == 0x11 || fc == 0x17

module _ (backend : Backend) (req : Buf) (n : ℕ) (mb : Mapping) (rsp : Buf)
    (is : IsRequest backend req) (room : rsp.cap ≡ 260) where
  -- A request with any function code that has no case is answered with the exception "illegal
  -- function", and leaves the tables as they were.
  pub reply-function-IsRefused :
      is_known (request_function backend req) ≡ false
      → IsRefused backend (request_sft backend req) mb 0x01 rsp (reply_message backend req n mb rsp)
  reply-function-IsRefused unknown =
      started backend req n mb rsp is room 1 (unfold reply_to in ground arith)

  -- A request to write a coil of the table with a value other than 0xFF00 and 0 is answered with the
  -- exception "illegal data value", and leaves the tables as they were.
  pub reply-value-IsRefused :
      request_function backend req ≡ 0x05
      → request_address backend req < mb.nb_bits
      → request_quantity backend req ≢ 0xff00
      → request_quantity backend req ≢ 0
      → IsRefused backend (request_sft backend req) mb 0x03 rsp (reply_message backend req n mb rsp)
  reply-value-IsRefused e inside not_on not_off =
      let present = is.present in
      let allowed : leb mb.nb_bits (request_address backend req) ≡ false = ground arith in
      started backend req n mb rsp is room 3 (
        to_write_single_coil backend req (n - checksum_length backend) mb _ _ rsp _ e
        ∙ (unfold reply_write_single_coil in
            rw (
              allowed,
              word_at_inside req (header_length backend + 3) (omega arith),
              ne→== _ _ not_on,
              ne→== _ _ not_off,
            )))
