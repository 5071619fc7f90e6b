-- ===== src/Rtu.antt =====
-- The functions of modbus-rtu.c that build and check frames: slave, function, data, CRC.
pub mod Frame
pub mod Settings
pub mod Port
use swift_lib_modbus.Prelude.{
  ℕ, ◌+◌, ◌-◌, ◌*◌, ◌/◌, ◌%◌, Bool, true, false, not, ◌&&◌, Option, none, some, bit_or, ◌==◌,
  if◌then◌else◌, ◌>>=◌,
}
use swift_lib_modbus.Prelude.Int.{ℤ, pos, negsuc, to_u8}
use swift_lib_modbus.Protocol.{Sft, Result, ok, err, embbadslave, broadcast_address}
use swift_lib_modbus.Context.{Ctx}
use swift_lib_modbus.Memory.{Buf, read, write, write_mod}
use swift_lib_modbus.Crc.{crc16}

-- `ctx->slave != -1`, asserted before a request is built.
unfoldable pub has_slave : ℤ → Bool
has_slave (pos n) = true
has_slave (negsuc n) = not (n == 0)

-- `_modbus_rtu_build_request_basis`: the array after the writes, and the length of the header.
-- `addr` and `nb` are not negative. A failed assertion is `none`, as an access out of bounds is.
unfoldable pub build_request_basis : Ctx → ℕ → ℕ → ℕ → Buf → Option (Buf × ℕ)
unfolding has_slave
build_request_basis ctx function addr nb req = if not (has_slave ctx.slave) then none else do
  req ← write req 0 (to_u8 ctx.slave)
  req ← write req 1 function
  req ← write req 2 (addr / 256)
  req ← write req 3 (addr % 256)
  req ← write req 4 (nb / 256)
  req ← write req 5 (nb % 256)
  some (req, 6)

-- `_modbus_rtu_build_response_basis`.
unfoldable pub build_response_basis : Sft → Buf → Option (Buf × ℕ)
build_response_basis sft rsp = do
  rsp ← write rsp 0 sft.slave
  rsp ← write rsp 1 sft.function
  some (rsp, 2)

-- `_modbus_rtu_prepare_response_tid`: the transaction identifier and the new `*req_length`, which
-- is at least 2.
unfoldable pub prepare_response_tid : ℕ → ℕ × ℕ
prepare_response_tid req_length = (0, req_length - 2)

-- `_modbus_rtu_send_msg_pre`: appends the CRC, high byte first.
unfoldable pub send_msg_pre : Buf → ℕ → Option (Buf × ℕ)
send_msg_pre req req_length = do
  crc ← crc16 req req_length
  req ← write req req_length (crc / 256)
  req ← write req (req_length + 1) (crc % 256)
  some (req, req_length + 2)

-- `_modbus_rtu_pre_check_confirmation`: the slave that answers is the one that was asked, unless
-- the request was a broadcast.
unfoldable pub pre_check_confirmation : Buf → Buf → Option (Result ℕ)
pre_check_confirmation req rsp = do
  asked ← read req 0
  if asked == 0
      then some (ok 0)
      else do answering ← read rsp 0; some (if asked == answering then ok 0 else err embbadslave)

-- The slave identifier of a message is the context's.
unfoldable pub is_slave : ℤ → ℕ → Bool
is_slave (pos n) slave = slave == n
is_slave (negsuc n) slave = false

-- What `_modbus_rtu_check_integrity` finds.
pub data Integrity : Type 0 where
  ignored valid bad_crc : Integrity

-- `_modbus_rtu_check_integrity` as far as the message decides. Its length is at least 2.
unfoldable pub integrity : ℤ → Buf → ℕ → Option Integrity
unfolding is_slave
integrity own msg msg_length = do
  slave ← read msg 0
  if not (is_slave own slave) && not (slave == broadcast_address) then some ignored else do
    crc_calculated ← crc16 msg (msg_length - 2)
    hi ← read msg (msg_length - 2)
    lo ← read msg (msg_length - 1)
    let crc_received = bit_or (hi * 256) lo
    some (if crc_calculated == crc_received then valid else bad_crc)
