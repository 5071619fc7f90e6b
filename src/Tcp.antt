-- ===== src/Tcp.antt =====
-- The functions of modbus-tcp.c that build and check frames: the MBAP header, function, data.
pub mod Connect
pub mod Listen
pub mod Stream
use swift_lib_modbus.Prelude.{
  ℕ, ◌+◌, ◌-◌, ◌*◌, ◌/◌, ◌%◌, ◌^◌, not, Option, some, ltb, ◌==◌, if◌then◌else◌, ◌>>=◌,
}
use swift_lib_modbus.Prelude.Int.{to_u8}
use swift_lib_modbus.Protocol.{Sft, Result, ok, err, embbaddata}
use swift_lib_modbus.Context.{Ctx}
use swift_lib_modbus.Memory.{Buf, read, write}

-- The next transaction identifier, a `uint16_t`.
unfoldable pub next_t_id : ℕ → ℕ
next_t_id t_id = if ltb t_id 65535 then t_id + 1 else 0

-- `_modbus_tcp_build_request_basis`: the context with its new transaction identifier, the array
-- and the length of the header. `addr` and `nb` are not negative.
unfoldable pub build_request_basis : Ctx → ℕ → ℕ → ℕ → Buf → Option (Ctx × Buf × ℕ)
unfolding next_t_id
build_request_basis ctx function addr nb req =
    let t_id = next_t_id ctx.t_id in
    do
      req ← write req 0 (t_id / 256)
      req ← write req 1 (t_id % 256)
      req ← write req 2 0
      req ← write req 3 0
      req ← write req 6 (to_u8 ctx.slave)
      req ← write req 7 function
      req ← write req 8 (addr / 256)
      req ← write req 9 (addr % 256)
      req ← write req 10 (nb / 256)
      req ← write req 11 (nb % 256)
      some (record ctx { t_id = t_id }, req, 12)

-- `_modbus_tcp_build_response_basis`.
unfoldable pub build_response_basis : Sft → Buf → Option (Buf × ℕ)
build_response_basis sft rsp = do
  rsp ← write rsp 0 (sft.t_id / 256)
  rsp ← write rsp 1 (sft.t_id % 256)
  rsp ← write rsp 2 0
  rsp ← write rsp 3 0
  rsp ← write rsp 6 sft.slave
  rsp ← write rsp 7 sft.function
  some (rsp, 8)

-- `_modbus_tcp_prepare_response_tid`; `*req_length` is left alone.
unfoldable pub prepare_response_tid : Buf → ℕ → Option (ℕ × ℕ)
prepare_response_tid req req_length = do
  hi ← read req 0
  lo ← read req 1
  some (hi * 256 + lo, req_length)

-- `_modbus_tcp_send_msg_pre`: the length that follows the length field, as an `int` in two's
-- complement.
unfoldable pub send_msg_pre : Buf → ℕ → Option (Buf × ℕ)
send_msg_pre req req_length =
    let mbap_length = (req_length + 2 ^ 32 - 6) % 2 ^ 32 in
    do
      req ← write req 4 (mbap_length / 256)
      req ← write req 5 (mbap_length % 256)
      some (req, req_length)

-- `_modbus_tcp_pre_check_confirmation`: the transaction identifiers agree. The second bytes are
-- read only if the first agree.
unfoldable pub pre_check_confirmation : Buf → Buf → Option (Result ℕ)
pre_check_confirmation req rsp = do
  q0 ← read req 0
  r0 ← read rsp 0
  if not (q0 == r0) then some (err embbaddata) else do
    q1 ← read req 1
    r1 ← read rsp 1
    some (if not (q1 == r1) then err embbaddata else ok 0)
