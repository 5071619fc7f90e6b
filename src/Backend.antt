-- ===== src/Backend.antt =====
-- The tables of functions of the three backends: a call through `ctx->backend`.
pub mod Framing
use swift_lib_modbus.Prelude.{ℕ, ◌<◌, ◌≤◌, arith, Option, some, ◌>>=◌}
use swift_lib_modbus.Protocol.{Sft, Result}
use swift_lib_modbus.Context.{Ctx, Backend, rtu, tcp, tcp_pi}
use swift_lib_modbus.Memory.{Buf}
use swift_lib_modbus.Rtu
use swift_lib_modbus.Tcp

abbrev pub header_length : Backend → ℕ
header_length rtu = 1
header_length tcp = 7
header_length tcp_pi = 7

abbrev pub checksum_length : Backend → ℕ
checksum_length rtu = 2
checksum_length tcp = 0
checksum_length tcp_pi = 0

abbrev pub max_adu_length : Backend → ℕ
max_adu_length rtu = 256
max_adu_length tcp = 260
max_adu_length tcp_pi = 260

abbrev pub basis : Backend → Ctx → ℕ → ℕ → ℕ → Buf → Option (Ctx × Buf × ℕ)
basis rtu ctx function addr nb req = do
  (req, n) ← Rtu.build_request_basis ctx function addr nb req
  some (ctx, req, n)
basis tcp ctx function addr nb req = Tcp.build_request_basis ctx function addr nb req
basis tcp_pi ctx function addr nb req = Tcp.build_request_basis ctx function addr nb req

-- `ctx->backend->build_request_basis`.
unfoldable pub build_request_basis : Ctx → ℕ → ℕ → ℕ → Buf → Option (Ctx × Buf × ℕ)
build_request_basis ctx = basis ctx.backend ctx

unfoldable pub build_response_basis : Backend → Sft → Buf → Option (Buf × ℕ)
build_response_basis rtu = Rtu.build_response_basis
build_response_basis tcp = Tcp.build_response_basis
build_response_basis tcp_pi = Tcp.build_response_basis

unfoldable pub prepare_response_tid : Backend → Buf → ℕ → Option (ℕ × ℕ)
prepare_response_tid rtu req req_length = some (Rtu.prepare_response_tid req_length)
prepare_response_tid tcp req req_length = Tcp.prepare_response_tid req req_length
prepare_response_tid tcp_pi req req_length = Tcp.prepare_response_tid req req_length

unfoldable pub send_msg_pre : Backend → Buf → ℕ → Option (Buf × ℕ)
send_msg_pre rtu = Rtu.send_msg_pre
send_msg_pre tcp = Tcp.send_msg_pre
send_msg_pre tcp_pi = Tcp.send_msg_pre

unfoldable pub pre_check_confirmation : Backend → Buf → Buf → Option (Result ℕ)
pre_check_confirmation rtu = Rtu.pre_check_confirmation
pre_check_confirmation tcp = Tcp.pre_check_confirmation
pre_check_confirmation tcp_pi = Tcp.pre_check_confirmation

pub header_length-le : (backend : Backend) → header_length backend ≤ 7
header_length-le rtu = omega arith
header_length-le tcp = omega arith
header_length-le tcp_pi = omega arith

pub header_length-pos : (backend : Backend) → 0 < header_length backend
header_length-pos rtu = omega arith
header_length-pos tcp = omega arith
header_length-pos tcp_pi = omega arith
