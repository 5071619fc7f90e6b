-- ===== src/Exchange.antt =====
-- A request, the server's answer, its way over the line, and the client that receives and checks it:
-- `modbus_reply`, `send_msg_pre`, `_modbus_receive_msg` and `check_confirmation` together.
pub mod Framed
pub mod Answered
pub mod Registers
pub mod Bits
pub mod Acknowledged
pub mod Reported
use swift_lib_modbus.Prelude.{ℕ, ◌+◌, ◌-◌, ◌%◌, ◌<◌, ◌≤◌, ◌≡◌, arith, Option, none, ◌>>=◌, inl, inr}
use swift_lib_modbus.Context.{Ctx, Backend, rtu, tcp, tcp_pi}
use swift_lib_modbus.Backend.{header_length, checksum_length, max_adu_length, send_msg_pre}
use swift_lib_modbus.Backend.Framing.{IsKept}
use swift_lib_modbus.Memory.{Buf, IsBytes}
use swift_lib_modbus.Receive.Message.{IsTaker}
use swift_lib_modbus.Confirm.Accepted.{Matches}
use swift_lib_modbus.Server.Header.{HasTid}
use swift_lib_modbus.Server.Loops.{word_cells}
use swift_lib_modbus.Server.Mapping.{Mapping}
use swift_lib_modbus.Server.Reply.{Reply, response, not_implemented, reply_message}
use swift_lib_modbus.Server.Reply.Start.{request_sft}

pub same_word :
    (a b : Buf) (k : ℕ)
    → a.cell k ≡ b.cell k
    → a.cell (k + 1) ≡ b.cell (k + 1)
    → word_cells a k ≡ word_cells b k
same_word a b k e e' = omega (arith, e, e')

pub limits-le :
    (backend : Backend)
    → (header_length backend + 252 + checksum_length backend ≤ max_adu_length backend)
      × (max_adu_length backend ≤ 260)
      × (header_length backend + 5 ≤ 12)
limits-le rtu = omega arith
limits-le tcp = omega arith
limits-le tcp_pi = omega arith

-- The answer repeats what the client compares.
pub answer-Matches :
    (backend : Backend) (req out msg : Buf)
    → IsBytes req
    → out.cell (header_length backend - 1) ≡ req.cell (header_length backend - 1) % 256
    → HasTid backend (request_sft backend req) out
    → ((k : ℕ) → IsKept backend k → k < header_length backend + 2 → msg.cell k ≡ out.cell k)
    → Matches backend req msg
answer-Matches rtu req out msg small slave tid same =
    inr (omega (arith, slave, small 0, same 0 tt (omega arith)))
answer-Matches tcp req out msg small slave tid same = (
  omega (arith, tid.0, small 0, small 1, same 0 (inl (omega arith)) (omega arith)),
  omega (arith, tid.1, small 0, small 1, same 1 (inl (omega arith)) (omega arith)),
)
answer-Matches tcp_pi req out msg small slave tid same = (
  omega (arith, tid.0, small 0, small 1, same 0 (inl (omega arith)) (omega arith)),
  omega (arith, tid.1, small 0, small 1, same 1 (inl (omega arith)) (omega arith)),
)

pub answer-IsTaker :
    (backend : Backend) (ctx : Ctx) (req out : Buf)
    → IsBytes req
    → out.cell (header_length backend - 1) ≡ req.cell (header_length backend - 1) % 256
    → IsTaker backend ctx.slave req
    → IsTaker backend ctx.slave out
answer-IsTaker rtu ctx req out small slave mine =
    let same : out.cell 0 ≡ req.cell 0 = omega (arith, slave, small 0) in rw same mine
answer-IsTaker tcp ctx req out small slave mine = tt
answer-IsTaker tcp_pi ctx req out small slave mine = tt

-- `modbus_reply` hands its response to `send_msg`, which frames it.
unfoldable pub framed_reply : Backend → Reply → Option (Buf × ℕ)
framed_reply backend (response rsp rsp_length mb) = send_msg_pre backend rsp rsp_length
framed_reply backend not_implemented = none

-- What the server sends: the answer, framed.
abbrev pub reply_sent : Backend → Buf → ℕ → Mapping → Buf → Option (Buf × ℕ)
reply_sent backend req n mb rsp =
    reply_message backend req n mb rsp >>= λ reply. framed_reply backend reply
