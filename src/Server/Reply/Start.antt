-- ===== src/Server/Reply/Start.antt =====
-- The start of `modbus_reply`: what it reads of a request before the `switch`.
use swift_lib_modbus.Prelude.{ℕ, ◌+◌, ◌-◌, ◌%◌, ◌≤◌, ◌≡◌, refl, arith, some}
use swift_lib_modbus.Memory.{Buf, read, IsBytes}
use swift_lib_modbus.Memory.Laws.{read_inside}
use swift_lib_modbus.Context.{Backend, rtu, tcp, tcp_pi}
use swift_lib_modbus.Backend.{header_length, checksum_length, prepare_response_tid}
use swift_lib_modbus.Protocol.{Sft}
use swift_lib_modbus.Rtu
use swift_lib_modbus.Tcp
use swift_lib_modbus.Server.Loops.{word_cells, word_at_inside, word_cells-lt}
use swift_lib_modbus.Server.Mapping.{Mapping}
use swift_lib_modbus.Server.Reply.{reply_message, reply_to}

-- The transaction identifier that the response repeats.
abbrev pub request_t_id : Backend → Buf → ℕ
request_t_id rtu req = 0
request_t_id tcp req = word_cells req 0
request_t_id tcp_pi req = word_cells req 0

-- The parts of a request.
abbrev pub request_slave : Backend → Buf → ℕ
request_slave backend req = req.cell (header_length backend - 1)

abbrev pub request_function : Backend → Buf → ℕ
request_function backend req = req.cell (header_length backend)

abbrev pub request_address : Backend → Buf → ℕ
request_address backend req = word_cells req (header_length backend + 1)

abbrev pub request_quantity : Backend → Buf → ℕ
request_quantity backend req = word_cells req (header_length backend + 3)

abbrev pub request_sft : Backend → Buf → Sft
request_sft backend req = record {
  slave = request_slave backend req;
  function = request_function backend req;
  t_id = request_t_id backend req;
}

tid :
    (backend : Backend) (req : Buf) (n : ℕ)
    → 8 ≤ req.cap
    → prepare_response_tid backend req n
      ≡ some (request_t_id backend req, n - checksum_length backend)
unfolding prepare_response_tid Rtu.prepare_response_tid Tcp.prepare_response_tid read
tid rtu req n h = refl
tid tcp req n h = ground arith
tid tcp_pi req n h = ground arith

pub reply_message-reply_to :
    (backend : Backend) (req : Buf) (n : ℕ) (mb : Mapping) (rsp : Buf)
    → IsBytes req
    → header_length backend + 5 ≤ req.cap
    → 8 ≤ req.cap
    → reply_message backend req n mb rsp
      ≡ reply_to backend req
          (n - checksum_length backend)
          mb
          (request_sft backend req)
          (request_address backend req)
          rsp
          (request_function backend req)
unfolding reply_message
reply_message-reply_to backend req n mb rsp small h h8 =
    let here : ℕ = header_length backend in
    let fits : word_cells req (here + 1) % 65536 ≡ word_cells req (here + 1) =
      omega (arith, word_cells-lt req (here + 1) small) in
    rw (
      read_inside req (here - 1) (omega arith),
      read_inside req here (omega arith),
      word_at_inside req (here + 1) (omega arith),
      tid backend req n h8,
      fits,
    )
