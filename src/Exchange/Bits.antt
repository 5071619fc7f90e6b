-- ===== src/Exchange/Bits.antt =====
-- An exchange about coils or discrete inputs: `modbus_reply`, `send_msg_pre`, `_modbus_receive_msg` and
-- `check_confirmation` together.
use swift_lib_modbus.Prelude.{ℕ, ◌+◌, ◌/◌, ◌%◌, ◌<◌, ◌≤◌, ◌≡◌, ap, ◌∙◌, arith, some, ◌⊎◌}
use swift_lib_modbus.Context.{Ctx}
use swift_lib_modbus.Protocol.{Result, ok, confirmation}
use swift_lib_modbus.Backend.{header_length, max_adu_length}
use swift_lib_modbus.Memory.{Buf, IsBytes}
use swift_lib_modbus.Bits.Bit.{bit}
use swift_lib_modbus.Data.Bits.{bit_at}
use swift_lib_modbus.Length.{byte_count}
use swift_lib_modbus.Link.{Link}
use swift_lib_modbus.Link.Stream.{IsStream}
use swift_lib_modbus.Fuel.{Run, finished}
use swift_lib_modbus.Receive.{receive_msg}
use swift_lib_modbus.Receive.Message.{IsTaker}
use swift_lib_modbus.Confirm.{check_confirmation}
use swift_lib_modbus.Confirm.Accepted.{bits_confirmed}
use swift_lib_modbus.Server.IoStatus.Laws.{bytes_for}
use swift_lib_modbus.Server.Mapping.{Mapping, IsMapping}
use swift_lib_modbus.Server.Reply.{reply_message}
use swift_lib_modbus.Server.Reply.Start.{request_function, request_address, request_quantity}
use swift_lib_modbus.Server.Reply.Read.{byte_count-bytes_for}
use swift_lib_modbus.Server.Reply.Answers.{IsRequest, bit_table, reply-bits}
use swift_lib_modbus.Exchange.Answered.{answer-IsReceived}
use swift_lib_modbus.Exchange.{reply_sent}

module _ {ℓ} {W : Type ℓ} (link : Link W) (pos : W → ℕ) (stream : ℕ → ℕ) (ctx : Ctx) (start : ℕ)
    (req buffer : Buf) where
  abbrev h : ℕ
  h = header_length ctx.backend

  abbrev address : ℕ
  address = request_address ctx.backend req

  abbrev nb : ℕ
  nb = request_quantity ctx.backend req

  abbrev function : ℕ
  function = request_function ctx.backend req

  -- The client has received a frame of `m` bytes, `check_confirmation` returns the number of bytes
  -- that the bits take, and the bits are the elements of `tab`.
  pub record IsBitsAnswered (tab : Buf) (m : ℕ) (result : Run (Result ℕ × Buf × Ctx × W))
      : Type ℓ where
    pub msg : Buf
    pub world : W
    pub received : result ≡ finished (ok m, msg, ctx, world)
    pub confirmed : check_confirmation link ctx req msg m world ≡ some (ok (byte_count nb), world)
    pub bits :
        (j : ℕ) → j < nb → bit_at msg (header_length ctx.backend + 2) j ≡ tab.cell (address + j)
    pub bytes : IsBytes msg
    pub same_cap : msg.cap ≡ buffer.cap
    pub read_on : pos world ≡ start + m

  module _ (n : ℕ) (mb : Mapping) (rsp : Buf) where
    abbrev table : Buf
    table = bit_table mb function

    -- For every request to read at most 2000 coils or discrete inputs that lie in the server's tables
    -- and names its own slave: `modbus_reply` answers, and when the framed answer waits on the line,
    -- in pieces of any size and whatever follows it, `_modbus_receive_msg` receives it,
    -- `check_confirmation` returns the number of bytes that the bits take, and the bits, the lowest
    -- of a byte first, are the elements of the table.
    pub bits-IsBitsAnswered :
        (frame : Buf) (m stop fuel : ℕ) (w : W)
        → IsStream link pos stream ctx.s stop
        → IsRequest ctx.backend req
        → IsMapping mb
        → IsTaker ctx.backend ctx.slave req
        → (function ≡ 1) ⊎ (function ≡ 2)
        → address + nb ≤ table.cap
        → nb ≤ 2000
        → rsp.cap ≡ 260
        → IsBytes rsp
        → reply_sent ctx.backend req n mb rsp ≡ some (frame, m)
        → max_adu_length ctx.backend ≤ buffer.cap
        → IsBytes buffer
        → ((k : ℕ) → k < m → stream (start + k) ≡ frame.cell k)
        → pos w ≡ start
        → start + m ≤ stop
        → m ≤ fuel
        → IsBitsAnswered table m (receive_msg link fuel ctx buffer confirmation w)
    bits-IsBitsAnswered frame m stop fuel w line is mapping mine is_read inside small room rsp_bytes
          framed limit buffer_bytes waits here there enough =
        let a = reply-bits ctx.backend req n mb rsp is mapping is_read inside small room in
        let count = byte_count-bytes_for nb in
        let few : bytes_for nb ≤ 250 = omega (arith, small) in
        let r =
          answer-IsReceived link pos stream ctx start req buffer mb rsp (bytes_for nb)
            (reply_message ctx.backend req n mb rsp) a.answer frame m stop fuel w line is mine
            (ground (arith, is_read)) few room (a.bytes rsp_bytes) framed limit buffer_bytes waits
            here there enough in
        record {
          msg = r.msg;
          world = r.world;
          received = r.received;
          confirmed =
              bits_confirmed link ctx req r.msg m r.world r.is_pair is_read r.function
                (omega (arith, r.says, count)) (omega (arith, r.long, count));
          bits = λ j p.
              ap (bit (j % 8)) (r.content (h + 2 + j / 8) (omega arith) (omega (arith, p)))
              ∙ a.bits j p;
          bytes = r.bytes;
          same_cap = r.same_cap;
          read_on = r.read_on;
        }
