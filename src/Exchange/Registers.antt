-- ===== src/Exchange/Registers.antt =====
-- Exchanges about registers: `modbus_reply`, `send_msg_pre`, `_modbus_receive_msg` and
-- `check_confirmation` together.
use swift_lib_modbus.Prelude.{
  ℕ, ◌+◌, ◌*◌, ◌<◌, ◌≤◌, ◌≡◌, ◌∙◌, arith, Option, some, ◌>>=◌, ◌⊎◌, inl, inr,
}
use swift_lib_modbus.Context.{Ctx}
use swift_lib_modbus.Protocol.{Result, ok, confirmation}
use swift_lib_modbus.Backend.{header_length, max_adu_length}
use swift_lib_modbus.Memory.{Buf, IsBytes}
use swift_lib_modbus.Link.{Link}
use swift_lib_modbus.Link.Stream.{IsStream}
use swift_lib_modbus.Fuel.{Run, finished}
use swift_lib_modbus.Receive.{receive_msg}
use swift_lib_modbus.Receive.Message.{IsTaker}
use swift_lib_modbus.Confirm.{check_confirmation}
use swift_lib_modbus.Confirm.Accepted.{registers_confirmed}
use swift_lib_modbus.Server.Loops.{word_cells}
use swift_lib_modbus.Server.Mapping.{Mapping, IsMapping}
use swift_lib_modbus.Server.Reply.{Reply, reply_message}
use swift_lib_modbus.Server.Reply.Start.{
  request_function, request_address, request_quantity, request_sft,
}
use swift_lib_modbus.Server.Reply.Read.{IsRegisterAnswer}
use swift_lib_modbus.Server.Reply.Answers.{IsRequest, register_table, reply-registers}
use swift_lib_modbus.Server.Reply.WriteAndRead.{
  IsWrittenAndRead, write_address, write_quantity, reply-IsWrittenAndRead,
}
use swift_lib_modbus.Exchange.Answered.{answer-IsReceived}
use swift_lib_modbus.Exchange.{same_word, framed_reply, reply_sent}

module _ {ℓ} {W : Type ℓ} (link : Link W) (pos : W → ℕ) (stream : ℕ → ℕ) (ctx : Ctx) (start : ℕ)
    (req buffer : Buf) where
  abbrev h : ℕ
  h = header_length ctx.backend

  abbrev address : ℕ
  address = request_address ctx.backend req

  abbrev nb : ℕ
  nb = request_quantity ctx.backend req

  abbrev function : ℕ
  function = request_function ctx.backend req

  -- The client has received a frame of `m` bytes, `check_confirmation` returns the quantity, and the
  -- data are the registers `tab` of the server.
  pub record IsAnswered (tab : Buf) (m : ℕ) (result : Run (Result ℕ × Buf × Ctx × W)) : Type ℓ where
    pub msg : Buf
    pub world : W
    pub received : result ≡ finished (ok m, msg, ctx, world)
    pub confirmed : check_confirmation link ctx req msg m world ≡ some (ok nb, world)
    pub values :
        (j : ℕ)
        → j < nb
        → word_cells msg (header_length ctx.backend + 2 + 2 * j) ≡ tab.cell (address + j)
    pub bytes : IsBytes msg
    pub same_cap : msg.cap ≡ buffer.cap
    pub read_on : pos world ≡ start + m

  module _ (tab : Buf) (mb : Mapping) (rsp : Buf) (result : Option Reply)
      (a : IsRegisterAnswer ctx.backend
        (request_sft ctx.backend req)
        mb
        tab
        address
        nb
        rsp
        result) where
    answer-IsAnswered :
        (frame : Buf) (m stop fuel : ℕ) (w : W)
        → IsStream link pos stream ctx.s stop
        → IsRequest ctx.backend req
        → IsTaker ctx.backend ctx.slave req
        → (function ≡ 3) ⊎ (function ≡ 4) ⊎ (function ≡ 0x17)
        → nb ≤ 125
        → rsp.cap ≡ 260
        → IsBytes rsp
        → result >>= framed_reply ctx.backend ≡ some (frame, m)
        → max_adu_length ctx.backend ≤ buffer.cap
        → IsBytes buffer
        → ((k : ℕ) → k < m → stream (start + k) ≡ frame.cell k)
        → pos w ≡ start
        → start + m ≤ stop
        → m ≤ fuel
        → IsAnswered tab m (receive_msg link fuel ctx buffer confirmation w)
    answer-IsAnswered frame m stop fuel w line is mine asks small room rsp_bytes framed limit
          buffer_bytes waits here there enough =
        let r =
          answer-IsReceived link pos stream ctx start req buffer mb rsp (2 * nb) result a.answer
            frame m stop fuel w line is mine (ground (arith, asks)) (omega (arith, small)) room
            (a.bytes rsp_bytes) framed limit buffer_bytes waits here there enough in
        record {
          msg = r.msg;
          world = r.world;
          received = r.received;
          confirmed =
              registers_confirmed link ctx req r.msg m r.world r.is_pair asks r.function r.says
                r.long;
          values = λ j p.
              let k : ℕ = h + 2 + 2 * j in
              same_word r.msg a.answer.out k (r.content k (omega arith) (omega (arith, p)))
                (r.content (k + 1) (omega arith) (omega (arith, p)))
              ∙ a.registers j p;
          bytes = r.bytes;
          same_cap = r.same_cap;
          read_on = r.read_on;
        }

  module _ (n : ℕ) (mb : Mapping) (rsp : Buf) where
    abbrev registers : Buf
    registers = register_table mb function

    -- For every request to read at most 125 holding or input registers that lie in the server's
    -- tables and names its own slave: `modbus_reply` answers, and when the framed answer waits on the
    -- line, in pieces of any size and whatever follows it, `_modbus_receive_msg` receives it,
    -- `check_confirmation` returns the quantity, and the data are the values of the registers.
    pub registers-IsAnswered :
        (frame : Buf) (m stop fuel : ℕ) (w : W)
        → IsStream link pos stream ctx.s stop
        → IsRequest ctx.backend req
        → IsMapping mb
        → IsTaker ctx.backend ctx.slave req
        → (function ≡ 3) ⊎ (function ≡ 4)
        → address + nb ≤ registers.cap
        → nb ≤ 125
        → rsp.cap ≡ 260
        → IsBytes rsp
        → reply_sent ctx.backend req n mb rsp ≡ some (frame, m)
        → max_adu_length ctx.backend ≤ buffer.cap
        → IsBytes buffer
        → ((k : ℕ) → k < m → stream (start + k) ≡ frame.cell k)
        → pos w ≡ start
        → start + m ≤ stop
        → m ≤ fuel
        → IsAnswered registers m (receive_msg link fuel ctx buffer confirmation w)
    registers-IsAnswered frame m stop fuel w line is mapping mine is_read inside small room
          rsp_bytes framed limit buffer_bytes waits here there enough =
        answer-IsAnswered registers mb rsp (reply_message ctx.backend req n mb rsp)
          (reply-registers ctx.backend req n mb rsp is mapping is_read inside small room) frame m
          stop fuel w line is mine (elim is_read [ inl e ↦ inl e | inr e ↦ inr (inl e) ]) small room
          rsp_bytes framed limit buffer_bytes waits here there enough

    -- The server has written, and the client has received the registers as they are after it.
    pub record IsReadBack (m : ℕ) (result : Run (Result ℕ × Buf × Ctx × W)) : Type ℓ where
      pub written : IsWrittenAndRead ctx.backend req mb rsp (reply_message ctx.backend req n mb rsp)
      pub answered : IsAnswered written.tab m result

    -- For every request to write some registers of the server, with the values present, and to read
    -- at most 125 of its registers: `modbus_reply` stores the values and answers, and when the framed
    -- answer waits on the line, in pieces of any size and whatever follows it, `_modbus_receive_msg`
    -- receives it, `check_confirmation` returns the quantity to read, and the data are the registers
    -- after the write, also where both ranges overlap.
    pub write_and_read-IsReadBack :
        (frame : Buf) (m stop fuel : ℕ) (w : W)
        → IsStream link pos stream ctx.s stop
        → IsRequest ctx.backend req
        → IsMapping mb
        → IsTaker ctx.backend ctx.slave req
        → function ≡ 0x17
        → address + nb ≤ mb.nb_registers
        → write_address ctx.backend req + write_quantity ctx.backend req ≤ mb.nb_registers
        → nb ≤ 125
        → h + 10 + 2 * write_quantity ctx.backend req ≤ req.cap
        → rsp.cap ≡ 260
        → IsBytes rsp
        → reply_sent ctx.backend req n mb rsp ≡ some (frame, m)
        → max_adu_length ctx.backend ≤ buffer.cap
        → IsBytes buffer
        → ((k : ℕ) → k < m → stream (start + k) ≡ frame.cell k)
        → pos w ≡ start
        → start + m ≤ stop
        → m ≤ fuel
        → IsReadBack m (receive_msg link fuel ctx buffer confirmation w)
    write_and_read-IsReadBack frame m stop fuel w line is mapping mine e inside inside' small values
          room rsp_bytes framed limit buffer_bytes waits here there enough =
        let wr =
          reply-IsWrittenAndRead ctx.backend req n mb rsp is mapping e inside inside' small values
            room in
        record {
          written = wr;
          answered =
              answer-IsAnswered wr.tab (record mb { tab_registers = wr.tab }) rsp
                (reply_message ctx.backend req n mb rsp) wr.answer frame m stop fuel w line is mine
                (inr (inr e)) small room rsp_bytes framed limit buffer_bytes waits here there
                enough;
        }
