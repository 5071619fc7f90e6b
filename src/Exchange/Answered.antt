-- ===== src/Exchange/Answered.antt =====
-- An answer with elements of a table on its way to the client: `send_msg_pre` and
-- `_modbus_receive_msg`.
use swift_lib_modbus.Prelude.{ℕ, ◌+◌, ◌<◌, ◌≤◌, ◌≡◌, sym, subst, ◌∙◌, arith, Option, some, ◌>>=◌}
use swift_lib_modbus.Context.{Ctx}
use swift_lib_modbus.Protocol.{Result, ok, confirmation}
use swift_lib_modbus.Backend.{header_length, checksum_length, max_adu_length}
use swift_lib_modbus.Backend.Framing.{IsKept, function-IsKept}
use swift_lib_modbus.Memory.{Buf, IsBytes}
use swift_lib_modbus.Link.{Link}
use swift_lib_modbus.Link.Stream.{IsStream}
use swift_lib_modbus.Fuel.{Run, finished}
use swift_lib_modbus.Receive.{receive_msg}
use swift_lib_modbus.Receive.Lengths.{message_end}
use swift_lib_modbus.Receive.Kinds.{AsksToRead, read_answer-message_end}
use swift_lib_modbus.Receive.Message.{IsTaker, receive_msg-IsDelivered}
use swift_lib_modbus.Confirm.Accepted.{IsPair}
use swift_lib_modbus.Server.Mapping.{Mapping}
use swift_lib_modbus.Server.Reply.{Reply}
use swift_lib_modbus.Server.Reply.Start.{request_function, request_sft}
use swift_lib_modbus.Server.Reply.Read.{IsReadAnswer}
use swift_lib_modbus.Server.Reply.Answers.{IsRequest}
use swift_lib_modbus.Exchange.Framed.{framed_answer, answer-IsFrameOf}
use swift_lib_modbus.Exchange.{framed_reply, answer-Matches, answer-IsTaker, limits-le}

module _ {ℓ} {W : Type ℓ} (link : Link W) (pos : W → ℕ) (stream : ℕ → ℕ) (ctx : Ctx) (start : ℕ)
    (req buffer : Buf) where
  abbrev h : ℕ
  h = header_length ctx.backend

  -- The client has received a frame of `m` bytes that belongs to the request, says `count` bytes, and
  -- has those of `out`.
  pub record IsReceived (out : Buf) (count m : ℕ) (result : Run (Result ℕ × Buf × Ctx × W))
      : Type ℓ where
    pub msg : Buf
    pub world : W
    pub received : result ≡ finished (ok m, msg, ctx, world)
    pub is_pair : IsPair ctx.backend req msg
    pub function : msg.cell h ≡ req.cell h
    pub says : msg.cell (h + 1) ≡ count
    pub long : m ≡ h + 2 + count + checksum_length ctx.backend
    pub content : (k : ℕ) → h ≤ k → k < h + 2 + count → msg.cell k ≡ out.cell k
    pub bytes : IsBytes msg
    pub same_cap : msg.cap ≡ buffer.cap
    pub read_on : pos world ≡ start + m

  module _ (mb : Mapping) (rsp : Buf) (count : ℕ) (result : Option Reply)
      (a : IsReadAnswer ctx.backend
        (request_sft ctx.backend req)
        mb
        rsp
        count
        (header_length ctx.backend + 2 + count)
        result) where
    pub answer-IsReceived :
        (frame : Buf) (m stop fuel : ℕ) (w : W)
        → IsStream link pos stream ctx.s stop
        → IsRequest ctx.backend req
        → IsTaker ctx.backend ctx.slave req
        → AsksToRead (request_function ctx.backend req)
        → count ≤ 250
        → rsp.cap ≡ 260
        → IsBytes a.out
        → result >>= framed_reply ctx.backend ≡ some (frame, m)
        → max_adu_length ctx.backend ≤ buffer.cap
        → IsBytes buffer
        → ((k : ℕ) → k < m → stream (start + k) ≡ frame.cell k)
        → pos w ≡ start
        → start + m ≤ stop
        → m ≤ fuel
        → IsReceived a.out count m (receive_msg link fuel ctx buffer confirmation w)
    answer-IsReceived frame m stop fuel w line is mine asks small room out_bytes framed limit
          buffer_bytes waits here there enough =
        let limits = limits-le ctx.backend in
        let n : ℕ = h + 2 + count in
        let fits : n + checksum_length ctx.backend ≤ a.out.cap =
          omega (arith, a.same_cap, room, small, limits) in
        let made = framed_answer ctx.backend result a.out n mb a.returns frame m framed in
        let f =
          answer-IsFrameOf ctx.backend result a.out n mb a.returns frame m fits (omega arith)
            made in
        let function_is : frame.cell h ≡ req.cell h =
          f.kept h (function-IsKept ctx.backend h (omega arith)) (omega arith)
          ∙ a.function
          ∙ omega (arith, is.bytes h) in
        let says : frame.cell (h + 1) ≡ count =
          f.kept (h + 1) (function-IsKept ctx.backend (h + 1) (omega arith)) (omega arith)
          ∙ a.count_byte in
        let ends : message_end ctx.backend confirmation frame.cell ≡ m =
          read_answer-message_end ctx.backend frame.cell count
            (subst AsksToRead (sym function_is) asks) says
          ∙ sym f.long in
        let d =
          receive_msg-IsDelivered link pos stream ctx confirmation start buffer a.out frame n m stop
            fuel w line (omega arith) fits out_bytes
            (answer-IsTaker ctx.backend ctx req a.out is.bytes a.slave mine) made ends
            (omega (arith, f.long, small, limits)) limit buffer_bytes waits here there enough in
        let same : (k : ℕ) → IsKept ctx.backend k → k < n → d.msg.cell k ≡ a.out.cell k =
          λ k q p. d.begins k (omega (arith, f.long, p)) ∙ f.kept k q p in
        record {
          msg = d.msg;
          world = d.world;
          received = d.returns;
          is_pair = record {
            req_bytes = is.bytes;
            req_room = is.present;
            rsp_room = omega (arith, d.same_cap, limit, limits);
            matches =
                answer-Matches ctx.backend req a.out d.msg is.bytes a.slave a.tid
                  (λ k q p. same k q (omega (arith, p)));
          };
          function = d.begins h (omega (arith, f.long)) ∙ function_is;
          says = d.begins (h + 1) (omega (arith, f.long)) ∙ says;
          long = f.long;
          content = λ k p q. same k (function-IsKept ctx.backend k (omega (arith, p))) q;
          bytes = d.bytes;
          same_cap = d.same_cap;
          read_on = d.at;
        }
