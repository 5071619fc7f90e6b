-- ===== src/Exchange/Reported.antt =====
-- An exception response on its way to the client: `modbus_reply`, `send_msg_pre`, `_modbus_receive_msg`
-- and `check_confirmation` together.
use swift_lib_modbus.Prelude.{ℕ, ◌+◌, ◌<◌, ◌≤◌, ◌≡◌, sym, ap, ◌∙◌, arith, Option, some, ◌>>=◌}
use swift_lib_modbus.Context.{Ctx}
use swift_lib_modbus.Protocol.{Result, ok, err, enobase, confirmation}
use swift_lib_modbus.Backend.{header_length, max_adu_length}
use swift_lib_modbus.Backend.Framing.{IsKept, function-IsKept}
use swift_lib_modbus.Memory.{Buf, IsBytes}
use swift_lib_modbus.Link.{Link}
use swift_lib_modbus.Link.Stream.{IsStream}
use swift_lib_modbus.Fuel.{Run, finished}
use swift_lib_modbus.Receive.{receive_msg}
use swift_lib_modbus.Receive.Lengths.{message_end}
use swift_lib_modbus.Receive.Kinds.{exception-message_end}
use swift_lib_modbus.Receive.Message.{IsTaker, receive_msg-IsDelivered}
use swift_lib_modbus.Confirm.{check_confirmation}
use swift_lib_modbus.Confirm.Accepted.{exception_reported}
use swift_lib_modbus.Server.Mapping.{Mapping}
use swift_lib_modbus.Server.Reply.{Reply, reply_message}
use swift_lib_modbus.Server.Reply.Start.{
  request_function, request_address, request_quantity, request_sft,
}
use swift_lib_modbus.Server.Reply.Answers.{IsRequest}
use swift_lib_modbus.Server.Reply.Refuse.{
  IsRefused, Access, access_function, access_count, access_span, reply-address-IsRefused,
}
use swift_lib_modbus.Exchange.Framed.{framed_answer, answer-IsFrameOf}
use swift_lib_modbus.Exchange.{framed_reply, reply_sent, answer-Matches, answer-IsTaker, limits-le}

module _ {ℓ} {W : Type ℓ} (link : Link W) (pos : W → ℕ) (stream : ℕ → ℕ) (ctx : Ctx) (start : ℕ)
    (req buffer : Buf) where
  -- The client has received a frame of `m` bytes, and `check_confirmation` fails with the error number
  -- of the exception.
  pub record IsReported (code m : ℕ) (result : Run (Result ℕ × Buf × Ctx × W)) : Type ℓ where
    pub msg : Buf
    pub world : W
    pub received : result ≡ finished (ok m, msg, ctx, world)
    pub reported : check_confirmation link ctx req msg m world ≡ some (err (enobase code), world)

  abbrev h : ℕ
  h = header_length ctx.backend

  module _ (mb : Mapping) (rsp : Buf) (code : ℕ) (result : Option Reply)
      (c : IsRefused ctx.backend (request_sft ctx.backend req) mb code rsp result) where
    refusal-IsReported :
        (frame : Buf) (m stop fuel : ℕ) (w : W)
        → IsStream link pos stream ctx.s stop
        → IsRequest ctx.backend req
        → IsTaker ctx.backend ctx.slave req
        → request_function ctx.backend req < 128
        → code < 12
        → IsBytes rsp
        → result >>= framed_reply ctx.backend ≡ some (frame, m)
        → max_adu_length ctx.backend ≤ buffer.cap
        → IsBytes buffer
        → ((k : ℕ) → k < m → stream (start + k) ≡ frame.cell k)
        → pos w ≡ start
        → start + m ≤ stop
        → m ≤ fuel
        → IsReported code m (receive_msg link fuel ctx buffer confirmation w)
    refusal-IsReported frame m stop fuel w line is mine plain known rsp_bytes framed limit
          buffer_bytes waits here there enough =
        let limits = limits-le ctx.backend in
        let made = framed_answer ctx.backend result c.out (h + 2) mb c.returns frame m framed in
        let f =
          answer-IsFrameOf ctx.backend result c.out (h + 2) mb c.returns frame m
            (omega (arith, c.same_cap, limits)) (omega arith) made in
        let function : frame.cell h ≡ req.cell h + 0x80 =
          f.kept h (function-IsKept ctx.backend h (omega arith)) (omega arith)
          ∙ c.function
          ∙ omega (arith, plain) in
        let says : frame.cell (h + 1) ≡ code =
          f.kept (h + 1) (function-IsKept ctx.backend (h + 1) (omega arith)) (omega arith)
          ∙ c.code_byte
          ∙ omega (arith, known) in
        let ends : message_end ctx.backend confirmation frame.cell ≡ m =
          exception-message_end ctx.backend frame.cell (omega (arith, function)) ∙ sym f.long in
        let d =
          receive_msg-IsDelivered link pos stream ctx confirmation start buffer c.out frame (h + 2)
            m stop fuel w line (omega arith) (omega (arith, c.same_cap, limits)) (c.bytes rsp_bytes)
            (answer-IsTaker ctx.backend ctx req c.out is.bytes c.slave mine) made ends
            (omega (arith, f.long, limits)) limit buffer_bytes waits here there enough in
        let same : (k : ℕ) → IsKept ctx.backend k → k < h + 2 → d.msg.cell k ≡ c.out.cell k =
          λ k q p. d.begins k (omega (arith, f.long, p)) ∙ f.kept k q p in
        let got : d.msg.cell (h + 1) ≡ code = d.begins (h + 1) (omega (arith, f.long)) ∙ says in
        record {
          msg = d.msg;
          world = d.world;
          received = d.returns;
          reported =
              exception_reported link ctx req d.msg m d.world
                (record {
                  req_bytes = is.bytes;
                  req_room = is.present;
                  rsp_room = omega (arith, d.same_cap, limit, limits);
                  matches =
                      answer-Matches ctx.backend req c.out d.msg is.bytes c.slave c.tid
                        (λ k q p. same k q (omega (arith, p)));
                })
                (d.begins h (omega (arith, f.long)) ∙ function) (omega (arith, got, known)) f.long
              ∙ ap (λ v. some (err (enobase v), d.world)) got;
        }

  access-plain : (x : Access) → access_function x < 128
  access-plain x = ground arith

  -- Every request to read or write one table that names an element outside the table is answered with
  -- an exception, and when the framed answer waits on the line, in pieces of any size,
  -- `_modbus_receive_msg` receives it and `check_confirmation` fails with EMBXILADD.
  pub address-IsReported :
      (x : Access) (n : ℕ) (mb : Mapping) (rsp frame : Buf) (m stop fuel : ℕ) (w : W)
      → IsStream link pos stream ctx.s stop
      → IsRequest ctx.backend req
      → IsTaker ctx.backend ctx.slave req
      → request_function ctx.backend req ≡ access_function x
      → access_count mb x
        < request_address ctx.backend req + access_span x (request_quantity ctx.backend req)
      → rsp.cap ≡ 260
      → IsBytes rsp
      → reply_sent ctx.backend req n mb rsp ≡ some (frame, m)
      → max_adu_length ctx.backend ≤ buffer.cap
      → IsBytes buffer
      → ((k : ℕ) → k < m → stream (start + k) ≡ frame.cell k)
      → pos w ≡ start
      → start + m ≤ stop
      → m ≤ fuel
      → IsReported 2 m (receive_msg link fuel ctx buffer confirmation w)
  address-IsReported x n mb rsp frame m stop fuel w line is mine names beyond room rsp_bytes framed
        limit buffer_bytes waits here there enough =
      refusal-IsReported mb rsp 2 (reply_message ctx.backend req n mb rsp)
        (reply-address-IsRefused ctx.backend req n mb rsp is room x names beyond) frame m stop fuel
        w line is mine (omega (arith, names, access-plain x)) (omega arith) rsp_bytes framed limit
        buffer_bytes waits here there enough
