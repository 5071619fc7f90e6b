-- ===== src/Exchange/Acknowledged.antt =====
-- The confirmation of a request to write several coils or registers on its way to the client:
-- `send_msg_pre`, `_modbus_receive_msg` and `check_confirmation` together.
use swift_lib_modbus.Prelude.{ℕ, ◌+◌, ◌<◌, ◌≤◌, ◌≡◌, sym, ◌∙◌, arith, Option, some, ◌>>=◌, ◌⊎◌, inr}
use swift_lib_modbus.Context.{Ctx}
use swift_lib_modbus.Protocol.{Result, ok, confirmation}
use swift_lib_modbus.Backend.{header_length, max_adu_length}
use swift_lib_modbus.Backend.Framing.{IsKept, function-IsKept}
use swift_lib_modbus.Memory.{Buf, IsBytes}
use swift_lib_modbus.Link.{Link}
use swift_lib_modbus.Link.Stream.{IsStream}
use swift_lib_modbus.Fuel.{Run, finished}
use swift_lib_modbus.Receive.{receive_msg}
use swift_lib_modbus.Receive.Lengths.{message_end}
use swift_lib_modbus.Receive.Kinds.{write_answer-message_end}
use swift_lib_modbus.Receive.Message.{IsTaker, receive_msg-IsDelivered}
use swift_lib_modbus.Confirm.{check_confirmation}
use swift_lib_modbus.Confirm.Accepted.{writes_confirmed}
use swift_lib_modbus.Server.Mapping.{Mapping}
use swift_lib_modbus.Server.Reply.{Reply}
use swift_lib_modbus.Server.Reply.Start.{request_function, request_quantity, request_sft}
use swift_lib_modbus.Server.Reply.Answers.{IsRequest}
use swift_lib_modbus.Server.Reply.Write.{IsConfirmed}
use swift_lib_modbus.Exchange.Framed.{framed_answer, answer-IsFrameOf}
use swift_lib_modbus.Exchange.{framed_reply, answer-Matches, answer-IsTaker, limits-le}

writes : {n : ℕ} → (n ≡ 15) ⊎ (n ≡ 16) → (n ≡ 5) ⊎ ((n ≡ 6) ⊎ ((n ≡ 15) ⊎ (n ≡ 16)))
writes is = inr (inr is)

module _ {ℓ} {W : Type ℓ} (link : Link W) (pos : W → ℕ) (stream : ℕ → ℕ) (ctx : Ctx) (start : ℕ)
    (req buffer : Buf) where
  -- The client has received a frame of `m` bytes, and `check_confirmation` returns the quantity.
  pub record IsAcknowledged (m : ℕ) (result : Run (Result ℕ × Buf × Ctx × W)) : Type ℓ where
    pub msg : Buf
    pub world : W
    pub received : result ≡ finished (ok m, msg, ctx, world)
    pub confirmed :
        check_confirmation link ctx req msg m world
        ≡ some (ok (request_quantity ctx.backend req), world)

  abbrev h : ℕ
  h = header_length ctx.backend

  module _ (mb : Mapping) (rsp : Buf) (result : Option Reply)
      (c : IsConfirmed ctx.backend (request_sft ctx.backend req) req mb rsp result) where
    -- The framed confirmation of a request to write several coils or registers, which waits on the
    -- line, is received and confirmed with the quantity.
    pub confirmation-IsAcknowledged :
        (frame : Buf) (m stop fuel : ℕ) (w : W)
        → IsStream link pos stream ctx.s stop
        → IsRequest ctx.backend req
        → IsTaker ctx.backend ctx.slave req
        → (request_function ctx.backend req ≡ 15) ⊎ (request_function ctx.backend req ≡ 16)
        → IsBytes rsp
        → result >>= framed_reply ctx.backend ≡ some (frame, m)
        → max_adu_length ctx.backend ≤ buffer.cap
        → IsBytes buffer
        → ((k : ℕ) → k < m → stream (start + k) ≡ frame.cell k)
        → pos w ≡ start
        → start + m ≤ stop
        → m ≤ fuel
        → IsAcknowledged m (receive_msg link fuel ctx buffer confirmation w)
    confirmation-IsAcknowledged frame m stop fuel w line is mine is_write rsp_bytes framed limit
          buffer_bytes waits here there enough =
        let limits = limits-le ctx.backend in
        let made = framed_answer ctx.backend result c.out (h + 5) mb c.returns frame m framed in
        let f =
          answer-IsFrameOf ctx.backend result c.out (h + 5) mb c.returns frame m
            (omega (arith, c.same_cap, limits)) (omega arith) made in
        let function : frame.cell h ≡ req.cell h =
          f.kept h (function-IsKept ctx.backend h (omega arith)) (omega arith)
          ∙ c.function
          ∙ omega (arith, is.bytes h) in
        let ends : message_end ctx.backend confirmation frame.cell ≡ m =
          write_answer-message_end ctx.backend frame.cell (rw function (writes is_write))
          ∙ sym f.long in
        let d =
          receive_msg-IsDelivered link pos stream ctx confirmation start buffer c.out frame (h + 5)
            m stop fuel w line (omega arith) (omega (arith, c.same_cap, limits)) (c.bytes rsp_bytes)
            (answer-IsTaker ctx.backend ctx req c.out is.bytes c.slave mine) made ends
            (omega (arith, f.long, limits)) limit buffer_bytes waits here there enough in
        let same : (k : ℕ) → IsKept ctx.backend k → k < h + 5 → d.msg.cell k ≡ c.out.cell k =
          λ k q p. d.begins k (omega (arith, f.long, p)) ∙ f.kept k q p in
        let later : (k : ℕ) → h < k → k < h + 5 → d.msg.cell k ≡ req.cell k =
          λ k p q. same k (function-IsKept ctx.backend k (omega (arith, p))) q ∙ c.same k p q in
        let matches =
          answer-Matches ctx.backend req c.out d.msg is.bytes c.slave c.tid
            (λ k q p. same k q (omega (arith, p))) in
        record {
          msg = d.msg;
          world = d.world;
          received = d.returns;
          confirmed =
              writes_confirmed link ctx req d.msg m d.world
                (record {
                  req_bytes = is.bytes;
                  req_room = is.present;
                  rsp_room = omega (arith, d.same_cap, limit, limits);
                  matches = matches;
                })
                is_write (d.begins h (omega (arith, f.long)) ∙ function) d.bytes
                (omega (
                  arith,
                  later (h + 3) (omega arith) (omega arith),
                  later (h + 3 + 1) (omega arith) (omega arith),
                ))
                f.long;
        }
