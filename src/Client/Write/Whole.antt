-- ===== src/Client/Write/Whole.antt =====
-- `modbus_write_registers` against the server of this library.
use swift_lib_modbus.Prelude.{
  ℕ, suc, ◌+◌, ◌-◌, ◌*◌, ◌<◌, ◌≤◌, ◌≡◌, refl, sym, subst, ap, ◌∙◌, ◌⊎◌, inr, arith, Option, some,
  le→ltb,
}
use swift_lib_modbus.Prelude.Int.{pos}
use swift_lib_modbus.Protocol.{Result, ok}
use swift_lib_modbus.Context.{Ctx, Backend, rtu, tcp, tcp_pi}
use swift_lib_modbus.Backend.{
  header_length, header_length-le, header_length-pos, checksum_length, send_msg_pre,
}
use swift_lib_modbus.Backend.Framing.{IsFramed, function-IsKept, send_msg_pre-IsFramed}
use swift_lib_modbus.Memory.{Buf, IsBytes}
use swift_lib_modbus.Link.{Link}
use swift_lib_modbus.Link.Stream.{IsStream}
use swift_lib_modbus.Fuel.{Run, finished}
use swift_lib_modbus.Receive.Message.{IsTaker}
use swift_lib_modbus.Client.{write_registers, write_registers_request}
use swift_lib_modbus.Client.Read.{exchange-checked, max_adu-le, taker}
use swift_lib_modbus.Client.Write.{IsWriteRequest, write_registers_request-IsWriteRequest}
use swift_lib_modbus.Server.Loops.{word_cells, IsWords}
use swift_lib_modbus.Server.Mapping.{Mapping, IsMapping}
use swift_lib_modbus.Server.Reply.{Reply, response, reply_message}
use swift_lib_modbus.Server.Reply.Start.{request_function, request_address, request_quantity}
use swift_lib_modbus.Server.Reply.Answers.{IsRequest}
use swift_lib_modbus.Server.Reply.Write.{IsRegistersWritten, reply-IsRegistersWritten}
use swift_lib_modbus.Exchange.{reply_sent, same_word}
use swift_lib_modbus.Exchange.Acknowledged.{confirmation-IsAcknowledged}

-- The registers of the server from `addr` are those of `src`, the others and the other tables are as
-- before.
pub record IsStored (backend : Backend) (addr nb : ℕ) (src : Buf) (mb : Mapping)
    (reply : Option Reply) : Type 0 where
  pub tab : Buf
  pub out : Buf
  pub replied :
      reply ≡ some (response out (header_length backend + 5) (record mb { tab_registers = tab }))
  pub stored : (j : ℕ) → j < nb → tab.cell (addr + j) ≡ src.cell j
  pub outside : (m : ℕ) → (m < addr) ⊎ (addr + nb ≤ m) → tab.cell m ≡ mb.tab_registers.cell m

-- The client's call returns the quantity.
pub record IsTold {ℓ} {W : Type ℓ} (ctx : Ctx) (nb : ℕ) (run : Run (Result ℕ × Ctx × W))
    : Type ℓ where
  pub world : W
  pub returns : run ≡ finished (ok nb, ctx, world)

module _ (ctx : Ctx) (slave addr nb : ℕ) (src req : Buf) (result : Option (Ctx × Buf × ℕ))
    (b : IsWriteRequest ctx slave addr nb src req result)
    (f : IsFramed ctx.backend b.out
      (header_length ctx.backend + 6 + 2 * nb)
      (send_msg_pre ctx.backend b.out (header_length ctx.backend + 6 + 2 * nb)))
    (room : req.cap ≡ 260) where
  abbrev h : ℕ
  h = header_length ctx.backend

  -- The framed request is one for the server.
  record IsAsked : Type 0 where
    is : IsRequest ctx.backend f.frame
    function_is : request_function ctx.backend f.frame ≡ 0x10
    address_is : request_address ctx.backend f.frame ≡ addr
    quantity_is : request_quantity ctx.backend f.frame ≡ nb
    slave_is : f.frame.cell (h - 1) ≡ slave
    values : (j : ℕ) → j < nb → word_cells f.frame (h + 6 + 2 * j) ≡ src.cell j

  framed-IsAsked : IsAsked
  framed-IsAsked =
      let h_small = header_length-le ctx.backend in
      let h_pos = header_length-pos ctx.backend in
      let same : (k : ℕ) → h ≤ k + 1 → k < h + 6 + 2 * nb → f.frame.cell k ≡ b.out.cell k =
        λ k p q. f.keeps k (function-IsKept ctx.backend k p) q in
      record {
        is = record {
          bytes = f.bytes b.bytes;
          present = omega (arith, f.same_cap, b.same_cap, room);
          header = omega (arith, f.same_cap, b.same_cap, room);
        };
        function_is = same h (omega arith) (omega arith) ∙ b.function_cell;
        address_is = omega (
          arith,
          same (h + 1) (omega arith) (omega arith),
          same (h + 1 + 1) (omega arith) (omega arith),
          b.address,
        );
        quantity_is = omega (
          arith,
          same (h + 3) (omega arith) (omega arith),
          same (h + 3 + 1) (omega arith) (omega arith),
          b.quantity,
        );
        slave_is = same (h - 1) (omega arith) (omega arith) ∙ b.slave_cell;
        values = λ j p.
            same_word f.frame b.out (h + 6 + 2 * j)
              (same (h + 6 + 2 * j) (omega arith) (omega (arith, p)))
              (same (h + 6 + 2 * j + 1) (omega arith) (omega (arith, p)))
            ∙ b.values j p;
      }

  -- What the server does with it.
  pub asked-IsStored :
      (n : ℕ) (mb : Mapping) (server_rsp : Buf)
      → nb ≤ 123
      → IsMapping mb
      → addr + nb ≤ mb.nb_registers
      → server_rsp.cap ≡ 260
      → IsRegistersWritten ctx.backend f.frame mb server_rsp
          (reply_message ctx.backend f.frame n mb server_rsp)
        × IsStored ctx.backend addr nb src mb (reply_message ctx.backend f.frame n mb server_rsp)
  asked-IsStored n mb server_rsp small mapping inside server_room =
      let q = framed-IsAsked in
      let h_small = header_length-le ctx.backend in
      let w =
        reply-IsRegistersWritten ctx.backend f.frame n mb server_rsp q.is mapping q.function_is
          (omega (arith, q.address_is, q.quantity_is, inside))
          (omega (arith, q.quantity_is, f.same_cap, b.same_cap, room, small)) server_room in
      (
        w,
        record {
          tab = w.tab;
          out = w.confirmed.out;
          replied = w.confirmed.returns;
          stored = λ j p.
              ap (λ k. w.tab.cell (k + j)) (sym q.address_is)
              ∙ w.inside j (omega (arith, p, q.quantity_is))
              ∙ q.values j p;
          outside = λ m p. w.outside m (rw (q.address_is, q.quantity_is) p);
        },
      )

limit_of : (backend : Backend) → header_length backend + checksum_length backend ≤ 8
limit_of rtu = omega arith
limit_of tcp = omega arith
limit_of tcp_pi = omega arith

module _ {ℓ} {W : Type ℓ} (link : Link W) (pos_of : W → ℕ) (stream : ℕ → ℕ) (ctx : Ctx)
    (slave addr nb : ℕ) (src req rsp : Buf) (n : ℕ) (mb : Mapping) (server_rsp : Buf)
    (fuel : ℕ) where
  abbrev Built : Type 0
  Built = IsWriteRequest ctx slave addr nb src req (write_registers_request req ctx addr nb src)

  abbrev request_length : ℕ
  request_length = header_length ctx.backend + 6 + 2 * nb

  abbrev sent_length : ℕ
  sent_length = request_length + checksum_length ctx.backend

  abbrev Framed : Built → Type 0
  Framed b =
      IsFramed ctx.backend b.out request_length (send_msg_pre ctx.backend b.out request_length)

  abbrev asking : Built → Ctx
  asking b = record ctx { t_id = b.t_id }

  -- The whole call, once the request is known to be right.
  built-IsStored :
      (b : Built) (f : Framed b) (start m stop : ℕ) (frame : Buf) (w w' : W)
      → ctx.slave ≡ pos slave
      → nb ≤ 123
      → addr + nb ≤ mb.nb_registers
      → IsMapping mb
      → req.cap ≡ 260
      → rsp.cap ≡ 260
      → IsBytes rsp
      → server_rsp.cap ≡ 260
      → IsBytes server_rsp
      → link.send (asking b) f.frame sent_length w ≡ (ok sent_length, w')
      → reply_sent ctx.backend f.frame n mb server_rsp ≡ some (frame, m)
      → IsStream link pos_of stream ctx.s stop
      → ((k : ℕ) → k < m → stream (start + k) ≡ frame.cell k)
      → pos_of w' ≡ start
      → start + m ≤ stop
      → m ≤ suc fuel
      → IsStored ctx.backend addr nb src mb (reply_message ctx.backend f.frame n mb server_rsp)
        × IsTold (asking b) nb (write_registers link (suc fuel) req rsp ctx addr nb src w)
  unfolding write_registers
  built-IsStored b f start m stop frame w w' own small inside mapping room rsp_room rsp_bytes
        server_room server_bytes sends answers line waits here there enough =
      let result = write_registers_request req ctx addr nb src in
      let q = framed-IsAsked ctx slave addr nb src req result b f room in
      let done =
        asked-IsStored ctx slave addr nb src req result b f room n mb server_rsp small mapping
          inside server_room in
      let mine : IsTaker ctx.backend ctx.slave f.frame =
        subst (λ s. IsTaker ctx.backend s f.frame) (sym own)
          (taker ctx.backend slave slave f.frame q.slave_is) in
      let max = max_adu-le ctx.backend in
      let a =
        confirmation-IsAcknowledged link pos_of stream (asking b) start f.frame rsp
          (record mb { tab_registers = done.0.tab }) server_rsp
          (reply_message ctx.backend f.frame n mb server_rsp) done.0.confirmed frame m stop
          (suc fuel) w' line q.is mine (inr q.function_is) server_bytes answers
          (omega (arith, rsp_room, max)) rsp_bytes waits here there enough in
      let confirmed = a.confirmed ∙ ap (λ k. some (ok k, a.world)) q.quantity_is in
      let ex =
        exchange-checked link (asking b) fuel req rsp b.out f.frame a.msg request_length sent_length
          m nb w w' a.world (omega arith) f.returns sends a.received confirmed in
      (done.1, record { world = a.world; returns = rw (le→ltb 123 nb small, b.returns, ex) refl })

  -- A client asks a server of this library to write at most 123 registers that are all in the server's
  -- table, from an array of registers that has them: `send` takes the whole framed request that the
  -- client has built, the server answers it, and its answer arrives in pieces of any size. Then the
  -- registers of the server are those of the client's array, all others and the other tables are as
  -- they were, and the client's call returns the quantity.
  pub write_registers-IsStored :
      (ctx' : Ctx) (out sent frame : Buf) (n' k start m stop : ℕ) (w w' : W)
      → ctx.slave ≡ pos slave
      → slave < 256
      → addr < 65536
      → nb ≤ 123
      → addr + nb ≤ mb.nb_registers
      → IsMapping mb
      → nb ≤ src.cap
      → IsWords src
      → req.cap ≡ 260
      → IsBytes req
      → rsp.cap ≡ 260
      → IsBytes rsp
      → server_rsp.cap ≡ 260
      → IsBytes server_rsp
      → write_registers_request req ctx addr nb src ≡ some (ctx', out, n')
      → send_msg_pre ctx.backend out n' ≡ some (sent, k)
      → link.send ctx' sent k w ≡ (ok k, w')
      → reply_sent ctx.backend sent n mb server_rsp ≡ some (frame, m)
      → IsStream link pos_of stream ctx.s stop
      → ((i : ℕ) → i < m → stream (start + i) ≡ frame.cell i)
      → pos_of w' ≡ start
      → start + m ≤ stop
      → m ≤ suc fuel
      → IsStored ctx.backend addr nb src mb (reply_message ctx.backend sent n mb server_rsp)
        × IsTold ctx' nb (write_registers link (suc fuel) req rsp ctx addr nb src w)
  write_registers-IsStored ctx' out sent frame n' k start m stop w w' own slave_small addr_small
        small inside mapping there_are words room req_bytes rsp_room rsp_bytes server_room
        server_bytes builds frames sends answers line waits here there enough =
      let b =
        write_registers_request-IsWriteRequest req ctx slave addr nb src own slave_small addr_small
          small room req_bytes there_are words in
      let f =
        send_msg_pre-IsFramed ctx.backend b.out request_length
          (omega (arith, b.same_cap, room, small, limit_of ctx.backend)) (omega arith) in
      let built : Option.some (asking b, b.out, request_length) ≡ some (ctx', out, n') =
        sym b.returns ∙ builds in
      let ctx_is : asking b ≡ ctx' = cc built in
      let out_is : b.out ≡ out = cc built in
      let n_is : request_length ≡ n' = cc built in
      let framed : Option.some (f.frame, sent_length) ≡ some (sent, k) =
        sym f.returns
        ∙ ap (λ o. send_msg_pre ctx.backend o request_length) out_is
        ∙ ap (send_msg_pre ctx.backend out) n_is
        ∙ frames in
      let sent_is : f.frame ≡ sent = cc framed in
      let k_is : sent_length ≡ k = cc framed in
      let sends' : link.send (asking b) f.frame sent_length w ≡ (ok sent_length, w') =
        ap (λ c. link.send c f.frame sent_length w) ctx_is
        ∙ ap (λ o. link.send ctx' o sent_length w) sent_is
        ∙ ap (λ i. link.send ctx' sent i w) k_is
        ∙ sends
        ∙ ap (λ i. (Result.ok i, w')) (sym k_is) in
      let done =
        built-IsStored b f start m stop frame w w' own small inside mapping room rsp_room rsp_bytes
          server_room server_bytes sends'
          (ap (λ o. reply_sent ctx.backend o n mb server_rsp) sent_is ∙ answers) line waits here
          there enough in
      (
        subst
            (λ o. IsStored ctx.backend addr nb src mb (reply_message ctx.backend o n mb server_rsp))
            sent_is done.0,
        subst (λ c. IsTold c nb (write_registers link (suc fuel) req rsp ctx addr nb src w)) ctx_is
            done.1,
      )
