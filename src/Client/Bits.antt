-- ===== src/Client/Bits.antt =====
-- `modbus_read_bits` and `modbus_read_input_bits` against the server of this library.
use swift_lib_modbus.Prelude.{
  ℕ, suc, ◌+◌, ◌<◌, ◌≤◌, ◌≡◌, refl, sym, subst, ap, ◌∙◌, ◌⊎◌, inl, inr, arith, some, le→ltb, ◌==◌,
  if◌then◌else◌,
}
use swift_lib_modbus.Prelude.Int.{pos}
use swift_lib_modbus.Protocol.{Result, ok}
use swift_lib_modbus.Context.{Ctx}
use swift_lib_modbus.Backend.{
  header_length, header_length-le, checksum_length, send_msg_pre, build_request_basis, basis,
}
use swift_lib_modbus.Backend.Framing.{IsFramed}
use swift_lib_modbus.Memory.{Buf, IsBytes}
use swift_lib_modbus.Length.{byte_count}
use swift_lib_modbus.Link.{Link}
use swift_lib_modbus.Link.Stream.{IsStream}
use swift_lib_modbus.Fuel.{Run, finished}
use swift_lib_modbus.Receive.Message.{IsTaker}
use swift_lib_modbus.Server.Mapping.{Mapping, IsMapping}
use swift_lib_modbus.Server.Reply.Start.{request_function, request_address, request_quantity}
use swift_lib_modbus.Server.Reply.Answers.{bit_table}
use swift_lib_modbus.Exchange.{reply_sent}
use swift_lib_modbus.Exchange.Bits.{bits-IsBitsAnswered}
use swift_lib_modbus.Values.Bits.{store_bits-IsStored}
use swift_lib_modbus.Client.{read_io_status, read_bits, read_input_bits}
use swift_lib_modbus.Client.Request.{IsBuilt}
use swift_lib_modbus.Client.Read.{
  IsRead, framed-IsAsked, exchange-checked, taker, max_adu-le, limits, zero_add,
}

-- `dest` begins with the elements of the table, and is as before behind them; the number of bytes
-- that held the bits is returned.
record IsIoRead {ℓ} {W : Type ℓ} (table : Buf) (addr nb : ℕ) (dest : Buf) (ctx : Ctx)
    (result : Run (Result ℕ × Buf × Ctx × W)) : Type ℓ where
  out : Buf
  world : W
  returns : result ≡ finished (ok (byte_count nb), out, ctx, world)
  values : (j : ℕ) → j < nb → out.cell j ≡ table.cell (addr + j)
  outside : (j : ℕ) → nb ≤ j → out.cell j ≡ dest.cell j

-- The client's function for a function code: `modbus_read_bits`, or `modbus_read_input_bits`.
abbrev pub read_bits_by {ℓ} :
    {W : Type ℓ}
    → Link W
    → ℕ
    → Buf
    → Buf
    → ℕ
    → Ctx
    → ℕ
    → ℕ
    → Buf
    → W
    → Run (Result ℕ × Buf × Ctx × W)
read_bits_by link fuel req rsp function =
    if function == 1 then read_bits link fuel req rsp else read_input_bits link fuel req rsp

io-IsRead {ℓ} :
    {W : Type ℓ} (link : Link W) (fuel : ℕ) (ctx ctx' : Ctx) (function addr nb : ℕ)
    (req rsp dest : Buf) (mb : Mapping) (w : W)
    → (function ≡ 1) ⊎ (function ≡ 2)
    → nb ≤ 2000
    → IsIoRead
        (bit_table mb function)
        addr
        nb
        dest
        ctx'
        (read_io_status link fuel req rsp ctx function addr nb dest w)
    → IsRead
        (bit_table mb function)
        addr
        nb
        dest
        ctx'
        (read_bits_by link fuel req rsp function ctx addr nb dest w)
unfolding read_bits read_input_bits
io-IsRead link fuel ctx ctx' function addr nb req rsp dest mb w is_read small io =
    let got : (k : ℕ)
        → function ≡ k
        → read_io_status link fuel req rsp ctx k addr nb dest w
          ≡ finished (ok (byte_count nb), io.out, ctx', io.world) =
      λ k e.
        subst
          (λ k'.
            read_io_status link fuel req rsp ctx k' addr nb dest w
            ≡ finished (ok (byte_count nb), io.out, ctx', io.world))
          e io.returns in
    record {
      out = io.out;
      world = io.world;
      returns = elim is_read [
        | inl e ↦ rw (e, le→ltb 2000 nb small, got 1 e) refl
        | inr e ↦ rw (e, le→ltb 2000 nb small, got 2 e) refl
      ];
      values = io.values;
      outside = io.outside;
    }

module _ {ℓ} {W : Type ℓ} (link : Link W) (pos_of : W → ℕ) (stream : ℕ → ℕ) (ctx : Ctx)
    (slave function addr nb : ℕ) (req rsp dest : Buf) (n : ℕ) (mb : Mapping)
    (server_rsp : Buf) where
  abbrev Built : Type 0
  Built =
      IsBuilt ctx.backend ctx slave function addr nb req
        (basis ctx.backend ctx function addr nb req)

  abbrev Framed : Built → Type 0
  Framed b =
      IsFramed ctx.backend b.out (header_length ctx.backend + 5)
        (send_msg_pre ctx.backend b.out (header_length ctx.backend + 5))

  abbrev asking : Built → Ctx
  asking b = record ctx { t_id = b.t_id }

  abbrev request_length : ℕ
  request_length = header_length ctx.backend + 5 + checksum_length ctx.backend

  abbrev table : Buf
  table = bit_table mb function

  read_io_status-IsIoRead :
      (b : Built) (f : Framed b) (start m stop fuel : ℕ) (frame : Buf) (w w' : W)
      → ctx.slave ≡ pos slave
      → (function ≡ 1) ⊎ (function ≡ 2)
      → nb ≤ 2000
      → addr + nb ≤ table.cap
      → nb ≤ dest.cap
      → IsMapping mb
      → req.cap ≡ 12
      → IsBytes req
      → rsp.cap ≡ 260
      → IsBytes rsp
      → server_rsp.cap ≡ 260
      → IsBytes server_rsp
      → link.send (asking b) f.frame request_length w ≡ (ok request_length, w')
      → reply_sent ctx.backend f.frame n mb server_rsp ≡ some (frame, m)
      → IsStream link pos_of stream ctx.s stop
      → ((k : ℕ) → k < m → stream (start + k) ≡ frame.cell k)
      → pos_of w' ≡ start
      → start + m ≤ stop
      → m ≤ suc fuel
      → IsIoRead table addr nb dest
          (asking b)
          (read_io_status link (suc fuel) req rsp ctx function addr nb dest w)
  unfolding read_io_status build_request_basis
  read_io_status-IsIoRead b f start m stop fuel frame w w' own is_read small inside fits mapping
        room req_bytes rsp_room rsp_bytes server_room server_bytes sends answers line waits here
        there enough =
      let q = framed-IsAsked ctx.backend ctx slave function addr nb req room b req_bytes f in
      let h : ℕ = header_length ctx.backend in
      let lim = limits ctx.backend in
      let max = max_adu-le ctx.backend in
      let fn = q.function_is in
      let same_table : bit_table mb (request_function ctx.backend f.frame) ≡ table =
        ap (bit_table mb) fn in
      let asked_inside : request_address ctx.backend f.frame + request_quantity ctx.backend f.frame
          ≤ (bit_table mb (request_function ctx.backend f.frame)).cap =
        omega (arith, ap (λ t. t.cap) same_table, q.address_is, q.quantity_is, inside) in
      let is_read' : (request_function ctx.backend f.frame ≡ 1)
          ⊎ (request_function ctx.backend f.frame ≡ 2) =
        rw fn is_read in
      let mine : IsTaker ctx.backend ctx.slave f.frame =
        subst (λ s. IsTaker ctx.backend s f.frame) (sym own)
          (taker ctx.backend slave slave f.frame q.slave_is) in
      let a =
        bits-IsBitsAnswered link pos_of stream (asking b) start f.frame rsp n mb server_rsp frame m
          stop (suc fuel) w' line q.is mapping mine is_read' asked_inside
          (omega (arith, q.quantity_is, small)) server_room server_bytes answers
          (omega (arith, rsp_room, max)) rsp_bytes waits here there enough in
      let confirmed = a.confirmed ∙ ap (λ k. some (ok (byte_count k), a.world)) q.quantity_is in
      let ex =
        exchange-checked link (asking b) fuel req rsp b.out f.frame a.msg (h + 5) request_length m
          (byte_count nb) w w' a.world (omega arith) f.returns sends a.received confirmed in
      let enough_room : h + 2 + byte_count nb ≤ a.msg.cap =
        ground (arith, a.same_cap, rsp_room, small, header_length-le ctx.backend) in
      let stored =
        store_bits-IsStored (byte_count nb) dest 0 nb a.msg (h + 2) (omega arith) fits
          enough_room in
      record {
        out = stored.out;
        world = a.world;
        returns = rw (b.returns, ex, stored.returns) refl;
        values = λ j p.
            ap stored.out.cell (sym (zero_add j))
            ∙ stored.inside j (ground (arith, p)) (omega (arith, p))
            ∙ a.bits j (omega (arith, p, q.quantity_is))
            ∙ ap (λ t. t.cell (request_address ctx.backend f.frame + j)) same_table
            ∙ ap (λ k. table.cell (k + j)) q.address_is;
        outside = λ j p. stored.outside j (inr p);
      }

  -- A client asks a server of this library for at most 2000 coils or discrete inputs, all of which are
  -- in the server's tables: `send` takes the whole request, the server answers it, and its answer
  -- arrives in pieces of any size. Then `modbus_read_bits`, or `modbus_read_input_bits`, returns the
  -- quantity, and the first elements of the client's array are the server's; the others are as before.
  pub read_bits_by-IsRead :
      (b : Built) (f : Framed b) (start m stop fuel : ℕ) (frame : Buf) (w w' : W)
      → ctx.slave ≡ pos slave
      → (function ≡ 1) ⊎ (function ≡ 2)
      → nb ≤ 2000
      → addr + nb ≤ table.cap
      → nb ≤ dest.cap
      → IsMapping mb
      → req.cap ≡ 12
      → IsBytes req
      → rsp.cap ≡ 260
      → IsBytes rsp
      → server_rsp.cap ≡ 260
      → IsBytes server_rsp
      → link.send (asking b) f.frame request_length w ≡ (ok request_length, w')
      → reply_sent ctx.backend f.frame n mb server_rsp ≡ some (frame, m)
      → IsStream link pos_of stream ctx.s stop
      → ((k : ℕ) → k < m → stream (start + k) ≡ frame.cell k)
      → pos_of w' ≡ start
      → start + m ≤ stop
      → m ≤ suc fuel
      → IsRead table addr nb dest
          (asking b)
          (read_bits_by link (suc fuel) req rsp function ctx addr nb dest w)
  read_bits_by-IsRead b f start m stop fuel frame w w' own is_read small inside fits mapping room
        req_bytes rsp_room rsp_bytes server_room server_bytes sends answers line waits here there
        enough =
      io-IsRead link (suc fuel) ctx (asking b) function addr nb req rsp dest mb w is_read small (
        read_io_status-IsIoRead b f start m stop fuel frame w w' own is_read small inside fits
          mapping room req_bytes rsp_room rsp_bytes server_room server_bytes sends answers line
          waits here there enough)
