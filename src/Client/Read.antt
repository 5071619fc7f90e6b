-- ===== src/Client/Read.antt =====
-- `modbus_read_registers` and `modbus_read_input_registers` against the server of this library.
use swift_lib_modbus.Prelude.{
  ℕ, zero, suc, ◌+◌, ◌-◌, ◌*◌, ◌<◌, ◌≤◌, ◌≡◌, refl, sym, subst, ap, fun_ext, ◌∙◌, ◌⊎◌, inl, inr,
  arith, some, true, ◌>>=◌, le→ltb, lt→ltb, ==_refl,
}
use swift_lib_modbus.Prelude.Int.{pos}
use swift_lib_modbus.Protocol.{Result, ok, confirmation}
use swift_lib_modbus.Context.{Ctx, Backend, rtu, tcp, tcp_pi}
use swift_lib_modbus.Backend.{header_length, checksum_length, send_msg_pre, build_request_basis}
use swift_lib_modbus.Memory.{Buf, IsBytes, write16}
use swift_lib_modbus.Link.{Link}
use swift_lib_modbus.Fuel.{Run, finished}
use swift_lib_modbus.Receive.{receive_msg}
use swift_lib_modbus.Confirm.{check_confirmation}
use swift_lib_modbus.Confirm.Accepted.{word_or_at_inside}
use swift_lib_modbus.Server.Loops.{take_registers-IsTaken, word_cells, word_at_inside}
use swift_lib_modbus.Server.Reply.{take_registers}
use swift_lib_modbus.Backend.{header_length-le, header_length-pos, basis, max_adu_length}
use swift_lib_modbus.Backend.Framing.{IsFramed, function-IsKept}
use swift_lib_modbus.Client.Request.{IsBuilt}
use swift_lib_modbus.Link.Stream.{IsStream}
use swift_lib_modbus.Receive.Message.{IsTaker}
use swift_lib_modbus.Server.Mapping.{Mapping, IsMapping}
use swift_lib_modbus.Server.Reply.Start.{request_function, request_address, request_quantity}
use swift_lib_modbus.Server.Reply.Answers.{IsRequest, register_table}
use swift_lib_modbus.Exchange.{reply_sent}
use swift_lib_modbus.Exchange.Registers.{registers-IsAnswered}
use swift_lib_modbus.Send.{send_msg, send_loop}
use swift_lib_modbus.Client.{exchange, read_registers_by}
use swift_lib_modbus.Values.{store_registers}

-- Storing words of the response is what the server does with words of a request.
store_registers-take_registers :
    (left : ℕ) (dest : Buf) (i : ℕ) (rsp : Buf) (j : ℕ)
    → IsBytes rsp
    → j + 2 * left ≤ rsp.cap
    → store_registers dest left i rsp j ≡ take_registers dest left i rsp j
unfolding store_registers take_registers
store_registers-take_registers zero dest i rsp j small h = refl
store_registers-take_registers (suc left) dest i rsp j small h =
    rw (word_or_at_inside rsp j (omega arith) small, word_at_inside rsp j (omega arith))
      (ap (λ k. write16 dest i (word_cells rsp j) >>= k)
        (fun_ext (λ dest'.
          store_registers-take_registers left dest' (i + 1) rsp (j + 2) small (omega arith))))

module _ {ℓ} {W : Type ℓ} (link : Link W) (ctx : Ctx) where
  -- A message that `send` takes as a whole is sent by `send_msg`.
  pub send_msg-whole :
      (fuel : ℕ) (msg frame : Buf) (n m : ℕ) (w w' : W)
      → send_msg_pre ctx.backend msg n ≡ some (frame, m)
      → link.send ctx frame m w ≡ (ok m, w')
      → send_msg link (suc fuel) ctx msg n w ≡ finished (ok m, frame, ctx, w')
  unfolding send_msg send_loop
  send_msg-whole fuel msg frame n m w w' framed sends =
      rw (framed, sends) (ground (arith, ==_refl m))

  -- What was sent, received and confirmed is an exchange that was checked.
  pub exchange-checked :
      (fuel : ℕ) (req rsp msg frame got : Buf) (n m k v : ℕ) (w w' w'' : W)
      → 0 < m
      → send_msg_pre ctx.backend msg n ≡ some (frame, m)
      → link.send ctx frame m w ≡ (ok m, w')
      → receive_msg link (suc fuel) ctx rsp confirmation w' ≡ finished (ok k, got, ctx, w'')
      → check_confirmation link ctx frame got k w'' ≡ some (ok v, w'')
      → exchange link (suc fuel) req rsp ctx msg n w
        ≡ finished (record { result = ok v; is_checked = true; rsp = got; ctx = ctx; world = w'' })
  unfolding exchange
  exchange-checked fuel req rsp msg frame got n m k v w w' w'' more framed sends received
        confirmed =
      rw (send_msg-whole fuel msg frame n m w w' framed sends, lt→ltb 0 m more, received, confirmed)
        refl

-- The values of the server's registers from `addr` are in `dest`, whose other elements are as before.
pub record IsRead {ℓ} {W : Type ℓ} (table : Buf) (addr nb : ℕ) (dest : Buf) (ctx : Ctx)
    (result : Run (Result ℕ × Buf × Ctx × W)) : Type ℓ where
  pub out : Buf
  pub world : W
  pub returns : result ≡ finished (ok nb, out, ctx, world)
  pub values : (j : ℕ) → j < nb → out.cell j ≡ table.cell (addr + j)
  pub outside : (j : ℕ) → nb ≤ j → out.cell j ≡ dest.cell j

module _ (backend : Backend) (ctx : Ctx) (slave function addr nb : ℕ) (req : Buf)
    (room : req.cap ≡ 12) where
  -- A request on the line is one for the server.
  pub record IsAsked
      (b : IsBuilt backend ctx slave function addr nb req (basis backend ctx function addr nb req))
      (frame : Buf) : Type 0 where
    pub is : IsRequest backend frame
    pub function_is : request_function backend frame ≡ function
    pub address_is : request_address backend frame ≡ addr
    pub quantity_is : request_quantity backend frame ≡ nb
    pub slave_is : frame.cell (header_length backend - 1) ≡ slave

  pub framed-IsAsked :
      (b : IsBuilt backend ctx slave function addr nb req (basis backend ctx function addr nb req))
      → IsBytes req
      → (f : IsFramed backend b.out
          (header_length backend + 5)
          (send_msg_pre backend b.out (header_length backend + 5)))
      → IsAsked b f.frame
  framed-IsAsked b small f =
      let h : ℕ = header_length backend in
      let h_small = header_length-le backend in
      let h_pos = header_length-pos backend in
      let same : (k : ℕ) → h ≤ k + 1 → k < h + 5 → f.frame.cell k ≡ b.out.cell k =
        λ k p q. f.keeps k (function-IsKept backend k p) q in
      record {
        is = record {
          bytes = f.bytes (b.bytes small);
          present = omega (arith, f.same_cap, b.same_cap, room);
          header = omega (arith, f.same_cap, b.same_cap, room);
        };
        function_is = same h (omega arith) (omega arith) ∙ b.function_cell;
        address_is = omega (
          arith,
          same (h + 1) (omega arith) (omega arith),
          same (h + 1 + 1) (omega arith) (omega arith),
          b.address,
        );
        quantity_is = omega (
          arith,
          same (h + 3) (omega arith) (omega arith),
          same (h + 3 + 1) (omega arith) (omega arith),
          b.quantity,
        );
        slave_is = same (h - 1) (omega arith) (omega arith) ∙ b.slave_cell;
      }

pub zero_add : (j : ℕ) → 0 + j ≡ j
zero_add j = omega arith

pub limits : (backend : Backend) → header_length backend + 5 + checksum_length backend ≤ 12
limits rtu = omega arith
limits tcp = omega arith
limits tcp_pi = omega arith

pub max_adu-le : (backend : Backend) → max_adu_length backend ≤ 260
max_adu-le rtu = omega arith
max_adu-le tcp = omega arith
max_adu-le tcp_pi = omega arith

pub taker :
    (backend : Backend) (own slave : ℕ) (sent : Buf)
    → sent.cell (header_length backend - 1) ≡ own
    → IsTaker backend (pos own) sent
taker rtu own slave sent e = inl (ap pos (sym e))
taker tcp own slave sent e = tt
taker tcp_pi own slave sent e = tt

module _ {ℓ} {W : Type ℓ} (link : Link W) (pos_of : W → ℕ) (stream : ℕ → ℕ) (ctx : Ctx)
    (slave function addr nb : ℕ) (req rsp dest : Buf) (n : ℕ) (mb : Mapping)
    (server_rsp : Buf) where
  abbrev Built : Type 0
  Built =
      IsBuilt ctx.backend ctx slave function addr nb req
        (basis ctx.backend ctx function addr nb req)

  abbrev Framed : Built → Type 0
  Framed b =
      IsFramed ctx.backend b.out (header_length ctx.backend + 5)
        (send_msg_pre ctx.backend b.out (header_length ctx.backend + 5))

  abbrev asking : Built → Ctx
  asking b = record ctx { t_id = b.t_id }

  abbrev request_length : ℕ
  request_length = header_length ctx.backend + 5 + checksum_length ctx.backend

  abbrev table : Buf
  table = register_table mb function

  -- A client asks a server of this library for at most 125 holding or input registers, all of which
  -- are in the server's tables: `send` takes the whole request, the server answers it, and its answer
  -- arrives in pieces of any size. Then the client's call returns the quantity, and the first
  -- elements of its array are the server's registers; the other elements are as they were.
  pub read_registers_by-IsRead :
      (b : Built) (f : Framed b) (start m stop fuel : ℕ) (frame : Buf) (w w' : W)
      → ctx.slave ≡ pos slave
      → (function ≡ 3) ⊎ (function ≡ 4)
      → nb ≤ 125
      → addr + nb ≤ table.cap
      → nb ≤ dest.cap
      → IsMapping mb
      → req.cap ≡ 12
      → IsBytes req
      → rsp.cap ≡ 260
      → IsBytes rsp
      → server_rsp.cap ≡ 260
      → IsBytes server_rsp
      → link.send (asking b) f.frame request_length w ≡ (ok request_length, w')
      → reply_sent ctx.backend f.frame n mb server_rsp ≡ some (frame, m)
      → IsStream link pos_of stream ctx.s stop
      → ((k : ℕ) → k < m → stream (start + k) ≡ frame.cell k)
      → pos_of w' ≡ start
      → start + m ≤ stop
      → m ≤ suc fuel
      → IsRead table addr nb dest
          (asking b)
          (read_registers_by link (suc fuel) req rsp ctx function addr nb dest w)
  unfolding read_registers_by build_request_basis
  read_registers_by-IsRead b f start m stop fuel frame w w' own is_read small inside fits mapping
        room req_bytes rsp_room rsp_bytes server_room server_bytes sends answers line waits here
        there enough =
      let q = framed-IsAsked ctx.backend ctx slave function addr nb req room b req_bytes f in
      let h : ℕ = header_length ctx.backend in
      let lim = limits ctx.backend in
      let max = max_adu-le ctx.backend in
      let fn = q.function_is in
      let same_table : register_table mb (request_function ctx.backend f.frame) ≡ table =
        ap (register_table mb) fn in
      let asked_inside : request_address ctx.backend f.frame + request_quantity ctx.backend f.frame
          ≤ (register_table mb (request_function ctx.backend f.frame)).cap =
        omega (arith, ap (λ t. t.cap) same_table, q.address_is, q.quantity_is, inside) in
      let is_read' : (request_function ctx.backend f.frame ≡ 3)
          ⊎ (request_function ctx.backend f.frame ≡ 4) =
        rw fn is_read in
      let mine : IsTaker ctx.backend ctx.slave f.frame =
        subst (λ s. IsTaker ctx.backend s f.frame) (sym own)
          (taker ctx.backend slave slave f.frame q.slave_is) in
      let a =
        registers-IsAnswered link pos_of stream (asking b) start f.frame rsp n mb server_rsp frame m
          stop (suc fuel) w' line q.is mapping mine is_read' asked_inside
          (omega (arith, q.quantity_is, small)) server_room server_bytes answers
          (omega (arith, rsp_room, max)) rsp_bytes waits here there enough in
      let confirmed = a.confirmed ∙ ap (λ k. some (ok k, a.world)) q.quantity_is in
      let ex =
        exchange-checked link (asking b) fuel req rsp b.out f.frame a.msg (h + 5) request_length m
          nb w w' a.world (omega arith) f.returns sends a.received confirmed in
      let enough_room : h + 2 + 2 * nb ≤ a.msg.cap =
        omega (arith, a.same_cap, rsp_room, small, header_length-le ctx.backend) in
      let stored =
        take_registers-IsTaken nb dest 0 a.msg (h + 2) a.bytes enough_room (omega (arith, fits)) in
      let same = store_registers-take_registers nb dest 0 a.msg (h + 2) a.bytes enough_room in
      record {
        out = stored.out;
        world = a.world;
        returns = rw (le→ltb 125 nb small, b.returns, ex, same, stored.returns) refl;
        values = λ j p.
            ap stored.out.cell (sym (zero_add j))
            ∙ stored.inside j p
            ∙ a.values j (omega (arith, p, q.quantity_is))
            ∙ ap (λ t. t.cell (request_address ctx.backend f.frame + j)) same_table
            ∙ ap (λ k. table.cell (k + j)) q.address_is;
        outside = λ j p. stored.outside j (inr (omega (arith, p)));
      }
