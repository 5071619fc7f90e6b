-- ===== src/Receive/Message.antt =====
-- `_modbus_receive_msg` on a message that `send_msg_pre` framed.
use swift_lib_modbus.Prelude.{
  ℕ, ◌+◌, ◌<◌, ◌≤◌, ◌≡◌, refl, sym, subst, ap, ◌∙◌, arith, Option, some, ◌>>=◌,
}
use native.Mathlib.Decide.{dec_lt}
use swift_lib_modbus.Prelude.Int.{ℤ}
use swift_lib_modbus.Protocol.{MsgType, indication, confirmation, Result, ok}
use swift_lib_modbus.Context.{Ctx, Backend, rtu, tcp, tcp_pi}
use swift_lib_modbus.Backend.{header_length, checksum_length, max_adu_length, send_msg_pre}
use swift_lib_modbus.Length.{compute_meta_length_after_function}
use swift_lib_modbus.Memory.{Buf, IsBytes}
use swift_lib_modbus.Rtu
use swift_lib_modbus.Rtu.{Integrity, valid, integrity}
use swift_lib_modbus.Rtu.Frame.{
  IsFor, with_crc, send_msg_pre-with_crc, with_crc-IsBytes, integrity-send_msg_pre, integrity-same,
}
use swift_lib_modbus.Link.{Link}
use swift_lib_modbus.Link.Stream.{IsStream}
use swift_lib_modbus.Fuel.{Run, finished}
use swift_lib_modbus.Receive.{receive_msg, receive_end, check_integrity, check_for, conclude}
use swift_lib_modbus.Receive.Lengths.{message_end, Begins}
use swift_lib_modbus.Receive.Chunks.{receive_loop-receiving}

-- The length of a message is decided by its own bytes.
pub message_end-same :
    (backend : Backend) (msg_type : MsgType) (f g : ℕ → ℕ)
    → ((k : ℕ) → k < message_end backend msg_type f → g k ≡ f k)
    → message_end backend msg_type g ≡ message_end backend msg_type f
unfolding compute_meta_length_after_function
message_end-same backend indication f g same =
    let h = header_length backend in ground (arith, same h, same (h + 5), same (h + 9))
message_end-same backend confirmation f g same =
    let h = header_length backend in ground (arith, same h, same (h + 1))

-- Who takes a message: over a serial line the slave that it names, over TCP whoever is connected.
abbrev pub IsTaker : Backend → ℤ → Buf → Type 0
IsTaker rtu own sent = IsFor own (sent.cell 0)
IsTaker tcp own sent = Unit
IsTaker tcp_pi own sent = Unit

-- Room for what `send_msg_pre` writes behind a message of `n` bytes.
abbrev pub HasRoom : Backend → Buf → ℕ → Type 0
HasRoom backend sent n = n + checksum_length backend ≤ sent.cap

-- What is sent over a serial line is a valid frame.
record IsFrame (own : ℤ) (sent frame : Buf) (n m : ℕ) : Type 0 where
  longer : m ≡ n + 2
  fits : n + 2 ≤ frame.cap
  bytes : IsBytes frame
  passes : integrity own frame (n + 2) ≡ some valid

send_msg_pre-IsFrame :
    (own : ℤ) (sent frame : Buf) (n m : ℕ)
    → 0 < n
    → n + 2 ≤ sent.cap
    → IsBytes sent
    → IsFor own (sent.cell 0)
    → Rtu.send_msg_pre sent n ≡ some (frame, m)
    → IsFrame own sent frame n m
send_msg_pre-IsFrame own sent frame n m pos_n room small mine e =
    let made : Option.some (with_crc sent n, n + 2) ≡ some (frame, m) =
      sym (send_msg_pre-with_crc sent n room) ∙ e in
    let frame_is : with_crc sent n ≡ frame = cc made in
    let length_is : n + 2 ≡ m = cc made in
    let checks : integrity own frame m ≡ some valid =
      subst (λ r. (r >>= λ fm. integrity own fm.0 fm.1) ≡ some valid) e
        (integrity-send_msg_pre own sent n pos_n room small mine) in
    record {
      longer = sym length_is;
      fits = subst (λ f. n + 2 ≤ f.cap) frame_is room;
      bytes = subst IsBytes frame_is (with_crc-IsBytes sent n small);
      passes = rw length_is checks;
    }

module _ {ℓ} {W : Type ℓ} (link : Link W) (ctx : Ctx) (w : W) where
  -- `check_integrity` takes an array that begins with the frame.
  frame_passes :
      (backend : Backend) (sent frame msg : Buf) (n m : ℕ)
      → 0 < n
      → HasRoom backend sent n
      → IsBytes sent
      → IsTaker backend ctx.slave sent
      → send_msg_pre backend sent n ≡ some (frame, m)
      → IsBytes msg
      → m ≤ msg.cap
      → Begins msg m frame.cell
      → check_for link ctx msg m w backend ≡ some (ok m, w)
  unfolding send_msg_pre
  frame_passes rtu sent frame msg n m pos_n room small mine e bytes fits begins =
      let f = send_msg_pre-IsFrame ctx.slave sent frame n m pos_n room small mine e in
      let same =
        integrity-same ctx.slave msg frame n (omega (arith, f.longer, fits)) f.fits bytes f.bytes
          (λ k h. begins k (omega (arith, h, f.longer))) in
      let long = f.longer in rw (f.longer, same, f.passes) refl
  frame_passes tcp sent frame msg n m pos_n room small mine e bytes fits begins = refl
  frame_passes tcp_pi sent frame msg n m pos_n room small mine e bytes fits begins = refl

module _ {ℓ} {W : Type ℓ} (link : Link W) (pos : W → ℕ) (stream : ℕ → ℕ) (ctx : Ctx)
    (msg_type : MsgType) (start : ℕ) (buffer : Buf) where
  -- `_modbus_receive_msg` returns the length `m` of the frame, which stands at the beginning of the
  -- array. The rest of the array is as before, and nothing behind the frame has been read.
  pub record IsDelivered (frame : Buf) (m : ℕ) (result : Run (Result ℕ × Buf × Ctx × W))
      : Type ℓ where
    pub msg : Buf
    pub world : W
    pub returns : result ≡ finished (ok m, msg, ctx, world)
    pub begins : Begins msg m frame.cell
    pub behind : (k : ℕ) → m ≤ k → msg.cell k ≡ buffer.cell k
    pub bytes : IsBytes msg
    pub same_cap : msg.cap ≡ buffer.cap
    pub at : pos world ≡ start + m

  -- A message is framed by `send_msg_pre` and waits on the line, of which any number of bytes may
  -- arrive at a time; it is for this side, is not longer than the limit, and is as long as its own
  -- bytes say. Then `_modbus_receive_msg` receives it, whatever follows it on the line.
  pub receive_msg-IsDelivered :
      (sent frame : Buf) (n m stop fuel : ℕ) (w : W)
      → IsStream link pos stream ctx.s stop
      → 0 < n
      → HasRoom ctx.backend sent n
      → IsBytes sent
      → IsTaker ctx.backend ctx.slave sent
      → send_msg_pre ctx.backend sent n ≡ some (frame, m)
      → message_end ctx.backend msg_type frame.cell ≡ m
      → m ≤ max_adu_length ctx.backend
      → max_adu_length ctx.backend ≤ buffer.cap
      → IsBytes buffer
      → ((k : ℕ) → k < m → stream (start + k) ≡ frame.cell k)
      → pos w ≡ start
      → start + m ≤ stop
      → m ≤ fuel
      → IsDelivered frame m (receive_msg link fuel ctx buffer msg_type w)
  unfolding receive_msg receive_end check_integrity
  receive_msg-IsDelivered sent frame n m stop fuel w line pos_n room small mine framed own_length
        short limit bytes waits here there enough =
      let message : ℕ → ℕ = λ k. stream (start + k) in
      let long : message_end ctx.backend msg_type message ≡ m =
        message_end-same ctx.backend msg_type frame.cell message
          (λ k h. waits k (omega (arith, h, own_length)))
        ∙ own_length in
      let r =
        receive_loop-receiving link pos stream ctx msg_type start buffer line
          (omega (arith, long, short)) limit (omega (arith, long, there)) fuel w here
          (omega (arith, long, enough)) in
      let begins : Begins r.msg m frame.cell =
        λ k h. r.begins k (omega (arith, long, h)) ∙ waits k h in
      let are_bytes : IsBytes r.msg = λ k. elim (dec_lt k m) [
        | yes new ↦ omega (arith, r.begins k (omega (arith, long, new)), line.of_bytes (start + k))
        | no old ↦ omega (arith, r.behind k (omega (arith, long, old)), bytes k)
      ] in
      let checks =
        frame_passes link ctx r.world ctx.backend sent frame r.msg n m pos_n room small mine framed
          are_bytes (omega (arith, r.same_cap, limit, short)) begins in
      let result =
        ap (receive_end link) (r.returns ∙ ap (λ k. finished (ok k, r.msg, ctx, r.world)) long)
        ∙ ap (λ c. conclude link c r.msg ctx) checks in
      record {
        msg = r.msg;
        world = r.world;
        returns = result;
        begins = begins;
        behind = λ k h. r.behind k (omega (arith, long, h));
        bytes = are_bytes;
        same_cap = r.same_cap;
        at = omega (arith, r.at, long);
      }
