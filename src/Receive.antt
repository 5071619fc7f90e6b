-- ===== src/Receive.antt =====
-- `_modbus_receive_msg` of modbus.c, and `check_integrity` of the backends.
pub mod Lengths
pub mod Chunks
pub mod Message
pub mod Kinds
use swift_lib_modbus.Prelude.{
  ℕ, zero, suc, ◌+◌, ◌-◌, Bool, true, false, not, ◌&&◌, Option, none, some, ltb, ◌==◌,
  if◌then◌else◌, ◌>>=◌,
}
use swift_lib_modbus.Prelude.Int.{ℤ, pos, negsuc}
use swift_lib_modbus.Protocol.{
  MsgType, indication, confirmation, Errno, etimedout, econnreset, econnrefused, ebadf, Result, ok,
  err, embbaddata, embbadcrc,
}
use swift_lib_modbus.Context.{
  Ctx, Timeval, Backend, rtu, tcp, tcp_pi, recovers_link, recovers_protocol,
}
use swift_lib_modbus.Backend.{header_length, max_adu_length}
use swift_lib_modbus.Length.{compute_meta_length_after_function, compute_data_length_after_meta}
use swift_lib_modbus.Fuel.{Run, out_of_fuel, undefined, finished}
use swift_lib_modbus.Memory.{Buf, read, memcpy}
use swift_lib_modbus.Rtu.{Integrity, ignored, valid, bad_crc, integrity}
use swift_lib_modbus.Link.{Link, sleep_and_flush, reconnect}

-- `_step_t`.
pub data Step : Type 0 where
  step_function step_meta step_data : Step

-- The case _STEP_META of the `switch`, which _STEP_FUNCTION may fall through to.
unfoldable pub after_meta : Backend → MsgType → Buf → ℕ → Option (Result (Step × ℕ))
after_meta backend msg_type msg msg_length = do
  length_to_read ← compute_data_length_after_meta backend msg msg_type
  some (
      if ltb (max_adu_length backend) (msg_length + length_to_read)
      then err embbaddata
      else ok (step_data, length_to_read))

-- The `switch` on the step once all the bytes asked for are there: the next step and its length.
unfoldable pub next_step : Backend → MsgType → Step → Buf → ℕ → Option (Result (Step × ℕ))
unfolding after_meta
next_step backend msg_type step_function msg msg_length = do
  function ← read msg (header_length backend)
  let length_to_read = compute_meta_length_after_function function msg_type
  if not (length_to_read == 0)
      then some (ok (step_meta, length_to_read))
      else after_meta backend msg_type msg msg_length
next_step backend msg_type step_meta msg msg_length = after_meta backend msg_type msg msg_length
next_step backend msg_type step_data msg msg_length = some (ok (step_data, 0))

-- The variables of the loop.
pub record Receiving {ℓ} (W : Type ℓ) : Type ℓ where
  pub step : Step
  pub length_to_read : ℕ
  pub msg_length : ℕ
  pub p_tv : Option Timeval
  pub msg : Buf
  pub world : W

-- How a round ends: -1 with `errno`, or the next round.
pub data Progress {ℓ} (W : Type ℓ) : Type ℓ where
  fails : Errno → Buf → Ctx → W → Progress W
  goes_on : Receiving W → Progress W

-- `ctx->byte_timeout.tv_sec != -1`.
unfoldable pub limits_bytes : ℤ → Bool
limits_bytes (pos n) = true
limits_bytes (negsuc n) = not (n == 0)

-- How the connection was lost, as far as the code asks.
abbrev pub is_connection_lost : Errno → Bool
is_connection_lost econnreset = true
is_connection_lost econnrefused = true
is_connection_lost ebadf = true
is_connection_lost e = false

module _ {ℓ} {W : Type ℓ} (link : Link W) (ctx : Ctx) (msg_type : MsgType) where
  -- After `select` has failed.
  unfoldable pub recover_select : Errno → W → Ctx × W
  unfolding sleep_and_flush reconnect recovers_link
  recover_select e w =
      if recovers_link ctx
      then elim e [
        | etimedout ↦ (ctx, (sleep_and_flush link ctx w).1)
        | ebadf ↦ reconnect link ctx w
        | _ ↦ (ctx, w)
      ]
      else (ctx, w)

  -- After `recv` has failed.
  unfoldable pub recover_recv : Errno → W → Ctx × W
  unfolding reconnect recovers_link
  recover_recv e w =
      if recovers_link ctx && is_connection_lost e then reconnect link ctx w else (ctx, w)

  -- The rest of a round, after `recv` has stored its bytes behind those of the earlier rounds.
  unfoldable pub after_recv : Receiving W → Option Timeval → Buf → W → Option (Progress W)
  unfolding next_step limits_bytes
  after_recv st p_tv bytes w = do
    msg ← memcpy st.msg st.msg_length bytes 0 bytes.cap
    let msg_length = st.msg_length + bytes.cap
    let left = st.length_to_read - bytes.cap
    advanced ←
        if left == 0
        then next_step ctx.backend msg_type st.step msg msg_length
        else some (ok (st.step, left))
    some (elim advanced [
      | err e ↦ fails e msg ctx w
      | ok next ↦ goes_on (record {
        step = next.0;
        length_to_read = next.1;
        msg_length = msg_length;
        p_tv =
            if ltb 0 next.1 && limits_bytes ctx.byte_timeout.tv_sec
            then some ctx.byte_timeout
            else p_tv;
        msg = msg;
        world = w;
      })
    ])

  abbrev recv_fails : Receiving W → Errno → W → Option (Progress W)
  recv_fails st e w = let r = recover_recv e w in some (fails e st.msg r.0 r.1)

  -- What `recv` has returned; no bytes are a connection that was closed.
  abbrev received : Receiving W → Option Timeval → Result Buf × W → Option (Progress W)
  received st p_tv (err e, w) = recv_fails st e w
  received st p_tv (ok bytes, w) =
      if bytes.cap == 0 then recv_fails st econnreset w else after_recv st p_tv bytes w

  unfoldable pub receive_bytes : Receiving W → Option Timeval → W → Option (Progress W)
  unfolding after_recv recover_recv
  receive_bytes st p_tv w = received st p_tv (link.recv ctx st.length_to_read w)

  -- What `select` has returned.
  abbrev selected : Receiving W → Result (Option Timeval) × W → Option (Progress W)
  selected st (err e, w) = let r = recover_select e w in some (fails e st.msg r.0 r.1)
  selected st (ok p_tv, w) = receive_bytes st p_tv w

  -- A round of the loop.
  unfoldable pub receive_round : Receiving W → Option (Progress W)
  unfolding receive_bytes recover_select
  receive_round st = selected st (link.select ctx st.p_tv st.length_to_read st.world)

module _ {ℓ} {W : Type ℓ} (link : Link W) (ctx : Ctx) (msg : Buf) (msg_length : ℕ) (w : W) where
  -- `_modbus_rtu_check_integrity` after the comparisons. A length of 0 is a message that is for
  -- another slave.
  abbrev pub integrity_result : Integrity → Result ℕ × W
  integrity_result ignored = (ok 0, w)
  integrity_result valid = (ok msg_length, w)
  integrity_result bad_crc =
      (err embbadcrc, if recovers_protocol ctx then (link.flush ctx w).1 else w)

  -- `_modbus_rtu_check_integrity` and `_modbus_tcp_check_integrity`.
  abbrev pub check_for : Backend → Option (Result ℕ × W)
  check_for rtu = integrity ctx.slave msg msg_length >>= λ found. some (integrity_result found)
  check_for tcp = some (ok msg_length, w)
  check_for tcp_pi = some (ok msg_length, w)

  unfoldable pub check_integrity : Option (Result ℕ × W)
  unfolding recovers_protocol
  check_integrity = check_for ctx.backend

-- The loop after a round.
abbrev pub follow {ℓ} :
    {W : Type ℓ}
    → Option (Progress W)
    → (Receiving W → Run (Result ℕ × Buf × Ctx × W))
    → Run (Result ℕ × Buf × Ctx × W)
follow none again = undefined
follow (some (fails e msg ctx w)) again = finished (err e, msg, ctx, w)
follow (some (goes_on st)) again = again st

module _ {ℓ} {W : Type ℓ} (link : Link W) where
  -- The loop: its result is that of the function when it fails, and otherwise the length.
  unfoldable pub receive_loop : Ctx → MsgType → ℕ → Receiving W → Run (Result ℕ × Buf × Ctx × W)
  unfolding receive_round
  receive_loop ctx msg_type zero st =
      if st.length_to_read == 0
      then finished (ok st.msg_length, st.msg, ctx, st.world)
      else out_of_fuel
  receive_loop ctx msg_type (suc fuel) st =
      let again = λ (st' : Receiving W). receive_loop ctx msg_type fuel st' in
      if st.length_to_read == 0
      then finished (ok st.msg_length, st.msg, ctx, st.world)
      else follow (receive_round link ctx msg_type st) again

  -- The variables before the loop.
  abbrev pub receiving : Ctx → MsgType → Buf → W → Receiving W
  receiving ctx msg_type msg w = record {
    step = step_function;
    length_to_read = header_length ctx.backend + 1;
    msg_length = 0;
    p_tv = elim msg_type [ indication ↦ none | confirmation ↦ some ctx.response_timeout ];
    msg = msg;
    world = w;
  }

  -- What is returned after the check.
  abbrev pub conclude : Option (Result ℕ × W) → Buf → Ctx → Run (Result ℕ × Buf × Ctx × W)
  conclude none msg ctx = undefined
  conclude (some (checked, w)) msg ctx = finished (checked, msg, ctx, w)

  -- What follows the loop.
  unfoldable pub receive_end : Run (Result ℕ × Buf × Ctx × W) → Run (Result ℕ × Buf × Ctx × W)
  unfolding check_integrity
  receive_end out_of_fuel = out_of_fuel
  receive_end undefined = undefined
  receive_end (finished (err e, msg, ctx, w)) = finished (err e, msg, ctx, w)
  receive_end (finished (ok msg_length, msg, ctx, w)) =
      conclude (check_integrity link ctx msg msg_length w) msg ctx

  -- `_modbus_receive_msg(ctx, msg, msg_type)`: its result, the array, the context and the world.
  unfoldable pub receive_msg : ℕ → Ctx → Buf → MsgType → W → Run (Result ℕ × Buf × Ctx × W)
  unfolding receive_loop receive_end
  receive_msg fuel ctx msg msg_type w =
      receive_end (receive_loop ctx msg_type fuel (receiving ctx msg_type msg w))
