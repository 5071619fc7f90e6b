-- ===== src/Send.antt =====
-- `send_msg` and `modbus_send_raw_request` of modbus.c.
use swift_lib_modbus.Prelude.{
  ℕ, zero, suc, ◌+◌, ◌-◌, Bool, true, false, not, ◌&&◌, Option, some, ltb, ◌==◌, if◌then◌else◌,
  ◌>>=◌,
}
use swift_lib_modbus.Protocol.{Errno, ebadf, econnreset, epipe, einval, Result, ok, err, embbaddata}
use swift_lib_modbus.Context.{Ctx, recovers_link}
use swift_lib_modbus.Backend.{send_msg_pre, build_response_basis}
use swift_lib_modbus.Memory.{Buf, read, memcpy}
use swift_lib_modbus.Link.{Link, sleep_and_flush, reconnect}
use swift_lib_modbus.Fuel.{and_then, lift, Run, out_of_fuel, undefined, finished}

-- The connection has to be opened again.
abbrev is_broken : Errno → Bool
is_broken ebadf = true
is_broken econnreset = true
is_broken epipe = true
is_broken e = false

module _ {ℓ} {W : Type ℓ} (link : Link W) where
  -- The recovery after `send` has failed, in the recovery mode of the link.
  unfoldable pub recover_send : Ctx → Errno → W → Ctx × W
  unfolding sleep_and_flush reconnect
  recover_send ctx e w =
      if is_broken e then reconnect link ctx w else (ctx, (sleep_and_flush link ctx w).1)

  -- After `send` has returned.
  abbrev pub sent_or_again :
      Ctx → Result ℕ × W → (Ctx → W → Run (Result ℕ × Ctx × W)) → Run (Result ℕ × Ctx × W)
  sent_or_again ctx (ok rc, w) again = finished (ok rc, ctx, w)
  sent_or_again ctx (err e, w) again =
      let recovered = recover_send ctx e w in
      if recovers_link ctx then again recovered.0 recovered.1 else finished (err e, ctx, w)

  -- The loop: its last `rc`, with `errno`, the context and the world.
  unfoldable pub send_loop : ℕ → Ctx → Buf → ℕ → W → Run (Result ℕ × Ctx × W)
  unfolding recover_send recovers_link
  send_loop zero ctx msg msg_length w = out_of_fuel
  send_loop (suc fuel) ctx msg msg_length w =
      sent_or_again ctx (link.send ctx msg msg_length w)
        (λ ctx' w'. send_loop fuel ctx' msg msg_length w')

  -- The test behind the loop.
  abbrev pub whole : Buf → ℕ → Run (Result ℕ × Ctx × W) → Run (Result ℕ × Buf × Ctx × W)
  whole msg msg_length out_of_fuel = out_of_fuel
  whole msg msg_length undefined = undefined
  whole msg msg_length (finished (err e, ctx, w)) = finished (err e, msg, ctx, w)
  whole msg msg_length (finished (ok rc, ctx, w)) =
      if ltb 0 rc && not (rc == msg_length)
      then finished (err embbaddata, msg, ctx, w)
      else finished (ok rc, msg, ctx, w)

  -- `send_msg(ctx, msg, msg_length)`: its result, the framed message, the context and the world.
  unfoldable pub send_msg : ℕ → Ctx → Buf → ℕ → W → Run (Result ℕ × Buf × Ctx × W)
  unfolding send_loop
  send_msg fuel ctx msg msg_length w =
      and_then (lift (send_msg_pre ctx.backend msg msg_length))
        (λ framed. whole framed.0 framed.1 (send_loop fuel ctx framed.0 framed.1 w))

  -- The request that `modbus_send_raw_request` hands to `send_msg`, of at least two bytes.
  unfoldable pub raw_request : Ctx → Buf → ℕ → Buf → Option (Buf × ℕ)
  raw_request ctx raw_req raw_req_length req = do
    slave ← read raw_req 0
    function ← read raw_req 1
    (req, req_length) ←
        build_response_basis ctx.backend (record { slave = slave; function = function; t_id = 0 })
          req
    if ltb 2 raw_req_length
        then (do
          req ← memcpy req req_length raw_req 2 (raw_req_length - 2)
          some (req, req_length + (raw_req_length - 2)))
        else some (req, req_length)

  -- `modbus_send_raw_request(ctx, raw_req, raw_req_length)`, with its array `req` of 260 bytes.
  unfoldable pub send_raw_request : ℕ → Ctx → Buf → ℕ → Buf → W → Run (Result ℕ × Buf × Ctx × W)
  unfolding raw_request send_msg
  send_raw_request fuel ctx raw_req raw_req_length req w =
      if ltb raw_req_length 2
      then finished (err einval, req, ctx, w)
      else and_then (lift (raw_request ctx raw_req raw_req_length req))
          (λ built. send_msg fuel ctx built.0 built.1 w)
