-- ===== src/Listen.antt =====
-- `modbus_receive` and `modbus_receive_confirmation` of modbus.c, and the backends' `receive`.
use swift_lib_modbus.Prelude.{ℕ, zero, suc, true, false, if◌then◌else◌}
use swift_lib_modbus.Protocol.{indication, confirmation, Result, ok, err}
use swift_lib_modbus.Context.{Ctx, Backend, rtu, tcp, tcp_pi}
use swift_lib_modbus.Memory.{Buf}
use swift_lib_modbus.Link.{Link}
use swift_lib_modbus.Fuel.{Run, finished, and_then}
use swift_lib_modbus.Receive.{receive_msg}

module _ {ℓ} {W : Type ℓ} (link : Link W) (fuel : ℕ) where
  -- The confirmation of a request to another slave: whatever comes is ignored, and the flag is reset.
  abbrev ignore : Result ℕ × Buf × Ctx × W → Run (Result ℕ × Buf × Ctx × W)
  ignore (r, msg, ctx, w) = finished (ok 0, msg, record ctx { confirmation_to_ignore = false }, w)

  -- After a request to another slave, the next message is its confirmation.
  abbrev expect : Result ℕ × Buf × Ctx × W → Run (Result ℕ × Buf × Ctx × W)
  expect (ok zero, msg, ctx, w) =
      finished (ok 0, msg, record ctx { confirmation_to_ignore = true }, w)
  expect (ok (suc n), msg, ctx, w) = finished (ok (suc n), msg, ctx, w)
  expect (err e, msg, ctx, w) = finished (err e, msg, ctx, w)

  -- `_modbus_rtu_receive`.
  unfoldable pub rtu_receive : Ctx → Buf → W → Run (Result ℕ × Buf × Ctx × W)
  rtu_receive ctx req w =
      if ctx.confirmation_to_ignore
      then and_then (receive_msg link fuel ctx req confirmation w) ignore
      else and_then (receive_msg link fuel ctx req indication w) expect

  abbrev receive_by : Backend → Ctx → Buf → W → Run (Result ℕ × Buf × Ctx × W)
  receive_by rtu ctx req w = rtu_receive ctx req w
  receive_by tcp ctx req w = receive_msg link fuel ctx req indication w
  receive_by tcp_pi ctx req w = receive_msg link fuel ctx req indication w

  -- `modbus_receive`.
  unfoldable pub receive : Ctx → Buf → W → Run (Result ℕ × Buf × Ctx × W)
  unfolding rtu_receive
  receive ctx req w = receive_by ctx.backend ctx req w

  -- `modbus_receive_confirmation`.
  unfoldable pub receive_confirmation : Ctx → Buf → W → Run (Result ℕ × Buf × Ctx × W)
  receive_confirmation ctx rsp w = receive_msg link fuel ctx rsp confirmation w
