-- ===== src/Tcp/Stream.antt =====
-- The functions of modbus-tcp.c that read and write a connected socket: `_modbus_tcp_send`,
-- `_modbus_tcp_recv`, `_modbus_tcp_flush` and `_modbus_tcp_select`, and the operations of a backend
-- that they make.
pub mod Flush
pub mod Line
pub mod Message
use swift_lib_modbus.Prelude.{
  ℕ, zero, suc, ◌+◌, ◌<◌, true, false, Bool, Option, ◌==◌, if◌then◌else◌,
}
use swift_lib_modbus.Prelude.Int.{ℤ}
use swift_lib_modbus.Protocol.{Result, ok, err}
use swift_lib_modbus.Context.{Ctx, Timeval}
use swift_lib_modbus.Memory.{Buf}
use swift_lib_modbus.Fuel.{Run, out_of_fuel, finished}
use swift_lib_modbus.Net.{Sockets}
use swift_lib_modbus.Net.Wait.{select_loop}

-- MODBUS_TCP_MAX_ADU_LENGTH.
abbrev pub max_tcp_length : ℕ
max_tcp_length = 260

module _ {ℓ} {W : Type ℓ} {A : Type 0} (sys : Sockets W A) where
  -- `_modbus_tcp_send`.
  unfoldable pub tcp_send : Ctx → Buf → ℕ → W → Result ℕ × W
  tcp_send ctx req req_length w = sys.send ctx.s req req_length w

  -- `_modbus_tcp_recv`.
  unfoldable pub tcp_recv : Ctx → ℕ → W → Result Buf × W
  tcp_recv ctx rsp_length w = sys.recv ctx.s rsp_length false w

  -- `_modbus_tcp_select`, on fuel.
  unfoldable pub tcp_select : ℕ → Ctx → Option Timeval → W → Run (Result (Option Timeval) × W)
  tcp_select fuel ctx tv w = select_loop sys.select_read fuel ctx.s tv w

  -- A round of the loop of `_modbus_tcp_flush`, and the others if this one has filled the array.
  abbrev pub flush_round : (ℕ → W → Run (Result ℕ × W)) → ℕ → Result Buf × W → Run (Result ℕ × W)
  flush_round rounds rc_sum (err e, w) = finished (ok rc_sum, w)
  flush_round rounds rc_sum (ok devnull, w) =
      if devnull.cap == max_tcp_length
      then rounds (rc_sum + devnull.cap) w
      else finished (ok (rc_sum + devnull.cap), w)

  unfoldable pub flush_loop : ℕ → ℤ → ℕ → W → Run (Result ℕ × W)
  flush_loop zero s rc_sum w = out_of_fuel
  flush_loop (suc fuel) s rc_sum w =
      flush_round (flush_loop fuel s) rc_sum (sys.recv s max_tcp_length true w)

  -- `_modbus_tcp_flush`, on fuel.
  unfoldable pub tcp_flush : ℕ → Ctx → W → Run (Result ℕ × W)
  unfolding flush_loop
  tcp_flush fuel ctx w = flush_loop fuel ctx.s 0 w
