-- ===== src/Link.antt =====
-- The operations of `modbus_backend_t` that reach the line, as the code of modbus.c uses them:
-- each takes the state of the world and returns the state that it leaves.
pub mod Stream
use swift_lib_modbus.Prelude.{ℕ, Option}
use swift_lib_modbus.Protocol.{Result}
use swift_lib_modbus.Context.{Ctx, Timeval}
use swift_lib_modbus.Memory.{Buf}

-- A failure carries `errno`. `select` returns what is left of the time limit, which the system may
-- write to `*tv`; `recv` the bytes, at most as many as it is asked for, and an array of no bytes
-- when the other side has closed; `connect` changes the descriptor in the context also when it
-- fails. `sleep` is the loop over `nanosleep`.
pub record Link {ℓ} (W : Type ℓ) : Type ℓ where
  pub select : Ctx → Option Timeval → ℕ → W → Result (Option Timeval) × W
  pub recv : Ctx → ℕ → W → Result Buf × W
  pub send : Ctx → Buf → ℕ → W → Result ℕ × W
  pub flush : Ctx → W → Result ℕ × W
  pub close : Ctx → W → W
  pub connect : Ctx → W → Result ℕ × Ctx × W
  pub sleep : Timeval → W → W

-- `_sleep_and_flush`.
unfoldable pub sleep_and_flush {ℓ} : {W : Type ℓ} → Link W → Ctx → W → Result ℕ × W
sleep_and_flush link ctx w = link.flush ctx (link.sleep ctx.response_timeout w)

-- `modbus_close(ctx); modbus_connect(ctx);`, whose result is not used.
unfoldable pub reconnect {ℓ} : {W : Type ℓ} → Link W → Ctx → W → Ctx × W
reconnect link ctx w = let c = link.connect ctx (link.close ctx w) in (c.1, c.2)
