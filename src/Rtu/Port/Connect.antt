-- ===== src/Rtu/Port/Connect.antt =====
-- What `_modbus_rtu_connect` and `_modbus_rtu_close` of modbus-rtu.c leave behind: the open
-- descriptors and the settings of the terminal.
use swift_lib_modbus.Prelude.{ℕ, ◌≡◌, List, ◌∷◌}
use swift_lib_modbus.Prelude.Int.{ℤ, pos, minus_one}
use swift_lib_modbus.Protocol.{Result, ok, err}
use swift_lib_modbus.Context.{Ctx}
use swift_lib_modbus.Net.{on}
use swift_lib_modbus.Serial.{Termios, Serial}
use swift_lib_modbus.Serial.System.{IsPort}
use swift_lib_modbus.Rtu.Settings.{Rtu, settings}

module _ {ℓ} {W : Type ℓ} (sys : Serial W) (fds : W → List ℤ) (terminal : W → Termios)
    (laws : IsPort sys fds terminal) (l : List ℤ) (before : Termios) where
  -- The result of the call of `tcgetattr` at the descriptor that is opened.
  abbrev pub got : Rtu → W → Result ℕ
  got port w =
      on (sys.open_device port.device w) (λ fd w'. (sys.tcgetattr (pos fd) port.old_tios w').0)
        (λ e w'. err e)

  -- If `tcgetattr` has succeeded the settings are those from before; if not, they are those that the
  -- context had in its place for them.
  abbrev pub IsSaved : Termios → Result ℕ → Termios → Type 0
  IsSaved kept (ok rc) t = t ≡ before
  IsSaved kept (err e) t = t ≡ kept

  -- The port is open with its own settings, and `old_tios` is as it says; or the port is closed, the
  -- context has no descriptor, and the settings are as before.
  abbrev pub IsSetUp : (Termios → Type 0) → Result ℕ × Ctx × Rtu × W → Type 0
  IsSetUp Saves (ok rc, ctx, port, w) =
      (fds w ≡ ctx.s ∷ l) × Saves port.old_tios × (settings sys port ≡ ok (terminal w))
  IsSetUp Saves (err e, ctx, port, w) = (fds w ≡ l) × (ctx.s ≡ minus_one) × (terminal w ≡ before)
