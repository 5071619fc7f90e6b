-- ===== src/Rtu/Port/Mode.antt =====
-- What `modbus_rtu_set_serial_mode` of modbus-rtu.c changes.
use swift_lib_modbus.Prelude.{
  ℕ, ◌≡◌, refl, sym, subst, ap, ==_iff, ◌∙◌, inl, inr, Bool, true, false, ◌==◌, Bool-cases,
}
use swift_lib_modbus.Prelude.Int.{ℤ, pos, negsuc}
use swift_lib_modbus.Protocol.{Result, ok, err}
use swift_lib_modbus.Context.{Ctx, Backend, rtu, tcp, tcp_pi}
use swift_lib_modbus.Net.{on}
use swift_lib_modbus.Serial.{Serial}
use swift_lib_modbus.Rtu.Settings.{Rtu}
use swift_lib_modbus.Rtu.Port.{
  rs232, rs485, is_rs485, change_serial_mode, set_serial_mode_of, set_serial_mode, get_serial_mode,
}

-- Whether the port sends in the mode RS485.
abbrev mode_of : Bool → ℤ
mode_of false = rs232
mode_of true = rs485

module _ {ℓ} {W : Type ℓ} (sys : Serial W) (enabled : W → Bool) where
  -- What `ioctl` of TIOCSRS485 is documented to do.
  abbrev Switches : Bool → W → Result ℕ × W → Type 0
  Switches b w (ok rc, w') = enabled w' ≡ b
  Switches b w (err e, w') = enabled w' ≡ enabled w

  abbrev pub IsSwitch : Type ℓ
  IsSwitch = (s : ℤ) (b : Bool) (w : W) → Switches b w (sys.ioctl_rs485 s b w)

  -- The context and the port agree on the mode.
  abbrev pub InStep : Rtu → W → Type 0
  InStep port w = port.serial_mode ≡ mode_of (enabled w)

  -- The mode has been set and `modbus_rtu_get_serial_mode` returns it, or it is as before.
  abbrev pub IsSwitched : Ctx → Rtu → ℤ → Result ℕ × Rtu × W → Type 0
  IsSwitched ctx port mode (ok rc, port', w') =
      (get_serial_mode true ctx port' ≡ ok mode) × InStep port' w'
  IsSwitched ctx port mode (err e, port', w') = (port' ≡ port) × InStep port' w'

  done_after :
      (b : Bool) (ctx : Ctx) (port : Rtu) (w : W) (r : Result ℕ × W)
      → ctx.backend ≡ rtu
      → InStep port w
      → Switches b w r
      → IsSwitched ctx port (mode_of b) (
          on r
            (λ _ w. (ok 0, record port { serial_mode = mode_of b }, w))
            (λ e w. (err e, port, w)))
  unfolding get_serial_mode
  done_after b ctx port w (ok rc, w') is_rtu step switches = (rw is_rtu refl, rw switches refl)
  done_after b ctx port w (err no', w') is_rtu step switches = (refl, rw switches step)

  -- A port that is not in the mode RS485 is in step only if the mode is not enabled.
  stays_off :
      (port : Rtu) (b : Bool)
      → port.serial_mode ≡ mode_of b
      → is_rs485 port.serial_mode ≡ false
      → rs232 ≡ mode_of b
  stays_off port false e off = refl
  stays_off port true e off = cc (sym off ∙ ap is_rs485 e)

  to_rs232-IsSwitched :
      (ctx : Ctx) (port : Rtu) (w : W)
      → IsSwitch
      → ctx.backend ≡ rtu
      → InStep port w
      → IsSwitched ctx port rs232 (change_serial_mode sys ctx port rs232 w)
  unfolding change_serial_mode get_serial_mode
  to_rs232-IsSwitched ctx port w switch is_rtu step =
      elim (Bool-cases (is_rs485 port.serial_mode)) [
        | inl e ↦ rw e (
            done_after false ctx port w (sys.ioctl_rs485 ctx.s false w) is_rtu step
              (switch ctx.s false w))
        | inr e ↦ rw e (rw is_rtu refl, stays_off port (enabled w) step e)
      ]

  change_serial_mode-IsSwitched :
      (ctx : Ctx) (port : Rtu) (mode : ℤ) (w : W)
      → IsSwitch
      → ctx.backend ≡ rtu
      → InStep port w
      → IsSwitched ctx port mode (change_serial_mode sys ctx port mode w)
  unfolding change_serial_mode
  change_serial_mode-IsSwitched ctx port (negsuc n) w switch is_rtu step = (refl, step)
  change_serial_mode-IsSwitched ctx port (pos mode) w switch is_rtu step =
      elim (Bool-cases (mode == 1)) [
        | inl e ↦
            subst (λ m. IsSwitched ctx port (pos m) (change_serial_mode sys ctx port (pos m) w))
              (sym ((==_iff mode 1).0 e))
              (done_after true ctx port w (sys.ioctl_rs485 ctx.s true w) is_rtu step
                (switch ctx.s true w))
        | inr e ↦ elim (Bool-cases (mode == 0)) [
          | inl e' ↦
              subst (λ m. IsSwitched ctx port (pos m) (change_serial_mode sys ctx port (pos m) w))
                (sym ((==_iff mode 0).0 e')) (to_rs232-IsSwitched ctx port w switch is_rtu step)
          | inr e' ↦ rw (e, e') (refl, step)
        ]
      ]

  backend-IsSwitched :
      (b : Backend) (declared : Bool) (ctx : Ctx) (port : Rtu) (mode : ℤ) (w : W)
      → IsSwitch
      → ctx.backend ≡ b
      → declared ≡ true
      → InStep port w
      → IsSwitched ctx port mode (set_serial_mode_of sys b declared ctx port mode w)
  backend-IsSwitched rtu true ctx port mode w switch is has step =
      change_serial_mode-IsSwitched ctx port mode w switch is step
  backend-IsSwitched rtu false ctx port mode w switch is has step = (refl, step)
  backend-IsSwitched tcp declared ctx port mode w switch is has step = (refl, step)
  backend-IsSwitched tcp_pi declared ctx port mode w switch is has step = (refl, step)

  -- Where TIOCSRS485 is declared, `modbus_rtu_set_serial_mode` keeps the mode of the context the same
  -- as that of the port: it succeeds, and `modbus_rtu_get_serial_mode` returns the new mode, or it
  -- fails and both are as before.
  pub set_serial_mode-IsSwitched :
      (ctx : Ctx) (port : Rtu) (mode : ℤ) (w : W)
      → IsSwitch
      → InStep port w
      → IsSwitched ctx port mode (set_serial_mode sys true ctx port mode w)
  unfolding set_serial_mode
  set_serial_mode-IsSwitched ctx port mode w switch step =
      backend-IsSwitched ctx.backend true ctx port mode w switch refl refl step
