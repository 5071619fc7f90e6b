-- ===== src/Rtu/Port/Rts.antt =====
-- What the functions of modbus-rtu.c do with the signal RTS of the line.
use swift_lib_modbus.Prelude.{ℕ, ◌≡◌, ◌≤◌, ◌<◌, refl, arith, inl, inr, Bool, not, ◌==◌, Bool-cases}
use swift_lib_modbus.Prelude.Int.{ℤ, pos, negsuc}
use swift_lib_modbus.Protocol.{einval, Result, ok, err}
use swift_lib_modbus.Context.{Ctx, Backend, rtu, tcp, tcp_pi}
use swift_lib_modbus.Memory.{Buf}
use swift_lib_modbus.Serial.{Modem, Serial}
use swift_lib_modbus.Rtu.Port.{
  rts_up, is_rts_mode, ioctl_rts, set_rts_mode, set_rts_of, set_rts, get_rts,
}

module _ {ℓ} {W : Type ℓ} (sys : Serial W) (line : W → Bool) where
  -- What the system is documented to do with the signal.
  pub record IsRtsLine : Type ℓ where
    pub get_keeps : (s : ℤ) (w : W) → line (sys.tiocmget s w).1 ≡ line w
    pub sets : (s : ℤ) (m : Modem) (w : W) → line (sys.tiocmset s m w) ≡ m.rts
    pub usleep_keeps : (n : ℕ) (w : W) → line (sys.usleep n w) ≡ line w
    pub write_keeps : (s : ℤ) (req : Buf) (n : ℕ) (w : W) → line (sys.write s req n w).1 ≡ line w

  ioctl_rts-line : (s : ℤ) (b : Bool) (w : W) → IsRtsLine → line (ioctl_rts sys s b w) ≡ b
  unfolding ioctl_rts
  ioctl_rts-line s b w laws =
      laws.sets s (record (sys.tiocmget s w).0 { rts = b }) (sys.tiocmget s w).1

  -- The request is written while RTS is in the state `during`, which is left afterwards.
  pub record IsWritten (ctx : Ctx) (req : Buf) (n : ℕ) (during : Bool) (sent : Result ℕ × W)
      : Type ℓ where
    pub world : W
    pub in_state : line world ≡ during
    pub result : sent.0 ≡ (sys.write ctx.s req n world).0
    pub left : line sent.1 ≡ not during

  -- The mode is one that `modbus_rtu_set_rts` takes.
  abbrev pub IsMode : ℤ → ℕ → Type 0
  IsMode mode n = (mode ≡ pos n) × (n ≤ 2)

  -- `modbus_rtu_set_rts` has set the mode, which `modbus_rtu_get_rts` returns, and put RTS in the state
  -- that does not reserve the bus; or it has changed nothing, the context is one of TCP or the mode
  -- is none of the three, and `errno` is EINVAL.
  abbrev pub IsChosen : Ctx → ℤ → W → Result ℕ × Ctx × W → Type ℓ
  IsChosen ctx mode w (ok rc, ctx', w') =
      (get_rts ctx' ≡ ok ctx'.rts)
      × (mode ≡ pos ctx'.rts)
      × (ctx'.rts ≤ 2)
      × (line w' ≡ not (ctx'.rts == rts_up))
      × (w' ≡ ioctl_rts sys ctx.s (not (ctx'.rts == rts_up)) w)
  IsChosen ctx mode w (err e, ctx', w') =
      (e ≡ einval)
      × (ctx' ≡ ctx)
      × (w' ≡ w)
      × ((ctx.backend ≡ rtu) → (n : ℕ) → mode ≡ pos n → 2 < n)

  mode-IsChosen :
      (ctx : Ctx) (mode : ℤ) (w : W)
      → IsRtsLine
      → ctx.backend ≡ rtu
      → IsChosen ctx mode w (set_rts_mode sys ctx mode w)
  unfolding get_rts
  mode-IsChosen ctx (negsuc n) w laws is_rtu = (refl, refl, refl, λ _ n e. cc e)
  mode-IsChosen ctx (pos mode) w laws is_rtu = elim (Bool-cases (is_rts_mode mode)) [
    | inl e ↦ rw e (
      rw is_rtu refl,
      refl,
      ground (arith, e),
      ioctl_rts-line ctx.s (not (mode == rts_up)) w laws,
      refl,
    )
    | inr e ↦ rw e (refl, refl, refl, λ _ n same. ground (arith, e, same))
  ]

  backend-IsChosen :
      (b : Backend) (ctx : Ctx) (mode : ℤ) (w : W)
      → IsRtsLine
      → ctx.backend ≡ b
      → IsChosen ctx mode w (set_rts_of sys b ctx mode w)
  backend-IsChosen rtu ctx mode w laws is = mode-IsChosen ctx mode w laws is
  backend-IsChosen tcp ctx mode w laws is = (refl, refl, refl, λ e. cc (e, is))
  backend-IsChosen tcp_pi ctx mode w laws is = (refl, refl, refl, λ e. cc (e, is))

  -- `modbus_rtu_set_rts` of a context of RTU with one of the three modes succeeds; then
  -- `modbus_rtu_get_rts` returns the mode, and RTS is up unless the mode is UP, so that the bus is
  -- free. In all other cases it fails with EINVAL and changes nothing.
  pub set_rts-IsChosen :
      (ctx : Ctx) (mode : ℤ) (w : W) → IsRtsLine → IsChosen ctx mode w (set_rts sys ctx mode w)
  unfolding set_rts
  set_rts-IsChosen ctx mode w laws = backend-IsChosen ctx.backend ctx mode w laws refl
