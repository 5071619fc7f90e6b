-- ===== src/Rtu/Port.antt =====
-- The functions of modbus-rtu.c that open, read, write and close the serial port. The debug output is
-- left out.
pub mod Rts
pub mod Mode
pub mod Connect
pub mod Line
use swift_lib_modbus.Prelude.{ℕ, Bool, true, false, not, Option, ◌==◌, if◌then◌else◌}
use swift_lib_modbus.Prelude.Int.{ℤ, pos, negsuc, minus_one}
use swift_lib_modbus.Protocol.{Errno, einval, enotsup, Result, ok, err}
use swift_lib_modbus.Context.{Ctx, Timeval, Backend, rtu, tcp, tcp_pi}
use swift_lib_modbus.Memory.{Buf}
use swift_lib_modbus.Fuel.{Run}
use swift_lib_modbus.Net.{on}
use swift_lib_modbus.Net.Wait.{select_loop}
use swift_lib_modbus.Serial.{Termios, Modem, Serial}
use swift_lib_modbus.Rtu.Settings.{Rtu, settings}

-- MODBUS_RTU_RTS_NONE, MODBUS_RTU_RTS_UP and MODBUS_RTU_RTS_DOWN.
abbrev pub rts_none : ℕ
rts_none = 0

abbrev pub rts_up : ℕ
rts_up = 1

abbrev pub rts_down : ℕ
rts_down = 2

-- MODBUS_RTU_RS232 and MODBUS_RTU_RS485.
abbrev pub rs232 : ℤ
rs232 = pos 0

abbrev pub rs485 : ℤ
rs485 = pos 1

-- _MODBUS_RTU_TIME_BETWEEN_RTS_SWITCH, in microseconds.
abbrev pub time_between_rts_switch : ℕ
time_between_rts_switch = 10000

abbrev pub is_rts_mode : ℕ → Bool
is_rts_mode mode =
    if mode == rts_none then true else if mode == rts_up then true else mode == rts_down

abbrev pub is_rs485 : ℤ → Bool
is_rs485 (pos n) = n == 1
is_rs485 (negsuc n) = false

module _ {ℓ} {W : Type ℓ} (sys : Serial W) where
  -- `close(ctx->s); ctx->s = -1; return -1;`.
  abbrev close_and_fail : Ctx → Rtu → Errno → W → Result ℕ × Ctx × Rtu × W
  close_and_fail ctx port e w = (err e, record ctx { s = minus_one }, port, sys.close ctx.s w)

  -- After the settings are made: they are set, or the port is closed.
  abbrev pub apply_settings : Ctx → Rtu → Result Termios → W → Result ℕ × Ctx × Rtu × W
  apply_settings ctx port (err e) w = close_and_fail ctx port e w
  apply_settings ctx port (ok tios) w =
      on (sys.tcsetattr ctx.s tios w) (λ _ w. (ok 0, ctx, port, w))
        (λ e w. close_and_fail ctx port e w)

  -- After the port is opened: its settings are saved before they are changed.
  abbrev pub set_up_port : Ctx → Rtu → W → Result ℕ × Ctx × Rtu × W
  set_up_port ctx port w =
      let saved = sys.tcgetattr ctx.s port.old_tios w in
      let port' : Rtu = record port { old_tios = saved.1 } in
      apply_settings ctx port' (settings sys port') saved.2

  -- `_modbus_rtu_connect`.
  unfoldable pub rtu_connect : Ctx → Rtu → W → Result ℕ × Ctx × Rtu × W
  rtu_connect ctx port w =
      on (sys.open_device port.device w) (λ fd w. set_up_port (record ctx { s = pos fd }) port w)
        (λ e w. (err e, record ctx { s = minus_one }, port, w))

  -- `_modbus_rtu_close`.
  unfoldable pub rtu_close : Ctx → Rtu → W → W
  rtu_close ctx port w = sys.close ctx.s (sys.tcsetattr ctx.s port.old_tios w).1

  -- `_modbus_rtu_flush`.
  unfoldable pub rtu_flush : Ctx → W → Result ℕ × W
  rtu_flush ctx w = sys.tcflush ctx.s w

  -- `_modbus_rtu_select`, on fuel.
  unfoldable pub rtu_select : ℕ → Ctx → Option Timeval → W → Run (Result (Option Timeval) × W)
  rtu_select fuel ctx tv w = select_loop sys.select_read fuel ctx.s tv w

  -- `_modbus_rtu_recv`.
  unfoldable pub rtu_recv : Ctx → ℕ → W → Result Buf × W
  rtu_recv ctx rsp_length w = sys.read ctx.s rsp_length w

  -- `_modbus_rtu_ioctl_rts`.
  unfoldable pub ioctl_rts : ℤ → Bool → W → W
  ioctl_rts fd switch_on w =
      let flags = sys.tiocmget fd w in sys.tiocmset fd (record flags.0 { rts = switch_on }) flags.1

  -- `_modbus_rtu_send`.
  unfoldable pub rtu_send : Ctx → Buf → ℕ → W → Result ℕ × W
  unfolding ioctl_rts
  rtu_send ctx req req_length w =
      if ctx.rts == rts_none
      then sys.write ctx.s req req_length w
      else (let w = ioctl_rts ctx.s (ctx.rts == rts_up) w in
          let w = sys.usleep time_between_rts_switch w in
          let size = sys.write ctx.s req req_length w in
          let w = sys.usleep time_between_rts_switch size.1 in
          (size.0, ioctl_rts ctx.s (not (ctx.rts == rts_up)) w))

  abbrev pub set_rts_mode : Ctx → ℤ → W → Result ℕ × Ctx × W
  set_rts_mode ctx (negsuc n) w = (err einval, ctx, w)
  set_rts_mode ctx (pos mode) w =
      if is_rts_mode mode
      then (ok 0, record ctx { rts = mode }, ioctl_rts ctx.s (not (mode == rts_up)) w)
      else (err einval, ctx, w)

  abbrev pub set_rts_of : Backend → Ctx → ℤ → W → Result ℕ × Ctx × W
  set_rts_of rtu ctx mode w = set_rts_mode ctx mode w
  set_rts_of tcp ctx mode w = (err einval, ctx, w)
  set_rts_of tcp_pi ctx mode w = (err einval, ctx, w)

  -- `modbus_rtu_set_rts`.
  unfoldable pub set_rts : Ctx → ℤ → W → Result ℕ × Ctx × W
  unfolding ioctl_rts
  set_rts ctx mode w = set_rts_of ctx.backend ctx mode w

  -- `modbus_rtu_set_serial_mode` of the RTU backend, where TIOCSRS485 is declared.
  unfoldable pub change_serial_mode : Ctx → Rtu → ℤ → W → Result ℕ × Rtu × W
  change_serial_mode ctx port (negsuc n) w = (err einval, port, w)
  change_serial_mode ctx port (pos mode) w =
      let port' : Rtu = record port { serial_mode = pos mode } in
      if mode == 1
      then on (sys.ioctl_rs485 ctx.s true w) (λ _ w. (ok 0, port', w)) (λ e w. (err e, port, w))
      else if mode == 0
      then if is_rs485 port.serial_mode
        then on (sys.ioctl_rs485 ctx.s false w) (λ _ w. (ok 0, port', w)) (λ e w. (err e, port, w))
        else (ok 0, port', w)
      else (err einval, port, w)

  abbrev pub set_serial_mode_of : Backend → Bool → Ctx → Rtu → ℤ → W → Result ℕ × Rtu × W
  set_serial_mode_of rtu true ctx port mode w = change_serial_mode ctx port mode w
  set_serial_mode_of rtu false ctx port mode w = (err enotsup, port, w)
  set_serial_mode_of tcp declared ctx port mode w = (err einval, port, w)
  set_serial_mode_of tcp_pi declared ctx port mode w = (err einval, port, w)

  -- `modbus_rtu_set_serial_mode`, where HAVE_DECL_TIOCSRS485 is or is not set.
  unfoldable pub set_serial_mode : Bool → Ctx → Rtu → ℤ → W → Result ℕ × Rtu × W
  unfolding change_serial_mode
  set_serial_mode declared ctx port mode w = set_serial_mode_of ctx.backend declared ctx port mode w

abbrev pub get_rts_of : Backend → ℕ → Result ℕ
get_rts_of rtu mode = ok mode
get_rts_of tcp mode = err einval
get_rts_of tcp_pi mode = err einval

-- `modbus_rtu_get_rts`.
unfoldable pub get_rts : Ctx → Result ℕ
get_rts ctx = get_rts_of ctx.backend ctx.rts

abbrev pub get_serial_mode_of : Backend → Bool → ℤ → Result ℤ
get_serial_mode_of rtu true mode = ok mode
get_serial_mode_of rtu false mode = err enotsup
get_serial_mode_of tcp declared mode = err einval
get_serial_mode_of tcp_pi declared mode = err einval

-- `modbus_rtu_get_serial_mode`.
unfoldable pub get_serial_mode : Bool → Ctx → Rtu → Result ℤ
get_serial_mode declared ctx port = get_serial_mode_of ctx.backend declared port.serial_mode
