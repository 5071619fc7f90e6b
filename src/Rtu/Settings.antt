-- ===== src/Rtu/Settings.antt =====
-- The part of `_modbus_rtu_connect` of modbus-rtu.c that makes the settings of the port from those of
-- the context. The warning about an unknown speed is left out.
pub mod Decode
use swift_lib_modbus.Prelude.{ℕ, Bool, true, false, List, ◌==◌, if◌then◌else◌}
use swift_lib_modbus.Prelude.Int.{ℤ, pos, negsuc}
use swift_lib_modbus.Protocol.{Result, ok, err}
use swift_lib_modbus.Serial.{
  Speed, b110, b300, b600, b1200, b2400, b4800, b9600, b19200, b38400, b57600, b115200, CharSize,
  cs5, cs6, cs7, cs8, Termios, no_termios, Serial,
}

-- `modbus_rtu_t` without what Context has: a text by the codes of its characters, `data_bit` and
-- `stop_bit` as `uint8_t`, `parity` as the code of a character.
pub record Rtu : Type 0 where
  pub device : List ℕ
  pub baud : ℤ
  pub data_bit : ℕ
  pub stop_bit : ℕ
  pub parity : ℕ
  pub old_tios : Termios
  pub serial_mode : ℤ

-- 'N', 'E' and 'O'.
abbrev pub char_n : ℕ
char_n = 78

abbrev pub char_e : ℕ
char_e = 69

abbrev pub char_o : ℕ
char_o = 79

-- The `switch` on the speed.
unfoldable pub speed_of : ℤ → Speed
speed_of (negsuc n) = b9600
speed_of (pos n) =
    if n == 110
    then b110
    else if n == 300
    then b300
    else if n == 600
    then b600
    else if n == 1200
    then b1200
    else if n == 2400
    then b2400
    else if n == 4800
    then b4800
    else if n == 9600
    then b9600
    else if n == 19200
    then b19200
    else if n == 38400
    then b38400
    else if n == 57600
    then b57600
    else if n == 115200
    then b115200
    else b9600

-- The `switch` on the data bits.
unfoldable pub size_of : ℕ → CharSize
size_of data_bit =
    if data_bit == 5 then cs5 else if data_bit == 6 then cs6 else if data_bit == 7 then cs7 else cs8

-- PARENB and PARODD.
unfoldable pub set_parity : ℕ → Termios → Termios
set_parity parity tios = record tios {
  parenb = if parity == char_n then false else true;
  parodd = if parity == char_n then tios.parodd else if parity == char_e then false else true;
}

-- What follows the speeds, from `tios.c_cflag |= (CREAD | CLOCAL)` to `tios.c_cc[VTIME] = 0`.
unfoldable pub set_flags : Rtu → Termios → Termios
unfolding size_of set_parity
set_flags rtu tios =
    let tios = record tios { cread = true; clocal = true } in
    let tios = record tios { csize = size_of rtu.data_bit } in
    let tios = record tios { cstopb = if rtu.stop_bit == 1 then false else true } in
    let tios = set_parity rtu.parity tios in
    let tios = record tios { icanon = false; echo = false; echoe = false; isig = false } in
    let tios = record tios { inpck = if rtu.parity == char_n then false else true } in
    let tios = record tios { ixon = false; ixoff = false; ixany = false } in
    let tios = record tios { opost = false } in record tios { vmin = 0; vtime = 0 }

-- `cfsetispeed(&tios, speed) < 0 || cfsetospeed(&tios, speed) < 0`, or both speeds are set.
abbrev pub and_speed {ℓ} : {W : Type ℓ} → Serial W → Speed → Result Termios → Result Termios
and_speed sys speed (ok tios) = sys.cfsetospeed tios speed
and_speed sys speed (err e) = err e

unfoldable pub set_speeds {ℓ} : {W : Type ℓ} → Serial W → Speed → Termios → Result Termios
set_speeds sys speed tios = and_speed sys speed (sys.cfsetispeed tios speed)

abbrev pub with_flags : Rtu → Result Termios → Result Termios
with_flags rtu (ok tios) = ok (set_flags rtu tios)
with_flags rtu (err e) = err e

-- The settings of the port.
unfoldable pub settings {ℓ} : {W : Type ℓ} → Serial W → Rtu → Result Termios
unfolding set_speeds speed_of set_flags
settings sys rtu = with_flags rtu (set_speeds sys (speed_of rtu.baud) no_termios)
