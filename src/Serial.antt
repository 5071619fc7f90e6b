-- ===== src/Serial.antt =====
-- The system calls for a serial port that modbus-rtu.c makes, as a record of operations on the state
-- `W` of the system, and `struct termios`. A failure carries `errno`.
pub mod System
use swift_lib_modbus.Prelude.{ℕ, Bool, false, Option, List}
use swift_lib_modbus.Prelude.Int.{ℤ}
use swift_lib_modbus.Protocol.{Result}
use swift_lib_modbus.Context.{Timeval}
use swift_lib_modbus.Memory.{Buf}

-- The constants of `speed_t`; `b0` is 0.
pub data Speed : Type 0 where
  b0 b110 b300 b600 b1200 b2400 b4800 b9600 b19200 b38400 b57600 b115200 : Speed

-- The values of the bits of CSIZE; `cs5` is 0.
pub data CharSize : Type 0 where
  cs5 cs6 cs7 cs8 : CharSize

-- The speeds, the bits of `c_cflag`, `c_lflag`, `c_iflag` and `c_oflag` that the code names, the other
-- bits, among them ISTRIP, INLCR, IGNCR, ICRNL, IGNPAR and PARMRK, and two of the control characters.
pub record Termios : Type 0 where
  pub ispeed : Speed
  pub ospeed : Speed
  pub csize : CharSize
  pub cread : Bool
  pub clocal : Bool
  pub cstopb : Bool
  pub parenb : Bool
  pub parodd : Bool
  pub icanon : Bool
  pub echo : Bool
  pub echoe : Bool
  pub isig : Bool
  pub inpck : Bool
  pub ixon : Bool
  pub ixoff : Bool
  pub ixany : Bool
  pub opost : Bool
  pub other_bits : ℕ
  pub vmin : ℕ
  pub vtime : ℕ

-- `memset(&tios, 0, sizeof(struct termios))`.
unfoldable pub no_termios : Termios
no_termios = record {
  ispeed = b0;
  ospeed = b0;
  csize = cs5;
  cread = false;
  clocal = false;
  cstopb = false;
  parenb = false;
  parodd = false;
  icanon = false;
  echo = false;
  echoe = false;
  isig = false;
  inpck = false;
  ixon = false;
  ixoff = false;
  ixany = false;
  opost = false;
  other_bits = 0;
  vmin = 0;
  vtime = 0;
}

-- The bits of a modem's status: TIOCM_RTS and the others.
pub record Modem : Type 0 where
  pub rts : Bool
  pub others : ℕ

-- `tcgetattr` is given the structure that it fills, which it leaves as it is when it fails;
-- `tiocmget` returns what is then in a variable that was not initialised. The results of these two, of
-- `tiocmset` and of `close` are not used. `ioctl_rs485` is `ioctl` of TIOCSRS485, with or without
-- SER_RS485_ENABLED. `sleep` is the loop over `nanosleep`.
pub record Serial {ℓ} (W : Type ℓ) : Type ℓ where
  pub open_device : List ℕ → W → Result ℕ × W
  pub close : ℤ → W → W
  pub cfsetispeed : Termios → Speed → Result Termios
  pub cfsetospeed : Termios → Speed → Result Termios
  pub tcgetattr : ℤ → Termios → W → Result ℕ × Termios × W
  pub tcsetattr : ℤ → Termios → W → Result ℕ × W
  pub tcflush : ℤ → W → Result ℕ × W
  pub tiocmget : ℤ → W → Modem × W
  pub tiocmset : ℤ → Modem → W → W
  pub ioctl_rs485 : ℤ → Bool → W → Result ℕ × W
  pub read : ℤ → ℕ → W → Result Buf × W
  pub write : ℤ → Buf → ℕ → W → Result ℕ × W
  pub select_read : ℤ → Option Timeval → W → Result ℕ × Option Timeval × W
  pub usleep : ℕ → W → W
  pub sleep : Timeval → W → W
