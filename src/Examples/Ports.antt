-- ===== src/Examples/Ports.antt =====
-- A serial port that takes all settings, and contexts on a heap.
use swift_lib_modbus.Prelude.{refl, List, [], ◌∷◌, Bool, true, false}
use swift_lib_modbus.Prelude.Int.{ℤ, pos, minus_one}
use swift_lib_modbus.Protocol.{ok}
use swift_lib_modbus.Context.{Ctx, rtu}
use swift_lib_modbus.Memory.{Buf}
use swift_lib_modbus.Serial.{Termios, no_termios, Serial, b9600, b19200, cs7, cs8}
use swift_lib_modbus.Serial.System.{IsSpeeds}
use swift_lib_modbus.Rtu.Settings.{Rtu, char_e}
use swift_lib_modbus.Rtu.Settings.Decode.{IsMadeFor, LineSettings, even, settings-IsMadeFor}
use swift_lib_modbus.Examples.Nets.{a_context, drop_last}

record World : Type 0 where
  fds : List ℤ
  terminal : Termios
  rts : Bool

abbrev port_system : Serial World
port_system = record {
  open_device = λ device w. (ok 4, record w { fds = pos 4 ∷ w.fds });
  close = λ s w. record w { fds = drop_last w.fds };
  cfsetispeed = λ t speed. ok (record t { ispeed = speed });
  cfsetospeed = λ t speed. ok (record t { ospeed = speed });
  tcgetattr = λ s t w. (ok 0, w.terminal, w);
  tcsetattr = λ s t w. (ok 0, record w { terminal = t });
  tcflush = λ s w. (ok 0, w);
  tiocmget = λ s w. (record { rts = w.rts; others = 0 }, w);
  tiocmset = λ s m w. record w { rts = m.rts };
  ioctl_rs485 = λ s b w. (ok 0, w);
  read = λ s n w. (ok (record { cap = 0; cell = λ k. 0 }), w);
  write = λ s req n w. (ok n, w);
  select_read = λ s tv w. (ok 0, tv, w);
  usleep = λ n w. w;
  sleep = λ t w. w;
}

abbrev fds_of : World → List ℤ
fds_of w = w.fds

abbrev terminal_of : World → Termios
terminal_of w = w.terminal

abbrev rts_of : World → Bool
rts_of w = w.rts

port-IsSpeeds : IsSpeeds port_system
port-IsSpeeds = record { sets_ispeed = λ t speed. refl; sets_ospeed = λ t speed. refl }

-- 19200 baud, 7 data bits, even parity, 1 stop bit.
abbrev pub a_port : Rtu
a_port = record {
  device = 47 ∷ 100 ∷ [];
  baud = pos 19200;
  data_bit = 7;
  stop_bit = 1;
  parity = char_e;
  old_tios = no_termios;
  serial_mode = pos 0;
}

abbrev a_line : LineSettings
a_line = record { speed = b19200; size = cs7; two_stop_bits = false; parity = even }

settings-IsMadeFor_example : IsMadeFor port_system a_port a_line
settings-IsMadeFor_example =
    settings-IsMadeFor port_system a_port a_line port-IsSpeeds
      (record { baud = refl; not_b0 = λ e. cc e; data_bit = refl; stop_bit = refl; parity = refl })

-- The terminal has been used with echo.
abbrev old : Termios
old = record no_termios { echo = true; csize = cs8; ispeed = b9600; ospeed = b9600 }

abbrev start : World
start = record { fds = []; terminal = old; rts = false }

abbrev pub rtu_context : Ctx
rtu_context = record (a_context minus_one) { backend = rtu; rts = 1 }

abbrev made_settings : Termios
made_settings = record no_termios {
  ispeed = b19200;
  ospeed = b19200;
  csize = cs7;
  cread = true;
  clocal = true;
  parenb = true;
  inpck = true;
}

abbrev opened : World
opened = record { fds = pos 4 ∷ []; terminal = made_settings; rts = false }

abbrev connected_context : Ctx
connected_context = record rtu_context { s = pos 4 }

abbrev connected_port : Rtu
connected_port = record a_port { old_tios = old }

abbrev two_bytes : Buf
two_bytes = record { cap = 2; cell = λ k. k }
