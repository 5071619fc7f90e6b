-- ===== src/Rtu/Settings/Decode.antt =====
-- The settings that `_modbus_rtu_connect` of modbus-rtu.c makes, read back as what they say of the
-- line.
use swift_lib_modbus.Prelude.{ℕ, ◌≡◌, ◌≢◌, refl, sym, subst, Bool, true, false, ◌==◌, if◌then◌else◌}
use swift_lib_modbus.Prelude.Int.{pos}
use swift_lib_modbus.Protocol.{ok}
use swift_lib_modbus.Serial.{
  Speed, b0, b110, b300, b600, b1200, b2400, b4800, b9600, b19200, b38400, b57600, b115200,
  CharSize, cs5, cs6, cs7, cs8, Termios, no_termios, Serial,
}
use swift_lib_modbus.Serial.System.{IsSpeeds}
use swift_lib_modbus.Rtu.Settings.{
  Rtu, char_n, char_e, char_o, speed_of, size_of, set_parity, set_flags, set_speeds, settings,
}

pub data Parity : Type 0 where
  no_parity even odd : Parity

-- The line: its speed, the bits of a character, whether there are two stop bits, and the parity.
pub record LineSettings : Type 0 where
  pub speed : Speed
  pub size : CharSize
  pub two_stop_bits : Bool
  pub parity : Parity

abbrev pub baud_of : Speed → ℕ
baud_of b0 = 0
baud_of b110 = 110
baud_of b300 = 300
baud_of b600 = 600
baud_of b1200 = 1200
baud_of b2400 = 2400
baud_of b4800 = 4800
baud_of b9600 = 9600
baud_of b19200 = 19200
baud_of b38400 = 38400
baud_of b57600 = 57600
baud_of b115200 = 115200

abbrev pub bits_of : CharSize → ℕ
bits_of cs5 = 5
bits_of cs6 = 6
bits_of cs7 = 7
bits_of cs8 = 8

abbrev pub char_of : Parity → ℕ
char_of no_parity = char_n
char_of even = char_e
char_of odd = char_o

abbrev pub stop_bits_of : Bool → ℕ
stop_bits_of two_stop_bits = if two_stop_bits then 2 else 1

-- What the manual of termios says that the bits mean.
abbrev pub parity_of : Bool → Bool → Parity
parity_of false parodd = no_parity
parity_of true false = even
parity_of true true = odd

unfoldable pub decode : Termios → LineSettings
decode tios = record {
  speed = tios.ospeed;
  size = tios.csize;
  two_stop_bits = tios.cstopb;
  parity = parity_of tios.parenb tios.parodd;
}

-- Bytes come and go as they are: no lines, no echo, no signals, no flow control by characters, no
-- processing of output, and none of the bits that the code does not name, so that nothing is stripped
-- from a character and no line feed or carriage return is changed or dropped. The parity of what comes
-- in is checked if there is one. A read returns at once with what is there.
pub record IsRaw (tios : Termios) : Type 0 where
  pub receives : tios.cread ≡ true
  pub is_local : tios.clocal ≡ true
  pub not_lines : tios.icanon ≡ false
  pub no_echo : tios.echo ≡ false
  pub no_signals : tios.isig ≡ false
  pub no_xon : tios.ixon ≡ false
  pub no_xoff : tios.ixoff ≡ false
  pub no_restart : tios.ixany ≡ false
  pub no_erase : tios.echoe ≡ false
  pub nothing_else : tios.other_bits ≡ 0
  pub reads_at_once : (tios.vmin ≡ 0) × (tios.vtime ≡ 0)
  pub no_processing : tios.opost ≡ false
  pub same_speed : tios.ispeed ≡ tios.ospeed
  pub checks_parity : tios.inpck ≡ tios.parenb

-- The context asks for these settings.
pub record IsAsked (rtu : Rtu) (line : LineSettings) : Type 0 where
  pub baud : rtu.baud ≡ pos (baud_of line.speed)
  pub not_b0 : line.speed ≢ b0
  pub data_bit : rtu.data_bit ≡ bits_of line.size
  pub stop_bit : rtu.stop_bit ≡ stop_bits_of line.two_stop_bits
  pub parity : rtu.parity ≡ char_of line.parity

speed_of-baud_of : (speed : Speed) → speed ≢ b0 → speed_of (pos (baud_of speed)) ≡ speed
unfolding speed_of
speed_of-baud_of b0 not_b0 = absurd (not_b0 refl)
speed_of-baud_of b110 not_b0 = refl
speed_of-baud_of b300 not_b0 = refl
speed_of-baud_of b600 not_b0 = refl
speed_of-baud_of b1200 not_b0 = refl
speed_of-baud_of b2400 not_b0 = refl
speed_of-baud_of b4800 not_b0 = refl
speed_of-baud_of b9600 not_b0 = refl
speed_of-baud_of b19200 not_b0 = refl
speed_of-baud_of b38400 not_b0 = refl
speed_of-baud_of b57600 not_b0 = refl
speed_of-baud_of b115200 not_b0 = refl

-- The settings that are made.
abbrev made : Rtu → Termios
made rtu =
    set_flags rtu (record no_termios { ispeed = speed_of rtu.baud; ospeed = speed_of rtu.baud })

made-returned {ℓ} :
    {W : Type ℓ} (sys : Serial W) (rtu : Rtu) → IsSpeeds sys → settings sys rtu ≡ ok (made rtu)
unfolding settings set_speeds
made-returned sys rtu laws =
    rw
      (
        laws.sets_ispeed no_termios (speed_of rtu.baud),
        laws.sets_ospeed (record no_termios { ispeed = speed_of rtu.baud }) (speed_of rtu.baud),
      )
      refl

-- The fields, for a context that has them all as they are asked for.
abbrev asked_rtu : Rtu → LineSettings → Rtu
asked_rtu rtu line = record rtu {
  baud = pos (baud_of line.speed);
  data_bit = bits_of line.size;
  stop_bit = stop_bits_of line.two_stop_bits;
  parity = char_of line.parity;
}

decode-size : (size : CharSize) → size_of (bits_of size) ≡ size
unfolding size_of
decode-size cs5 = refl
decode-size cs6 = refl
decode-size cs7 = refl
decode-size cs8 = refl

-- The settings decode to what was asked for.
pub record IsDecoded (line : LineSettings) (tios : Termios) : Type 0 where
  pub decodes : decode tios ≡ line
  pub raw : IsRaw tios

two_stop-stop_bits_of : (b : Bool) → (if stop_bits_of b == 1 then false else true) ≡ b
two_stop-stop_bits_of true = refl
two_stop-stop_bits_of false = refl

decoded_by :
    (line : LineSettings) (tios : Termios)
    → tios.ospeed ≡ line.speed
    → tios.csize ≡ line.size
    → tios.cstopb ≡ line.two_stop_bits
    → parity_of tios.parenb tios.parodd ≡ line.parity
    → decode tios ≡ line
unfolding decode
decoded_by line tios a b c d =
    λ i. record { speed = a i; size = b i; two_stop_bits = c i; parity = d i }

decode-parity :
    (parity : Parity)
    → parity_of
        (set_parity (char_of parity) no_termios).parenb
        (set_parity (char_of parity) no_termios).parodd
      ≡ parity
unfolding set_parity no_termios
decode-parity no_parity = refl
decode-parity even = refl
decode-parity odd = refl

asked-IsDecoded :
    (rtu : Rtu) (line : LineSettings) → line.speed ≢ b0 → IsDecoded line (made (asked_rtu rtu line))
unfolding set_flags set_parity no_termios
asked-IsDecoded rtu line not_b0 = record {
  decodes =
      decoded_by line _ (speed_of-baud_of line.speed not_b0) (decode-size line.size)
        (two_stop-stop_bits_of line.two_stop_bits) (decode-parity line.parity);
  raw = record {
    receives = refl;
    is_local = refl;
    not_lines = refl;
    no_echo = refl;
    no_signals = refl;
    no_xon = refl;
    no_xoff = refl;
    no_restart = refl;
    no_erase = refl;
    nothing_else = refl;
    reads_at_once = (refl, refl);
    no_processing = refl;
    same_speed = refl;
    checks_parity = refl;
  };
}

pub asked_rtu-same : (rtu : Rtu) (line : LineSettings) → IsAsked rtu line → asked_rtu rtu line ≡ rtu
asked_rtu-same rtu line asked = sym (λ i. record rtu {
  baud = asked.baud i;
  data_bit = asked.data_bit i;
  stop_bit = asked.stop_bit i;
  parity = asked.parity i;
})

-- The settings are made, and decode to what the context asks for.
pub record IsMadeFor {ℓ} {W : Type ℓ} (sys : Serial W) (rtu : Rtu) (line : LineSettings)
    : Type 0 where
  pub tios : Termios
  pub returns : settings sys rtu ≡ ok tios
  pub decoded : IsDecoded line tios

-- A context with a speed of the table, 5 to 8 data bits, 1 or 2 stop bits and the parity 'N', 'E' or
-- 'O' gets settings that say exactly this of the line, in both directions, and let bytes pass as
-- they are.
pub settings-IsMadeFor {ℓ} :
    {W : Type ℓ} (sys : Serial W) (rtu : Rtu) (line : LineSettings)
    → IsSpeeds sys
    → IsAsked rtu line
    → IsMadeFor sys rtu line
settings-IsMadeFor sys rtu line laws asked = record {
  tios = made rtu;
  returns = made-returned sys rtu laws;
  decoded =
      subst (λ r. IsDecoded line (made r)) (asked_rtu-same rtu line asked)
        (asked-IsDecoded rtu line asked.not_b0);
}
