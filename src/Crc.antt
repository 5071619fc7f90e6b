-- ===== src/Crc.antt =====
-- `crc16` of modbus-rtu.c: the CRC of a message, by two tables.
pub mod Table
pub mod Reference
pub mod Bytes
pub mod Detect
use swift_lib_modbus.Prelude.{
  ℕ, zero, suc, ◌+◌, ◌*◌, Option, none, some, List, bit_or, bit_xor, get_or, ◌>>=◌,
}
use swift_lib_modbus.Memory.{Buf, read}
use Table.{table_crc_hi, table_crc_lo}

-- The two bytes of the register.
pub record Crc : Type 0 where
  pub crc_hi : ℕ
  pub crc_lo : ℕ

abbrev pub initial : Crc
initial = record { crc_hi = 0xff; crc_lo = 0xff }

-- The body of the loop at the byte `b`. The index is below 256, the length of the tables.
unfoldable pub crc_step : Crc → ℕ → Crc
unfolding table_crc_hi table_crc_lo
crc_step c b =
    let i = bit_xor c.crc_hi b in
    record { crc_hi = bit_xor c.crc_lo (get_or table_crc_hi i 0); crc_lo = get_or table_crc_lo i 0 }

-- The loop at `buffer + i` with `n` rounds left.
unfoldable pub crc_loop : Buf → ℕ → ℕ → Crc → Option Crc
crc_loop buffer zero i c = some c
crc_loop buffer (suc n) i c = do b ← read buffer i; crc_loop buffer n (i + 1) (crc_step c b)

abbrev pub crc_word : Crc → ℕ
crc_word c = bit_or (c.crc_hi * 256) c.crc_lo

-- `crc16(buffer, buffer_length)` for a length that fits `uint16_t`.
unfoldable pub crc16 : Buf → ℕ → Option ℕ
crc16 buffer buffer_length = do c ← crc_loop buffer buffer_length 0 initial; some (crc_word c)
