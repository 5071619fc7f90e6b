-- ===== src/Data.antt =====
-- modbus-data.c: bits, bytes and floats in tables.
pub mod Bits
use swift_lib_modbus.Prelude.{
  ℕ, zero, suc, ◌+◌, ◌-◌, ◌*◌, ◌/◌, ◌%◌, ◌^◌, Option, none, some, bit_and, bit_or, not, ltb, ◌==◌,
  if◌then◌else◌, ◌>>=◌,
}
use swift_lib_modbus.Memory.{Buf, read, write, write_mod, write16}

-- `(value & (1 << i)) ? 1 : 0`.
abbrev pub truth_of_bit : ℕ → ℕ → ℕ
truth_of_bit value i = if not (bit_and value (1 * 2 ^ i) == 0) then 1 else 0

-- The loop of `modbus_set_bits_from_byte` at `i`, with `left` rounds to go.
unfoldable pub set_byte_loop : Buf → ℕ → ℕ → ℕ → ℕ → Option Buf
set_byte_loop dest index value zero i = some dest
set_byte_loop dest index value (suc left) i = do
  dest' ← write dest (index + i) (truth_of_bit value i)
  set_byte_loop dest' index value left (i + 1)

-- `modbus_set_bits_from_byte`.
unfoldable pub set_bits_from_byte : Buf → ℕ → ℕ → Option Buf
unfolding set_byte_loop
set_bits_from_byte dest index value = set_byte_loop dest index value 8 0

-- The loop of `modbus_set_bits_from_bytes` at `dest[index + k]`, with `left` rounds to go. The bytes
-- are at `tab_byte + start`.
unfoldable pub set_bits_loop : Buf → ℕ → Buf → ℕ → ℕ → ℕ → ℕ → Option Buf
set_bits_loop dest index tab_byte start zero k shift = some dest
set_bits_loop dest index tab_byte start (suc left) k shift = do
  b ← read tab_byte (start + k / 8)
  dest' ← write dest (index + k) (truth_of_bit b shift)
  set_bits_loop dest' index tab_byte start left (k + 1) ((shift + 1) % 8)

-- `modbus_set_bits_from_bytes(dest, index, nb_bits, tab_byte + start)`.
unfoldable pub set_bits_from_bytes : Buf → ℕ → ℕ → Buf → ℕ → Option Buf
set_bits_from_bytes dest index nb_bits tab_byte start =
    set_bits_loop dest index tab_byte start nb_bits 0 0

-- The loop of `modbus_get_byte_from_bits`: `value` is a `uint8_t`.
unfoldable pub get_byte_loop : Buf → ℕ → ℕ → ℕ → ℕ → Option ℕ
get_byte_loop src index zero i value = some value
get_byte_loop src index (suc left) i value = do
  b ← read src (index + i)
  get_byte_loop src index left (i + 1) (bit_or value (b * 2 ^ i) % 256)

-- `modbus_get_byte_from_bits`. More than 8 bits fail the assertion.
unfoldable pub get_byte_from_bits : Buf → ℕ → ℕ → Option ℕ
unfolding get_byte_loop
get_byte_from_bits src index nb_bits =
    if ltb 8 nb_bits then none else get_byte_loop src index nb_bits 0 0

-- `modbus_get_float(src)`, as the 32 bits that the float is read from.
unfoldable pub get_float : Buf → Option ℕ
get_float src = do high ← read src 1; low ← read src 0; some ((high * 2 ^ 16 + low) % 2 ^ 32)

-- `modbus_set_float(f, dest)`, of the 32 bits of the float.
unfoldable pub set_float : ℕ → Buf → Option Buf
set_float i dest = do dest ← write16 dest 0 i; write16 dest 1 (i / 2 ^ 16)
