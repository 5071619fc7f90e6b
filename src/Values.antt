-- ===== src/Values.antt =====
-- The loops of the client functions of modbus.c that copy values into requests, and out of responses.
pub mod Bits
use swift_lib_modbus.Prelude.{
  ℕ, zero, suc, ◌+◌, ◌-◌, ◌/◌, ◌^◌, not, Option, some, ltb, ◌==◌, if◌then◌else◌, ◌>>=◌, bit_and,
  bit_or,
}
use swift_lib_modbus.Length.{word_or_at}
use swift_lib_modbus.Data.{truth_of_bit}
use swift_lib_modbus.Memory.{Buf, read, write, write16}

-- The loop of `read_io_status` over the bits of a byte: `left` bits from bit `k`, and the new `pos`.
unfoldable pub store_byte : Buf → ℕ → ℕ → ℕ → ℕ → ℕ → Option (Buf × ℕ)
store_byte dest pos nb temp zero k = some (dest, pos)
store_byte dest pos nb temp (suc left) k =
    if ltb pos nb
    then (do
      dest' ← write dest pos (truth_of_bit temp k)
      store_byte dest' (pos + 1) nb temp left (k + 1))
    else some (dest, pos)

-- The loop of `read_io_status` over the bytes from `rsp[i]`.
unfoldable pub store_bits : Buf → ℕ → ℕ → Buf → ℕ → ℕ → Option Buf
unfolding store_byte
store_bits dest pos nb rsp zero i = some dest
store_bits dest pos nb rsp (suc left) i = do
  temp ← read rsp i
  (dest', pos') ← store_byte dest pos nb temp 8 0
  store_bits dest' pos' nb rsp left (i + 1)

-- The loops that store words of the response from `rsp[j]` in `dest[i]`, ....
unfoldable pub store_registers : Buf → ℕ → ℕ → Buf → ℕ → Option Buf
store_registers dest zero i rsp j = some dest
store_registers dest (suc left) i rsp j = do
  v ← word_or_at rsp j
  dest' ← write16 dest i v
  store_registers dest' left (i + 1) rsp (j + 2)

-- The loop of `modbus_report_slave_id`: bytes of the response from `rsp[j]` in `dest[i]`, ....
unfoldable pub store_bytes : Buf → ℕ → ℕ → Buf → ℕ → Option Buf
store_bytes dest zero i rsp j = some dest
store_bytes dest (suc left) i rsp j = do
  v ← read rsp j
  dest' ← write dest i v
  store_bytes dest' left (i + 1) rsp (j + 1)

-- The loop of `modbus_write_bits` over the bits of the byte at `req[at]`: the array, `bit_check` and
-- `pos` after it.
unfoldable pub pack_byte : Buf → ℕ → ℕ → ℕ → Buf → ℕ → ℕ → ℕ → Option (Buf × ℕ × ℕ)
pack_byte req at bit_check nb src pos zero k = some (req, bit_check, pos)
pack_byte req at bit_check nb src pos (suc left) k =
    if not (ltb bit_check nb) then some (req, bit_check + 1, pos) else do
      v ← read src pos
      byte ← read req at
      req' ← write req at (if not (v == 0) then bit_or byte (2 ^ k) else bit_and byte (255 - 2 ^ k))
      pack_byte req' at (bit_check + 1) nb src (pos + 1) left (k + 1)

-- The loop of `modbus_write_bits` over `left` bytes.
unfoldable pub pack_bits : Buf → ℕ → ℕ → ℕ → Buf → ℕ → ℕ → Option (Buf × ℕ)
unfolding pack_byte
pack_bits req req_length bit_check nb src pos zero = some (req, req_length)
pack_bits req req_length bit_check nb src pos (suc left) = do
  cleared ← write req req_length 0
  (req', bit_check', pos') ← pack_byte cleared req_length bit_check nb src pos 8 0
  pack_bits req' (req_length + 1) bit_check' nb src pos' left

-- The loops that put the registers `src[i]`, ... into the request, high byte first.
unfoldable pub pack_registers : Buf → ℕ → Buf → ℕ → ℕ → Option (Buf × ℕ)
pack_registers req req_length src zero i = some (req, req_length)
pack_registers req req_length src (suc left) i = do
  v ← read src i
  req ← write req req_length (v / 256)
  req ← write req (req_length + 1) (bit_and v 0xff)
  pack_registers req (req_length + 2) src left (i + 1)
