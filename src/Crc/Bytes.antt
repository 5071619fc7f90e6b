-- ===== src/Crc/Bytes.antt =====
-- `crc16` of modbus-rtu.c on the bytes of an array.
use swift_lib_modbus.Prelude.{
  ℕ, zero, suc, ◌+◌, ◌*◌, ◌/◌, ◌%◌, ◌<◌, ◌≤◌, ◌≡◌, refl, ap, ◌∙◌, arith, some, List, All,
}
use swift_lib_modbus.Bits.Fields.{bit_or_word}
use swift_lib_modbus.Memory.{Buf, cells, IsBytes}
use swift_lib_modbus.Memory.Laws.{read_inside}
use swift_lib_modbus.Crc.{Crc, initial, crc_loop, crc_word, crc16}
use swift_lib_modbus.Crc.Reference.{fold_crc, fold_crc-reference, reference, register, IsCrc}

-- The register with its two bytes exchanged, the order in which the protocol sends them.
abbrev pub swap_bytes : ℕ → ℕ
swap_bytes r = (r % 256) * 256 + r / 256

pub All-cells : (f : ℕ → ℕ) → ((i : ℕ) → f i < 256) → (i n : ℕ) → All (λ b. b < 256) (cells f i n)
All-cells f small i zero = tt
All-cells f small i (suc n) = (small i, All-cells f small (i + 1) n)

pub initial-IsCrc : IsCrc initial
initial-IsCrc = record { hi_byte = omega arith; lo_byte = omega arith }

pub crc_loop-fold :
    (b : Buf) (n i : ℕ) (c : Crc)
    → i + n ≤ b.cap
    → crc_loop b n i c ≡ some (fold_crc c (cells b.cell i n))
unfolding crc_loop fold_crc
crc_loop-fold b zero i c h = refl
crc_loop-fold b (suc n) i c h =
    rw (read_inside b i (omega arith)) (crc_loop-fold b n (i + 1) _ (omega arith))

-- The CRC as a function of the bytes.
unfoldable pub crc_bytes : List ℕ → ℕ
crc_bytes bs = crc_word (fold_crc initial bs)

pub crc16-crc_bytes :
    (b : Buf) (n : ℕ) → n ≤ b.cap → crc16 b n ≡ some (crc_bytes (cells b.cell 0 n))
unfolding crc16 crc_bytes
crc16-crc_bytes b n h = rw (crc_loop-fold b n 0 initial (omega arith))

pub crc_word-register : (c : Crc) → IsCrc c → crc_word c ≡ swap_bytes (register c)
crc_word-register c is =
    bit_or_word c.crc_hi c.crc_lo is.lo_byte ∙ omega (arith, is.hi_byte, is.lo_byte)

pub crc_bytes-reference :
    (bs : List ℕ) → All (λ b. b < 256) bs → crc_bytes bs ≡ swap_bytes (reference 0xffff bs)
unfolding crc_bytes
crc_bytes-reference bs small =
    let folded = fold_crc-reference initial bs initial-IsCrc small in
    crc_word-register _ folded.0 ∙ ap (λ r. swap_bytes r) folded.1

-- `crc16`, which looks two bytes up in tables for each byte of the message, is for every message
-- in the array the CRC of the protocol (0xA001 reflected, from 0xFFFF, one bit at a time), with the
-- bytes of the register exchanged; and it reads nothing outside the array.
pub crc16-reference :
    (b : Buf) (n : ℕ)
    → n ≤ b.cap
    → IsBytes b
    → crc16 b n ≡ some (swap_bytes (reference 0xffff (cells b.cell 0 n)))
crc16-reference b n h small =
    crc16-crc_bytes b n h ∙ ap some (crc_bytes-reference _ (All-cells b.cell small 0 n))

pub crc_bytes-lt : (bs : List ℕ) → All (λ b. b < 256) bs → crc_bytes bs < 65536
unfolding crc_bytes
crc_bytes-lt bs small =
    let folded = fold_crc-reference initial bs initial-IsCrc small in
    omega (arith, crc_word-register _ folded.0, folded.0.hi_byte, folded.0.lo_byte)
