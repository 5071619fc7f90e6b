-- ===== src/Examples/Frames.antt =====
-- The CRC and RTU frames.
use swift_lib_modbus.Prelude.{ℕ, ◌≡◌, ◌≢◌, refl, List, [], ◌∷◌, some, arith, ◌>>=◌, inl}
use swift_lib_modbus.Prelude.Int.{pos}
use swift_lib_modbus.Memory.{Buf, IsBytes, read}
use swift_lib_modbus.Crc.{crc16, crc_loop, crc_step}
use swift_lib_modbus.Crc.Reference.{reference}
use swift_lib_modbus.Crc.Bytes.{swap_bytes, crc16-reference}
use swift_lib_modbus.Rtu.{send_msg_pre, integrity, valid}
use swift_lib_modbus.Rtu.Frame.{
  with_crc, corrupt, send_msg_pre-with_crc, integrity-send_msg_pre, integrity-corrupt,
}
use swift_lib_modbus.Examples.Tables.{array, array_below}

-- Slave 17 is asked for 3 registers from 107: the CRC is 0x7687, sent as 76 87.
abbrev pub ask : List ℕ
ask = 0x11 ∷ 0x03 ∷ 0x00 ∷ 0x6b ∷ 0x00 ∷ 0x03 ∷ []

abbrev pub asked : Buf
asked = record { cap = 8; cell = (array ask).cell }

pub asked-IsBytes : IsBytes asked
asked-IsBytes = array_below 256 ask (omega arith) (omega arith)

crc_of_ask : crc16 asked 6 ≡ some 0x7687
unfolding crc16 crc_loop crc_step read
crc_of_ask = refl

crc16-reference_example : crc16 asked 6 ≡ some (swap_bytes (reference 0xffff ask))
crc16-reference_example = crc16-reference asked 6 (omega arith) asked-IsBytes

integrity-send_msg_pre_example :
    (do (frame, m) ← send_msg_pre asked 6; integrity (pos 17) frame m) ≡ some valid
integrity-send_msg_pre_example =
    integrity-send_msg_pre (pos 17) asked 6 (omega arith) (omega arith) asked-IsBytes (inl refl)

integrity-corrupt_example : integrity (pos 17) (corrupt (with_crc asked 6) 3 0x6a) 8 ≢ some valid
integrity-corrupt_example =
    integrity-corrupt (pos 17) asked (with_crc asked 6) 6 8 3 0x6a (omega arith) asked-IsBytes
      (send_msg_pre-with_crc asked 6 (omega arith)) (omega arith) (omega arith) (omega arith)
