-- ===== src/Bits.antt =====
-- Laws of `^` and `|` at variables, which the program's CRC and its packing of bits rest on.
pub mod Digit
pub mod Xor
pub mod Fields
pub mod Below
pub mod Bit
