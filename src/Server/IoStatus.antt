-- ===== src/Server/IoStatus.antt =====
-- `response_io_status` of modbus.c: bits of a table packed into the bytes of a response.
pub mod Laws
use swift_lib_modbus.Prelude.{
  ℕ, zero, suc, ◌+◌, ◌*◌, ◌%◌, ◌^◌, Option, some, bit_or, not, ◌==◌, if◌then◌else◌, ◌>>=◌,
}
use swift_lib_modbus.Memory.{Buf, read, write, write_mod}

-- The loop at `tab_io_status[i]` with `left` rounds to go, and the write that follows it.
unfoldable pub io_loop : Buf → ℕ → ℕ → ℕ → ℕ → Buf → ℕ → Option (Buf × ℕ)
io_loop tab_io_status zero i shift byte rsp offset =
    if not (shift == 0)
    then (write rsp offset byte >>= λ rsp'. some (rsp', offset + 1))
    else some (rsp, offset)
io_loop tab_io_status (suc left) i shift byte rsp offset = read tab_io_status i >>= λ v.
    let byte' = bit_or byte (v * 2 ^ shift) in
    let full =
      write rsp offset byte' >>= λ rsp'. io_loop tab_io_status left (i + 1) 0 0 rsp' (offset + 1) in
    let more = io_loop tab_io_status left (i + 1) (shift + 1) byte' rsp offset in
    if shift == 7 then full else more

-- `response_io_status(address, nb, tab_io_status, rsp, offset)`: the array and the new offset.
unfoldable pub response_io_status : ℕ → ℕ → Buf → Buf → ℕ → Option (Buf × ℕ)
response_io_status address nb tab_io_status rsp offset =
    io_loop tab_io_status nb address 0 0 rsp offset
