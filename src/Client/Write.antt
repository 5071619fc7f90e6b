-- ===== src/Client/Write.antt =====
-- The request that `modbus_write_registers` makes.
pub mod Whole
use swift_lib_modbus.Prelude.{
  ℕ, zero, suc, ◌+◌, ◌-◌, ◌*◌, ◌/◌, ◌%◌, ◌<◌, ◌≤◌, ◌≡◌, refl, sym, ap, fun_ext, ◌∙◌, ◌⊎◌, inl, inr,
  arith, bit_and, Option, some, ◌>>=◌,
}
use swift_lib_modbus.Prelude.Int.{pos}
use swift_lib_modbus.Protocol.{fc_write_multiple_registers}
use swift_lib_modbus.Bits.Digit.{bit_and_digit}
use swift_lib_modbus.Bits.Fields.{bit_and-zero}
use swift_lib_modbus.Context.{Ctx, Backend}
use swift_lib_modbus.Backend.{
  header_length, header_length-le, header_length-pos, basis, build_request_basis,
}
use swift_lib_modbus.Memory.{Buf, read, write, write_mod, update, IsBytes}
use swift_lib_modbus.Memory.Laws.{read_inside, write_inside}
use swift_lib_modbus.Link.{Link}
use swift_lib_modbus.Client.{write_registers_request}
use swift_lib_modbus.Client.Request.{IsBuilt, build_request_basis-IsBuilt}
use swift_lib_modbus.Server.Loops.{word_cells, IsWords, put_registers-IsPut}
use swift_lib_modbus.Server.Reply.{put_registers}
use swift_lib_modbus.Values.{pack_registers}

low_byte : (v : ℕ) → bit_and v 0xff ≡ v % 256
low_byte v =
    let m1 : (a : ℕ) → bit_and a 1 ≡ a % 2 =
      λ a. omega (arith, bit_and_digit a 1, bit_and-zero (a / 2)) in
    let m2 : (a : ℕ) → bit_and a 3 ≡ a % 4 = λ a. omega (arith, bit_and_digit a 3, m1 (a / 2)) in
    let m3 : (a : ℕ) → bit_and a 7 ≡ a % 8 = λ a. omega (arith, bit_and_digit a 7, m2 (a / 2)) in
    let m4 : (a : ℕ) → bit_and a 15 ≡ a % 16 = λ a. omega (arith, bit_and_digit a 15, m3 (a / 2)) in
    let m5 : (a : ℕ) → bit_and a 31 ≡ a % 32 = λ a. omega (arith, bit_and_digit a 31, m4 (a / 2)) in
    let m6 : (a : ℕ) → bit_and a 63 ≡ a % 64 = λ a. omega (arith, bit_and_digit a 63, m5 (a / 2)) in
    let m7 : (a : ℕ) → bit_and a 127 ≡ a % 128 =
      λ a. omega (arith, bit_and_digit a 127, m6 (a / 2)) in
    let m8 : (a : ℕ) → bit_and a 255 ≡ a % 256 =
      λ a. omega (arith, bit_and_digit a 255, m7 (a / 2)) in
    m8 v

-- The client packs registers as the server does.
pack_registers-put_registers :
    (left : ℕ) (req : Buf) (at : ℕ) (src : Buf) (i : ℕ)
    → pack_registers req at src left i ≡ put_registers src left i req at
unfolding pack_registers put_registers
pack_registers-put_registers zero req at src i = refl
pack_registers-put_registers (suc left) req at src i =
    ap (λ k. read src i >>= k)
      (fun_ext (λ v. rw (low_byte v) (
        ap (λ k. write req at (v / 256) >>= k)
          (fun_ext (λ req'.
            ap (λ k. write req' (at + 1) (v % 256) >>= k)
              (fun_ext (λ req''. pack_registers-put_registers left req'' (at + 2) src (i + 1))))))))

zero_plus : (j : ℕ) → 0 + j ≡ j
zero_plus j = omega arith

-- `result` is a request to write the registers of `src` to the registers from `addr`.
pub record IsWriteRequest (ctx : Ctx) (slave addr nb : ℕ) (src req : Buf)
    (result : Option (Ctx × Buf × ℕ)) : Type 0 where
  pub t_id : ℕ
  pub out : Buf
  pub returns :
      result ≡ some (record ctx { t_id = t_id }, out, header_length ctx.backend + 6 + 2 * nb)
  pub same_cap : out.cap ≡ req.cap
  pub slave_cell : out.cell (header_length ctx.backend - 1) ≡ slave
  pub function_cell : out.cell (header_length ctx.backend) ≡ fc_write_multiple_registers
  pub address : word_cells out (header_length ctx.backend + 1) ≡ addr
  pub quantity : word_cells out (header_length ctx.backend + 3) ≡ nb
  pub values :
      (j : ℕ) → j < nb → word_cells out (header_length ctx.backend + 6 + 2 * j) ≡ src.cell j
  pub bytes : IsBytes out

module _ (req : Buf) (ctx : Ctx) (slave addr nb : ℕ) (src : Buf) where
  pub write_registers_request-IsWriteRequest :
      ctx.slave ≡ pos slave
      → slave < 256
      → addr < 65536
      → nb ≤ 123
      → req.cap ≡ 260
      → IsBytes req
      → nb ≤ src.cap
      → IsWords src
      → IsWriteRequest ctx slave addr nb src req (write_registers_request req ctx addr nb src)
  unfolding write_registers_request build_request_basis
  write_registers_request-IsWriteRequest own slave_small addr_small small room req_bytes there
        words =
      let h : ℕ = header_length ctx.backend in
      let h_small = header_length-le ctx.backend in
      let h_pos = header_length-pos ctx.backend in
      let b =
        build_request_basis-IsBuilt ctx slave fc_write_multiple_registers addr nb req own
          slave_small (omega arith) addr_small (omega (arith, small)) (omega (arith, room))
          ctx.backend in
      let counted : Buf = record b.out { cell = update b.out.cell (h + 5) (nb * 2 % 256) } in
      let counted_bytes : IsBytes counted = λ k. ground (arith, b.bytes req_bytes k) in
      let put =
        put_registers-IsPut nb src 0 counted (h + 6) words (omega (arith, there))
          (omega (arith, b.same_cap, room, small)) in
      let before : (k : ℕ) → k < h + 5 → put.out.cell k ≡ b.out.cell k =
        λ k p. put.outside k (inl (omega (arith, p))) ∙ ground (arith, p) in
      let length : h + 5 + 1 ≡ h + 6 = omega arith in
      record {
        t_id = b.t_id;
        out = put.out;
        returns =
            rw
              (
                b.returns,
                write_inside 256 b.out (h + 5) (nb * 2) (omega (arith, b.same_cap, room)),
                length,
                pack_registers-put_registers nb counted (h + 6) src 0,
                put.returns,
              )
              refl;
        same_cap = put.same_cap ∙ b.same_cap;
        slave_cell = before (h - 1) (omega arith) ∙ b.slave_cell;
        function_cell = before h (omega arith) ∙ b.function_cell;
        address =
            omega
              (arith, before (h + 1) (omega arith), before (h + 1 + 1) (omega arith), b.address);
        quantity =
            omega
              (arith, before (h + 3) (omega arith), before (h + 3 + 1) (omega arith), b.quantity);
        values = λ j p. put.inside j p ∙ ap src.cell (zero_plus j);
        bytes = λ k. ground (arith, put.bytes k, put.outside k, counted_bytes k);
      }
