-- ===== src/Server/Reply/WriteAndRead.antt =====
-- The answer of `modbus_reply` to a request to write and read registers.
use native.Mathlib.Decide.{dec_lt}
use swift_lib_modbus.Prelude.{
  ℕ, ◌+◌, ◌-◌, ◌*◌, ◌<◌, ◌≤◌, ◌≡◌, ◌⊎◌, inl, inr, arith, Option, le→ltb, sym, subst, refl,
}
use swift_lib_modbus.Memory.{Buf, IsBytes}
use swift_lib_modbus.Context.{Backend}
use swift_lib_modbus.Backend.{header_length, checksum_length}
use swift_lib_modbus.Server.Loops.{
  word_cells, word_cells-lt, word_at_inside, IsWords, IsTaken, take_registers-IsTaken,
}
use swift_lib_modbus.Server.Mapping.{Mapping, IsMapping}
use swift_lib_modbus.Server.Reply.{Reply, reply_message, reply_write_and_read_registers}
use swift_lib_modbus.Server.Reply.Start.{
  request_function, request_address, request_quantity, request_sft, reply_message-reply_to,
}
use swift_lib_modbus.Server.Reply.Switch.{to_write_and_read_registers}
use swift_lib_modbus.Server.Reply.Read.{IsRegisterAnswer, registers-IsBuiltFrom}
use swift_lib_modbus.Server.Reply.Answers.{IsRequest}

module _ (backend : Backend) (req : Buf) where
  -- The first register that is written, and the number of them.
  abbrev pub write_address : ℕ
  write_address = word_cells req (header_length backend + 5)

  abbrev pub write_quantity : ℕ
  write_quantity = word_cells req (header_length backend + 7)

  -- The registers `tab` after the request hold its words, and the others are as before. The answer
  -- has the registers to read as they are in `tab`.
  pub record IsWrittenAndRead (mb : Mapping) (rsp : Buf) (result : Option Reply) : Type 0 where
    pub tab : Buf
    pub answer :
        IsRegisterAnswer backend
          (request_sft backend req)
          (record mb { tab_registers = tab })
          tab
          (request_address backend req)
          (request_quantity backend req)
          rsp
          result
    pub same_cap : tab.cap ≡ mb.tab_registers.cap
    pub inside :
        (j : ℕ)
        → j < write_quantity
        → tab.cell (write_address + j) ≡ word_cells req (header_length backend + 10 + 2 * j)
    pub outside :
        (m : ℕ)
        → (m < write_address) ⊎ (write_address + write_quantity ≤ m)
        → tab.cell m ≡ mb.tab_registers.cell m

taken-IsWords :
    (tab : Buf) (left i : ℕ) (req : Buf) (k : ℕ) (result : Option Buf)
    → IsBytes req
    → IsWords tab
    → (t : IsTaken tab left i req k result) → IsWords t.out
taken-IsWords tab left i req k result small words t m = elim (dec_lt m i) [
  | yes before ↦ subst (λ v. v < 65536) (sym (t.outside m (inl before))) (words m)
  | no later ↦ elim (dec_lt m (i + left)) [
    | yes inside ↦
        let place : i + (m - i) ≡ m = omega (arith, later) in
        let there = t.inside (m - i) (omega (arith, later, inside)) in
        subst (λ j. t.out.cell j < 65536) place
          (subst (λ v. v < 65536) (sym there) (word_cells-lt req (k + 2 * (m - i)) small))
    | no after ↦ subst (λ v. v < 65536) (sym (t.outside m (inr (omega (arith, after))))) (words m)
  ]
]

module _ (backend : Backend) (req : Buf) (n : ℕ) (mb : Mapping) (rsp : Buf) where
  -- For every request to write some registers of the table, with the values present, and to read at
  -- most 125 registers of the table, `modbus_reply` stores the values first, each in its register,
  -- and leaves the other registers and tables as they are; the answer then holds the registers asked
  -- for as they are after the write, also where both ranges overlap.
  pub reply-IsWrittenAndRead :
      IsRequest backend req
      → IsMapping mb
      → request_function backend req ≡ 0x17
      → request_address backend req + request_quantity backend req ≤ mb.nb_registers
      → write_address backend req + write_quantity backend req ≤ mb.nb_registers
      → request_quantity backend req ≤ 125
      → header_length backend + 10 + 2 * write_quantity backend req ≤ req.cap
      → rsp.cap ≡ 260
      → IsWrittenAndRead backend req mb rsp (reply_message backend req n mb rsp)
  unfolding reply_write_and_read_registers
  reply-IsWrittenAndRead is mapping e fits fits' small values room =
      let h : ℕ = header_length backend in
      let present = is.present in
      let cap_is = mapping.registers.cap_is in
      let taken =
        take_registers-IsTaken (write_quantity backend req) mb.tab_registers
          (write_address backend req) req (h + 10) is.bytes values (omega arith) in
      let b =
        registers-IsBuiltFrom backend (request_sft backend req) (request_address backend req) rsp
          (request_quantity backend req) taken.out
          (taken-IsWords mb.tab_registers _ _ req _ _ is.bytes mapping.registers.small taken)
          (omega (arith, taken.same_cap)) small room in
      record {
        tab = taken.out;
        answer =
            b.answers (record mb { tab_registers = taken.out }) _
              (rw
                (
                  reply_message-reply_to backend req n mb rsp is.bytes is.present is.header,
                  to_write_and_read_registers backend req (n - checksum_length backend) mb _ _ rsp _
                      e,
                  word_at_inside req (h + 3) (omega arith),
                  word_at_inside req (h + 5) (omega arith),
                  word_at_inside req (h + 7) (omega arith),
                  le→ltb mb.nb_registers
                      (request_address backend req + request_quantity backend req) fits,
                  le→ltb mb.nb_registers (write_address backend req + write_quantity backend req)
                      fits',
                  b.started,
                )
                (rw b.counts (rw taken.returns (rw b.fills refl))));
        same_cap = taken.same_cap;
        inside = taken.inside;
        outside = taken.outside;
      }
