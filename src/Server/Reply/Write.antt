-- ===== src/Server/Reply/Write.antt =====
-- The answers to requests that write: the tables after them, and the echo or confirmation.
use native.Mathlib.Decide.{dec_lt}
use swift_lib_modbus.Prelude.{
  ℕ, ◌+◌, ◌-◌, ◌*◌, ◌%◌, ◌<◌, ◌≤◌, ◌≡◌, ◌⊎◌, inl, arith, Option, some, le→ltb, ap, ◌∙◌, sym, subst,
  inr,
}
use swift_lib_modbus.Memory.{Buf, IsBytes}
use swift_lib_modbus.Memory.Copy.{memcpy-IsCopied}
use swift_lib_modbus.Context.{Backend}
use swift_lib_modbus.Backend.{header_length, header_length-le, checksum_length}
use swift_lib_modbus.Protocol.{Sft}
use swift_lib_modbus.Data.Bits.{bit_at, set_bits_from_bytes-IsUnpacked}
use swift_lib_modbus.Server.IoStatus.Laws.{bytes_for}
use swift_lib_modbus.Server.Loops.{word_cells, word_at_inside, take_registers-IsTaken}
use swift_lib_modbus.Server.Header.{HasTid, HasTid-same, build_response_basis-IsHeader}
use swift_lib_modbus.Server.Mapping.{Mapping, IsMapping}
use swift_lib_modbus.Server.Reply.{
  Reply, response, reply_message, confirm_write, reply_write_multiple_registers,
  reply_write_multiple_coils,
}
use swift_lib_modbus.Server.Reply.Start.{
  request_function, request_address, request_quantity, request_sft, reply_message-reply_to,
}
use swift_lib_modbus.Server.Reply.Switch.{to_write_multiple_coils, to_write_multiple_registers}
use swift_lib_modbus.Server.Reply.Answers.{IsRequest}

-- `result` is a confirmation with the tables `mb`: the slave and the function, and the address and
-- the quantity as the request has them.
pub record IsConfirmed (backend : Backend) (sft : Sft) (req : Buf) (mb : Mapping) (rsp : Buf)
    (result : Option Reply) : Type 0 where
  pub out : Buf
  pub returns : result ≡ some (response out (header_length backend + 5) mb)
  pub same_cap : out.cap ≡ 260
  pub tid : HasTid backend sft out
  pub slave : out.cell (header_length backend - 1) ≡ sft.slave % 256
  pub function : out.cell (header_length backend) ≡ sft.function % 256
  pub same :
      (k : ℕ) → header_length backend < k → k < header_length backend + 5 → out.cell k ≡ req.cell k
  pub bytes : IsBytes rsp → IsBytes out

module _ (backend : Backend) (req : Buf) (n : ℕ) (mb : Mapping) (sft : Sft) (address : ℕ)
    (rsp : Buf) (is : IsRequest backend req) (room : rsp.cap ≡ 260) where
  confirm_write-IsConfirmed :
      (mb' : Mapping)
      → IsConfirmed backend sft req mb' rsp (confirm_write backend req n mb sft address rsp mb')
  unfolding confirm_write
  confirm_write-IsConfirmed mb' =
      let h : ℕ = header_length backend in
      let h_small = header_length-le backend in
      let present = is.present in
      let hd = build_response_basis-IsHeader backend sft rsp (omega arith) in
      let hd_room : hd.out.cap ≡ 260 = hd.same_cap ∙ room in
      let copied =
        memcpy-IsCopied 4 hd.out (h + 1) req (h + 1) is.bytes (omega arith) (omega arith) in
      let total : h + 1 + 4 ≡ h + 5 = omega arith in
      record {
        out = copied.out;
        returns =
            rw hd.returns (rw copied.returns (ap (λ m. some (response copied.out m mb')) total));
        same_cap = copied.same_cap ∙ hd_room;
        tid =
            HasTid-same backend sft copied.out hd.out (λ k p. copied.outside k (inl (omega arith)))
              hd.tid;
        bytes = λ small k. elim (dec_lt k (h + 1)) [
          | yes before ↦
              subst (λ v. v < 256) (sym (copied.outside k (inl before))) (hd.small small k)
          | no later ↦ elim (dec_lt k (h + 5)) [
            | yes inside ↦
                let place : h + 1 + (k - (h + 1)) ≡ k = omega (arith, later) in
                let there = copied.inside (k - (h + 1)) (omega (arith, later, inside)) in
                subst (λ j. copied.out.cell j < 256) place
                  (subst (λ v. v < 256) (sym there) (is.bytes (h + 1 + (k - (h + 1)))))
            | no after ↦
                subst (λ v. v < 256) (sym (copied.outside k (inr (omega (arith, after)))))
                  (hd.small small k)
          ]
        ];
        slave = copied.outside (h - 1) (inl (omega arith)) ∙ hd.slave;
        function = copied.outside h (inl (omega arith)) ∙ hd.function;
        same = λ k p q.
            let place : h + 1 + (k - (h + 1)) ≡ k = omega arith in
            let there = copied.inside (k - (h + 1)) (omega arith) in rw place at there;
      }

-- The registers after a request to write several: the words of the request, and the others as before.
pub record IsRegistersWritten (backend : Backend) (req : Buf) (mb : Mapping) (rsp : Buf)
    (result : Option Reply) : Type 0 where
  pub tab : Buf
  pub confirmed :
      IsConfirmed backend
        (request_sft backend req)
        req
        (record mb { tab_registers = tab })
        rsp
        result
  pub same_cap : tab.cap ≡ mb.tab_registers.cap
  pub inside :
      (j : ℕ)
      → j < request_quantity backend req
      → tab.cell (request_address backend req + j)
        ≡ word_cells req (header_length backend + 6 + 2 * j)
  pub outside :
      (m : ℕ)
      → (m < request_address backend req)
        ⊎ (request_address backend req + request_quantity backend req ≤ m)
      → tab.cell m ≡ mb.tab_registers.cell m

module _ (backend : Backend) (req : Buf) (n : ℕ) (mb : Mapping) (rsp : Buf) where
  -- For every request to write several registers that lie in the table, whose values are present in
  -- the request, `modbus_reply` stores each value, high byte first, in its register, leaves the other
  -- registers and the other tables as they are, and confirms the address and the quantity.
  pub reply-IsRegistersWritten :
      IsRequest backend req
      → IsMapping mb
      → request_function backend req ≡ 0x10
      → request_address backend req + request_quantity backend req ≤ mb.nb_registers
      → header_length backend + 6 + 2 * request_quantity backend req ≤ req.cap
      → rsp.cap ≡ 260
      → IsRegistersWritten backend req mb rsp (reply_message backend req n mb rsp)
  unfolding reply_write_multiple_registers
  reply-IsRegistersWritten is mapping e fits values room =
      let h : ℕ = header_length backend in
      let present = is.present in
      let cap_is = mapping.registers.cap_is in
      let taken =
        take_registers-IsTaken (request_quantity backend req) mb.tab_registers
          (request_address backend req) req (h + 6) is.bytes values (omega arith) in
      let confirmed =
        confirm_write-IsConfirmed backend req (n - checksum_length backend) mb
          (request_sft backend req) (request_address backend req) rsp is room
          (record mb { tab_registers = taken.out }) in
      rw
        (
          reply_message-reply_to backend req n mb rsp is.bytes is.present is.header,
          to_write_multiple_registers backend req (n - checksum_length backend) mb _ _ rsp _ e,
          word_at_inside req (h + 3) (omega arith),
          le→ltb mb.nb_registers (request_address backend req + request_quantity backend req) fits,
          taken.returns,
        )
        (record {
          tab = taken.out;
          confirmed = confirmed;
          same_cap = taken.same_cap;
          inside = taken.inside;
          outside = taken.outside;
        })

-- The coils after a request to write several: the bits of the request, and the others as before.
pub record IsCoilsWritten (backend : Backend) (req : Buf) (mb : Mapping) (rsp : Buf)
    (result : Option Reply) : Type 0 where
  pub tab : Buf
  pub confirmed :
      IsConfirmed backend (request_sft backend req) req (record mb { tab_bits = tab }) rsp result
  pub same_cap : tab.cap ≡ mb.tab_bits.cap
  pub inside :
      (j : ℕ)
      → j < request_quantity backend req
      → tab.cell (request_address backend req + j) ≡ bit_at req (header_length backend + 6) j
  pub outside :
      (m : ℕ)
      → (m < request_address backend req)
        ⊎ (request_address backend req + request_quantity backend req ≤ m)
      → tab.cell m ≡ mb.tab_bits.cell m

module _ (backend : Backend) (req : Buf) (n : ℕ) (mb : Mapping) (rsp : Buf) where
  -- For every request to write several coils that lie in the table, whose bits are present in the
  -- request, `modbus_reply` sets each coil to its bit, the lowest bit of a byte first, leaves the
  -- other coils and the other tables as they are, and confirms the address and the quantity.
  pub reply-IsCoilsWritten :
      IsRequest backend req
      → IsMapping mb
      → request_function backend req ≡ 0x0f
      → request_address backend req + request_quantity backend req ≤ mb.nb_bits
      → header_length backend + 6 + bytes_for (request_quantity backend req) ≤ req.cap
      → rsp.cap ≡ 260
      → IsCoilsWritten backend req mb rsp (reply_message backend req n mb rsp)
  unfolding reply_write_multiple_coils
  reply-IsCoilsWritten is mapping e fits values room =
      let h : ℕ = header_length backend in
      let present = is.present in
      let cap_is = mapping.bits.cap_is in
      let set =
        set_bits_from_bytes-IsUnpacked mb.tab_bits (request_address backend req)
          (request_quantity backend req) req (h + 6) values (omega arith) in
      let confirmed =
        confirm_write-IsConfirmed backend req (n - checksum_length backend) mb
          (request_sft backend req) (request_address backend req) rsp is room
          (record mb { tab_bits = set.out }) in
      rw
        (
          reply_message-reply_to backend req n mb rsp is.bytes is.present is.header,
          to_write_multiple_coils backend req (n - checksum_length backend) mb _ _ rsp _ e,
          word_at_inside req (h + 3) (omega arith),
          le→ltb mb.nb_bits (request_address backend req + request_quantity backend req) fits,
          set.returns,
        )
        (record {
          tab = set.out;
          confirmed = confirmed;
          same_cap = set.same_cap;
          inside = λ j p. set.inside j (omega arith) (omega arith);
          outside = λ m p. set.outside m (omega arith);
        })
