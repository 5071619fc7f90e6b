-- ===== src/Server/Reply/Single.antt =====
-- The requests that write one coil or one register: the table after them, and the echo.
use swift_lib_modbus.Prelude.{
  ℕ, Bool, ◌+◌, ◌-◌, ◌%◌, ◌<◌, ◌≤◌, ◌≡◌, arith, Option, some, ◌>>=◌, leb, if◌then◌else◌, true,
  false,
}
use swift_lib_modbus.Memory.{Buf, update, memcpy, IsBytes}
use swift_lib_modbus.Memory.Laws.{write_inside}
use swift_lib_modbus.Memory.Copy.{memcpy-IsCopied}
use swift_lib_modbus.Context.{Backend}
use swift_lib_modbus.Backend.{header_length, checksum_length}
use swift_lib_modbus.Protocol.{Sft}
use swift_lib_modbus.Server.Loops.{word_at_inside, word_cells-lt}
use swift_lib_modbus.Server.Mapping.{Mapping, IsMapping}
use swift_lib_modbus.Server.Reply.{
  Reply, response, reply_message, reply_write_single_coil, reply_write_single_register,
}
use swift_lib_modbus.Server.Reply.Start.{
  request_function, request_address, request_quantity, request_sft, reply_message-reply_to,
}
use swift_lib_modbus.Server.Reply.Switch.{to_write_single_coil, to_write_single_register}
use swift_lib_modbus.Server.Reply.Answers.{IsRequest}

-- `result` is the first `m` bytes of the request, with the tables `mb`.
pub record IsEcho (req : Buf) (m : ℕ) (mb : Mapping) (result : Option Reply) : Type 0 where
  pub out : Buf
  pub returns : result ≡ some (response out m mb)
  pub same : (k : ℕ) → k < m → out.cell k ≡ req.cell k

-- An element is stored in a table.
abbrev pub stored_at : Buf → ℕ → ℕ → Buf
stored_at tab i v = record tab { cell = update tab.cell i v }

abbrev pub request_value : Backend → Buf → ℕ
request_value = request_quantity

memcpy-IsEcho :
    (req rsp : Buf) (m : ℕ) (mb : Mapping)
    → IsBytes req
    → m ≤ req.cap
    → m ≤ rsp.cap
    → IsEcho req m mb (memcpy rsp 0 req 0 m >>= λ out. some (response out m mb))
memcpy-IsEcho req rsp m mb small h h' =
    let copied = memcpy-IsCopied m rsp 0 req 0 small (omega arith) (omega arith) in
    record {
      out = copied.out;
      returns = rw copied.returns;
      same = λ k p. let z : 0 + k ≡ k = omega arith in rw z at (copied.inside k p);
    }

coil_stored :
    (backend : Backend) (req : Buf) (n : ℕ) (mb : Mapping) (sft : Sft) (a : ℕ) (rsp : Buf)
    (on : Bool)
    → IsRequest backend req
    → a < mb.nb_bits
    → a < mb.tab_bits.cap
    → request_value backend req ≡ (if on then 0xff00 else 0)
    → reply_write_single_coil backend req n mb sft a rsp ≡ (
        memcpy rsp 0 req 0 n >>= λ out.
        some
          (response out n (record mb { tab_bits = stored_at mb.tab_bits a (if on then 1 else 0) })))
unfolding reply_write_single_coil
coil_stored backend req n mb sft a rsp true is inside room value =
    let present = is.present in
    let allowed : leb mb.nb_bits a ≡ false = ground arith in
    rw (allowed, word_at_inside req (header_length backend + 3) (omega arith), value)
      (rw (write_inside 256 mb.tab_bits a 1 room))
coil_stored backend req n mb sft a rsp false is inside room value =
    let present = is.present in
    let allowed : leb mb.nb_bits a ≡ false = ground arith in
    rw (allowed, word_at_inside req (header_length backend + 3) (omega arith), value)
      (rw (write_inside 256 mb.tab_bits a 0 room))

module _ (backend : Backend) (req : Buf) (n : ℕ) (mb : Mapping) (rsp : Buf) where
  -- A request to write one register inside the table stores its value there and nowhere else, and is
  -- echoed: the response is the request without its checksum.
  pub reply-register_written :
      IsRequest backend req
      → IsMapping mb
      → request_function backend req ≡ 0x06
      → request_address backend req < mb.nb_registers
      → n - checksum_length backend ≤ req.cap
      → n - checksum_length backend ≤ 260
      → rsp.cap ≡ 260
      → IsEcho req
          (n - checksum_length backend)
          (record mb {
            tab_registers =
                stored_at mb.tab_registers
                  (request_address backend req)
                  (request_value backend req);
          })
          (reply_message backend req n mb rsp)
  unfolding reply_write_single_register
  reply-register_written is mapping e inside fits fits' room =
      let h : ℕ = header_length backend in
      let present = is.present in
      let cap_is = mapping.registers.cap_is in
      let a : ℕ = request_address backend req in
      let v : ℕ = request_value backend req in
      let allowed : leb mb.nb_registers a ≡ false = ground arith in
      let word : v % 65536 ≡ v = omega (arith, word_cells-lt req (h + 3) is.bytes) in
      rw
        (
          reply_message-reply_to backend req n mb rsp is.bytes is.present is.header,
          to_write_single_register backend req (n - checksum_length backend) mb _ _ rsp _ e,
          allowed,
          word_at_inside req (h + 3) (omega arith),
        )
        (rw (write_inside 65536 mb.tab_registers a v (omega arith))
          (rw word (memcpy-IsEcho req rsp _ _ is.bytes fits (omega arith))))

  -- A request to write one coil inside the table with the value 0xFF00 or 0 sets it to 1 or 0, stores
  -- nothing else, and is echoed.
  pub reply-coil_written :
      IsRequest backend req
      → IsMapping mb
      → request_function backend req ≡ 0x05
      → request_address backend req < mb.nb_bits
      → (on : Bool) → request_value backend req ≡ (if on then 0xff00 else 0)
      → n - checksum_length backend ≤ req.cap
      → n - checksum_length backend ≤ 260
      → rsp.cap ≡ 260
      → IsEcho req
          (n - checksum_length backend)
          (record mb {
            tab_bits = stored_at mb.tab_bits (request_address backend req) (if on then 1 else 0);
          })
          (reply_message backend req n mb rsp)
  unfolding reply_write_single_coil
  reply-coil_written is mapping e inside on value fits fits' room =
      let cap_is = mapping.bits.cap_is in
      rw
        (
          reply_message-reply_to backend req n mb rsp is.bytes is.present is.header,
          to_write_single_coil backend req (n - checksum_length backend) mb _ _ rsp _ e,
          coil_stored backend req (n - checksum_length backend) mb (request_sft backend req)
              (request_address backend req) rsp on is inside (omega arith) value,
        )
        (memcpy-IsEcho req rsp _ _ is.bytes fits (omega arith))
