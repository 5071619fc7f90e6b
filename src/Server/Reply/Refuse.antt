-- ===== src/Server/Reply/Refuse.antt =====
-- The exception responses of `modbus_reply`.
use swift_lib_modbus.Prelude.{
  ℕ, ◌+◌, ◌-◌, ◌%◌, ◌<◌, ◌≡◌, ◌≢◌, arith, Option, some, leb, lt→ltb, ap, ◌∙◌, true,
}
use swift_lib_modbus.Memory.{Buf, update, IsBytes}
use swift_lib_modbus.Memory.Laws.{write_inside}
use swift_lib_modbus.Context.{Backend, rtu, tcp, tcp_pi}
use swift_lib_modbus.Backend.{header_length, header_length-le, header_length-pos, checksum_length}
use swift_lib_modbus.Protocol.{Sft}
use swift_lib_modbus.Server.Loops.{word_at_inside}
use swift_lib_modbus.Server.Header.{HasTid, HasTid-same, build_response_basis-IsHeader}
use swift_lib_modbus.Server.Mapping.{Mapping}
use swift_lib_modbus.Server.Reply.{
  Reply, response, reply_message, reply_to, refuse, response_exception, reply_read_bits,
  reply_read_registers, reply_write_single_coil, reply_write_single_register,
  reply_write_multiple_coils, reply_write_multiple_registers,
}
use swift_lib_modbus.Server.Reply.Start.{
  request_function, request_address, request_quantity, request_sft, reply_message-reply_to,
}
use swift_lib_modbus.Server.Reply.Switch.{
  to_read_coils, to_read_discrete_inputs, to_read_holding_registers, to_read_input_registers,
  to_write_single_coil, to_write_single_register, to_write_multiple_coils,
  to_write_multiple_registers,
}
use swift_lib_modbus.Server.Reply.Answers.{IsRequest}

-- `result` is the exception response with the code, and the tables as they were: the slave, the
-- function code with its highest bit flipped, and the code.
pub record IsRefused (backend : Backend) (sft : Sft) (mb : Mapping) (code : ℕ) (rsp : Buf)
    (result : Option Reply) : Type 0 where
  pub out : Buf
  pub returns : result ≡ some (response out (header_length backend + 2) mb)
  pub same_cap : out.cap ≡ 260
  pub tid : HasTid backend sft out
  pub slave : out.cell (header_length backend - 1) ≡ sft.slave % 256
  pub function : out.cell (header_length backend) ≡ (sft.function + 0x80) % 256
  pub code_byte : out.cell (header_length backend + 1) ≡ code % 256
  pub bytes : IsBytes rsp → IsBytes out

-- The transaction identifier is that of the request.
exception_tid :
    (backend : Backend) (sft : Sft) (out : Buf)
    → HasTid backend (record sft { function = sft.function + 0x80 }) out
    → HasTid backend sft out
exception_tid rtu sft out tid = tt
exception_tid tcp sft out tid = tid
exception_tid tcp_pi sft out tid = tid

elsewhere : (f : ℕ → ℕ) (i j v : ℕ) → i ≢ j → update f j v i ≡ f i
elsewhere f i j v ne = ground arith

module _ (backend : Backend) (req : Buf) (n : ℕ) (mb : Mapping) (sft : Sft) (address : ℕ)
    (rsp : Buf) (room : rsp.cap ≡ 260) where
  refuse-IsRefused :
      (code : ℕ) → IsRefused backend sft mb code rsp (refuse backend req n mb sft address rsp code)
  unfolding response_exception
  refuse-IsRefused code =
      let h : ℕ = header_length backend in
      let h_small = header_length-le backend in
      let h_pos = header_length-pos backend in
      let hd =
        build_response_basis-IsHeader backend (record sft { function = sft.function + 0x80 }) rsp
          (omega arith) in
      let hd_room : hd.out.cap ≡ 260 = hd.same_cap ∙ room in
      let out : Buf = record hd.out { cell = update hd.out.cell (h + 1) (code % 256) } in
      let total : h + 1 + 1 ≡ h + 2 = omega arith in
      record {
        out = out;
        returns = rw hd.returns (
            rw (write_inside 256 hd.out (h + 1) code (omega arith))
              (ap (λ m. some (response out m mb)) total));
        same_cap = hd_room;
        tid =
            HasTid-same backend sft out hd.out (λ k p. ground (arith, p))
              (exception_tid backend sft hd.out hd.tid);
        bytes = λ small k. ground (arith, hd.small small k);
        slave = elsewhere hd.out.cell (h - 1) (h + 1) (code % 256) (omega arith) ∙ hd.slave;
        function = elsewhere hd.out.cell h (h + 1) (code % 256) (omega arith) ∙ hd.function;
        code_byte = ground arith;
      }

-- The requests about one table.
pub data Access : Type 0 where
  read_coils read_discrete_inputs read_holding_registers read_input_registers : Access
  write_coil write_register write_coils write_registers : Access

abbrev pub access_function : Access → ℕ
access_function read_coils = 0x01
access_function read_discrete_inputs = 0x02
access_function read_holding_registers = 0x03
access_function read_input_registers = 0x04
access_function write_coil = 0x05
access_function write_register = 0x06
access_function write_coils = 0x0f
access_function write_registers = 0x10

-- The number of elements of the table.
abbrev pub access_count : Mapping → Access → ℕ
access_count mb read_coils = mb.nb_bits
access_count mb read_discrete_inputs = mb.nb_input_bits
access_count mb read_holding_registers = mb.nb_registers
access_count mb read_input_registers = mb.nb_input_registers
access_count mb write_coil = mb.nb_bits
access_count mb write_register = mb.nb_registers
access_count mb write_coils = mb.nb_bits
access_count mb write_registers = mb.nb_registers

-- The number of elements that the request is about.
abbrev pub access_span : Access → ℕ → ℕ
access_span write_coil nb = 1
access_span write_register nb = 1
access_span _ nb = nb

module _ (backend : Backend) (req : Buf) (n : ℕ) (mb : Mapping) (rsp : Buf)
    (is : IsRequest backend req) (room : rsp.cap ≡ 260) where
  abbrev pub a : ℕ
  a = request_address backend req

  abbrev pub nb : ℕ
  nb = request_quantity backend req

  abbrev pub n' : ℕ
  n' = n - checksum_length backend

  abbrev pub fc : ℕ
  fc = request_function backend req

  abbrev pub sft : Sft
  sft = request_sft backend req

  present : header_length backend + 3 + 1 < req.cap
  present = omega (arith, is.present)

  abbrev pub Refuses : ℕ → Type 0
  Refuses code = IsRefused backend sft mb code rsp (reply_message backend req n mb rsp)

  pub started :
      (code : ℕ)
      → reply_to backend req n' mb sft a rsp fc ≡ refuse backend req n' mb sft a rsp code
      → Refuses code
  started code e =
      rw (reply_message-reply_to backend req n mb rsp is.bytes is.present is.header, e)
        (refuse-IsRefused backend req n' mb sft a rsp room code)

  bits_refused :
      (count : ℕ) (tab : Buf)
      → count < a + nb
      → reply_read_bits backend req n' mb sft a rsp count tab ≡ refuse backend req n' mb sft a rsp 2
  unfolding reply_read_bits
  bits_refused count tab h =
      rw (word_at_inside req (header_length backend + 3) present, lt→ltb count (a + nb) h)

  registers_refused :
      (count : ℕ) (tab : Buf)
      → count < a + nb
      → reply_read_registers backend req n' mb sft a rsp count tab
        ≡ refuse backend req n' mb sft a rsp 2
  unfolding reply_read_registers
  registers_refused count tab h =
      rw (word_at_inside req (header_length backend + 3) present, lt→ltb count (a + nb) h)

  coil_refused :
      mb.nb_bits < a + 1
      → reply_write_single_coil backend req n' mb sft a rsp ≡ refuse backend req n' mb sft a rsp 2
  unfolding reply_write_single_coil
  coil_refused h = let over : leb mb.nb_bits a ≡ true = ground arith in rw over

  register_refused :
      mb.nb_registers < a + 1
      → reply_write_single_register backend req n' mb sft a rsp
        ≡ refuse backend req n' mb sft a rsp 2
  unfolding reply_write_single_register
  register_refused h = let over : leb mb.nb_registers a ≡ true = ground arith in rw over

  coils_refused :
      mb.nb_bits < a + nb
      → reply_write_multiple_coils backend req n' mb sft a rsp
        ≡ refuse backend req n' mb sft a rsp 2
  unfolding reply_write_multiple_coils
  coils_refused h =
      rw (word_at_inside req (header_length backend + 3) present, lt→ltb mb.nb_bits (a + nb) h)

  several_registers_refused :
      mb.nb_registers < a + nb
      → reply_write_multiple_registers backend req n' mb sft a rsp
        ≡ refuse backend req n' mb sft a rsp 2
  unfolding reply_write_multiple_registers
  several_registers_refused h =
      rw (word_at_inside req (header_length backend + 3) present, lt→ltb mb.nb_registers (a + nb) h)

  -- Every request to read or write one table, if an element that it names is not in the table, is
  -- answered with the exception "illegal data address" and leaves all tables as they were.
  pub reply-address-IsRefused :
      (x : Access)
      → request_function backend req ≡ access_function x
      → access_count mb x
        < request_address backend req + access_span x (request_quantity backend req)
      → IsRefused backend (request_sft backend req) mb 0x02 rsp (reply_message backend req n mb rsp)
  reply-address-IsRefused read_coils e h =
      started 2 (to_read_coils backend req n' mb sft a rsp fc e ∙ bits_refused _ _ h)
  reply-address-IsRefused read_discrete_inputs e h =
      started 2 (to_read_discrete_inputs backend req n' mb sft a rsp fc e ∙ bits_refused _ _ h)
  reply-address-IsRefused read_holding_registers e h =
      started 2
        (to_read_holding_registers backend req n' mb sft a rsp fc e ∙ registers_refused _ _ h)
  reply-address-IsRefused read_input_registers e h =
      started 2 (to_read_input_registers backend req n' mb sft a rsp fc e ∙ registers_refused _ _ h)
  reply-address-IsRefused write_coil e h =
      started 2 (to_write_single_coil backend req n' mb sft a rsp fc e ∙ coil_refused h)
  reply-address-IsRefused write_register e h =
      started 2 (to_write_single_register backend req n' mb sft a rsp fc e ∙ register_refused h)
  reply-address-IsRefused write_coils e h =
      started 2 (to_write_multiple_coils backend req n' mb sft a rsp fc e ∙ coils_refused h)
  reply-address-IsRefused write_registers e h =
      started 2
        (to_write_multiple_registers backend req n' mb sft a rsp fc e ∙ several_registers_refused h)
