-- ===== src/Examples/Replies.antt =====
-- Replies of a server over TCP.
use swift_lib_modbus.Prelude.{
  ℕ, ◌≡◌, ◌<◌, refl, List, [], ◌∷◌, some, none, arith, inl, ◌>>=◌, true, All, get_or, ◌+◌,
}
use swift_lib_modbus.Memory.{Buf}
use swift_lib_modbus.Context.{tcp}
use swift_lib_modbus.Data.{set_bits_from_bytes}
use swift_lib_modbus.Server.IoStatus.{response_io_status}
use swift_lib_modbus.Server.IoStatus.Laws.{
  IsPacked, response_io_status-IsPacked, unpack-response_io_status,
}
use swift_lib_modbus.Server.Mapping.{Mapping, IsMapping}
use swift_lib_modbus.Server.Reply.{reply_message}
use swift_lib_modbus.Server.Reply.Start.{request_sft}
use swift_lib_modbus.Server.Reply.Read.{IsRegisterAnswer, IsBitAnswer}
use swift_lib_modbus.Server.Reply.Answers.{IsRequest, reply-registers, reply-bits}
use swift_lib_modbus.Server.Reply.Write.{
  IsRegistersWritten, IsCoilsWritten, reply-IsRegistersWritten, reply-IsCoilsWritten,
}
use swift_lib_modbus.Server.Reply.Single.{
  IsEcho, stored_at, reply-register_written, reply-coil_written,
}
use swift_lib_modbus.Server.Reply.Refuse.{
  IsRefused, read_holding_registers, reply-address-IsRefused,
}
use swift_lib_modbus.Server.Reply.Illegal.{reply-function-IsRefused}
use swift_lib_modbus.Server.Reply.Overflow.{reply-registers_overflow}
use swift_lib_modbus.Examples.Tables.{
  array, array_below, coils, registers, tables, tables-IsMapping, scratch,
}

-- Transaction 1 to slave 255: a function, an address, a quantity or value, and what follows.
abbrev pub bytes : ℕ → ℕ → ℕ → ℕ → List ℕ → List ℕ
bytes function address hi lo rest =
    0 ∷ 1 ∷ 0 ∷ 0 ∷ 0 ∷ 6 ∷ 255 ∷ function ∷ 0 ∷ address ∷ hi ∷ lo ∷ rest

abbrev pub message : ℕ → ℕ → ℕ → ℕ → List ℕ → Buf
message function address hi lo rest = array (bytes function address hi lo rest)

pub message-IsRequest :
    (function address hi lo : ℕ) (rest : List ℕ)
    → All (λ x. x < 256) (bytes function address hi lo rest)
    → IsRequest tcp (message function address hi lo rest)
message-IsRequest function address hi lo rest small = record {
  bytes = array_below 256 (bytes function address hi lo rest) (omega arith) small;
  present = omega arith;
  header = omega arith;
}

abbrev read_two : Buf
read_two = message 3 1 0 2 []

reply-registers_example :
    IsRegisterAnswer tcp
      (request_sft tcp read_two)
      tables
      tables.tab_registers
      1
      2
      scratch
      (reply_message tcp read_two 12 tables scratch)
reply-registers_example =
    reply-registers tcp read_two 12 tables scratch (message-IsRequest 3 1 0 2 [] (omega arith))
      tables-IsMapping (inl refl) (omega arith) (omega arith) refl

abbrev pub read_bits : Buf
read_bits = message 1 1 0 9 []

reply-bits_example :
    IsBitAnswer tcp
      (request_sft tcp read_bits)
      tables
      tables.tab_bits
      1
      9
      scratch
      (reply_message tcp read_bits 12 tables scratch)
reply-bits_example =
    reply-bits tcp read_bits 12 tables scratch (message-IsRequest 1 1 0 9 [] (omega arith))
      tables-IsMapping (inl refl) (omega arith) (omega arith) refl

abbrev two_values : List ℕ
two_values = 4 ∷ 1 ∷ 2 ∷ 3 ∷ 4 ∷ []

abbrev write_two : Buf
write_two = message 0x10 1 0 2 two_values

reply-IsRegistersWritten_example :
    IsRegistersWritten tcp write_two tables scratch (reply_message tcp write_two 17 tables scratch)
reply-IsRegistersWritten_example =
    reply-IsRegistersWritten tcp write_two 17 tables scratch
      (message-IsRequest 0x10 1 0 2 two_values (omega arith)) tables-IsMapping refl (omega arith)
      (omega arith) refl

abbrev nine_bits : List ℕ
nine_bits = 2 ∷ 0xcd ∷ 1 ∷ []

abbrev write_nine : Buf
write_nine = message 0x0f 1 0 9 nine_bits

reply-IsCoilsWritten_example :
    IsCoilsWritten tcp write_nine tables scratch (reply_message tcp write_nine 15 tables scratch)
reply-IsCoilsWritten_example =
    reply-IsCoilsWritten tcp write_nine 15 tables scratch
      (message-IsRequest 0x0f 1 0 9 nine_bits (omega arith)) tables-IsMapping refl (omega arith)
      (omega arith) refl

abbrev write_one : Buf
write_one = message 6 2 1 4 []

reply-register_written_example :
    IsEcho write_one 12
      (record tables { tab_registers = stored_at (array registers) 2 260 })
      (reply_message tcp write_one 12 tables scratch)
reply-register_written_example =
    reply-register_written tcp write_one 12 tables scratch
      (message-IsRequest 6 2 1 4 [] (omega arith)) tables-IsMapping refl (omega arith) (omega arith)
      (omega arith) refl

abbrev coil_on : Buf
coil_on = message 5 1 0xff 0 []

reply-coil_written_example :
    IsEcho coil_on 12
      (record tables { tab_bits = stored_at (array coils) 1 1 })
      (reply_message tcp coil_on 12 tables scratch)
reply-coil_written_example =
    reply-coil_written tcp coil_on 12 tables scratch (message-IsRequest 5 1 0xff 0 [] (omega arith))
      tables-IsMapping refl (omega arith) true refl (omega arith) (omega arith) refl

abbrev read_past : Buf
read_past = message 3 3 0 2 []

reply-address-IsRefused_example :
    IsRefused tcp
      (request_sft tcp read_past)
      tables
      0x02
      scratch
      (reply_message tcp read_past 12 tables scratch)
reply-address-IsRefused_example =
    reply-address-IsRefused tcp read_past 12 tables scratch
      (message-IsRequest 3 3 0 2 [] (omega arith)) refl read_holding_registers refl (omega arith)

abbrev odd_function : Buf
odd_function = message 0x2b 3 0 2 []

reply-function-IsRefused_example :
    IsRefused tcp
      (request_sft tcp odd_function)
      tables
      0x01
      scratch
      (reply_message tcp odd_function 12 tables scratch)
reply-function-IsRefused_example =
    reply-function-IsRefused tcp odd_function 12 tables scratch
      (message-IsRequest 0x2b 3 0 2 [] (omega arith)) refl refl

abbrev coil_other : Buf
coil_other = message 5 1 1 0 []

-- A server with 200 registers, and a client that asks for 126 of them.
abbrev many : Mapping
many = record tables { nb_registers = 200; tab_registers = record { cap = 200; cell = λ i. 7 } }

many-IsMapping : IsMapping many
many-IsMapping = record {
  bits = tables-IsMapping.bits;
  input_bits = tables-IsMapping.input_bits;
  registers = record { cap_is = refl; small = λ i. omega arith };
  input_registers = tables-IsMapping.input_registers;
}

abbrev read_many : Buf
read_many = message 3 0 0 126 []

reply-registers_overflow_example : reply_message tcp read_many 12 many scratch ≡ none
reply-registers_overflow_example =
    reply-registers_overflow tcp read_many 12 many scratch
      (message-IsRequest 3 0 0 126 [] (omega arith)) many-IsMapping (inl refl) (omega arith)
      (omega arith) refl

response_io_status-IsPacked_example :
    IsPacked (array coils) 9 1 0 0 scratch 5 (response_io_status 1 9 (array coils) scratch 5)
response_io_status-IsPacked_example =
    response_io_status-IsPacked 1 9 (array coils) scratch 5
      (array_below 2 coils (omega arith) (omega arith)) (omega arith) (omega arith)

unpack-response_io_status_example :
    (out : Buf) × ((response_io_status 1 9 (array coils) scratch 5 >>= λ packed.
    set_bits_from_bytes scratch 20 9 packed.0 5)
      ≡ some out)
    × ((j : ℕ) → j < 9 → out.cell (20 + j) ≡ get_or coils (1 + j) 0)
unpack-response_io_status_example =
    unpack-response_io_status 1 9 (array coils) scratch 5 scratch 20
      (array_below 2 coils (omega arith) (omega arith)) (omega arith) (omega arith) (omega arith)

abbrev pub write_then_read : List ℕ
write_then_read = 0 ∷ 2 ∷ 0 ∷ 1 ∷ 2 ∷ 9 ∷ 8 ∷ []

abbrev pub write_and_read : Buf
write_and_read = message 0x17 1 0 2 write_then_read
