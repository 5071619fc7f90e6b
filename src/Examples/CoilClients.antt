-- ===== src/Examples/CoilClients.antt =====
-- A client over TCP that reads nine coils of the small server by `modbus_read_bits`.
use swift_lib_modbus.Prelude.{ℕ, ◌+◌, ◌≡◌, refl, ap, ◌∙◌, some, ◌>>=◌, arith, inl}
use swift_lib_modbus.Context.{tcp}
use swift_lib_modbus.Memory.{Buf}
use swift_lib_modbus.Backend.{basis, send_msg_pre}
use swift_lib_modbus.Backend.Framing.{IsFramed, send_msg_pre-IsFramed}
use swift_lib_modbus.Client.Bits.{read_bits_by, read_bits_by-IsRead}
use swift_lib_modbus.Client.Request.{IsBuilt, build_request_basis-IsBuilt}
use swift_lib_modbus.Client.Read.{IsRead, IsAsked, framed-IsAsked}
use swift_lib_modbus.Exchange.{reply_sent, framed_reply}
use swift_lib_modbus.Server.IoStatus.Laws.{bytes_for}
use swift_lib_modbus.Server.Reply.{reply_message}
use swift_lib_modbus.Server.Reply.Start.{
  request_sft, request_function, request_address, request_quantity,
}
use swift_lib_modbus.Server.Reply.Read.{IsBitAnswer}
use swift_lib_modbus.Server.Reply.Answers.{bit_table, reply-bits}
use swift_lib_modbus.Examples.Tables.{tables, tables-IsMapping, scratch}
use swift_lib_modbus.Examples.Clients.{small_scratch, small_scratch-IsBytes}
use swift_lib_modbus.Examples.Exchanges.{line, line-IsStream, client, zero_add, scratch-IsBytes}

abbrev nine : Buf
nine = record { cap = 9; cell = λ i. 7 }

built :
    IsBuilt tcp
      (client tcp 255)
      255
      1
      1
      9
      small_scratch
      (basis tcp (client tcp 255) 1 1 9 small_scratch)
built =
    build_request_basis-IsBuilt (client tcp 255) 255 1 1 9 small_scratch refl (omega arith)
      (omega arith) (omega arith) (omega arith) (omega arith) tcp

framed : IsFramed tcp built.out 12 (send_msg_pre tcp built.out 12)
framed = send_msg_pre-IsFramed tcp built.out 12 (omega (arith, built.same_cap)) (omega arith)

asked : IsAsked tcp (client tcp 255) 255 1 1 9 small_scratch refl built framed.frame
asked =
    framed-IsAsked tcp (client tcp 255) 255 1 1 9 small_scratch refl built small_scratch-IsBytes
      framed

abbrev table_of_request : Buf
table_of_request = bit_table tables (request_function tcp framed.frame)

table_is : table_of_request ≡ tables.tab_bits
table_is = ap (bit_table tables) asked.function_is

answered :
    IsBitAnswer tcp
      (request_sft tcp framed.frame)
      tables
      table_of_request
      (request_address tcp framed.frame)
      (request_quantity tcp framed.frame)
      scratch
      (reply_message tcp framed.frame 12 tables scratch)
answered =
    reply-bits tcp framed.frame 12 tables scratch asked.is tables-IsMapping (inl asked.function_is)
      (omega (arith, asked.address_is, asked.quantity_is, ap (λ t. t.cap) table_is))
      (omega (arith, asked.quantity_is)) refl

abbrev answer_length : ℕ
answer_length = 9 + bytes_for (request_quantity tcp framed.frame)

answer_framed :
    IsFramed tcp answered.answer.out answer_length
      (send_msg_pre tcp answered.answer.out answer_length)
answer_framed =
    send_msg_pre-IsFramed tcp answered.answer.out answer_length
      (omega (arith, answered.answer.same_cap, asked.quantity_is)) (omega arith)

answer_sent :
    reply_sent tcp framed.frame 12 tables scratch ≡ some (answer_framed.frame, answer_length + 0)
unfolding framed_reply
answer_sent = ap (λ r. r >>= framed_reply tcp) answered.answer.returns ∙ answer_framed.returns

read_bits_by-IsRead_example :
    IsRead tables.tab_bits 1 9 nine
      (record (client tcp 255) { t_id = built.t_id })
      (read_bits_by
        (line answer_framed.frame.cell)
        11
        small_scratch
        scratch
        1
        (client tcp 255)
        1
        9
        nine
        0)
read_bits_by-IsRead_example =
    read_bits_by-IsRead (line answer_framed.frame.cell) (λ w. w) answer_framed.frame.cell
      (client tcp 255) 255 1 1 9 small_scratch scratch nine 12 tables scratch built framed 0
      (answer_length + 0) (answer_length + 0) 10 answer_framed.frame 0 0 refl (inl refl)
      (omega arith) (omega arith) (omega arith) tables-IsMapping refl small_scratch-IsBytes refl
      scratch-IsBytes refl scratch-IsBytes refl answer_sent
      (line-IsStream answer_framed.frame.cell (answer_length + 0)
        (answer_framed.bytes (answered.bytes scratch-IsBytes)))
      (λ k p. ap answer_framed.frame.cell (zero_add k)) refl (omega arith)
      (omega (arith, asked.quantity_is))
