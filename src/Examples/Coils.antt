-- ===== src/Examples/Coils.antt =====
-- A client over TCP that reads nine coils of the small server.
use swift_lib_modbus.Prelude.{◌≡◌, refl, ap, ◌∙◌, some, ◌>>=◌, arith, [], inl}
use swift_lib_modbus.Context.{tcp}
use swift_lib_modbus.Protocol.{confirmation}
use swift_lib_modbus.Backend.{send_msg_pre}
use swift_lib_modbus.Backend.Framing.{IsFramed, send_msg_pre-IsFramed}
use swift_lib_modbus.Receive.{receive_msg}
use swift_lib_modbus.Exchange.{reply_sent, framed_reply}
use swift_lib_modbus.Exchange.Bits.{IsBitsAnswered, bits-IsBitsAnswered}
use swift_lib_modbus.Server.Reply.{reply_message}
use swift_lib_modbus.Server.Reply.Start.{request_sft}
use swift_lib_modbus.Server.Reply.Read.{IsBitAnswer}
use swift_lib_modbus.Server.Reply.Answers.{IsRequest, reply-bits}
use swift_lib_modbus.Examples.Tables.{tables, tables-IsMapping, scratch}
use swift_lib_modbus.Examples.Exchanges.{line, line-IsStream, client, zero_add, scratch-IsBytes}
use swift_lib_modbus.Examples.Replies.{read_bits, message-IsRequest}

asked : IsRequest tcp read_bits
asked = message-IsRequest 1 1 0 9 [] (omega arith)

answered :
    IsBitAnswer tcp
      (request_sft tcp read_bits)
      tables
      tables.tab_bits
      1
      9
      scratch
      (reply_message tcp read_bits 12 tables scratch)
answered =
    reply-bits tcp read_bits 12 tables scratch asked tables-IsMapping (inl refl) (omega arith)
      (omega arith) refl

framed : IsFramed tcp answered.answer.out 11 (send_msg_pre tcp answered.answer.out 11)
framed =
    send_msg_pre-IsFramed tcp answered.answer.out 11 (omega (arith, answered.answer.same_cap))
      (omega arith)

sent : reply_sent tcp read_bits 12 tables scratch ≡ some (framed.frame, 11)
unfolding framed_reply
sent = ap (λ r. r >>= framed_reply tcp) answered.answer.returns ∙ framed.returns

bits-IsBitsAnswered_example :
    IsBitsAnswered
      (line framed.frame.cell)
      (λ w. w)
      framed.frame.cell
      (client tcp 255)
      0
      read_bits
      scratch
      tables.tab_bits
      11
      (receive_msg (line framed.frame.cell) 11 (client tcp 255) scratch confirmation 0)
bits-IsBitsAnswered_example =
    bits-IsBitsAnswered (line framed.frame.cell) (λ w. w) framed.frame.cell (client tcp 255) 0
      read_bits scratch 12 tables scratch framed.frame 11 11 11 0
      (line-IsStream framed.frame.cell 11 (framed.bytes (answered.bytes scratch-IsBytes))) asked
      tables-IsMapping tt (inl refl) (omega arith) (omega arith) refl scratch-IsBytes sent
      (omega arith) scratch-IsBytes (λ k p. ap framed.frame.cell (zero_add k)) refl (omega arith)
      (omega arith)
