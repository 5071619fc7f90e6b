-- ===== src/Examples/ReadBacks.antt =====
-- A client over TCP that writes one of two registers and reads both.
use swift_lib_modbus.Prelude.{◌≡◌, refl, ap, ◌∙◌, some, ◌>>=◌, arith}
use swift_lib_modbus.Context.{tcp}
use swift_lib_modbus.Protocol.{confirmation}
use swift_lib_modbus.Backend.{send_msg_pre}
use swift_lib_modbus.Backend.Framing.{IsFramed, send_msg_pre-IsFramed}
use swift_lib_modbus.Receive.{receive_msg}
use swift_lib_modbus.Exchange.{reply_sent, framed_reply}
use swift_lib_modbus.Exchange.Registers.{IsReadBack, write_and_read-IsReadBack}
use swift_lib_modbus.Server.Reply.{reply_message}
use swift_lib_modbus.Server.Reply.Answers.{IsRequest}
use swift_lib_modbus.Server.Reply.WriteAndRead.{IsWrittenAndRead, reply-IsWrittenAndRead}
use swift_lib_modbus.Examples.Tables.{tables, tables-IsMapping, scratch}
use swift_lib_modbus.Examples.Exchanges.{line, line-IsStream, client, zero_add, scratch-IsBytes}
use swift_lib_modbus.Examples.Replies.{write_then_read, write_and_read, message-IsRequest}

asked : IsRequest tcp write_and_read
asked = message-IsRequest 0x17 1 0 2 write_then_read (omega arith)

done :
    IsWrittenAndRead tcp write_and_read tables scratch
      (reply_message tcp write_and_read 19 tables scratch)
done =
    reply-IsWrittenAndRead tcp write_and_read 19 tables scratch asked tables-IsMapping refl
      (omega arith) (omega arith) (omega arith) (omega arith) refl

framed : IsFramed tcp done.answer.answer.out 13 (send_msg_pre tcp done.answer.answer.out 13)
framed =
    send_msg_pre-IsFramed tcp done.answer.answer.out 13 (omega (arith, done.answer.answer.same_cap))
      (omega arith)

sent : reply_sent tcp write_and_read 19 tables scratch ≡ some (framed.frame, 13)
unfolding framed_reply
sent = ap (λ r. r >>= framed_reply tcp) done.answer.answer.returns ∙ framed.returns

write_and_read-IsReadBack_example :
    IsReadBack
      (line framed.frame.cell)
      (λ w. w)
      framed.frame.cell
      (client tcp 255)
      0
      write_and_read
      scratch
      19
      tables
      scratch
      13
      (receive_msg (line framed.frame.cell) 13 (client tcp 255) scratch confirmation 0)
write_and_read-IsReadBack_example =
    write_and_read-IsReadBack (line framed.frame.cell) (λ w. w) framed.frame.cell (client tcp 255) 0
      write_and_read scratch 19 tables scratch framed.frame 13 13 13 0
      (line-IsStream framed.frame.cell 13 (framed.bytes (done.answer.bytes scratch-IsBytes))) asked
      tables-IsMapping tt refl (omega arith) (omega arith) (omega arith) (omega arith) refl
      scratch-IsBytes sent (omega arith) scratch-IsBytes (λ k p. ap framed.frame.cell (zero_add k))
      refl (omega arith) (omega arith)
