-- ===== src/Examples/Exceptions.antt =====
-- A client over TCP that asks the small server for registers that it does not have.
use swift_lib_modbus.Prelude.{◌≡◌, refl, ap, ◌∙◌, some, ◌>>=◌, arith, []}
use swift_lib_modbus.Context.{tcp}
use swift_lib_modbus.Protocol.{confirmation}
use swift_lib_modbus.Memory.{Buf}
use swift_lib_modbus.Backend.{send_msg_pre}
use swift_lib_modbus.Backend.Framing.{IsFramed, send_msg_pre-IsFramed}
use swift_lib_modbus.Receive.{receive_msg}
use swift_lib_modbus.Exchange.{reply_sent, framed_reply}
use swift_lib_modbus.Exchange.Reported.{IsReported, address-IsReported}
use swift_lib_modbus.Server.Reply.{reply_message}
use swift_lib_modbus.Server.Reply.Start.{request_sft}
use swift_lib_modbus.Server.Reply.Refuse.{
  IsRefused, read_holding_registers, reply-address-IsRefused,
}
use swift_lib_modbus.Examples.Tables.{tables, scratch}
use swift_lib_modbus.Examples.Exchanges.{line, line-IsStream, client, zero_add, scratch-IsBytes}
use swift_lib_modbus.Examples.Replies.{message, message-IsRequest}

abbrev read_past : Buf
read_past = message 3 3 0 2 []

refused :
    IsRefused tcp
      (request_sft tcp read_past)
      tables
      2
      scratch
      (reply_message tcp read_past 12 tables scratch)
refused =
    reply-address-IsRefused tcp read_past 12 tables scratch
      (message-IsRequest 3 3 0 2 [] (omega arith)) refl read_holding_registers refl (omega arith)

framed : IsFramed tcp refused.out 9 (send_msg_pre tcp refused.out 9)
framed = send_msg_pre-IsFramed tcp refused.out 9 (omega (arith, refused.same_cap)) (omega arith)

sent : reply_sent tcp read_past 12 tables scratch ≡ some (framed.frame, 9)
unfolding framed_reply
sent = ap (λ r. r >>= framed_reply tcp) refused.returns ∙ framed.returns

address-IsReported_example :
    IsReported
      (line framed.frame.cell)
      (λ w. w)
      framed.frame.cell
      (client tcp 255)
      0
      read_past
      scratch
      2
      9
      (receive_msg (line framed.frame.cell) 9 (client tcp 255) scratch confirmation 0)
address-IsReported_example =
    address-IsReported (line framed.frame.cell) (λ w. w) framed.frame.cell (client tcp 255) 0
      read_past scratch read_holding_registers 12 tables scratch framed.frame 9 9 9 0
      (line-IsStream framed.frame.cell 9 (framed.bytes (refused.bytes scratch-IsBytes)))
      (message-IsRequest 3 3 0 2 [] (omega arith)) tt refl (omega arith) refl scratch-IsBytes sent
      (omega arith) scratch-IsBytes (λ k p. ap framed.frame.cell (zero_add k)) refl (omega arith)
      (omega arith)
