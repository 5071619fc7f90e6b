-- ===== src/Examples/Writes.antt =====
-- A client over TCP that writes two registers of the small server, and the server's reply as a whole.
use swift_lib_modbus.Prelude.{◌≡◌, refl, ap, ◌∙◌, some, ◌>>=◌, arith, [], ◌∷◌}
use swift_lib_modbus.Context.{tcp}
use swift_lib_modbus.Memory.{Buf}
use swift_lib_modbus.Backend.{send_msg_pre}
use swift_lib_modbus.Backend.Framing.{IsFramed, send_msg_pre-IsFramed}
use swift_lib_modbus.Client.{write_registers, write_registers_request}
use swift_lib_modbus.Client.Write.{IsWriteRequest, write_registers_request-IsWriteRequest}
use swift_lib_modbus.Client.Write.Whole.{IsStored, IsTold, asked-IsStored, write_registers-IsStored}
use swift_lib_modbus.Exchange.{reply_sent, framed_reply}
use swift_lib_modbus.Server.Reply.{reply_message}
use swift_lib_modbus.Server.Reply.Write.{IsRegistersWritten}
use swift_lib_modbus.Server.Serve.{modbus_reply, IsServed, modbus_reply-IsServed}
use swift_lib_modbus.Server.Loops.{IsWords}
use swift_lib_modbus.Examples.Tables.{array, array_below, tables, tables-IsMapping, scratch}
use swift_lib_modbus.Examples.Exchanges.{line, line-IsStream, client, zero_add, scratch-IsBytes}

abbrev values : Buf
values = array (7 ∷ 1000 ∷ [])

values-IsWords : IsWords values
values-IsWords = array_below 65536 (7 ∷ 1000 ∷ []) (omega arith) (omega arith)

built :
    IsWriteRequest
      (client tcp 255)
      255
      1
      2
      values
      scratch
      (write_registers_request scratch (client tcp 255) 1 2 values)
built =
    write_registers_request-IsWriteRequest scratch (client tcp 255) 255 1 2 values refl
      (omega arith) (omega arith) (omega arith) refl scratch-IsBytes (omega arith) values-IsWords

framed : IsFramed tcp built.out 17 (send_msg_pre tcp built.out 17)
framed = send_msg_pre-IsFramed tcp built.out 17 (omega (arith, built.same_cap)) (omega arith)

done :
    IsRegistersWritten tcp framed.frame tables scratch
      (reply_message tcp framed.frame 17 tables scratch)
    × IsStored tcp 1 2 values tables (reply_message tcp framed.frame 17 tables scratch)
done =
    asked-IsStored (client tcp 255) 255 1 2 values scratch
      (write_registers_request scratch (client tcp 255) 1 2 values) built framed refl 17 tables
      scratch (omega arith) tables-IsMapping (omega arith) refl

answer_framed : IsFramed tcp done.0.confirmed.out 12 (send_msg_pre tcp done.0.confirmed.out 12)
answer_framed =
    send_msg_pre-IsFramed tcp done.0.confirmed.out 12 (omega (arith, done.0.confirmed.same_cap))
      (omega arith)

answer_sent : reply_sent tcp framed.frame 17 tables scratch ≡ some (answer_framed.frame, 12)
unfolding framed_reply
answer_sent = ap (λ r. r >>= framed_reply tcp) done.0.confirmed.returns ∙ answer_framed.returns

write_registers-IsStored_example :
    IsStored tcp 1 2 values tables (reply_message tcp framed.frame 17 tables scratch)
    × IsTold
        (record (client tcp 255) { t_id = built.t_id })
        2
        (write_registers
          (line answer_framed.frame.cell)
          13
          scratch
          scratch
          (client tcp 255)
          1
          2
          values
          0)
write_registers-IsStored_example =
    write_registers-IsStored (line answer_framed.frame.cell) (λ w. w) answer_framed.frame.cell
      (client tcp 255) 255 1 2 values scratch scratch 17 tables scratch 12
      (record (client tcp 255) { t_id = built.t_id }) built.out framed.frame answer_framed.frame 17
      17 0 12 12 0 0 refl (omega arith) (omega arith) (omega arith) (omega arith) tables-IsMapping
      (omega arith) values-IsWords refl scratch-IsBytes refl scratch-IsBytes refl scratch-IsBytes
      built.returns framed.returns refl answer_sent
      (line-IsStream answer_framed.frame.cell 12
        (answer_framed.bytes (done.0.confirmed.bytes scratch-IsBytes)))
      (λ k p. ap answer_framed.frame.cell (zero_add k)) refl (omega arith) (omega arith)

modbus_reply-IsServed_example :
    IsServed
      (line framed.frame.cell)
      5
      tables
      (modbus_reply (line framed.frame.cell) 5 (client tcp 255) framed.frame 17 tables scratch 0)
modbus_reply-IsServed_example =
    modbus_reply-IsServed (line framed.frame.cell) 5 (client tcp 255) framed.frame 17 tables scratch
      0 tables-IsMapping
