-- ===== src/Examples/Exchanges.antt =====
-- A line that delivers three bytes at a time, and exchanges over it.
use swift_lib_modbus.Prelude.{
  ◌*◌, ◌/◌, ℕ, ◌+◌, ◌<◌, ◌≤◌, ◌≡◌, refl, ap, ◌∙◌, some, ◌>>=◌, arith, inl, All, length, min, false,
  ◌∷◌, [], List,
}
use swift_lib_modbus.Prelude.Int.{ℤ, pos}
use swift_lib_modbus.Protocol.{ok, indication, confirmation}
use swift_lib_modbus.Context.{Ctx, Backend, rtu, tcp, timeval}
use swift_lib_modbus.Memory.{Buf, IsBytes}
use swift_lib_modbus.Backend.{send_msg_pre}
use swift_lib_modbus.Backend.Framing.{IsFramed, send_msg_pre-IsFramed}
use swift_lib_modbus.Link.{Link}
use swift_lib_modbus.Link.Stream.{IsStream}
use swift_lib_modbus.Receive.{receive_msg}
use swift_lib_modbus.Receive.Message.{IsDelivered, receive_msg-IsDelivered}
use swift_lib_modbus.Confirm.Accepted.{IsPair, bits_confirmed, registers_confirmed, Matches}
use swift_lib_modbus.Confirm.Sound.{registers_sound, bits_sound}
use swift_lib_modbus.Server.Loops.{word_cells}
use swift_lib_modbus.Length.{byte_count}
use swift_lib_modbus.Exchange.{reply_sent, framed_reply}
use swift_lib_modbus.Exchange.Registers.{IsAnswered, registers-IsAnswered}
use swift_lib_modbus.Server.Reply.{reply_message}
use swift_lib_modbus.Server.Reply.Start.{request_sft}
use swift_lib_modbus.Server.Reply.Read.{IsRegisterAnswer}
use swift_lib_modbus.Server.Reply.Answers.{reply-registers}
use swift_lib_modbus.Examples.Tables.{array, array_below, tables, tables-IsMapping, scratch}
use swift_lib_modbus.Examples.Frames.{asked, asked-IsBytes}
use swift_lib_modbus.Rtu.Frame.{with_crc, with_crc-IsBytes, send_msg_pre-with_crc}
use swift_lib_modbus.Receive.Kinds.{short_request-message_end}
use swift_lib_modbus.Examples.Replies.{bytes, message, message-IsRequest}

pub zero_add : (k : ℕ) → 0 + k ≡ k
zero_add k = omega arith

abbrev pub line : (ℕ → ℕ) → Link ℕ
line stream = record {
  select = λ ctx p_tv n w. (ok p_tv, w);
  recv = λ ctx n w. (ok (record { cap = min 3 n; cell = λ i. stream (w + i) }), w + min 3 n);
  send = λ ctx msg n w. (ok n, w);
  flush = λ ctx w. (ok 0, w);
  close = λ ctx w. w;
  connect = λ ctx w. (ok 0, ctx, w);
  sleep = λ t w. w;
}

pub line-IsStream :
    {s : ℤ} (stream : ℕ → ℕ) (stop : ℕ)
    → ((k : ℕ) → stream k < 256)
    → IsStream (line stream) (λ w. w) stream s stop
line-IsStream stream stop small = record {
  of_bytes = small;
  ready = λ ctx p_tv n w same h. record { tv = p_tv; world = w; returns = refl; stays = refl };
  reads = λ ctx n w same h h'. record {
    bytes = record { cap = min 3 n; cell = λ i. stream (w + i) };
    world = w + min 3 n;
    returns = refl;
    some_bytes = omega arith;
    not_more = omega arith;
    are_next = λ k p. refl;
    are_bytes = λ k. small (w + k);
    moves = refl;
  };
}

abbrev pub client : Backend → ℕ → Ctx
client backend slave = record {
  slave = pos slave;
  s = pos 3;
  debug = false;
  error_recovery = 0;
  response_timeout = timeval (pos 0) (pos 500000);
  byte_timeout = timeval (pos 0) (pos 500000);
  backend = backend;
  t_id = 1;
  rts = 0;
  confirmation_to_ignore = false;
}

abbrev ask_two : Buf
ask_two = message 3 1 0 2 []

two_answered :
    IsRegisterAnswer tcp
      (request_sft tcp ask_two)
      tables
      tables.tab_registers
      1
      2
      scratch
      (reply_message tcp ask_two 12 tables scratch)
two_answered =
    reply-registers tcp ask_two 12 tables scratch (message-IsRequest 3 1 0 2 [] (omega arith))
      tables-IsMapping (inl refl) (omega arith) (omega arith) refl

pub scratch-IsBytes : IsBytes scratch
scratch-IsBytes i = omega arith

two_framed : IsFramed tcp two_answered.answer.out 13 (send_msg_pre tcp two_answered.answer.out 13)
two_framed =
    send_msg_pre-IsFramed tcp two_answered.answer.out 13
      (omega (arith, two_answered.answer.same_cap)) (omega arith)

two_sent : reply_sent tcp ask_two 12 tables scratch ≡ some (two_framed.frame, 13)
unfolding framed_reply
two_sent = ap (λ r. r >>= framed_reply tcp) two_answered.answer.returns ∙ two_framed.returns

registers-IsAnswered_example :
    IsAnswered
      (line two_framed.frame.cell)
      (λ w. w)
      two_framed.frame.cell
      (client tcp 255)
      0
      ask_two
      scratch
      tables.tab_registers
      13
      (receive_msg (line two_framed.frame.cell) 13 (client tcp 255) scratch confirmation 0)
registers-IsAnswered_example =
    registers-IsAnswered (line two_framed.frame.cell) (λ w. w) two_framed.frame.cell
      (client tcp 255) 0 ask_two scratch 12 tables scratch two_framed.frame 13 13 13 0
      (line-IsStream two_framed.frame.cell 13
        (two_framed.bytes (two_answered.bytes scratch-IsBytes)))
      (message-IsRequest 3 1 0 2 [] (omega arith)) tables-IsMapping tt (inl refl) (omega arith)
      (omega arith) refl scratch-IsBytes two_sent (omega arith) scratch-IsBytes
      (λ k p. ap two_framed.frame.cell (zero_add k)) refl (omega arith) (omega arith)

receive_msg-IsDelivered_example :
    IsDelivered
      (line (with_crc asked 6).cell)
      (λ w. w)
      (with_crc asked 6).cell
      (client rtu 17)
      indication
      0
      scratch
      (with_crc asked 6)
      8
      (receive_msg (line (with_crc asked 6).cell) 8 (client rtu 17) scratch indication 0)
unfolding send_msg_pre
receive_msg-IsDelivered_example =
    receive_msg-IsDelivered (line (with_crc asked 6).cell) (λ w. w) (with_crc asked 6).cell
      (client rtu 17) indication 0 scratch asked (with_crc asked 6) 6 8 8 8 0
      (line-IsStream (with_crc asked 6).cell 8 (with_crc-IsBytes asked 6 asked-IsBytes))
      (omega arith) (omega arith) asked-IsBytes (inl refl)
      (send_msg_pre-with_crc asked 6 (omega arith))
      (short_request-message_end rtu (with_crc asked 6).cell (omega arith)) (omega arith)
      (omega arith) scratch-IsBytes (λ k p. ap (with_crc asked 6).cell (zero_add k)) refl
      (omega arith) (omega arith)

abbrev answer : ℕ → List ℕ → List ℕ
answer function rest = 0 ∷ 1 ∷ 0 ∷ 0 ∷ 0 ∷ 0 ∷ 255 ∷ function ∷ rest

pair :
    (function address hi lo function' : ℕ) (rest' : List ℕ)
    → All (λ x. x < 256) (bytes function address hi lo [])
    → 4 ≤ length rest'
    → IsPair tcp (message function address hi lo []) (array (answer function' rest'))
pair function address hi lo function' rest' small room = record {
  req_bytes = array_below 256 (bytes function address hi lo []) (omega arith) small;
  req_room = omega arith;
  rsp_room = omega (arith, room);
  matches = (refl, refl);
}

abbrev two_values : Buf
two_values = array (answer 3 (4 ∷ 0 ∷ 1 ∷ 0 ∷ 2 ∷ []))

registers_sound_example :
    Matches tcp ask_two two_values
    × (two_values.cell 7 ≡ ask_two.cell 7)
    × (2 ≡ word_cells ask_two 10)
    × (two_values.cell 8 / 2 ≡ 2)
    × (13 ≡ 7 + 2 + 2 * 2 + 0)
registers_sound_example =
    registers_sound (line (λ k. 0)) (client tcp 255) ask_two two_values 13 2 0 0
      (array_below 256 (bytes 3 1 0 2 []) (omega arith) (omega arith)) (omega arith) (omega arith)
      (inl refl)
      (registers_confirmed (line (λ k. 0)) (client tcp 255) ask_two two_values 13 0
        (pair 3 1 0 2 3 (4 ∷ 0 ∷ 1 ∷ 0 ∷ 2 ∷ []) (omega arith) (omega arith)) (inl refl) refl refl
        refl)

abbrev nine_bits : Buf
nine_bits = array (answer 1 (2 ∷ 0xff ∷ 1 ∷ 0 ∷ []))

bits_sound_example :
    Matches tcp (message 1 1 0 9 []) nine_bits
    × (nine_bits.cell 7 ≡ 1)
    × (2 ≡ byte_count (word_cells (message 1 1 0 9 []) 10))
    × (nine_bits.cell 8 ≡ 2)
    × (11 ≡ 7 + 2 + 2 + 0)
bits_sound_example =
    bits_sound (line (λ k. 0)) (client tcp 255) (message 1 1 0 9 []) nine_bits 11 2 0 0
      (array_below 256 (bytes 1 1 0 9 []) (omega arith) (omega arith)) (omega arith) (omega arith)
      (inl refl)
      (bits_confirmed (line (λ k. 0)) (client tcp 255) (message 1 1 0 9 []) nine_bits 11 0
        (pair 1 1 0 9 1 (2 ∷ 0xff ∷ 1 ∷ 0 ∷ []) (omega arith) (omega arith)) (inl refl) refl refl
        refl)
