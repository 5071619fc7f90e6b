-- ===== src/Examples/Lines.antt =====
-- A connection at the descriptor 3, on which signals interrupt calls of `select`, and a queue of bytes
-- that wait. Every other descriptor is a bad one for `select` and for a `recv` that may wait.
use swift_lib_modbus.Prelude.{
  ℕ, zero, suc, ◌+◌, ◌-◌, ◌<◌, ◌≡◌, ap, arith, Option, none, [], Bool, true, false, ltb, ◌==◌,
  if◌then◌else◌,
}
use swift_lib_modbus.Prelude.Int.{ℤ, pos, negsuc}
use swift_lib_modbus.Protocol.{Errno, system, eintr, Result, ok, err}
use swift_lib_modbus.Context.{Timeval, tcp}
use swift_lib_modbus.Memory.{Buf}
use swift_lib_modbus.Backend.{send_msg_pre}
use swift_lib_modbus.Backend.Framing.{IsFramed, send_msg_pre-IsFramed}
use swift_lib_modbus.Net.{Sockets}
use swift_lib_modbus.Net.Wait.{Interrupts, IsWaited, select_loop, select_loop-IsWaited}
use swift_lib_modbus.Examples.Replies.{message}

record World : Type 0 where
  signals : ℕ
  waiting : ℕ
  place : ℕ

abbrev world : ℕ → ℕ → ℕ → World
world signals waiting place = record { signals = signals; waiting = waiting; place = place }

abbrev bytes_at : (ℕ → ℕ) → ℕ → ℕ → Buf
bytes_at stream place n = record { cap = n; cell = λ k. stream (place + k) }

abbrev is_three : ℤ → Bool
is_three (pos n) = n == 3
is_three (negsuc n) = false

-- EBADF.
abbrev ebadf : Errno
ebadf = system 9

abbrev wait_for : ℕ → ℕ → ℕ → Option Timeval → Result ℕ × Option Timeval × World
wait_for zero waiting place tv = (ok 1, tv, world 0 waiting place)
wait_for (suc n) waiting place tv = (err eintr, tv, world n waiting place)

abbrev wait_at : Bool → Option Timeval → World → Result ℕ × Option Timeval × World
wait_at true tv w = wait_for w.signals w.waiting w.place tv
wait_at false tv w = (err ebadf, tv, w)

-- The queue gives what it has, at most `n`.
abbrev take_waiting : ℕ → ℕ → ℕ → ℕ → Result Buf × World
take_waiting n signals zero place = (err (system 11), world signals 0 place)
take_waiting n signals (suc k) place =
    if ltb n (suc k)
    then (ok (bytes_at (λ i. 0) 0 n), world signals (suc k - n) place)
    else (ok (bytes_at (λ i. 0) 0 (suc k)), world signals 0 place)

-- The connection gives one byte at a time.
abbrev take_at : (ℕ → ℕ) → Bool → World → Result Buf × World
take_at stream true w = (ok (bytes_at stream w.place 1), world w.signals w.waiting (w.place + 1))
take_at stream false w = (err ebadf, w)

abbrev take : (ℕ → ℕ) → ℤ → Bool → ℕ → World → Result Buf × World
take stream s true n w = take_waiting n w.signals w.waiting w.place
take stream s false n w = take_at stream (is_three s) w

abbrev line_system : (ℕ → ℕ) → Sockets World ℕ
line_system stream = record {
  socket = λ f t p w. (ok 3, w);
  setsockopt = λ s o w. (ok 0, w);
  connect = λ s a w. (ok 0, w);
  select_write = λ s tv w. (ok 1, w);
  so_error = λ s w. (ok 0, w);
  bind = λ s a w. (ok 0, w);
  listen = λ s n w. (ok 0, w);
  accept = λ s w. (ok 4, w);
  close = λ s w. w;
  shutdown = λ s w. w;
  send = λ s req n w. (ok n, w);
  recv = λ s n dontwait w. take stream s dontwait n w;
  select_read = λ s tv w. wait_at (is_three s) tv w;
  getaddrinfo = λ node service passive w. (ok [], w);
  freeaddrinfo = λ ais w. w;
  sleep = λ t w. w;
}

abbrev signals_of : World → ℕ
signals_of w = w.signals

abbrev waiting_of : World → ℕ
waiting_of w = w.waiting

abbrev place_of : World → ℕ
place_of w = w.place

fewer_signals :
    (n waiting place : ℕ) (tv tv' : Option Timeval) (w' : World)
    → wait_for n waiting place tv ≡ (err eintr, tv', w')
    → w'.signals < n
fewer_signals zero waiting place tv tv' w' e = cc (ap (λ r. r.0) e)
fewer_signals (suc n) waiting place tv tv' w' e = omega (arith, ap (λ r. r.2.signals) e)

fewer_at :
    (there : Bool) (tv tv' : Option Timeval) (w w' : World)
    → wait_at there tv w ≡ (err eintr, tv', w')
    → w'.signals < w.signals
fewer_at true tv tv' w w' e = fewer_signals w.signals w.waiting w.place tv tv' w' e
fewer_at false tv tv' w w' e = cc (ap (λ r. r.0) e)

line-Interrupts : (stream : ℕ → ℕ) → Interrupts (line_system stream).select_read signals_of
line-Interrupts stream s tv tv' w w' e = fewer_at (is_three s) tv tv' w w' e

abbrev silent : ℕ → ℕ
silent k = 0

-- Three signals interrupt `select` before it succeeds.
select_loop-IsWaited_example :
    IsWaited
      (line_system silent).select_read
      (pos 3)
      (select_loop (line_system silent).select_read 4 (pos 3) none (world 3 0 0))
select_loop-IsWaited_example =
    select_loop-IsWaited (line_system silent).select_read signals_of 4 (pos 3) none (world 3 0 0)
      (line-Interrupts silent) (omega arith)

abbrev request : Buf
request = message 3 1 0 2 []

framed : IsFramed tcp request 12 (send_msg_pre tcp request 12)
framed = send_msg_pre-IsFramed tcp request 12 (omega arith) (omega arith)

abbrev waits : ℕ → ℕ
waits = framed.frame.cell
