-- ===== src/Examples/Nets.antt =====
-- A system with sockets, whose state is the list of the open descriptors. The address 0 refuses a
-- connection, 1 is slow, and all others take it.
use swift_lib_modbus.Prelude.{
  ℕ, ◌+◌, ◌≤◌, ◌≡◌, refl, arith, max, List, [], ◌∷◌, true, false, ◌==◌, if◌then◌else◌, inl,
}
use swift_lib_modbus.Prelude.Int.{ℤ, pos, negsuc, minus_one}
use swift_lib_modbus.Protocol.{system, econnrefused, einprogress, Result, ok, err}
use swift_lib_modbus.Context.{Ctx, tcp_pi, timeval}
use swift_lib_modbus.Net.{Sockets, inet, AddrInfo}
use swift_lib_modbus.Net.Descriptors.{Opens, IsSystem, has, without}
use swift_lib_modbus.Tcp.Connect.{TcpPi, sock_stream, tcp_connect, tcp_pi_connect}
use swift_lib_modbus.Tcp.Connect.Balance.{IsBalanced, connect-IsBalanced}
use swift_lib_modbus.Tcp.Connect.Stale.{IsStale, tcp_pi_connect-IsStale}
use swift_lib_modbus.Tcp.Listen.{set_up, tcp_listen, tcp_pi_listen}
use swift_lib_modbus.Tcp.Listen.Balance.{listen-Opens}
use swift_lib_modbus.Tcp.Listen.Sessions.{
  Event, accept, accept_pi, hang_up, run, IsServing, sessions-IsServing,
}

-- A number above all descriptors that are open.
abbrev next_fd : List ℤ → ℕ
next_fd [] = 0
next_fd (pos n ∷ w) = max (n + 1) (next_fd w)
next_fd (negsuc n ∷ w) = next_fd w

abbrev next : List ℤ → Result ℕ × List ℤ
next w = (ok (next_fd w), pos (next_fd w) ∷ w)

new_fd : (w : List ℤ) (k : ℕ) → next_fd w ≤ k → has (pos k) w ≡ false
new_fd [] k h = refl
new_fd (pos n ∷ w) k h =
    let other : (k == n) ≡ false = ground arith in rw other (new_fd w k (omega arith))
new_fd (negsuc n ∷ w) k h = new_fd w k h

abbrev pub drop_last : List ℤ → List ℤ
drop_last [] = []
drop_last (s ∷ w) = w

abbrev connection : ℕ → Result ℕ
connection a = if a == 0 then err econnrefused else if a == 1 then err einprogress else ok 0

abbrev host : ℕ → AddrInfo ℕ
host a = record { family = inet; socket_type = sock_stream; protocol = 0; address = a }

-- A name stands for the address 0 and for the one that its first character is.
abbrev resolve : List ℕ → List (AddrInfo ℕ)
resolve [] = []
resolve (a ∷ name) = host 0 ∷ host a ∷ []

abbrev sockets_with : (ℕ → Result ℕ) → Sockets (List ℤ) ℕ
sockets_with answers = record {
  socket = λ f t p w. next w;
  setsockopt = λ s o w. (ok 0, w);
  connect = λ s a w. (answers a, w);
  select_write = λ s tv w. (ok 1, w);
  so_error = λ s w. (ok 0, w);
  bind = λ s a w. (connection a, w);
  listen = λ s n w. (ok 0, w);
  accept = λ s w. next w;
  close = λ s w. without s w;
  shutdown = λ s w. w;
  send = λ s req n w. (ok n, w);
  recv = λ s n dontwait w. (err (system 11), w);
  select_read = λ s tv w. (ok 0, tv, w);
  getaddrinfo = λ node service passive w. (ok (resolve service), w);
  freeaddrinfo = λ ais w. w;
  sleep = λ t w. w;
}

abbrev sockets : Sockets (List ℤ) ℕ
sockets = sockets_with connection

abbrev all : List ℤ → List ℤ
all w = w

sockets_with-IsSystem : (answers : ℕ → Result ℕ) → IsSystem (sockets_with answers) all
sockets_with-IsSystem answers = record {
  socket_opens = λ f t p w. refl;
  accept_opens = λ s w. refl;
  close_closes = λ s w. refl;
  shutdown_keeps = λ s w. refl;
  setsockopt_keeps = λ s o w. refl;
  connect_keeps = λ s a w. refl;
  select_write_keeps = λ s t w. refl;
  so_error_keeps = λ s w. refl;
  bind_keeps = λ s a w. refl;
  listen_keeps = λ s n w. refl;
  getaddrinfo_keeps = λ node service passive w. refl;
  freeaddrinfo_keeps = λ ais w. refl;
}

sockets-IsSystem : IsSystem sockets all
sockets-IsSystem = sockets_with-IsSystem connection

abbrev pub a_context : ℤ → Ctx
a_context s = record {
  slave = pos 255;
  s = s;
  debug = false;
  error_recovery = 0;
  response_timeout = timeval (pos 0) (pos 500000);
  byte_timeout = timeval (pos 0) (pos 500000);
  backend = tcp_pi;
  t_id = 0;
  rts = 0;
  confirmation_to_ignore = false;
}

abbrev pub peer : ℕ → TcpPi
peer a = record { node = 1 ∷ []; service = a ∷ [] }

abbrev one_open : List ℤ
one_open = pos 0 ∷ []

-- The first address refuses, the second one is slow.
connect-IsBalanced_example :
    IsBalanced sockets all sockets-IsSystem one_open
      (tcp_connect sockets 0 (a_context (pos 7)) one_open)
    × IsBalanced sockets all sockets-IsSystem one_open
        (tcp_pi_connect sockets (peer 1) (a_context minus_one) one_open)
connect-IsBalanced_example =
    connect-IsBalanced sockets all sockets-IsSystem one_open 0 (peer 1) (a_context (pos 7))
      (a_context minus_one) one_open refl refl

second_tried :
    tcp_pi_connect sockets (peer 1) (a_context minus_one) one_open
    ≡ (ok 0, a_context (pos 1), pos 1 ∷ one_open)
unfolding tcp_pi_connect
second_tried = refl

-- A network where no host takes a connection.
abbrev refused : ℕ → Result ℕ
refused a = err econnrefused

tcp_pi_connect-IsStale_example :
    IsStale
      (sockets_with refused)
      all
      (sockets_with-IsSystem refused)
      (peer 5)
      (a_context (pos 7))
      one_open
tcp_pi_connect-IsStale_example =
    tcp_pi_connect-IsStale (sockets_with refused) all (sockets_with-IsSystem refused) (peer 5)
      (a_context (pos 7)) 7 (host 0 ∷ host 5 ∷ []) one_open one_open (λ s a w. refl) refl refl

listen-Opens_example :
    Opens all one_open (tcp_listen sockets 5 3 one_open)
    × Opens all one_open (tcp_pi_listen sockets (peer 5) 3 one_open)
listen-Opens_example = listen-Opens sockets all sockets-IsSystem one_open 5 (peer 5) 3 one_open refl

listened : tcp_listen sockets 5 3 one_open ≡ (ok 1, pos 1 ∷ one_open)
unfolding tcp_listen set_up
listened = refl

-- Two connections are accepted, the first one is closed, and one more is accepted.
abbrev events : List Event
events =
    accept (a_context minus_one)
    ∷ accept_pi (a_context (pos 2))
    ∷ hang_up (a_context (pos 2))
    ∷ accept (a_context (pos 3))
    ∷ []

sessions-IsServing_example : IsServing sockets all sockets-IsSystem one_open (
    run sockets events
      (record { conns = []; listens = true; socket = pos 1; world = pos 1 ∷ one_open }))
sessions-IsServing_example =
    sessions-IsServing sockets all sockets-IsSystem one_open 5 (peer 5) 3 1 one_open
      (pos 1 ∷ one_open) events (λ s w. new_fd w (next_fd w) (omega arith)) refl (inl listened)
