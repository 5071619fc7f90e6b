-- ===== src/Tcp/Listen.antt =====
-- `modbus_tcp_listen`, `modbus_tcp_pi_listen`, `modbus_tcp_accept` and `modbus_tcp_pi_accept` of
-- modbus-tcp.c. The debug output is left out.
pub mod Balance
pub mod Sessions
use swift_lib_modbus.Prelude.{ℕ, Bool, true, Option, some, none, List, [], ◌∷◌, ◌==◌, if◌then◌else◌}
use swift_lib_modbus.Prelude.Int.{ℤ, pos, minus_one}
use swift_lib_modbus.Protocol.{Errno, system, Result, ok, err}
use swift_lib_modbus.Context.{Ctx}
use swift_lib_modbus.Net.{Sockets, reuse_address, inet, AddrInfo, on}
use swift_lib_modbus.Tcp.Connect.{TcpPi, sock_stream}

-- IPPROTO_TCP.
abbrev pub ipproto_tcp : ℕ
ipproto_tcp = 6

-- A text of C that is empty: its first character is 0.
unfoldable pub is_empty : List ℕ → Bool
is_empty [] = true
is_empty (c ∷ text) = c == 0

-- "502".
abbrev pub default_service : List ℕ
default_service = 53 ∷ 48 ∷ 50 ∷ []

-- The node to listen at; NULL is any.
unfoldable pub listen_node : TcpPi → Option (List ℕ)
unfolding is_empty
listen_node to = if is_empty to.node then none else some to.node

unfoldable pub listen_service : TcpPi → List ℕ
unfolding is_empty
listen_service to = if is_empty to.service then default_service else to.service

module _ {ℓ} {W : Type ℓ} {A : Type 0} (sys : Sockets W A) where
  -- What makes a new socket listen: the option SO_REUSEADDR, `bind` and `listen`.
  unfoldable pub set_up : ℤ → A → ℕ → W → Result ℕ × W
  set_up s addr nb_connection w =
      on (sys.setsockopt s reuse_address w)
        (λ _ w. on (sys.bind s addr w) (λ _ w. sys.listen s nb_connection w) (λ e w. (err e, w)))
        (λ e w. (err e, w))

  -- `modbus_tcp_listen`, for the address of the port with INADDR_ANY.
  unfoldable pub tcp_listen : A → ℕ → W → Result ℕ × W
  unfolding set_up
  tcp_listen addr nb_connection w =
      on (sys.socket inet sock_stream ipproto_tcp w)
        (λ new_socket w.
          on (set_up (pos new_socket) addr nb_connection w) (λ _ w. (ok new_socket, w))
            (λ e w. (err e, sys.close (pos new_socket) w)))
        (λ e w. (err e, w))

  -- The loop over the addresses: the socket that listens, or none and the last `errno`.
  unfoldable pub listen_first : List (AddrInfo A) → Errno → ℕ → W → Result ℕ × W
  unfolding set_up
  listen_first [] last nb_connection w = (err last, w)
  listen_first (ai ∷ ais) last nb_connection w =
      let again = λ (e : Errno) (w : W). listen_first ais e nb_connection w in
      on (sys.socket ai.family ai.socket_type ai.protocol w)
        (λ s w.
          on (set_up (pos s) ai.address nb_connection w) (λ _ w. (ok s, w))
            (λ e w. again e (sys.close (pos s) w)))
        again

  -- `modbus_tcp_pi_listen`. Where no address is tried, `errno` is not set: `system 0` stands for it.
  unfoldable pub tcp_pi_listen : TcpPi → ℕ → W → Result ℕ × W
  unfolding listen_node listen_service listen_first
  tcp_pi_listen to nb_connection w =
      on (sys.getaddrinfo (listen_node to) (listen_service to) true w)
        (λ ai_list w.
          let found = listen_first ai_list (system 0) nb_connection w in
          (found.0, sys.freeaddrinfo ai_list found.1))
        (λ e w. (err e, w))

  -- `modbus_tcp_accept`: its result, the context, the new `*socket` and the world.
  unfoldable pub tcp_accept : Ctx → ℤ → W → Result ℕ × Ctx × ℤ × W
  tcp_accept ctx socket w =
      on (sys.accept socket w) (λ fd w. (ok fd, record ctx { s = pos fd }, socket, w))
        (λ e w. (err e, record ctx { s = minus_one }, pos 0, sys.close socket w))

  -- `modbus_tcp_pi_accept`, which returns the -1 of the context.
  unfoldable pub tcp_pi_accept : Ctx → ℤ → W → Result ℕ × Ctx × ℤ × W
  tcp_pi_accept ctx socket w =
      on (sys.accept socket w) (λ fd w. (ok fd, record ctx { s = pos fd }, socket, w))
        (λ e w. (err e, record ctx { s = minus_one }, pos 0, sys.close socket w))
