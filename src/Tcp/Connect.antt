-- ===== src/Tcp/Connect.antt =====
-- `_modbus_tcp_connect`, `_modbus_tcp_pi_connect` and `_modbus_tcp_close` of modbus-tcp.c, with the
-- functions that they call. The flags of a socket and the debug output are left out.
pub mod Balance
pub mod Stale
use swift_lib_modbus.Prelude.{
  ℕ, ◌&&◌, Bool, true, false, Option, some, none, List, [], ◌∷◌, ◌==◌, if◌then◌else◌,
}
use swift_lib_modbus.Prelude.Int.{ℤ, pos, negsuc, minus_one}
use swift_lib_modbus.Protocol.{Errno, system, econnrefused, einprogress, Result, ok, err}
use swift_lib_modbus.Context.{Ctx, Timeval}
use swift_lib_modbus.Net.{
  Sockets, SocketOption, tcp_nodelay, ip_lowdelay, Family, inet, other_family, AddrInfo, on,
}

-- `modbus_tcp_pi_t`, without the transaction identifier: texts by the codes of their characters.
pub record TcpPi : Type 0 where
  pub node : List ℕ
  pub service : List ℕ

-- SOCK_STREAM.
abbrev pub sock_stream : ℕ
sock_stream = 1

abbrev pub is_einprogress : Errno → Bool
is_einprogress einprogress = true
is_einprogress e = false

abbrev is_inet : Family → Bool
is_inet inet = true
is_inet other_family = false

-- `s < 0`.
abbrev pub is_negative : ℤ → Bool
is_negative (pos n) = false
is_negative (negsuc n) = true

module _ {ℓ} {W : Type ℓ} {A : Type 0} (sys : Sockets W A) where
  -- `_modbus_tcp_set_ipv4_options`.
  unfoldable pub set_ipv4_options : ℤ → W → Result ℕ × W
  set_ipv4_options s w =
      on (sys.setsockopt s tcp_nodelay w)
        (λ _ w. on (sys.setsockopt s ip_lowdelay w) (λ _ w. (ok 0, w)) (λ e w. (err e, w)))
        (λ e w. (err e, w))

  -- The connection in progress is established if SO_ERROR is 0.
  unfoldable pub connection_result : ℤ → W → Result ℕ × W
  connection_result sockfd w =
      on (sys.so_error sockfd w) (λ optval w. (if optval == 0 then ok 0 else err econnrefused, w))
        (λ e w. (err econnrefused, w))

  -- The wait for a connection in progress. After a timeout `errno` is still EINPROGRESS.
  unfoldable pub wait_for_connection : ℤ → Timeval → W → Result ℕ × W
  unfolding connection_result
  wait_for_connection sockfd tv w =
      on (sys.select_write sockfd tv w)
        (λ rc w. if rc == 0 then (err einprogress, w) else connection_result sockfd w)
        (λ e w. (err e, w))

  -- `_connect`.
  unfoldable pub connect_by : ℤ → A → Timeval → W → Result ℕ × W
  unfolding wait_for_connection
  connect_by sockfd addr tv w =
      on (sys.connect sockfd addr w) (λ rc w. (ok rc, w))
        (λ e w. if is_einprogress e then wait_for_connection sockfd tv w else (err e, w))

  -- `close(ctx->s); return -1;`.
  abbrev close_and_fail : Ctx → Errno → W → Result ℕ × Ctx × W
  close_and_fail ctx e w = (err e, ctx, sys.close ctx.s w)

  -- `_modbus_tcp_connect`, for the address that `inet_addr` and `htons` make.
  unfoldable pub tcp_connect : A → Ctx → W → Result ℕ × Ctx × W
  unfolding set_ipv4_options connect_by
  tcp_connect addr ctx w =
      on (sys.socket inet sock_stream 0 w)
        (λ fd w.
          let ctx' : Ctx = record ctx { s = pos fd } in
          on (set_ipv4_options ctx'.s w)
            (λ _ w.
              on (connect_by ctx'.s addr ctx'.response_timeout w) (λ _ w. (ok 0, ctx', w))
                (λ e w. close_and_fail ctx' e w))
            (λ e w. close_and_fail ctx' e w))
        (λ e w. (err e, record ctx { s = minus_one }, w))

  -- The options of a socket of the family AF_INET; their result is not used.
  unfoldable pub set_options_for : Family → ℤ → W → W
  unfolding set_ipv4_options
  set_options_for family s w = if is_inet family then (set_ipv4_options s w).1 else w

  -- The loop over the addresses: the descriptor that is connected, or none and the last `errno`.
  unfoldable pub connect_first : List (AddrInfo A) → Errno → Timeval → W → Result ℕ × W
  unfolding set_options_for connect_by
  connect_first [] last tv w = (err last, w)
  connect_first (ai ∷ ais) last tv w =
      let again = λ (e : Errno) (w : W). connect_first ais e tv w in
      on (sys.socket ai.family ai.socket_type ai.protocol w)
        (λ fd w.
          on (connect_by (pos fd) ai.address tv (set_options_for ai.family (pos fd) w))
            (λ _ w. (ok fd, w)) (λ e w. again e (sys.close (pos fd) w)))
        again

  -- `if (ctx->s < 0) return -1; return 0;`, with the `errno` of the loop.
  abbrev pub socket_result : Ctx → Errno → Result ℕ
  socket_result ctx last = if is_negative ctx.s then err last else ok 0

  -- What follows the loop: `ctx->s` is set only if there is a connection.
  abbrev pub after_loop : Ctx → (W → W) → Result ℕ × W → Result ℕ × Ctx × W
  after_loop ctx free (ok fd, w) = (ok 0, record ctx { s = pos fd }, free w)
  after_loop ctx free (err last, w) = (socket_result ctx last, ctx, free w)

  -- `_modbus_tcp_pi_connect`. Where no address is tried, `errno` is not set: `system 0` stands for it.
  unfoldable pub tcp_pi_connect : TcpPi → Ctx → W → Result ℕ × Ctx × W
  unfolding connect_first
  tcp_pi_connect to ctx w =
      on (sys.getaddrinfo (some to.node) to.service false w)
        (λ ai_list w.
          after_loop ctx (sys.freeaddrinfo ai_list)
            (connect_first ai_list (system 0) ctx.response_timeout w))
        (λ e w. (err e, ctx, w))

  -- `_modbus_tcp_close`.
  unfoldable pub tcp_close : Ctx → W → W
  tcp_close ctx w = sys.close ctx.s (sys.shutdown ctx.s w)
