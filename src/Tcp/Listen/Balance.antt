-- ===== src/Tcp/Listen/Balance.antt =====
-- The descriptors that the functions of Listen leave open.
use swift_lib_modbus.Prelude.{ℕ, ◌≡◌, true, subst, ◌∙◌, arith, List, [], ◌∷◌}
use swift_lib_modbus.Prelude.Int.{ℤ, pos}
use swift_lib_modbus.Protocol.{Errno, Result, ok, err, system}
use swift_lib_modbus.Net.{Sockets, inet, reuse_address, AddrInfo, on}
use swift_lib_modbus.Net.Descriptors.{on_rule, Keeps, Opens, IsSystem, close-last}
use swift_lib_modbus.Tcp.Connect.{TcpPi, sock_stream}
use swift_lib_modbus.Tcp.Listen.{
  set_up, ipproto_tcp, tcp_listen, listen_first, tcp_pi_listen, listen_node, listen_service,
}

module _ {ℓ} {W : Type ℓ} {A : Type 0} (sys : Sockets W A) (fds : W → List ℤ)
    (laws : IsSystem sys fds) (l : List ℤ) where
  set_up-Keeps :
      (s : ℤ) (addr : A) (n : ℕ) (w : W) → fds w ≡ l → Keeps fds l (set_up sys s addr n w)
  unfolding set_up
  set_up-Keeps s addr n w e =
      let first = sys.setsockopt s reuse_address w in
      let second = sys.bind s addr first.1 in
      ground (
        arith,
        laws.setsockopt_keeps s reuse_address w,
        laws.bind_keeps s addr first.1,
        laws.listen_keeps s n second.1,
      )

module _ {ℓ} {W : Type ℓ} {A : Type 0} (sys : Sockets W A) (fds : W → List ℤ)
    (laws : IsSystem sys fds) (l : List ℤ) where
  -- A socket that could not be set up is closed before the code goes on.
  closes :
      (s : ℕ) (r : Result ℕ × W) (k : Errno → W → Result ℕ × W)
      → fds r.1 ≡ pos s ∷ l
      → ((e : Errno) (w : W) → fds w ≡ l → Opens fds l (k e w))
      → Opens fds l (on r (λ _ w. (ok s, w)) (λ e w. k e (sys.close (pos s) w)))
  closes s (ok a, w) k e goes_on = e
  closes s (err no', w) k e goes_on = goes_on no' _ (close-last laws (pos s) w l e)

  tcp_listen-Opens : (addr : A) (n : ℕ) (w : W) → fds w ≡ l → Opens fds l (tcp_listen sys addr n w)
  unfolding tcp_listen
  tcp_listen-Opens addr n w e =
      on_rule (λ fd w. fds w ≡ pos fd ∷ l) (λ no' w. fds w ≡ l) (Opens fds l) _ _
        (sys.socket inet sock_stream ipproto_tcp w)
        (subst (λ k. Opens fds k (sys.socket inet sock_stream ipproto_tcp w)) e
          (laws.socket_opens inet sock_stream ipproto_tcp w))
        (λ s w e.
          closes s (set_up sys (pos s) addr n w) (λ e w. (err e, w))
            (set_up-Keeps sys fds laws (pos s ∷ l) (pos s) addr n w e) (λ no' w e. e))
        (λ no' w e. e)

  listen_first-Opens :
      (ais : List (AddrInfo A)) (last : Errno) (n : ℕ) (w : W)
      → fds w ≡ l
      → Opens fds l (listen_first sys ais last n w)
  unfolding listen_first
  listen_first-Opens [] last n w e = e
  listen_first-Opens (ai ∷ ais) last n w e =
      on_rule (λ fd w. fds w ≡ pos fd ∷ l) (λ no' w. fds w ≡ l) (Opens fds l) _ _
        (sys.socket ai.family ai.socket_type ai.protocol w)
        (subst (λ k. Opens fds k (sys.socket ai.family ai.socket_type ai.protocol w)) e
          (laws.socket_opens ai.family ai.socket_type ai.protocol w))
        (λ s w e.
          closes s (set_up sys (pos s) ai.address n w) (λ e w. listen_first sys ais e n w)
            (set_up-Keeps sys fds laws (pos s ∷ l) (pos s) ai.address n w e)
            (λ last w e. listen_first-Opens ais last n w e))
        (λ no' w e. listen_first-Opens ais no' n w e)

  freed :
      (ai_list : List (AddrInfo A)) (r : Result ℕ × W)
      → Opens fds l r
      → Opens fds l (r.0, sys.freeaddrinfo ai_list r.1)
  freed ai_list (ok s, w) e = laws.freeaddrinfo_keeps ai_list w ∙ e
  freed ai_list (err no', w) e = laws.freeaddrinfo_keeps ai_list w ∙ e

  tcp_pi_listen-Opens :
      (to : TcpPi) (n : ℕ) (w : W) → fds w ≡ l → Opens fds l (tcp_pi_listen sys to n w)
  unfolding tcp_pi_listen
  tcp_pi_listen-Opens to n w e =
      found (sys.getaddrinfo (listen_node to) (listen_service to) true w)
        (laws.getaddrinfo_keeps (listen_node to) (listen_service to) true w ∙ e)
    where
      found :
          (r : Result (List (AddrInfo A)) × W)
          → fds r.1 ≡ l
          → Opens fds l (
              on r
                (λ ai_list w.
                  let found = listen_first sys ai_list (system 0) n w in
                  (found.0, sys.freeaddrinfo ai_list found.1))
                (λ e w. (err e, w)))
      found (ok ai_list, w) e =
          freed ai_list (listen_first sys ai_list (system 0) n w)
            (listen_first-Opens ai_list (system 0) n w e)
      found (err no', w) e = e

  -- `modbus_tcp_listen` and `modbus_tcp_pi_listen` either return a descriptor that is the only one
  -- they have opened, or fail and leave the same descriptors open as before.
  pub listen-Opens :
      (addr : A) (to : TcpPi) (nb_connection : ℕ) (w : W)
      → fds w ≡ l
      → Opens fds l (tcp_listen sys addr nb_connection w)
        × Opens fds l (tcp_pi_listen sys to nb_connection w)
  listen-Opens addr to n w e = (tcp_listen-Opens addr n w e, tcp_pi_listen-Opens to n w e)
