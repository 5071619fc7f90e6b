-- ===== src/Tcp/Connect/Balance.antt =====
-- The descriptors that the functions of Connect leave open.
use swift_lib_modbus.Prelude.{ℕ, ◌≡◌, refl, subst, ◌∙◌, false, some, List, [], ◌∷◌, arith}
use swift_lib_modbus.Prelude.Int.{ℤ, pos, minus_one}
use swift_lib_modbus.Protocol.{Errno, Result, ok, err, system}
use swift_lib_modbus.Context.{Ctx, Timeval}
use swift_lib_modbus.Net.{
  Sockets, Family, inet, other_family, tcp_nodelay, ip_lowdelay, AddrInfo, on,
}
use swift_lib_modbus.Net.Descriptors.{on_rule, Keeps, Opens, IsSystem, close-last}
use swift_lib_modbus.Tcp.Connect.{
  TcpPi, set_ipv4_options, connection_result, wait_for_connection, connect_by, tcp_connect,
  set_options_for, connect_first, tcp_pi_connect, after_loop, sock_stream,
}

module _ {ℓ} {W : Type ℓ} {A : Type 0} (sys : Sockets W A) (fds : W → List ℤ)
    (laws : IsSystem sys fds) (l : List ℤ) where
  abbrev Same : {B : Type 0} → Result B × W → Type 0
  Same r = Keeps fds l r

  abbrev IsLike : W → Type 0
  IsLike w = fds w ≡ l

  set_ipv4_options-Keeps : (s : ℤ) (w : W) → IsLike w → Same (set_ipv4_options sys s w)
  unfolding set_ipv4_options
  set_ipv4_options-Keeps s w e =
      let first = sys.setsockopt s tcp_nodelay w in
      ground
        (arith, laws.setsockopt_keeps s tcp_nodelay w, laws.setsockopt_keeps s ip_lowdelay first.1)

  wait_for_connection-Keeps :
      (s : ℤ) (t : Timeval) (w : W) → IsLike w → Same (wait_for_connection sys s t w)
  unfolding wait_for_connection connection_result
  wait_for_connection-Keeps s t w e =
      let first = sys.select_write s t w in
      ground (arith, laws.select_write_keeps s t w, laws.so_error_keeps s first.1)

  connect_by-Keeps :
      (s : ℤ) (a : A) (t : Timeval) (w : W) → IsLike w → Same (connect_by sys s a t w)
  unfolding connect_by
  connect_by-Keeps s a t w e =
      let first = sys.connect s a w in
      ground (arith, laws.connect_keeps s a w, wait_for_connection-Keeps s t first.1)

  set_options_for-same :
      (f : Family) (s : ℤ) (w : W) → IsLike w → fds (set_options_for sys f s w) ≡ l
  unfolding set_options_for
  set_options_for-same inet s w e = set_ipv4_options-Keeps s w e
  set_options_for-same other_family s w e = e

module _ {ℓ} {W : Type ℓ} {A : Type 0} (sys : Sockets W A) (fds : W → List ℤ)
    (laws : IsSystem sys fds) (l : List ℤ) where
  -- A connection is established with one more descriptor open, that of the context, or none is
  -- established and the same are open as before.
  abbrev pub IsBalanced : Result ℕ × Ctx × W → Type 0
  IsBalanced (ok rc, ctx, w) = fds w ≡ ctx.s ∷ l
  IsBalanced (err e, ctx, w) = fds w ≡ l

  -- The descriptor that was opened is closed, or it is kept.
  opened :
      (s : ℤ) (ctx : Ctx) (r : Result ℕ × W) (k : ℕ → W → Result ℕ × Ctx × W)
      → ctx.s ≡ s
      → fds r.1 ≡ s ∷ l
      → ((a : ℕ) (w : W) → fds w ≡ s ∷ l → IsBalanced (k a w))
      → IsBalanced (on r k (λ e w. (err e, ctx, sys.close ctx.s w)))
  opened s ctx (ok a, w) k is e m = m a w e
  opened s ctx (err no', w) k is e m = rw is (close-last laws s w l e)

  tcp_connect-IsBalanced :
      (addr : A) (ctx : Ctx) (w : W) → fds w ≡ l → IsBalanced (tcp_connect sys addr ctx w)
  unfolding tcp_connect
  tcp_connect-IsBalanced addr ctx w e =
      on_rule (λ fd w. fds w ≡ pos fd ∷ l) (λ no' w. fds w ≡ l) IsBalanced _ _ _
        (subst (λ k. Opens fds k (sys.socket inet sock_stream 0 w)) e
          (laws.socket_opens inet sock_stream 0 w))
        (λ fd w e.
          opened (pos fd) (record ctx { s = pos fd }) (set_ipv4_options sys (pos fd) w)
            (λ a w.
              on (connect_by sys (pos fd) addr ctx.response_timeout w)
                (λ _ w. (ok 0, record ctx { s = pos fd }, w))
                (λ no' w. (err no', record ctx { s = pos fd }, sys.close (pos fd) w)))
            refl (set_ipv4_options-Keeps sys fds laws (pos fd ∷ l) (pos fd) w e)
            (λ a w e.
              opened (pos fd) (record ctx { s = pos fd })
                (connect_by sys (pos fd) addr ctx.response_timeout w)
                (λ _ w. (ok 0, record ctx { s = pos fd }, w)) refl
                (connect_by-Keeps sys fds laws (pos fd ∷ l) (pos fd) addr ctx.response_timeout w e)
                (λ a w e. e)))
        (λ no' w e. e)

  -- The loop over the addresses connects one socket, or closes all that it has opened.
  pub connect_first-Opens :
      (ais : List (AddrInfo A)) (last : Errno) (tv : Timeval) (w : W)
      → fds w ≡ l
      → Opens fds l (connect_first sys ais last tv w)
  unfolding connect_first
  connect_first-Opens [] last tv w e = e
  connect_first-Opens (ai ∷ ais) last tv w e =
      on_rule (λ fd w. fds w ≡ pos fd ∷ l) (λ no' w. fds w ≡ l) (Opens fds l) _ _
        (sys.socket ai.family ai.socket_type ai.protocol w)
        (subst (λ k. Opens fds k (sys.socket ai.family ai.socket_type ai.protocol w)) e
          (laws.socket_opens ai.family ai.socket_type ai.protocol w))
        (λ fd w e.
          connected fd ais tv _
            (connect_by-Keeps sys fds laws (pos fd ∷ l) (pos fd) ai.address tv _
              (set_options_for-same sys fds laws (pos fd ∷ l) ai.family (pos fd) w e))
            (λ last w e. connect_first-Opens ais last tv w e))
        (λ no' w e. connect_first-Opens ais no' tv w e)
    where
      connected :
          (fd : ℕ) (ais : List (AddrInfo A)) (tv : Timeval) (r : Result ℕ × W)
          → fds r.1 ≡ pos fd ∷ l
          → ((last : Errno) (w : W) → fds w ≡ l → Opens fds l (connect_first sys ais last tv w))
          → Opens fds l
              (on r (λ _ w. (ok fd, w)) (λ e w. connect_first sys ais e tv (sys.close (pos fd) w)))
      connected fd ais tv (ok a, w) e k = e
      connected fd ais tv (err no', w) e k = k no' _ (close-last laws (pos fd) w l e)

  after_loop-IsBalanced :
      (ctx : Ctx) (ai_list : List (AddrInfo A)) (r : Result ℕ × W)
      → Opens fds l r
      → ctx.s ≡ minus_one
      → IsBalanced (after_loop sys ctx (sys.freeaddrinfo ai_list) r)
  after_loop-IsBalanced ctx ai_list (ok fd, w) e none_yet = laws.freeaddrinfo_keeps ai_list w ∙ e
  after_loop-IsBalanced ctx ai_list (err last, w) e none_yet =
      rw none_yet (laws.freeaddrinfo_keeps ai_list w ∙ e)

  tcp_pi_connect-IsBalanced :
      (to : TcpPi) (ctx : Ctx) (w : W)
      → fds w ≡ l
      → ctx.s ≡ minus_one
      → IsBalanced (tcp_pi_connect sys to ctx w)
  unfolding tcp_pi_connect
  tcp_pi_connect-IsBalanced to ctx w e none_yet =
      found (sys.getaddrinfo (some to.node) to.service false w)
        (laws.getaddrinfo_keeps (some to.node) to.service false w ∙ e)
    where
      found :
          (r : Result (List (AddrInfo A)) × W)
          → fds r.1 ≡ l
          → IsBalanced (
              on r
                (λ ai_list w.
                  after_loop sys ctx
                    (sys.freeaddrinfo ai_list)
                    (connect_first sys ai_list (system 0) ctx.response_timeout w))
                (λ e w. (err e, ctx, w)))
      found (ok ai_list, w) e =
          after_loop-IsBalanced ctx ai_list _
            (connect_first-Opens ai_list (system 0) ctx.response_timeout w e) none_yet
      found (err no', w) e = e

  -- `_modbus_tcp_connect` of any context, and `_modbus_tcp_pi_connect` of one that has no descriptor, either
  -- connect, and then the descriptor of the context is the only one that they have opened, or fail and
  -- leave the same descriptors open as before.
  pub connect-IsBalanced :
      (addr : A) (to : TcpPi) (ctx ctx' : Ctx) (w : W)
      → fds w ≡ l
      → ctx'.s ≡ minus_one
      → IsBalanced (tcp_connect sys addr ctx w) × IsBalanced (tcp_pi_connect sys to ctx' w)
  connect-IsBalanced addr to ctx ctx' w e none_yet =
      (tcp_connect-IsBalanced addr ctx w e, tcp_pi_connect-IsBalanced to ctx' w e none_yet)
