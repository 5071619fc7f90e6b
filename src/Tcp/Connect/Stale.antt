-- ===== src/Tcp/Connect/Stale.antt =====
-- `_modbus_tcp_pi_connect` of a context that still has the descriptor of an earlier connection.
use swift_lib_modbus.Prelude.{ℕ, ◌≡◌, refl, sym, ap, ◌∙◌, false, some, List, [], ◌∷◌}
use swift_lib_modbus.Prelude.Int.{ℤ, pos, minus_one}
use swift_lib_modbus.Protocol.{Errno, Result, ok, err, system}
use swift_lib_modbus.Context.{Ctx, Timeval}
use swift_lib_modbus.Net.{Sockets, AddrInfo, on}
use swift_lib_modbus.Net.Descriptors.{Both, on_rule, Opens, IsSystem}
use swift_lib_modbus.Tcp.Connect.{
  TcpPi, is_einprogress, connect_by, set_options_for, connect_first, tcp_pi_connect,
}
use swift_lib_modbus.Tcp.Connect.Balance.{connect_first-Opens}

-- The call fails.
abbrev Fails {ℓ} : {W : Type ℓ} → Result ℕ × W → Type 0
Fails (ok a, w) = ⊥
Fails (err e, w) = Unit

-- The call fails, and nothing is in progress.
abbrev pub IsRefusal {ℓ} : {W : Type ℓ} → Result ℕ × W → Type 0
IsRefusal (ok a, w) = ⊥
IsRefusal (err e, w) = is_einprogress e ≡ false

module _ {ℓ} {W : Type ℓ} {A : Type 0} (sys : Sockets W A) where
  -- No host takes a connection: each call of `connect` is refused.
  abbrev pub RefusesAll : Type ℓ
  RefusesAll = (s : ℤ) (a : A) (w : W) → IsRefusal (sys.connect s a w)

  connect_by-Fails :
      (s : ℤ) (a : A) (tv : Timeval) (w : W) → RefusesAll → Fails (connect_by sys s a tv w)
  unfolding connect_by
  connect_by-Fails s a tv w refuses =
      on_rule (λ rc w. ⊥) (λ e w. is_einprogress e ≡ false) Fails _ _ (sys.connect s a w)
        (both (sys.connect s a w) (refuses s a w)) (λ rc w p. absurd p) (λ e w p. rw p tt)
    where
      both : (r : Result ℕ × W) → IsRefusal r → Both (λ rc w. ⊥) (λ e w. is_einprogress e ≡ false) r
      both (ok rc, w) p = p
      both (err e, w) p = p

  anything : (r : Result ℕ × W) → Both (λ a w. Unit {0}) (λ e w. Unit {0}) r
  anything (ok a, w) = tt
  anything (err e, w) = tt

  handler_rule :
      (r : Result ℕ × W) (f : ℕ → W → Result ℕ × W) (k : Errno → W → Result ℕ × W)
      → Fails r
      → ((e : Errno) (w : W) → Fails (k e w))
      → Fails (on r f k)
  handler_rule (ok a, w) f k fails goes_on = absurd fails
  handler_rule (err e, w) f k fails goes_on = goes_on e w

  connect_first-Fails :
      (ais : List (AddrInfo A)) (last : Errno) (tv : Timeval) (w : W)
      → RefusesAll
      → Fails (connect_first sys ais last tv w)
  unfolding connect_first
  connect_first-Fails [] last tv w refuses = tt
  connect_first-Fails (ai ∷ ais) last tv w refuses =
      on_rule (λ fd w. Unit {0}) (λ e w. Unit {0}) Fails _ _
        (sys.socket ai.family ai.socket_type ai.protocol w)
        (anything (sys.socket ai.family ai.socket_type ai.protocol w))
        (λ fd w p.
          handler_rule
            (connect_by sys (pos fd) ai.address tv (set_options_for sys ai.family (pos fd) w))
            (λ rc w. (ok fd, w)) (λ e w. connect_first sys ais e tv (sys.close (pos fd) w))
            (connect_by-Fails (pos fd) ai.address tv _ refuses)
            (λ e w. connect_first-Fails ais e tv (sys.close (pos fd) w) refuses))
        (λ e w p. connect_first-Fails ais e tv w refuses)

  module _ (fds : W → List ℤ) (laws : IsSystem sys fds) where
    -- The call reports success and has opened nothing; the same call of the context without the
    -- descriptor fails.
    pub record IsStale (to : TcpPi) (ctx : Ctx) (w : W) : Type ℓ where
      pub after : W
      pub last : Errno
      pub succeeds : tcp_pi_connect sys to ctx w ≡ (ok 0, ctx, after)
      pub none_opened : fds after ≡ fds w
      pub else_fails :
          tcp_pi_connect sys to (record ctx { s = minus_one }) w
          ≡ (err last, record ctx { s = minus_one }, after)

    looped-IsStale :
        (to : TcpPi) (ctx : Ctx) (old : ℕ) (ai_list : List (AddrInfo A)) (w w' : W)
        (r : Result ℕ × W)
        → ctx.s ≡ pos old
        → sys.getaddrinfo (some to.node) to.service false w ≡ (ok ai_list, w')
        → connect_first sys ai_list (system 0) ctx.response_timeout w' ≡ r
        → Fails r
        → Opens fds (fds w) r
        → IsStale to ctx w
    unfolding tcp_pi_connect
    looped-IsStale to ctx old ai_list w w' (ok fd, w'') stale resolved looped fails opens =
        absurd fails
    looped-IsStale to ctx old ai_list w w' (err e, w'') stale resolved looped fails opens = record {
      after = sys.freeaddrinfo ai_list w'';
      last = e;
      succeeds = rw (resolved, looped) (rw stale refl);
      none_opened = laws.freeaddrinfo_keeps ai_list w'' ∙ opens;
      else_fails = rw (resolved, looped) refl;
    }

    -- When no host takes a connection, whatever addresses the name has, `_modbus_tcp_pi_connect` of a
    -- context that still has the descriptor of an earlier connection reports success, with that
    -- descriptor and no other one opened, while it fails for the same context without a descriptor.
    pub tcp_pi_connect-IsStale :
        (to : TcpPi) (ctx : Ctx) (old : ℕ) (ai_list : List (AddrInfo A)) (w w' : W)
        → RefusesAll
        → ctx.s ≡ pos old
        → sys.getaddrinfo (some to.node) to.service false w ≡ (ok ai_list, w')
        → IsStale to ctx w
    tcp_pi_connect-IsStale to ctx old ai_list w w' refuses stale resolved =
        let same : fds w' ≡ fds w =
          sym (ap (λ r. fds r.1) resolved)
          ∙ laws.getaddrinfo_keeps (some to.node) to.service false w in
        looped-IsStale to ctx old ai_list w w' _ stale resolved refl
          (connect_first-Fails ai_list (system 0) ctx.response_timeout w' refuses)
          (connect_first-Opens sys fds laws (fds w) ai_list (system 0) ctx.response_timeout w' same)
