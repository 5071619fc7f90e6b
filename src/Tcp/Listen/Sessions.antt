-- ===== src/Tcp/Listen/Sessions.antt =====
-- A server that listens, accepts connections, and closes them in any order.
use swift_lib_modbus.Prelude.{
  ℕ, ◌≡◌, refl, sym, subst, ap, ◌∙◌, arith, Bool, true, false, Bool-cases, inl, inr, List, [], ◌∷◌,
  ◌++◌, ◌⊎◌, if◌then◌else◌,
}
use swift_lib_modbus.Prelude.Int.{ℤ, pos, negsuc, minus_one}
use swift_lib_modbus.Protocol.{Result, ok, err}
use swift_lib_modbus.Context.{Ctx}
use swift_lib_modbus.Net.{Sockets, on}
use swift_lib_modbus.Net.Descriptors.{
  Both, Opens, IsSystem, same_fd, same_fd_refl, has, without, without-head,
}
use swift_lib_modbus.Tcp.Connect.{TcpPi, tcp_close}
use swift_lib_modbus.Tcp.Listen.{tcp_listen, tcp_pi_listen, tcp_accept, tcp_pi_accept}
use swift_lib_modbus.Tcp.Listen.Balance.{listen-Opens}

-- `conns` are the connections that are open, the last one first; `socket` is the caller's variable for
-- the socket that listens, if one does.
pub record Server {ℓ} (W : Type ℓ) : Type ℓ where
  pub conns : List ℤ
  pub listens : Bool
  pub socket : ℤ
  pub world : W

-- A call of `modbus_tcp_accept`, or of `modbus_tcp_pi_accept`, or of `modbus_close` for a connection.
pub data Event : Type 0 where
  accept : Ctx → Event
  accept_pi : Ctx → Event
  hang_up : Ctx → Event

either {ℓ κ} :
    {A : Type ℓ} (P : A → Type κ) (b : Bool) (x y : A)
    → (b ≡ true → P x)
    → (b ≡ false → P y)
    → P (if b then x else y)
either P true x y yes' no' = yes' refl
either P false x y yes' no' = no' refl

same_fd-eq : (s t : ℤ) → same_fd s t ≡ true → s ≡ t
same_fd-eq (pos a) (pos b) e = let same : a ≡ b = ground (arith, e) in ap pos same
same_fd-eq (negsuc a) (negsuc b) e = let same : a ≡ b = ground (arith, e) in ap negsuc same
same_fd-eq (pos a) (negsuc b) e = cc e
same_fd-eq (negsuc a) (pos b) e = cc e

-- What is removed is in the first list.
without-append_has : (s : ℤ) (l k : List ℤ) → has s l ≡ true → without s (l ++ k) ≡ without s l ++ k
without-append_has s [] k e = cc e
without-append_has s (t ∷ l) k e = elim (Bool-cases (same_fd s t)) [
  | inl same ↦ rw same refl
  | inr other ↦
      let rest : has s l ≡ true = subst (λ b. (if b then true else has s l) ≡ true) other e in
      rw other (ap (λ r. t ∷ r) (without-append_has s l k rest))
]

-- What is removed is behind the first list.
without-append_new : (s : ℤ) (l k : List ℤ) → has s l ≡ false → without s (l ++ s ∷ k) ≡ l ++ k
without-append_new s [] k e = without-head s k
without-append_new s (t ∷ l) k e = elim (Bool-cases (same_fd s t)) [
  | inl same ↦ cc (sym (subst (λ b. (if b then true else has s l) ≡ false) same e))
  | inr other ↦
      let rest : has s l ≡ false = subst (λ b. (if b then true else has s l) ≡ false) other e in
      rw other (ap (λ r. t ∷ r) (without-append_new s l k rest))
]

has-without : (s t : ℤ) (l : List ℤ) → has s l ≡ false → has s (without t l) ≡ false
has-without s t [] e = refl
has-without s t (u ∷ l) e = elim (Bool-cases (same_fd s u)) [
  | inl same ↦ cc (sym (subst (λ b. (if b then true else has s l) ≡ false) same e))
  | inr other ↦
      let rest : has s l ≡ false = subst (λ b. (if b then true else has s l) ≡ false) other e in
      elim (Bool-cases (same_fd t u)) [
        | inl gone ↦ rw gone rest
        | inr stays ↦ rw stays (rw other (has-without s t l rest))
      ]
]

-- A descriptor that is not open is not the one behind `l`.
new-other : (s t : ℤ) (l k : List ℤ) → has s (l ++ t ∷ k) ≡ false → same_fd t s ≡ false
new-other s t [] k e = elim (Bool-cases (same_fd t s)) [
  | inl same ↦
      let is : t ≡ s = same_fd-eq t s same in
      let found : same_fd s t ≡ true = ap (λ u. same_fd s u) is ∙ same_fd_refl s in
      cc (sym (subst (λ b. (if b then true else has s k) ≡ false) found e))
  | inr other ↦ other
]
new-other s t (u ∷ l) k e = elim (Bool-cases (same_fd s u)) [
  | inl same ↦ cc (sym (subst (λ b. (if b then true else has s (l ++ t ∷ k)) ≡ false) same e))
  | inr other ↦
      new-other s t l k (subst (λ b. (if b then true else has s (l ++ t ∷ k)) ≡ false) other e)
]

module _ {ℓ} {W : Type ℓ} {A : Type 0} (sys : Sockets W A) where
  -- The server after a call that accepts, or does not.
  abbrev pub given : Server W → Result ℕ × Ctx × ℤ × W → Server W
  given st (ok fd, ctx, socket, w) = record {
    conns = ctx.s ∷ st.conns;
    listens = true;
    socket = socket;
    world = w;
  }
  given st (err e, ctx, socket, w) = record {
    conns = st.conns;
    listens = false;
    socket = socket;
    world = w;
  }

  -- A server accepts only while it listens, and closes only what is open.
  abbrev pub step : Event → Server W → Server W
  step (accept ctx) st = if st.listens then given st (tcp_accept sys ctx st.socket st.world) else st
  step (accept_pi ctx) st =
      if st.listens then given st (tcp_pi_accept sys ctx st.socket st.world) else st
  step (hang_up ctx) st =
      if has ctx.s st.conns
      then record st { conns = without ctx.s st.conns; world = tcp_close sys ctx st.world }
      else st

  abbrev pub run : List Event → Server W → Server W
  run [] st = st
  run (e ∷ es) st = run es (step e st)

module _ {ℓ} {W : Type ℓ} {A : Type 0} (sys : Sockets W A) (fds : W → List ℤ)
    (laws : IsSystem sys fds) (l : List ℤ) where
  -- `accept` opens a descriptor that was not open.
  abbrev pub AcceptsFresh : Type ℓ
  AcceptsFresh =
      (s : ℤ) (w : W) → Both (λ fd w'. has (pos fd) (fds w) ≡ false) (λ e w'. Unit) (sys.accept s w)

  -- The connections, the socket if it listens, and those from before are open, and no others. A socket
  -- that does not listen any more is closed, and the caller's variable is 0.
  pub record IsServing (st : Server W) : Type 0 where
    pub open_are : fds st.world ≡ st.conns ++ (if st.listens then st.socket ∷ l else l)
    pub apart : st.listens ≡ true → has st.socket st.conns ≡ false
    pub forgotten : st.listens ≡ false → st.socket ≡ pos 0

  given-IsServing :
      (ctx : Ctx) (st : Server W) (r : Result ℕ × W)
      → fds st.world ≡ st.conns ++ st.socket ∷ l
      → has st.socket st.conns ≡ false
      → Opens fds (fds st.world) r
      → Both (λ fd w'. has (pos fd) (fds st.world) ≡ false) (λ e w'. Unit) r
      → IsServing (
          given sys st (
            on r
              (λ fd w. (ok fd, record ctx { s = pos fd }, st.socket, w))
              (λ e w. (err e, record ctx { s = minus_one }, pos 0, sys.close st.socket w))))
  given-IsServing ctx st (ok fd, w) inv apart opens fresh =
      let other : same_fd st.socket (pos fd) ≡ false =
        new-other (pos fd) st.socket st.conns l (subst (λ k. has (pos fd) k ≡ false) inv fresh) in
      record {
        open_are = opens ∙ ap (λ k. pos fd ∷ k) inv;
        apart = λ h. rw other apart;
        forgotten = λ h. cc h;
      }
  given-IsServing ctx st (err e, w) inv apart opens fresh = record {
    open_are =
        laws.close_closes st.socket w
        ∙ ap (without st.socket) (opens ∙ inv)
        ∙ without-append_new st.socket st.conns l apart;
    apart = λ h. cc h;
    forgotten = λ h. refl;
  }

  hang_up-IsServing :
      (ctx : Ctx) (st : Server W)
      → has ctx.s st.conns ≡ true
      → IsServing st
      → IsServing (record st { conns = without ctx.s st.conns; world = tcp_close sys ctx st.world })
  unfolding tcp_close
  hang_up-IsServing ctx st there is = record {
    open_are =
        laws.close_closes ctx.s (sys.shutdown ctx.s st.world)
        ∙ ap (without ctx.s) (laws.shutdown_keeps ctx.s st.world ∙ is.open_are)
        ∙ without-append_has ctx.s st.conns (if st.listens then st.socket ∷ l else l) there;
    apart = λ h. has-without st.socket ctx.s st.conns (is.apart h);
    forgotten = is.forgotten;
  }

  -- The list of what is open, while the server listens.
  listening :
      (st : Server W) → st.listens ≡ true → IsServing st → fds st.world ≡ st.conns ++ st.socket ∷ l
  listening st e is = is.open_are ∙ ap (λ b. st.conns ++ (if b then st.socket ∷ l else l)) e

  step-IsServing :
      (e : Event) (st : Server W) → AcceptsFresh → IsServing st → IsServing (step sys e st)
  unfolding tcp_accept tcp_pi_accept
  step-IsServing (accept ctx) st fresh is =
      either IsServing st.listens _ _
        (λ e.
          given-IsServing ctx st (sys.accept st.socket st.world) (listening st e is) (is.apart e)
            (laws.accept_opens st.socket st.world) (fresh st.socket st.world))
        (λ e. is)
  step-IsServing (accept_pi ctx) st fresh is =
      either IsServing st.listens _ _
        (λ e.
          given-IsServing ctx st (sys.accept st.socket st.world) (listening st e is) (is.apart e)
            (laws.accept_opens st.socket st.world) (fresh st.socket st.world))
        (λ e. is)
  step-IsServing (hang_up ctx) st fresh is =
      either IsServing (has ctx.s st.conns) _ _ (λ e. hang_up-IsServing ctx st e is) (λ e. is)

  run-IsServing :
      (es : List Event) (st : Server W) → AcceptsFresh → IsServing st → IsServing (run sys es st)
  run-IsServing [] st fresh is = is
  run-IsServing (e ∷ es) st fresh is =
      run-IsServing es (step sys e st) fresh (step-IsServing e st fresh is)

  -- After `modbus_tcp_listen` or `modbus_tcp_pi_listen` has succeeded, and then any sequence of calls
  -- of `modbus_tcp_accept` and `modbus_tcp_pi_accept`, for as long as they succeed, and of
  -- `_modbus_tcp_close` for open connections, in any order: what is open are the connections that were
  -- accepted and not closed, the listening socket, and the descriptors from before. When an accept has
  -- failed, the listening socket is closed and the caller's variable is 0, and the connections stay.
  -- The system's `accept` returns descriptors that were not open.
  pub sessions-IsServing :
      (addr : A) (to : TcpPi) (n socket : ℕ) (w w' : W) (es : List Event)
      → AcceptsFresh
      → fds w ≡ l
      → (tcp_listen sys addr n w ≡ (ok socket, w')) ⊎ (tcp_pi_listen sys to n w ≡ (ok socket, w'))
      → IsServing
          (run sys es (record { conns = []; listens = true; socket = pos socket; world = w' }))
  sessions-IsServing addr to n socket w w' es fresh closed listens =
      let both = listen-Opens sys fds laws l addr to n w closed in
      let opened : fds w' ≡ pos socket ∷ l = elim listens [
        | inl e ↦ subst (Opens fds l) e both.0
        | inr e ↦ subst (Opens fds l) e both.1
      ] in
      run-IsServing es _ fresh
        (record { open_are = opened; apart = λ h. refl; forgotten = λ h. cc h })
