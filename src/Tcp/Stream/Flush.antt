-- ===== src/Tcp/Stream/Flush.antt =====
-- What `_modbus_tcp_flush` of modbus-tcp.c removes, and that its loop ends.
use swift_lib_modbus.Prelude.{
  ℕ, zero, suc, ◌+◌, ◌*◌, ◌<◌, ◌≤◌, ◌≡◌, ap, arith, true, subst, ◌==◌, Bool-cases, inl, inr,
}
use swift_lib_modbus.Prelude.Int.{ℤ}
use swift_lib_modbus.Protocol.{Result, ok, err}
use swift_lib_modbus.Context.{Ctx}
use swift_lib_modbus.Memory.{Buf}
use swift_lib_modbus.Fuel.{Run, finished}
use swift_lib_modbus.Net.{Sockets}
use swift_lib_modbus.Tcp.Stream.{max_tcp_length, flush_round, flush_loop, tcp_flush}

module _ {ℓ} {W : Type ℓ} {A : Type 0} (sys : Sockets W A) (waiting : W → ℕ) where
  -- What `recv` is documented to do with MSG_DONTWAIT, if `n` is not 0: it fails if no bytes are
  -- waiting; otherwise it takes those that are, at most `n`.
  abbrev pub Takes : ℕ → W → Result Buf × W → Type 0
  Takes n w (err e, w') = (waiting w ≡ 0) × (waiting w' ≡ 0)
  Takes n w (ok bytes, w') =
      (waiting w' + bytes.cap ≡ waiting w) × (bytes.cap ≤ n) × (bytes.cap < n → waiting w' ≡ 0)

  abbrev pub IsNonblocking : Type ℓ
  IsNonblocking = (s : ℤ) (n : ℕ) (w : W) → 0 < n → Takes n w (sys.recv s n true w)

  -- `n` bytes have been removed and none is left.
  pub record IsEmptied (n : ℕ) (run : Run (Result ℕ × W)) : Type ℓ where
    pub world : W
    pub returns : run ≡ finished (ok n, world)
    pub none_left : waiting world ≡ 0

  flush_round-IsEmptied :
      (rounds : ℕ → W → Run (Result ℕ × W)) (rc_sum : ℕ) (w : W) (r : Result Buf × W)
      → Takes max_tcp_length w r
      → ((w' : W)
          → waiting w' + max_tcp_length ≡ waiting w
          → (sum : ℕ) → IsEmptied (sum + waiting w') (rounds sum w'))
      → IsEmptied (rc_sum + waiting w) (flush_round sys rounds rc_sum r)
  flush_round-IsEmptied rounds rc_sum w (err e, w') takes goes_on = record {
    world = w';
    returns = rw takes.0 (ground arith);
    none_left = takes.1;
  }
  flush_round-IsEmptied rounds rc_sum w (ok devnull, w') takes goes_on =
      elim (Bool-cases (devnull.cap == max_tcp_length)) [
        | inl e ↦ rw e (
            subst (λ n. IsEmptied n (rounds (rc_sum + devnull.cap) w')) (omega (arith, takes.0))
              (goes_on w' (ground (arith, takes.0, e)) (rc_sum + devnull.cap)))
        | inr e ↦
            let none_left = takes.2 (ground (arith, takes.1, e)) in
            record {
              world = w';
              returns = rw e (ap (λ n. finished (ok n, w')) (omega (arith, takes.0, none_left)));
              none_left = none_left;
            }
      ]

  pub flush_loop-IsEmptied :
      (fuel : ℕ) (s : ℤ) (rc_sum : ℕ) (w : W)
      → IsNonblocking
      → waiting w < max_tcp_length * fuel
      → IsEmptied (rc_sum + waiting w) (flush_loop sys fuel s rc_sum w)
  unfolding flush_loop
  flush_loop-IsEmptied zero s rc_sum w nonblocking enough = absurd (omega (arith, enough))
  flush_loop-IsEmptied (suc fuel) s rc_sum w nonblocking enough =
      flush_round-IsEmptied (flush_loop sys fuel s) rc_sum w (sys.recv s max_tcp_length true w)
        (nonblocking s max_tcp_length w (omega arith))
        (λ w' e sum. flush_loop-IsEmptied fuel s sum w' nonblocking (omega (arith, e, enough)))

  pub tcp_flush-IsEmptied :
      (fuel : ℕ) (ctx : Ctx) (w : W)
      → IsNonblocking
      → waiting w < max_tcp_length * fuel
      → IsEmptied (waiting w) (tcp_flush sys fuel ctx w)
  unfolding tcp_flush
  tcp_flush-IsEmptied fuel ctx w nonblocking enough =
      subst (λ n. IsEmptied n (flush_loop sys fuel ctx.s 0 w)) (omega arith)
        (flush_loop-IsEmptied fuel ctx.s 0 w nonblocking enough)
