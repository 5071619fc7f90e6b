-- ===== src/Receive/Chunks.antt =====
-- The rounds of the loop of `_modbus_receive_msg` over a line on which a message waits.
use swift_lib_modbus.Prelude.{
  ℕ, zero, suc, ◌+◌, ◌-◌, ◌<◌, ◌≤◌, ◌≡◌, refl, ◌≢◌, ap, subst, ◌∙◌, ne→==, arith, Option, some, ltb,
  ◌==◌, if◌then◌else◌, inl, inr, ◌&&◌,
}
use native.Mathlib.Decide.{ℕ_discrete, dec_lt}
use swift_lib_modbus.Protocol.{MsgType, Result, ok}
use swift_lib_modbus.Context.{Ctx, Timeval}
use swift_lib_modbus.Backend.{max_adu_length}
use swift_lib_modbus.Memory.{Buf}
use swift_lib_modbus.Memory.Copy.{memcpy-IsCopied}
use swift_lib_modbus.Link.{Link}
use swift_lib_modbus.Link.Stream.{IsRead, IsStream}
use swift_lib_modbus.Fuel.{Run, finished}
use swift_lib_modbus.Receive.{
  Step, step_function, step_meta, step_data, Receiving, Progress, goes_on, next_step, receive_round,
  receive_bytes, after_recv, limits_bytes, receive_loop, receiving,
}
use swift_lib_modbus.Receive.Lengths.{
  message_end, step_end, Begins, IsAdvanced, next_step-IsAdvanced,
}

module _ {ℓ} {W : Type ℓ} (link : Link W) (pos : W → ℕ) (stream : ℕ → ℕ) (ctx : Ctx)
    (msg_type : MsgType) (start : ℕ) (buffer : Buf) where
  -- The bytes of the stream from the place where the message starts.
  abbrev pub message : ℕ → ℕ
  message k = stream (start + k)

  abbrev pub total : ℕ
  total = message_end ctx.backend msg_type message

  -- What holds between the rounds.
  pub record IsUnderway (st : Receiving W) : Type 0 where
    pub aims : st.msg_length + st.length_to_read ≡ step_end ctx.backend msg_type message st.step
    pub or_all : st.length_to_read ≡ 0 → st.msg_length ≡ total
    pub begins : Begins st.msg st.msg_length message
    pub behind : (k : ℕ) → st.msg_length ≤ k → st.msg.cell k ≡ buffer.cell k
    pub same_cap : st.msg.cap ≡ buffer.cap
    pub at : pos st.world ≡ start + st.msg_length

  -- A round that goes on, and has read something.
  pub record IsRound (st : Receiving W) (result : Option (Progress W)) : Type ℓ where
    pub next : Receiving W
    pub returns : result ≡ some (goes_on next)
    pub underway : IsUnderway next
    pub reads : st.msg_length < next.msg_length

  step_end-le : (step : Step) → step_end ctx.backend msg_type message step ≤ total
  step_end-le step_function = omega arith
  step_end-le step_meta = omega arith
  step_end-le step_data = omega arith

  module _ {stop : ℕ} (line : IsStream link pos stream ctx.s stop)
      (short : total ≤ max_adu_length ctx.backend) (room : max_adu_length ctx.backend ≤ buffer.cap)
      (there : start + total ≤ stop) where
    -- The step and the length after the message has grown to `here` bytes.
    advance :
        (step : Step) (msg : Buf) (here left : ℕ)
        → msg.cap ≡ buffer.cap
        → Begins msg here message
        → here + left ≡ step_end ctx.backend msg_type message step
        → IsAdvanced (step_end ctx.backend msg_type message) total here (
            if left == 0
            then next_step ctx.backend msg_type step msg here
            else some (ok (step, left)))
    advance step msg here left same begins aims = elim (ℕ_discrete left 0) [
      | no ne ↦ rw (ne→== left 0 ne) (record {
        step = step;
        length = left;
        returns = refl;
        goes_to = aims;
        or_all = λ e. absurd (ne e);
      })
      | yes e ↦
          let done : step_end ctx.backend msg_type message step ≡ here = omega (arith, e, aims) in
          let begins' : Begins msg (step_end ctx.backend msg_type message step) message =
            rw done begins in
          let room' : max_adu_length ctx.backend ≤ msg.cap = omega (arith, same, room) in
          let next =
            next_step-IsAdvanced ctx.backend msg_type message msg short room' step begins' in
          rw e (
            subst
              (λ m.
                IsAdvanced (step_end ctx.backend msg_type message) total m
                  (next_step ctx.backend msg_type step msg m))
              done next)
    ]

    after_recv-IsRound :
        (st : Receiving W) (p_tv : Option Timeval) (w : W)
        → IsUnderway st
        → pos w ≡ start + st.msg_length
        → (r : IsRead link pos stream ctx st.length_to_read w)
        → IsRound st (after_recv link ctx msg_type st p_tv r.bytes r.world)
    unfolding after_recv
    after_recv-IsRound st p_tv w u here r =
        let n : ℕ = r.bytes.cap in
        let few : n ≤ st.length_to_read = r.not_more in
        let le = step_end-le st.step in
        let fits : st.msg_length + n ≤ st.msg.cap =
          omega (arith, u.aims, u.same_cap, le, short, room, few) in
        let copied =
          memcpy-IsCopied n st.msg st.msg_length r.bytes 0 r.are_bytes (omega arith) fits in
        let begins : Begins copied.out (st.msg_length + n) message = λ k h.
          elim (dec_lt k st.msg_length) [
            | yes old ↦ copied.outside k (inl old) ∙ u.begins k old
            | no new ↦
                let j : ℕ = k - st.msg_length in
                let less : j < n = omega (arith, h, new) in
                let k_is : st.msg_length + j ≡ k = omega (arith, new) in
                let p_is : pos w + j ≡ start + k = omega (arith, here, new) in
                subst (λ m. copied.out.cell m ≡ message k) k_is
                  (copied.inside j less
                    ∙ ap r.bytes.cell (omega arith)
                    ∙ r.are_next j less
                    ∙ ap stream p_is)
          ] in
        let adv =
          advance st.step copied.out (st.msg_length + n) (st.length_to_read - n)
            (copied.same_cap ∙ u.same_cap) begins (omega (arith, u.aims, few)) in
        rw (copied.returns, adv.returns)
          (record {
            next = record {
              step = adv.step;
              length_to_read = adv.length;
              msg_length = st.msg_length + n;
              p_tv =
                  if ltb 0 adv.length && limits_bytes ctx.byte_timeout.tv_sec
                  then some ctx.byte_timeout
                  else p_tv;
              msg = copied.out;
              world = r.world;
            };
            returns = refl;
            underway = record {
              aims = adv.goes_to;
              or_all = adv.or_all;
              begins = begins;
              behind = λ k h. copied.outside k (inr h) ∙ u.behind k (omega (arith, h));
              same_cap = copied.same_cap ∙ u.same_cap;
              at = omega (arith, r.moves, here);
            };
            reads = omega (arith, r.some_bytes);
          })

    receive_bytes-after_recv :
        (st : Receiving W) (p_tv : Option Timeval) (w : W)
        → (r : IsRead link pos stream ctx st.length_to_read w)
        → receive_bytes link ctx msg_type st p_tv w
          ≡ after_recv link ctx msg_type st p_tv r.bytes r.world
    unfolding receive_bytes
    receive_bytes-after_recv st p_tv w r =
        let ne : r.bytes.cap ≢ 0 = λ e. omega (arith, e, r.some_bytes) in
        rw (r.returns, ne→== r.bytes.cap 0 ne) refl

    receive_round-IsRound :
        (st : Receiving W)
        → IsUnderway st
        → 0 < st.length_to_read
        → IsRound st (receive_round link ctx msg_type st)
    unfolding receive_round
    receive_round-IsRound st u more =
        let le = step_end-le st.step in
        let ready =
          line.ready ctx st.p_tv st.length_to_read st.world refl
            (omega (arith, u.at, u.aims, le, there, more)) in
        let r =
          line.reads ctx st.length_to_read ready.world refl more
            (omega (arith, ready.stays, u.at, u.aims, le, there)) in
        let round = after_recv-IsRound st ready.tv ready.world u (ready.stays ∙ u.at) r in
        rw (ready.returns, receive_bytes-after_recv st ready.tv ready.world r) round

    -- The loop ends with the message.
    pub record IsReceived (result : Run (Result ℕ × Buf × Ctx × W)) : Type ℓ where
      pub msg : Buf
      pub world : W
      pub returns : result ≡ finished (ok total, msg, ctx, world)
      pub begins : Begins msg total message
      pub behind : (k : ℕ) → total ≤ k → msg.cell k ≡ buffer.cell k
      pub same_cap : msg.cap ≡ buffer.cap
      pub at : pos world ≡ start + total

    loop_done :
        (fuel : ℕ) (st : Receiving W)
        → st.length_to_read ≡ 0
        → receive_loop link ctx msg_type fuel st
          ≡ finished (ok st.msg_length, st.msg, ctx, st.world)
    unfolding receive_loop
    loop_done zero st e = rw e refl
    loop_done (suc fuel) st e = rw e refl

    loop_goes_on :
        (fuel : ℕ) (st st' : Receiving W)
        → 0 < st.length_to_read
        → receive_round link ctx msg_type st ≡ some (goes_on st')
        → receive_loop link ctx msg_type (suc fuel) st ≡ receive_loop link ctx msg_type fuel st'
    unfolding receive_loop
    loop_goes_on fuel st st' more e =
        rw (ne→== st.length_to_read 0 (λ z. omega (arith, z, more)), e) refl

    all_read :
        (fuel : ℕ) (st : Receiving W)
        → IsUnderway st
        → st.length_to_read ≡ 0
        → IsReceived (receive_loop link ctx msg_type fuel st)
    all_read fuel st u e =
        let all = u.or_all e in
        record {
          msg = st.msg;
          world = st.world;
          returns = loop_done fuel st e ∙ ap (λ n. finished (ok n, st.msg, ctx, st.world)) all;
          begins = λ k h. u.begins k (omega (arith, h, all));
          behind = λ k h. u.behind k (omega (arith, h, all));
          same_cap = u.same_cap;
          at = omega (arith, u.at, all);
        }

    pub receive_loop-IsReceived :
        (fuel : ℕ) (st : Receiving W)
        → IsUnderway st
        → total ≤ st.msg_length + fuel
        → IsReceived (receive_loop link ctx msg_type fuel st)
    receive_loop-IsReceived zero st u enough =
        all_read zero st u (omega (arith, u.aims, step_end-le st.step, enough))
    receive_loop-IsReceived (suc fuel) st u enough = elim (dec_lt 0 st.length_to_read) [
      | no none_left ↦ all_read (suc fuel) st u (omega (arith, none_left))
      | yes more ↦
          let round = receive_round-IsRound st u more in
          let rest =
            receive_loop-IsReceived fuel round.next round.underway
              (omega (arith, round.reads, enough)) in
          rw (loop_goes_on fuel st round.next more round.returns) rest
    ]

    -- From the start of `_modbus_receive_msg`, with as much fuel as the message has bytes.
    pub receive_loop-receiving :
        (fuel : ℕ) (w : W)
        → pos w ≡ start
        → total ≤ fuel
        → IsReceived (receive_loop link ctx msg_type fuel (receiving link ctx msg_type buffer w))
    receive_loop-receiving fuel w here enough =
        receive_loop-IsReceived fuel (receiving link ctx msg_type buffer w)
          (record {
            aims = omega arith;
            or_all = λ e. absurd (omega (arith, e));
            begins = λ k h. absurd (omega (arith, h));
            behind = λ k h. refl;
            same_cap = refl;
            at = omega (arith, here);
          })
          (omega (arith, enough))
