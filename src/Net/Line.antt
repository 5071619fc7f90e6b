-- ===== src/Net/Line.antt =====
-- A line of the protocol whose `select` is the loop of Wait: that it is a stream if the descriptor is.
use swift_lib_modbus.Prelude.{ℕ, suc, ◌+◌, ◌<◌, ◌≤◌, ◌≡◌, ap, ◌∙◌, arith, Option}
use swift_lib_modbus.Prelude.Int.{ℤ}
use swift_lib_modbus.Protocol.{Result, ok, err}
use swift_lib_modbus.Context.{Ctx, Timeval}
use swift_lib_modbus.Memory.{Buf}
use swift_lib_modbus.Fuel.{result_of, finished-IsDone, result_of-finished}
use swift_lib_modbus.Net.Wait.{
  select_loop, Interrupts, Selects, select_loop-IsWaited, select_loop-IsThere,
}
use swift_lib_modbus.Link.{Link}
use swift_lib_modbus.Link.Stream.{IsStream, IsReady, IsRead}

module _ {ℓ} {W : Type ℓ} (select : ℤ → Option Timeval → W → Result ℕ × Option Timeval × W)
    (signals : W → ℕ) (fewer : Interrupts select signals) where
  -- The result of the loop, which ends after as many rounds as there are signals and one more.
  unfoldable pub select_result : ℤ → Option Timeval → W → Result (Option Timeval) × W
  select_result s tv w =
      let waited =
        select_loop-IsWaited select signals (suc (signals w)) s tv w fewer (omega arith) in
      result_of (select_loop select (suc (signals w)) s tv w)
        (finished-IsDone (select_loop select (suc (signals w)) s tv w) _ waited.returns)

  module _ (recv : ℤ → ℕ → W → Result Buf × W) (place : W → ℕ) (stream : ℕ → ℕ) (s : ℤ)
      (stop : ℕ) where
    -- What a read is documented to do when bytes are there: it takes at least one and at most `n` of
    -- those that come next.
    abbrev pub Receives : ℕ → W → Result Buf × W → Type 0
    Receives n w (err e, w') = ⊥
    Receives n w (ok bytes, w') =
        (0 < bytes.cap)
        × (bytes.cap ≤ n)
        × ((k : ℕ) → k < bytes.cap → bytes.cell k ≡ stream (place w + k))
        × ((k : ℕ) → bytes.cell k < 256)
        × (place w' ≡ place w + bytes.cap)

    -- The bytes of the stream before `stop` have arrived at the descriptor `s` or arrive in time. Signals
    -- may interrupt the calls of `select`.
    pub record IsConnected : Type ℓ where
      pub of_bytes : (k : ℕ) → stream k < 256
      pub selects :
          (tv : Option Timeval) (w : W)
          → place w < stop
          → Selects select place stop w (select s tv w)
      pub receives : (n : ℕ) (w : W) → 0 < n → place w + n ≤ stop → Receives n w (recv s n w)

    -- The operations of the line that read are those of the descriptor.
    pub record Reads (link : Link W) : Type ℓ where
      pub select_is :
          (ctx : Ctx) (tv : Option Timeval) (n : ℕ) (w : W)
          → link.select ctx tv n w ≡ select_result ctx.s tv w
      pub recv_is : (ctx : Ctx) (n : ℕ) (w : W) → link.recv ctx n w ≡ recv ctx.s n w

    received-IsRead :
        (link : Link W) (ctx : Ctx) (n : ℕ) (w : W) (r : Result Buf × W)
        → link.recv ctx n w ≡ r
        → Receives n w r
        → IsRead link place stream ctx n w
    received-IsRead link ctx n w (err no', w') e is = absurd is
    received-IsRead link ctx n w (ok bytes, w') e is = record {
      bytes = bytes;
      world = w';
      returns = e;
      some_bytes = is.0;
      not_more = is.1;
      are_next = is.2;
      are_bytes = is.3;
      moves = is.4;
    }

    selected-IsReady :
        (link : Link W) (ctx : Ctx) (tv : Option Timeval) (n : ℕ) (w : W)
        → Reads link
        → IsConnected
        → ctx.s ≡ s
        → place w < stop
        → IsReady link place stream ctx tv n w
    unfolding select_result
    selected-IsReady link ctx tv n w reads connected same there =
        let ready =
          select_loop-IsThere select place stop signals (suc (signals w)) s tv w fewer
            connected.selects there (omega arith) in
        record {
          tv = ready.tv;
          world = ready.world;
          returns =
              reads.select_is ctx tv n w
              ∙ ap (λ t. select_result t tv w) same
              ∙ result_of-finished _ _ _ ready.returns;
          stays = ready.stays;
        }

    pub connected-IsStream :
        (link : Link W) → Reads link → IsConnected → IsStream link place stream s stop
    connected-IsStream link reads connected = record {
      of_bytes = connected.of_bytes;
      ready = λ ctx tv n w same there. selected-IsReady link ctx tv n w reads connected same there;
      reads = λ ctx n w same some_asked inside.
          received-IsRead link ctx n w (recv s n w)
            (reads.recv_is ctx n w ∙ ap (λ t. recv t n w) same)
            (connected.receives n w some_asked inside);
    }
