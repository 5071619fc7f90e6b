-- ===== src/Net/Wait.antt =====
-- The loop around `select` that `_modbus_tcp_select` of modbus-tcp.c and `_modbus_rtu_select` of
-- modbus-rtu.c share. The debug output is left out.
use swift_lib_modbus.Prelude.{
  ℕ, zero, suc, ◌<◌, ◌≡◌, refl, ◌∙◌, arith, Bool, true, false, Option, ◌==◌, if◌then◌else◌,
}
use swift_lib_modbus.Prelude.Int.{ℤ}
use swift_lib_modbus.Protocol.{Errno, eintr, etimedout, Result, ok, err}
use swift_lib_modbus.Context.{Timeval}
use swift_lib_modbus.Fuel.{Run, out_of_fuel, finished}

abbrev pub is_eintr : Errno → Bool
is_eintr eintr = true
is_eintr e = false

-- What the code makes of the last call: a time limit that is over, or what is left of it.
abbrev pub outcome : Result ℕ → Option Timeval → Result (Option Timeval)
outcome (ok rc) tv = if rc == 0 then err etimedout else ok tv
outcome (err e) tv = err e

-- A call is made again if a signal has interrupted it.
abbrev pub unless_interrupted {ℓ} :
    {W : Type ℓ}
    → (Option Timeval → W → Run (Result (Option Timeval) × W))
    → Result ℕ × Option Timeval × W
    → Run (Result (Option Timeval) × W)
unless_interrupted retry (ok rc, tv, w) = finished (outcome (ok rc) tv, w)
unless_interrupted retry (err e, tv, w) = if is_eintr e then retry tv w else finished (err e, w)

module _ {ℓ} {W : Type ℓ} (select : ℤ → Option Timeval → W → Result ℕ × Option Timeval × W) where
  -- `while ((s_rc = select(...)) == -1) ...`, on fuel, and the test of `s_rc` behind it.
  unfoldable pub select_loop : ℕ → ℤ → Option Timeval → W → Run (Result (Option Timeval) × W)
  select_loop zero s tv w = out_of_fuel
  select_loop (suc fuel) s tv w = unless_interrupted (select_loop fuel s) (select s tv w)

  -- The measure of the signals that are to come.
  abbrev pub Interrupts : (W → ℕ) → Type ℓ
  Interrupts signals =
      (s : ℤ) (tv tv' : Option Timeval) (w w' : W)
      → select s tv w ≡ (err eintr, tv', w')
      → signals w' < signals w

  -- The loop ends with the outcome of a call that no signal has interrupted.
  pub record IsWaited (s : ℤ) (run : Run (Result (Option Timeval) × W)) : Type ℓ where
    pub tv : Option Timeval
    pub world : W
    pub last : Result ℕ
    pub left : Option Timeval
    pub after : W
    pub calls : select s tv world ≡ (last, left, after)
    pub uninterrupted : ¬ (last ≡ err eintr)
    pub returns : run ≡ finished (outcome last left, after)

  eintr-IsWaited :
      (s : ℤ) (tv : Option Timeval) (w : W)
      (retry : Option Timeval → W → Run (Result (Option Timeval) × W))
      (r : Result ℕ × Option Timeval × W)
      → select s tv w ≡ r
      → ((tv' : Option Timeval) (w' : W)
          → select s tv w ≡ (err eintr, tv', w')
          → IsWaited s (retry tv' w'))
      → IsWaited s (unless_interrupted retry r)
  eintr-IsWaited s tv w retry (ok rc, left, w') e again = record {
    tv = tv;
    world = w;
    last = ok rc;
    left = left;
    after = w';
    calls = e;
    uninterrupted = λ absurd. cc absurd;
    returns = refl;
  }
  eintr-IsWaited s tv w retry (err eintr, left, w') e again = again left w' e
  eintr-IsWaited s tv w retry (err e', left, w') e again = record {
    tv = tv;
    world = w;
    last = err e';
    left = left;
    after = w';
    calls = e;
    uninterrupted = λ absurd. cc absurd;
    returns = refl;
  }

  -- The loop ends, and has as many rounds as there are signals and one more.
  pub select_loop-IsWaited :
      (signals : W → ℕ) (fuel : ℕ) (s : ℤ) (tv : Option Timeval) (w : W)
      → Interrupts signals
      → signals w < fuel
      → IsWaited s (select_loop fuel s tv w)
  unfolding select_loop
  select_loop-IsWaited signals zero s tv w fewer enough = absurd (omega arith)
  select_loop-IsWaited signals (suc fuel) s tv w fewer enough =
      eintr-IsWaited s tv w (select_loop fuel s) (select s tv w) refl (λ tv' w' e.
        select_loop-IsWaited signals fuel s tv' w' fewer
          (omega (arith, fewer s tv tv' w w' e, enough)))

  module _ (place : W → ℕ) (stop : ℕ) where
    -- A call of `select` while bytes are there before `stop`: it says so or a signal interrupts it,
    -- and it reads nothing.
    abbrev pub Selects : W → Result ℕ × Option Timeval × W → Type 0
    Selects w (ok rc, tv, w') = (0 < rc) × (place w' ≡ place w)
    Selects w (err e, tv, w') = (e ≡ eintr) × (place w' ≡ place w)

    -- The loop succeeds without reading.
    pub record IsThere (w : W) (run : Run (Result (Option Timeval) × W)) : Type ℓ where
      pub tv : Option Timeval
      pub world : W
      pub returns : run ≡ finished (ok tv, world)
      pub stays : place world ≡ place w

    retried-IsThere :
        (w : W) (retry : Option Timeval → W → Run (Result (Option Timeval) × W))
        (r : Result ℕ × Option Timeval × W)
        → Selects w r
        → ((tv' : Option Timeval) (w' : W)
            → r ≡ (err eintr, tv', w')
            → place w' ≡ place w
            → IsThere w' (retry tv' w'))
        → IsThere w (unless_interrupted retry r)
    retried-IsThere w retry (ok zero, tv, w') is again = absurd (omega (arith, is.0))
    retried-IsThere w retry (ok (suc rc), tv, w') is again = record {
      tv = tv;
      world = w';
      returns = ground arith;
      stays = is.1;
    }
    retried-IsThere w retry (err e, tv, w') is again =
        let r = again tv w' (rw is.0 refl) is.1 in
        record { tv = r.tv; world = r.world; returns = rw is.0 r.returns; stays = r.stays ∙ is.1 }

    pub select_loop-IsThere :
        (signals : W → ℕ) (fuel : ℕ) (s : ℤ) (tv : Option Timeval) (w : W)
        → Interrupts signals
        → ((tv : Option Timeval) (w : W) → place w < stop → Selects w (select s tv w))
        → place w < stop
        → signals w < fuel
        → IsThere w (select_loop fuel s tv w)
    unfolding select_loop
    select_loop-IsThere signals zero s tv w fewer selects there enough = absurd (omega arith)
    select_loop-IsThere signals (suc fuel) s tv w fewer selects there enough =
        retried-IsThere w (select_loop fuel s) (select s tv w) (selects tv w there)
          (λ tv' w' e same.
            select_loop-IsThere signals fuel s tv' w' fewer selects (omega (arith, same, there))
              (omega (arith, fewer s tv tv' w w' e, enough)))
