-- ===== src/Fuel.antt =====
-- The outcome of code that runs on fuel: out of fuel, undefined behaviour, or a result.
use swift_lib_modbus.Prelude.{◌≡◌, Option, none, some}

pub data Run {ℓ} (A : Type ℓ) : Type ℓ where
  out_of_fuel undefined : Run A
  finished : A → Run A

abbrev pub and_then {ℓ κ} : {A : Type ℓ} {B : Type κ} → Run A → (A → Run B) → Run B
and_then out_of_fuel k = out_of_fuel
and_then undefined k = undefined
and_then (finished x) k = k x

-- Code without loops that needs no fuel.
abbrev pub lift {ℓ} : {A : Type ℓ} → Option A → Run A
lift none = undefined
lift (some x) = finished x

-- A run that has a result.
abbrev pub IsDone {ℓ} : {A : Type ℓ} → Run A → Type 0
IsDone out_of_fuel = ⊥
IsDone undefined = ⊥
IsDone (finished x) = Unit

-- Its result.
abbrev pub result_of {ℓ} : {A : Type ℓ} (run : Run A) → IsDone run → A
result_of out_of_fuel done = absurd done
result_of undefined done = absurd done
result_of (finished x) done = x

-- A run that is known to end is done.
pub finished-IsDone {ℓ} : {A : Type ℓ} (run : Run A) (x : A) → run ≡ finished x → IsDone run
finished-IsDone out_of_fuel x e = cc e
finished-IsDone undefined x e = cc e
finished-IsDone (finished y) x e = tt

pub result_of-finished {ℓ} :
    {A : Type ℓ} (run : Run A) (done : IsDone run) (x : A)
    → run ≡ finished x
    → result_of run done ≡ x
result_of-finished out_of_fuel done x e = absurd done
result_of-finished undefined done x e = absurd done
result_of-finished (finished y) done x e = cc e
