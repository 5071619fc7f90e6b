-- ===== src/Prelude/Defined.antt =====
-- Conditions on the result of code that may be undefined, and the rules for its steps.
use mathlib.Core.Bool.{Bool, true, false}
use mathlib.Core.Option.{Option, none, some}
use swift_lib_modbus.Prelude.Tests.{if◌then◌else◌, ◌>>=◌}

abbrev pub Holds {ℓ κ} : {A : Type ℓ} → (A → Type κ) → Option A → Type κ
Holds P none = Unit
Holds P (some x) = P x

-- A condition on the result of code that may be undefined.
pub record IfDefined {ℓ κ} {A : Type ℓ} (P : A → Type κ) (m : Option A) : Type κ where
  pub holds : Holds P m

pub no_result {ℓ κ} : {A : Type ℓ} (P : A → Type κ) → IfDefined P none
no_result P = record { holds = tt }

pub result {ℓ κ} : {A : Type ℓ} (P : A → Type κ) (x : A) → P x → IfDefined P (some x)
result P x p = record { holds = p }

-- What follows has a property, if it has it after every result that there may be.
pub bind_rule {ℓ κ μ ν} :
    {A : Type ℓ} {B : Type κ} (P : A → Type μ) (Q : B → Type ν) (m : Option A) (k : A → Option B)
    → IfDefined P m
    → ((x : A) → P x → IfDefined Q (k x))
    → IfDefined Q (m >>= k)
bind_rule P Q none k p q = no_result Q
bind_rule P Q (some x) k p q = q x p.holds

-- What follows has a property, whatever the result is.
pub any_rule {ℓ κ ν} :
    {A : Type ℓ} {B : Type κ} (Q : B → Type ν) (m : Option A) (k : A → Option B)
    → ((x : A) → IfDefined Q (k x))
    → IfDefined Q (m >>= k)
any_rule Q none k q = no_result Q
any_rule Q (some x) k q = q x

pub if_rule {ℓ ν} :
    {B : Type ℓ} (Q : B → Type ν) (b : Bool) (x y : Option B)
    → IfDefined Q x
    → IfDefined Q y
    → IfDefined Q (if b then x else y)
if_rule Q true x y p q = p
if_rule Q false x y p q = q
