-- ===== src/New/Outcome.antt =====
-- When the constructors of New succeed, and what they leave allocated.
use swift_lib_modbus.Prelude.{
  ℕ, ◌≡◌, ◌<◌, refl, ◌∙◌, ap, arith, ◌⊎◌, inl, inr, Bool-cases, Option, none, some, List, ◌∷◌,
  length, leb, ◌==◌,
}
use swift_lib_modbus.Protocol.{einval, Result, ok, err}
use swift_lib_modbus.Context.{Ctx}
use swift_lib_modbus.Server.Allocation.{Allocator, IsAllocator, IsGranted}
use swift_lib_modbus.New.{Created, modbus_free, copy_text, create, filled, allocated}

-- `strlcpy` returns the length of the text, and copies it whole if that is below the size.
pub record IsCopy (strlcpy : ℕ → List ℕ → List ℕ × ℕ) : Type 0 where
  pub returns : (n : ℕ) (text : List ℕ) → (strlcpy n text).1 ≡ length text
  pub copies : (n : ℕ) (text : List ℕ) → length text < n → (strlcpy n text).0 ≡ text

module _ {ℓ} {H : Type ℓ} (system : Allocator H) (strlcpy : ℕ → List ℕ → List ℕ × ℕ)
    (live : H → List ℕ) (laws : IsAllocator system live) (is_copy : IsCopy strlcpy) where
  -- A text that is not empty and leaves room for the final 0.
  abbrev pub Fits : ℕ → List ℕ → Type 0
  Fits n text = (0 < length text) × (length text < n)

  abbrev pub Copied : ℕ → List ℕ → Option (List ℕ) → Type 0
  Copied n text none = ¬ Fits n text
  Copied n text (some copy) = Fits n text × (copy ≡ text)

  pub copy_text-Copied : (n : ℕ) (text : List ℕ) → Copied n text (copy_text system strlcpy n text)
  unfolding copy_text
  copy_text-Copied n text = elim (Bool-cases ((strlcpy n text).1 == 0)) [
    | inl e ↦ rw e (λ fits. ground (arith, e, is_copy.returns n text, fits.0))
    | inr e ↦ elim (Bool-cases (leb n (strlcpy n text).1)) [
      | inl e' ↦ rw (e, e') (λ fits. ground (arith, e', is_copy.returns n text, fits.1))
      | inr e' ↦
          let fits : Fits n text = (
            ground (arith, e, is_copy.returns n text),
            ground (arith, e', is_copy.returns n text),
          ) in
          rw (e, e') (fits, is_copy.copies n text fits.1)
    ]
  ]

  module _ {D : Type 0} (h : H) (size data_size : ℕ) (good : Type 0) (is : Ctx → D → Type 0) where
    -- A constructor fails with EINVAL and leaves nothing allocated exactly if its arguments are not
    -- good; otherwise it fills the fields, and `modbus_free` releases what it has allocated. It uses a
    -- NULL of `malloc`.
    abbrev pub IsOutcome : Option (H × Result (Created D)) → Type 0
    IsOutcome none =
        ((system.malloc h size).1 ≡ none)
        ⊎ ((system.malloc (system.malloc h size).0 data_size).1 ≡ none)
    IsOutcome (some (h', err e)) = (e ≡ einval) × (¬ good) × (live h' ≡ live h)
    IsOutcome (some (h', ok c)) =
        good
        × is c.ctx c.backend_data
        × (live (modbus_free system strlcpy h' c.p c.p_data) ≡ live h)

    abbrev pub IsDecided : Option (Ctx × D) → Type 0
    IsDecided none = ¬ good
    IsDecided (some (ctx, fields)) = good × is ctx fields

    freed :
        (h'' : H) (p p_data : ℕ)
        → live h'' ≡ p_data ∷ p ∷ live h
        → live (modbus_free system strlcpy h'' p p_data) ≡ live h
    unfolding modbus_free
    freed h'' p p_data e =
        laws.frees (system.free h'' p_data) p (live h) (laws.frees h'' p_data (p ∷ live h) e)

    filled-IsOutcome :
        (h'' : H) (p p_data : ℕ) (fields : Option (Ctx × D))
        → IsDecided fields
        → live h'' ≡ p_data ∷ p ∷ live h
        → IsOutcome (filled system strlcpy h'' p p_data fields)
    filled-IsOutcome h'' p p_data none bad e = (refl, bad, freed h'' p p_data e)
    filled-IsOutcome h'' p p_data (some (ctx, fields)) decided e =
        (decided.0, decided.1, freed h'' p p_data e)

    second-IsOutcome :
        (h' : H) (p : ℕ) (fields : Option (Ctx × D)) (r : H × Option ℕ)
        → system.malloc h size ≡ (h', some p)
        → system.malloc h' data_size ≡ r
        → live h' ≡ p ∷ live h
        → IsGranted live h' r
        → IsDecided fields
        → IsOutcome
            (allocated system strlcpy r (λ h p_data. filled system strlcpy h p p_data fields))
    second-IsOutcome h' p fields (h'', none) first second e granted decided =
        inr (ap (λ r. (system.malloc r.0 data_size).1) first ∙ ap (λ r. r.1) second)
    second-IsOutcome h' p fields (h'', some p_data) first second e granted decided =
        filled-IsOutcome h'' p p_data fields decided (granted ∙ ap (λ t. p_data ∷ t) e)

    pub create-IsOutcome :
        (fields : Option (Ctx × D))
        → IsDecided fields
        → IsOutcome (create system strlcpy h size data_size fields)
    create-IsOutcome fields decided = first (system.malloc h size) refl (laws.grants h size)
      where
        first :
            (r : H × Option ℕ)
            → system.malloc h size ≡ r
            → IsGranted live h r
            → IsOutcome (
                allocated system strlcpy r (λ h p.
                  allocated system strlcpy
                    (system.malloc h data_size)
                    (λ h p_data. filled system strlcpy h p p_data fields)))
        first (h', none) e granted = inl (ap (λ r. r.1) e)
        first (h', some p) e granted =
            second-IsOutcome h' p fields (system.malloc h' data_size) e refl granted
              (laws.grants h' data_size) decided
