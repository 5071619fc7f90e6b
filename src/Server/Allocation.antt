-- ===== src/Server/Allocation.antt =====
-- `modbus_mapping_new` and `modbus_mapping_free` of modbus.c, over the `malloc` and `free` of the
-- system.
use swift_lib_modbus.Prelude.{
  ℕ, zero, suc, ◌*◌, ◌<◌, ◌≡◌, refl, ◌∙◌, ap, arith, Option, none, some, List, [], ◌∷◌,
}
use swift_lib_modbus.Memory.{Buf}
use swift_lib_modbus.Server.Mapping.{Mapping, IsTable, IsMapping}

-- `H` is the state of the heap; a pointer is a number, and NULL is `none`.
pub record Allocator {ℓ} (H : Type ℓ) : Type ℓ where
  pub malloc : H → ℕ → H × Option ℕ
  pub free : H → ℕ → H

-- The structure and its tables, as pointers, with what they hold.
pub record Allocated : Type 0 where
  pub mapping : Mapping
  pub p : Option ℕ
  pub p_bits : Option ℕ
  pub p_input_bits : Option ℕ
  pub p_registers : Option ℕ
  pub p_input_registers : Option ℕ

-- `malloc` and `memset(..., 0, ...)`.
abbrev zeros : ℕ → Buf
zeros n = record { cap = n; cell = λ i. 0 }

-- The pointers in the order in which `modbus_mapping_free` releases them.
abbrev pointers : Allocated → List (Option ℕ)
pointers m = m.p_input_registers ∷ m.p_registers ∷ m.p_input_bits ∷ m.p_bits ∷ m.p ∷ []

module _ {ℓ} {H : Type ℓ} (system : Allocator H) where
  -- `free`, one after the other; `free(NULL)` does nothing.
  unfoldable pub free_all : H → List (Option ℕ) → H
  free_all h [] = h
  free_all h (none ∷ ps) = free_all h ps
  free_all h (some p ∷ ps) = free_all (system.free h p) ps

  -- `none` is a failure; the pointer to a table without elements is NULL.
  abbrev got : H × Option ℕ → H × Option (Option ℕ)
  got (h, none) = (h, none)
  got (h, some p) = (h, some (some p))

  unfoldable pub new_table : H → ℕ → ℕ → H × Option (Option ℕ)
  new_table h zero size = (h, some none)
  new_table h (suc n) size = got (system.malloc h (suc n * size))

  -- After a call of `malloc`: what was allocated before is released if it has failed.
  abbrev or_release :
      H × Option (Option ℕ)
      → List (Option ℕ)
      → (H → Option ℕ → H × Option Allocated)
      → H × Option Allocated
  or_release (h, none) before next = (free_all h before, none)
  or_release (h, some p) before next = next h p

  -- `modbus_mapping_new`, with the size of the structure.
  unfoldable pub mapping_new : H → ℕ → ℕ → ℕ → ℕ → ℕ → H × Option Allocated
  unfolding new_table free_all
  mapping_new h size nb_bits nb_input_bits nb_registers nb_input_registers =
      or_release (got (system.malloc h size)) [] (λ h p.
        or_release (new_table h nb_bits 1) (p ∷ []) (λ h p_bits.
          or_release (new_table h nb_input_bits 1) (p_bits ∷ p ∷ []) (λ h p_input_bits.
            or_release (new_table h nb_registers 2) (p_input_bits ∷ p_bits ∷ p ∷ [])
              (λ h p_registers.
                or_release (new_table h nb_input_registers 2)
                  (p_registers ∷ p_input_bits ∷ p_bits ∷ p ∷ [])
                  (λ h p_input_registers. (
                    h,
                    some (record {
                      mapping = record {
                        nb_bits = nb_bits;
                        nb_input_bits = nb_input_bits;
                        nb_input_registers = nb_input_registers;
                        nb_registers = nb_registers;
                        tab_bits = zeros nb_bits;
                        tab_input_bits = zeros nb_input_bits;
                        tab_input_registers = zeros nb_input_registers;
                        tab_registers = zeros nb_registers;
                      };
                      p = p;
                      p_bits = p_bits;
                      p_input_bits = p_input_bits;
                      p_registers = p_registers;
                      p_input_registers = p_input_registers;
                    }),
                  ))))))

  -- `modbus_mapping_free`.
  unfoldable pub mapping_free : H → Option Allocated → H
  unfolding free_all
  mapping_free h none = h
  mapping_free h (some m) = free_all h (pointers m)

-- The blocks that `malloc` has given and `free` has not taken back, the last one first.
abbrev pub IsGranted {ℓ} : {H : Type ℓ} → (H → List ℕ) → H → H × Option ℕ → Type 0
IsGranted live h (h', none) = live h' ≡ live h
IsGranted live h (h', some p) = live h' ≡ p ∷ live h

-- `malloc` adds a block or changes nothing; `free` of the last block removes it.
pub record IsAllocator {ℓ} {H : Type ℓ} (system : Allocator H) (live : H → List ℕ) : Type ℓ where
  pub grants : (h : H) (n : ℕ) → IsGranted live h (system.malloc h n)
  pub frees : (h : H) (p : ℕ) (rest : List ℕ) → live h ≡ p ∷ rest → live (system.free h p) ≡ rest

abbrev with_pointers : List (Option ℕ) → List ℕ → List ℕ
with_pointers [] l = l
with_pointers (none ∷ ps) l = with_pointers ps l
with_pointers (some p ∷ ps) l = p ∷ with_pointers ps l

module _ {ℓ} {H : Type ℓ} (system : Allocator H) (live : H → List ℕ)
    (laws : IsAllocator system live) (l : List ℕ) where
  free_all-live :
      (ps : List (Option ℕ)) (h : H) → live h ≡ with_pointers ps l → live (free_all system h ps) ≡ l
  unfolding free_all
  free_all-live [] h e = e
  free_all-live (none ∷ ps) h e = free_all-live ps h e
  free_all-live (some p ∷ ps) h e = free_all-live ps (system.free h p) (laws.frees h p _ e)

  abbrev Grown : List (Option ℕ) → H × Option (Option ℕ) → Type 0
  Grown ps (h, none) = live h ≡ with_pointers ps l
  Grown ps (h, some p) = live h ≡ with_pointers (p ∷ ps) l

  got-Grown :
      (ps : List (Option ℕ)) (h : H) (r : H × Option ℕ)
      → live h ≡ with_pointers ps l
      → IsGranted live h r
      → Grown ps (got system r)
  got-Grown ps h (h', none) e g = g ∙ e
  got-Grown ps h (h', some p) e g = g ∙ ap (λ t. p ∷ t) e

  new_table-Grown :
      (ps : List (Option ℕ)) (h : H) (n size : ℕ)
      → live h ≡ with_pointers ps l
      → Grown ps (new_table system h n size)
  unfolding new_table
  new_table-Grown ps h zero size e = e
  new_table-Grown ps h (suc n) size e = got-Grown ps h _ e (laws.grants h (suc n * size))

  -- Either nothing is kept, or the tables are well formed and `modbus_mapping_free` releases all.
  abbrev pub Balanced : H × Option Allocated → Type 0
  Balanced (h, none) = live h ≡ l
  Balanced (h, some m) = IsMapping m.mapping × (live (mapping_free system h (some m)) ≡ l)

  or_release-Balanced :
      (ps : List (Option ℕ)) (r : H × Option (Option ℕ))
      (next : H → Option ℕ → H × Option Allocated)
      → Grown ps r
      → ((h : H) (p : Option ℕ) → live h ≡ with_pointers (p ∷ ps) l → Balanced (next h p))
      → Balanced (or_release system r ps next)
  or_release-Balanced ps (h, none) next g k = free_all-live ps h g
  or_release-Balanced ps (h, some p) next g k = k h p g

  zeros-IsTable : (bound n : ℕ) → 0 < bound → IsTable bound n (zeros n)
  zeros-IsTable bound n h = record { cap_is = refl; small = λ i. h }

  -- `modbus_mapping_new` either fails and leaves nothing allocated, whichever call of `malloc` it was
  -- that failed, or returns well-formed tables, and `modbus_mapping_free` releases all that was
  -- allocated for them.
  pub mapping_new-Balanced :
      (h : H) (size nb_bits nb_input_bits nb_registers nb_input_registers : ℕ)
      → live h ≡ l
      → Balanced (mapping_new system h size nb_bits nb_input_bits nb_registers nb_input_registers)
  unfolding mapping_new mapping_free
  mapping_new-Balanced h size nb_bits nb_input_bits nb_registers nb_input_registers e =
      or_release-Balanced [] _ _ (got-Grown [] h _ e (laws.grants h size)) (λ h p e.
        or_release-Balanced (p ∷ []) _ _ (new_table-Grown (p ∷ []) h nb_bits 1 e) (λ h p_bits e.
          or_release-Balanced (p_bits ∷ p ∷ []) _ _
            (new_table-Grown (p_bits ∷ p ∷ []) h nb_input_bits 1 e)
            (λ h p_input_bits e.
              or_release-Balanced (p_input_bits ∷ p_bits ∷ p ∷ []) _ _
                (new_table-Grown (p_input_bits ∷ p_bits ∷ p ∷ []) h nb_registers 2 e)
                (λ h p_registers e.
                  or_release-Balanced (p_registers ∷ p_input_bits ∷ p_bits ∷ p ∷ []) _ _
                    (new_table-Grown (p_registers ∷ p_input_bits ∷ p_bits ∷ p ∷ []) h
                      nb_input_registers 2 e)
                    (λ h p_input_registers e. (
                      record {
                        bits = zeros-IsTable 2 nb_bits (omega arith);
                        input_bits = zeros-IsTable 2 nb_input_bits (omega arith);
                        registers = zeros-IsTable 65536 nb_registers (omega arith);
                        input_registers = zeros-IsTable 65536 nb_input_registers (omega arith);
                      },
                      free_all-live
                          (p_input_registers ∷ p_registers ∷ p_input_bits ∷ p_bits ∷ p ∷ []) h e,
                    ))))))
