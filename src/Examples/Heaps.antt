-- ===== src/Examples/Heaps.antt =====
-- A heap with room for a number of bytes, and tables in it.
use swift_lib_modbus.Prelude.{
  ℕ, zero, suc, ◌-◌, ◌≤◌, arith, ◌≡◌, refl, ap, Option, none, some, List, [], ◌∷◌, leb, length,
  Bool, true, false,
}
use swift_lib_modbus.Prelude.Int.{pos}
use swift_lib_modbus.Context.{tcp, tcp_pi}
use swift_lib_modbus.New.{new_rtu, new_tcp, new_tcp_pi, ip_length, node_length, service_length}
use swift_lib_modbus.New.Outcome.{IsCopy, IsOutcome, Fits}
use swift_lib_modbus.New.Contexts.{
  GoodRtu, IsRtuContext, IsTcpContext, new_rtu-IsOutcome, new_tcp-IsOutcome,
}
use swift_lib_modbus.Examples.Ports.{rtu_context, a_port}
use swift_lib_modbus.Server.Allocation.{
  Allocator, IsAllocator, mapping_new, mapping_new-Balanced, Balanced,
}

-- Blocks are numbered; at most three are given.
abbrev granted : Bool → List ℕ → List ℕ × Option ℕ
granted true live = (length live ∷ live, some (length live))
granted false live = (live, none)

abbrev drop_last : List ℕ → List ℕ
drop_last [] = []
drop_last (p ∷ live) = live

abbrev heap : Allocator (List ℕ)
heap = record {
  malloc = λ live n. granted (leb (length live) 2) live;
  free = λ live p. drop_last live;
}

abbrev IsGiven : List ℕ → List ℕ × Option ℕ → Type 0
IsGiven live (h', none) = h' ≡ live
IsGiven live (h', some p) = h' ≡ p ∷ live

given : (b : Bool) (live : List ℕ) → IsGiven live (granted b live)
given true live = refl
given false live = refl

heap-IsAllocator : IsAllocator heap (λ live. live)
heap-IsAllocator = record {
  grants = λ live n. given (leb (length live) 2) live;
  frees = λ live p rest e. ap drop_last e;
}

mapping_new-Balanced_example :
    Balanced heap (λ live. live) heap-IsAllocator [] (mapping_new heap [] 64 10 20 30 40)
mapping_new-Balanced_example =
    mapping_new-Balanced heap (λ live. live) heap-IsAllocator [] [] 64 10 20 30 40 refl

-- `strlcpy` as it is documented.
abbrev first : ℕ → List ℕ → List ℕ
first zero text = []
first (suc n) [] = []
first (suc n) (c ∷ text) = c ∷ first n text

abbrev copy_of : ℕ → List ℕ → List ℕ × ℕ
copy_of n text = (first (n - 1) text, length text)

first-all : (n : ℕ) (text : List ℕ) → length text ≤ n → first n text ≡ text
first-all zero [] short = refl
first-all zero (c ∷ text) short = absurd (omega (arith, short))
first-all (suc n) [] short = refl
first-all (suc n) (c ∷ text) short = ap (λ t. c ∷ t) (first-all n text (omega (arith, short)))

copy_of-IsCopy : IsCopy copy_of
copy_of-IsCopy = record {
  returns = λ n text. refl;
  copies = λ n text short. first-all (n - 1) text (omega (arith, short));
}

abbrev device : List ℕ
device = 47 ∷ 100 ∷ []

new_rtu-IsOutcome_example :
    IsOutcome heap copy_of
      (λ live. live)
      heap-IsAllocator
      copy_of-IsCopy
      []
      64
      120
      (GoodRtu heap copy_of (λ live. live) heap-IsAllocator copy_of-IsCopy 16 device 69)
      (IsRtuContext heap copy_of
        (λ live. live)
        heap-IsAllocator
        copy_of-IsCopy
        device
        (pos 19200)
        69
        (pos 7)
        (pos 1))
      (new_rtu heap copy_of [] 64 120 16 rtu_context a_port device (pos 19200) 69 (pos 7) (pos 1))
new_rtu-IsOutcome_example =
    new_rtu-IsOutcome heap copy_of (λ live. live) heap-IsAllocator copy_of-IsCopy [] 64 120
      rtu_context a_port 16 device (pos 19200) 69 (pos 7) (pos 1)

new_tcp-IsOutcome_example :
    IsOutcome heap copy_of
      (λ live. live)
      heap-IsAllocator
      copy_of-IsCopy
      []
      64
      24
      (Fits heap copy_of (λ live. live) heap-IsAllocator copy_of-IsCopy ip_length device)
      (λ ctx d.
        IsTcpContext heap copy_of (λ live. live) heap-IsAllocator copy_of-IsCopy tcp ctx
        × (d.ip ≡ device)
        × (d.port ≡ pos 502))
      (new_tcp heap copy_of [] 64 24 rtu_context device (pos 502))
    × IsOutcome heap copy_of
        (λ live. live)
        heap-IsAllocator
        copy_of-IsCopy
        []
        64
        24
        (Fits heap copy_of (λ live. live) heap-IsAllocator copy_of-IsCopy node_length device
          × Fits heap copy_of (λ live. live) heap-IsAllocator copy_of-IsCopy service_length [])
        (λ ctx d.
          IsTcpContext heap copy_of (λ live. live) heap-IsAllocator copy_of-IsCopy tcp_pi ctx
          × (d.node ≡ device)
          × (d.service ≡ []))
        (new_tcp_pi heap copy_of [] 64 24 rtu_context device [])
new_tcp-IsOutcome_example =
    new_tcp-IsOutcome heap copy_of (λ live. live) heap-IsAllocator copy_of-IsCopy [] 64 24
      rtu_context device device [] (pos 502)
