-- ===== src/Net/Descriptors.antt =====
-- The open descriptors of the process, the last one first, and what the system calls do to them.
use swift_lib_modbus.Prelude.{
  ℕ, ◌≡◌, refl, ap, ◌∙◌, Bool, true, false, Option, List, [], ◌∷◌, ◌==◌, ==_refl, if◌then◌else◌,
}
use swift_lib_modbus.Prelude.Int.{ℤ, pos, negsuc}
use swift_lib_modbus.Protocol.{Errno, Result, ok, err}
use swift_lib_modbus.Context.{Timeval}
use swift_lib_modbus.Net.{Sockets, SocketOption, Family, AddrInfo, on}

abbrev pub same_fd : ℤ → ℤ → Bool
same_fd (pos a) (pos b) = a == b
same_fd (negsuc a) (negsuc b) = a == b
same_fd s t = false

pub same_fd_refl : (s : ℤ) → same_fd s s ≡ true
same_fd_refl (pos a) = ==_refl a
same_fd_refl (negsuc a) = ==_refl a

abbrev pub has : ℤ → List ℤ → Bool
has s [] = false
has s (t ∷ l) = if same_fd s t then true else has s l

-- The list without the first of its elements that is `s`.
abbrev pub without : ℤ → List ℤ → List ℤ
without s [] = []
without s (t ∷ l) = if same_fd s t then l else t ∷ without s l

pub without-head : (s : ℤ) (l : List ℤ) → without s (s ∷ l) ≡ l
without-head s l = rw (same_fd_refl s) refl

-- A condition on the result of a call, for each of its two kinds.
abbrev pub Both {ℓ κ μ} :
    {A : Type ℓ} {W : Type κ} → (A → W → Type μ) → (Errno → W → Type μ) → Result A × W → Type μ
Both P Q (ok a, w) = P a w
Both P Q (err e, w) = Q e w

-- What follows a call has a property, if it has it after each result that the call may have.
pub on_rule {ℓ κ μ ν ξ} :
    {A : Type ℓ} {W : Type κ} {B : Type μ} (P : A → W → Type ν) (Q : Errno → W → Type ν)
    (R : B → Type ξ) (f : A → W → B) (g : Errno → W → B) (r : Result A × W)
    → Both P Q r
    → ((a : A) (w : W) → P a w → R (f a w))
    → ((e : Errno) (w : W) → Q e w → R (g e w))
    → R (on r f g)
on_rule P Q R f g (ok a, w) h k l = k a w h
on_rule P Q R f g (err e, w) h k l = l e w h

module _ {ℓ} {W : Type ℓ} (fds : W → List ℤ) (before : List ℤ) where
  -- A call leaves the open descriptors alone.
  abbrev pub Keeps {κ} : {A : Type κ} → Result A × W → Type 0
  Keeps r = fds r.1 ≡ before

  -- A call opens the descriptor that it returns, or none if it fails.
  abbrev pub Opens : Result ℕ × W → Type 0
  Opens r = Both (λ fd w'. fds w' ≡ pos fd ∷ before) (λ e w'. fds w' ≡ before) r

-- What the system is documented to do: `socket` and `accept` open a descriptor, `close` closes the
-- one it is given, and the other calls do neither.
pub record IsSystem {ℓ} {W : Type ℓ} {A : Type 0} (sys : Sockets W A) (fds : W → List ℤ)
    : Type ℓ where
  pub socket_opens : (f : Family) (t p : ℕ) (w : W) → Opens fds (fds w) (sys.socket f t p w)
  pub accept_opens : (s : ℤ) (w : W) → Opens fds (fds w) (sys.accept s w)
  pub close_closes : (s : ℤ) (w : W) → fds (sys.close s w) ≡ without s (fds w)
  pub shutdown_keeps : (s : ℤ) (w : W) → fds (sys.shutdown s w) ≡ fds w
  pub setsockopt_keeps :
      (s : ℤ) (o : SocketOption) (w : W) → Keeps fds (fds w) (sys.setsockopt s o w)
  pub connect_keeps : (s : ℤ) (a : A) (w : W) → Keeps fds (fds w) (sys.connect s a w)
  pub select_write_keeps :
      (s : ℤ) (t : Timeval) (w : W) → Keeps fds (fds w) (sys.select_write s t w)
  pub so_error_keeps : (s : ℤ) (w : W) → Keeps fds (fds w) (sys.so_error s w)
  pub bind_keeps : (s : ℤ) (a : A) (w : W) → Keeps fds (fds w) (sys.bind s a w)
  pub listen_keeps : (s : ℤ) (n : ℕ) (w : W) → Keeps fds (fds w) (sys.listen s n w)
  pub getaddrinfo_keeps :
      (node : Option (List ℕ)) (service : List ℕ) (passive : Bool) (w : W)
      → Keeps fds (fds w) (sys.getaddrinfo node service passive w)
  pub freeaddrinfo_keeps : (l : List (AddrInfo A)) (w : W) → fds (sys.freeaddrinfo l w) ≡ fds w

-- The descriptor that was opened last is closed.
pub close-last {ℓ} :
    {W : Type ℓ} {A : Type 0} {sys : Sockets W A} {fds : W → List ℤ} (laws : IsSystem sys fds)
    (s : ℤ) (w : W) (rest : List ℤ)
    → fds w ≡ s ∷ rest
    → fds (sys.close s w) ≡ rest
close-last laws s w rest e = laws.close_closes s w ∙ ap (without s) e ∙ without-head s rest
