-- ===== src/Net.antt =====
-- The system calls for sockets that modbus-tcp.c makes, as a record of operations on the state `W` of
-- the system. A failure carries `errno`.
pub mod Descriptors
pub mod Wait
pub mod Line
use swift_lib_modbus.Prelude.{ℕ, Bool, Option, List}
use swift_lib_modbus.Prelude.Int.{ℤ}
use swift_lib_modbus.Protocol.{Errno, Result, ok, err}
use swift_lib_modbus.Context.{Timeval}
use swift_lib_modbus.Memory.{Buf}

-- The options that are set, all of them to a value that switches them on.
pub data SocketOption : Type 0 where
  tcp_nodelay ip_lowdelay reuse_address : SocketOption

-- An address family, as far as the code asks.
pub data Family : Type 0 where
  inet other_family : Family

-- `struct addrinfo`, for addresses of the type `A`.
pub record AddrInfo (A : Type 0) : Type 0 where
  pub family : Family
  pub socket_type : ℕ
  pub protocol : ℕ
  pub address : A

-- `select_write` and `select_read` wait for one descriptor and return the number of those that are
-- ready; the latter also returns the time limit, to which the system may write what is left of it.
-- `so_error` is `getsockopt` of SO_ERROR. `recv` returns the bytes, none when the other side has
-- closed; its Boolean is MSG_DONTWAIT. The results of `close` and `shutdown` are
-- not used; `sleep` is the loop over `nanosleep`.
pub record Sockets {ℓ} (W : Type ℓ) (A : Type 0) : Type ℓ where
  pub socket : Family → ℕ → ℕ → W → Result ℕ × W
  pub setsockopt : ℤ → SocketOption → W → Result ℕ × W
  pub connect : ℤ → A → W → Result ℕ × W
  pub select_write : ℤ → Timeval → W → Result ℕ × W
  pub so_error : ℤ → W → Result ℕ × W
  pub bind : ℤ → A → W → Result ℕ × W
  pub listen : ℤ → ℕ → W → Result ℕ × W
  pub accept : ℤ → W → Result ℕ × W
  pub close : ℤ → W → W
  pub shutdown : ℤ → W → W
  pub send : ℤ → Buf → ℕ → W → Result ℕ × W
  pub recv : ℤ → ℕ → Bool → W → Result Buf × W
  pub select_read : ℤ → Option Timeval → W → Result ℕ × Option Timeval × W
  pub getaddrinfo : Option (List ℕ) → List ℕ → Bool → W → Result (List (AddrInfo A)) × W
  pub freeaddrinfo : List (AddrInfo A) → W → W
  pub sleep : Timeval → W → W

-- What to do after a call, by its result.
abbrev pub on {ℓ κ μ} :
    {A : Type ℓ} {W : Type κ} {B : Type μ} → Result A × W → (A → W → B) → (Errno → W → B) → B
on (ok a, w) f g = f a w
on (err e, w) f g = g e w
