-- ===== src/New.antt =====
-- `modbus_new_rtu` of modbus-rtu.c, `modbus_new_tcp` and `modbus_new_tcp_pi` of modbus-tcp.c, and
-- `modbus_free` of modbus.c, over the `malloc` and `free` of the system and over `strlcpy`. The
-- handler for SIGPIPE, which is installed on BSD, is left out.
pub mod Outcome
pub mod Contexts
use swift_lib_modbus.Prelude.{
  ℕ, Bool, true, false, Option, none, some, List, leb, ◌==◌, if◌then◌else◌,
}
use swift_lib_modbus.Prelude.Int.{ℤ, pos, to_u8}
use swift_lib_modbus.Protocol.{einval, Result, ok, err}
use swift_lib_modbus.Context.{Ctx, init_common, rtu, tcp, tcp_pi}
use swift_lib_modbus.Server.Allocation.{Allocator}
use swift_lib_modbus.Tcp.Connect.{TcpPi}
use swift_lib_modbus.Rtu.Settings.{Rtu, char_n, char_e, char_o}
use swift_lib_modbus.Rtu.Port.{rts_none, rs232}

-- `modbus_tcp_t`, without the transaction identifier.
pub record TcpData : Type 0 where
  pub ip : List ℕ
  pub port : ℤ

-- A context with the data `D` of its backend, and the two pointers.
pub record Created (D : Type 0) : Type 0 where
  pub ctx : Ctx
  pub backend_data : D
  pub p : ℕ
  pub p_data : ℕ

-- MODBUS_TCP_SLAVE.
abbrev pub tcp_slave : ℤ
tcp_slave = pos 0xff

-- _MODBUS_TCP_PI_NODE_LENGTH, _MODBUS_TCP_PI_SERVICE_LENGTH and the size of `ip`.
abbrev pub node_length : ℕ
node_length = 1025

abbrev pub service_length : ℕ
service_length = 32

abbrev pub ip_length : ℕ
ip_length = 16

-- The parities that are taken: 'N', 'E' and 'O'.
abbrev pub is_parity : ℕ → Bool
is_parity parity =
    if parity == char_n then true else if parity == char_e then true else parity == char_o

module _ {ℓ} {H : Type ℓ} (system : Allocator H) (strlcpy : ℕ → List ℕ → List ℕ × ℕ) where
  -- `modbus_free`, of a context that is not NULL.
  unfoldable pub modbus_free : H → ℕ → ℕ → H
  modbus_free h p p_data = system.free (system.free h p_data) p

  -- The copy of a text, if it is not empty and not truncated: `strlcpy` returns its length.
  unfoldable pub copy_text : ℕ → List ℕ → Option (List ℕ)
  copy_text dest_size text =
      let copied = strlcpy dest_size text in
      if copied.1 == 0 then none else if leb dest_size copied.1 then none else some copied.0

  abbrev pub allocated {κ} : {B : Type κ} → H × Option ℕ → (H → ℕ → Option B) → Option B
  allocated (h, none) next = none
  allocated (h, some p) next = next h p

  -- The two calls of `malloc`, whose results are used without a test: NULL is undefined behaviour.
  -- Then the fields are filled, or the context is released.
  abbrev pub filled : {D : Type 0} → H → ℕ → ℕ → Option (Ctx × D) → Option (H × Result (Created D))
  filled h p p_data none = some (modbus_free h p p_data, err einval)
  filled h p p_data (some (ctx, backend_data)) =
      some (h, ok (record { ctx = ctx; backend_data = backend_data; p = p; p_data = p_data }))

  abbrev pub create : {D : Type 0} → H → ℕ → ℕ → Option (Ctx × D) → Option (H × Result (Created D))
  create h size data_size fields =
      allocated (system.malloc h size)
        (λ h p. allocated (system.malloc h data_size) (λ h p_data. filled h p p_data fields))

  -- The fields that `modbus_new_rtu` fills, of a context and data that are not initialised; `device` has
  -- `device_size` characters.
  abbrev pub rtu_data : Ctx → Rtu → ℤ → ℕ → ℤ → ℤ → Option (List ℕ) → Option (Ctx × Rtu)
  rtu_data ctx port baud parity data_bit stop_bit none = none
  rtu_data ctx port baud parity data_bit stop_bit (some device) =
      if is_parity parity
      then some (
        record (init_common ctx) { backend = rtu; rts = rts_none; confirmation_to_ignore = false },
        record port {
          device = device;
          baud = baud;
          parity = parity;
          data_bit = to_u8 data_bit;
          stop_bit = to_u8 stop_bit;
          serial_mode = rs232;
        },
      )
      else none

  unfoldable pub rtu_fields : ℕ → Ctx → Rtu → List ℕ → ℤ → ℕ → ℤ → ℤ → Option (Ctx × Rtu)
  unfolding copy_text
  rtu_fields device_size ctx port device baud parity data_bit stop_bit =
      rtu_data ctx port baud parity data_bit stop_bit (copy_text device_size device)

  -- `modbus_new_rtu`, with the sizes of the structures and of `device`, and what the memory holds.
  unfoldable pub new_rtu :
      H → ℕ → ℕ → ℕ → Ctx → Rtu → List ℕ → ℤ → ℕ → ℤ → ℤ → Option (H × Result (Created Rtu))
  unfolding rtu_fields modbus_free
  new_rtu h size data_size device_size ctx port device baud parity data_bit stop_bit =
      create h size data_size (rtu_fields device_size ctx port device baud parity data_bit stop_bit)

  abbrev pub tcp_data : Ctx → ℤ → Option (List ℕ) → Option (Ctx × TcpData)
  tcp_data ctx port none = none
  tcp_data ctx port (some ip) = some (
    record (init_common ctx) { slave = tcp_slave; backend = tcp; t_id = 0 },
    record { ip = ip; port = port },
  )

  unfoldable pub tcp_fields : Ctx → List ℕ → ℤ → Option (Ctx × TcpData)
  unfolding copy_text
  tcp_fields ctx ip port = tcp_data ctx port (copy_text ip_length ip)

  -- `modbus_new_tcp`.
  unfoldable pub new_tcp : H → ℕ → ℕ → Ctx → List ℕ → ℤ → Option (H × Result (Created TcpData))
  unfolding tcp_fields modbus_free
  new_tcp h size data_size ctx ip port = create h size data_size (tcp_fields ctx ip port)

  abbrev pub tcp_pi_data : Ctx → Option (List ℕ) → Option (List ℕ) → Option (Ctx × TcpPi)
  tcp_pi_data ctx none service = none
  tcp_pi_data ctx (some node) none = none
  tcp_pi_data ctx (some node) (some service) = some (
    record (init_common ctx) { slave = tcp_slave; backend = tcp_pi; t_id = 0 },
    record { node = node; service = service },
  )

  unfoldable pub tcp_pi_fields : Ctx → List ℕ → List ℕ → Option (Ctx × TcpPi)
  unfolding copy_text
  tcp_pi_fields ctx node service =
      tcp_pi_data ctx (copy_text node_length node) (copy_text service_length service)

  -- `modbus_new_tcp_pi`.
  unfoldable pub new_tcp_pi :
      H → ℕ → ℕ → Ctx → List ℕ → List ℕ → Option (H × Result (Created TcpPi))
  unfolding tcp_pi_fields modbus_free
  new_tcp_pi h size data_size ctx node service =
      create h size data_size (tcp_pi_fields ctx node service)
