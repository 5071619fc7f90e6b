-- ===== src/New/Contexts.antt =====
-- The contexts that the constructors of New make.
use swift_lib_modbus.Prelude.{
  ℕ, ◌≡◌, refl, arith, ◌⊎◌, inl, inr, false, Bool-cases, Option, none, some, List,
}
use swift_lib_modbus.Prelude.Int.{ℤ, to_u8, minus_one}
use swift_lib_modbus.Context.{Ctx, Backend, rtu, tcp, tcp_pi, init_common}
use swift_lib_modbus.Server.Allocation.{Allocator, IsAllocator}
use swift_lib_modbus.Rtu.Settings.{Rtu, char_n, char_e, char_o}
use swift_lib_modbus.New.{
  ip_length, node_length, service_length, tcp_slave, is_parity, copy_text, rtu_data, rtu_fields,
  new_rtu, tcp_data, tcp_fields, new_tcp, tcp_pi_data, tcp_pi_fields, new_tcp_pi,
}
use swift_lib_modbus.New.Outcome.{
  IsCopy, Fits, Copied, copy_text-Copied, IsOutcome, IsDecided, create-IsOutcome,
}

module _ {ℓ} {H : Type ℓ} (system : Allocator H) (strlcpy : ℕ → List ℕ → List ℕ × ℕ)
    (live : H → List ℕ) (laws : IsAllocator system live) (is_copy : IsCopy strlcpy) where
  abbrev pub IsParity : ℕ → Type 0
  IsParity parity = (parity ≡ char_n) ⊎ ((parity ≡ char_e) ⊎ (parity ≡ char_o))

  -- A context of RTU that is not connected, with the settings that were given.
  pub record IsRtuContext (device : List ℕ) (baud : ℤ) (parity : ℕ) (data_bit stop_bit : ℤ)
      (ctx : Ctx) (port : Rtu) : Type 0 where
    pub backend : ctx.backend ≡ rtu
    pub no_slave : ctx.slave ≡ minus_one
    pub not_connected : ctx.s ≡ minus_one
    pub no_rts : ctx.rts ≡ 0
    pub ignores_nothing : ctx.confirmation_to_ignore ≡ false
    pub device_is : port.device ≡ device
    pub baud_is : port.baud ≡ baud
    pub parity_is : port.parity ≡ parity
    pub data_bit_is : port.data_bit ≡ to_u8 data_bit
    pub stop_bit_is : port.stop_bit ≡ to_u8 stop_bit

  abbrev pub GoodRtu : ℕ → List ℕ → ℕ → Type 0
  GoodRtu device_size device parity =
      Fits system strlcpy live laws is_copy device_size device × IsParity parity

  -- A context of TCP that is not connected.
  abbrev pub IsTcpContext : Backend → Ctx → Type 0
  IsTcpContext b ctx =
      (ctx.backend ≡ b) × (ctx.slave ≡ tcp_slave) × (ctx.s ≡ minus_one) × (ctx.t_id ≡ 0)

  module _ (h : H) (size data_size : ℕ) (ctx : Ctx) where
    rtu_data-IsDecided :
        (port : Rtu) (device_size : ℕ) (device : List ℕ) (baud : ℤ) (parity : ℕ)
        (data_bit stop_bit : ℤ) (copy : Option (List ℕ))
        → Copied system strlcpy live laws is_copy device_size device copy
        → IsDecided system strlcpy live laws is_copy h size data_size
            (GoodRtu device_size device parity)
            (IsRtuContext device baud parity data_bit stop_bit)
            (rtu_data system strlcpy ctx port baud parity data_bit stop_bit copy)
    unfolding init_common
    rtu_data-IsDecided port device_size device baud parity data_bit stop_bit none copied =
        λ good. copied good.0
    rtu_data-IsDecided port device_size device baud parity data_bit stop_bit (some copy) copied =
        elim (Bool-cases (is_parity parity)) [
          | inl e ↦ rw e (
            (copied.0, ground (arith, e)),
            record {
              backend = refl;
              no_slave = refl;
              not_connected = refl;
              no_rts = refl;
              ignores_nothing = refl;
              device_is = copied.1;
              baud_is = refl;
              parity_is = refl;
              data_bit_is = refl;
              stop_bit_is = refl;
            },
          )
          | inr e ↦ rw e (λ good. ground (arith, e, good.1))
        ]

    tcp_data-IsDecided :
        (ip : List ℕ) (tcp_port : ℤ) (copy : Option (List ℕ))
        → Copied system strlcpy live laws is_copy ip_length ip copy
        → IsDecided system strlcpy live laws is_copy h size data_size
            (Fits system strlcpy live laws is_copy ip_length ip)
            (λ ctx d. IsTcpContext tcp ctx × (d.ip ≡ ip) × (d.port ≡ tcp_port))
            (tcp_data system strlcpy ctx tcp_port copy)
    unfolding init_common
    tcp_data-IsDecided ip tcp_port none copied = copied
    tcp_data-IsDecided ip tcp_port (some copy) copied =
        (copied.0, ((refl, refl, refl, refl), copied.1, refl))

    tcp_pi_data-IsDecided :
        (node service : List ℕ) (node_copy service_copy : Option (List ℕ))
        → Copied system strlcpy live laws is_copy node_length node node_copy
        → Copied system strlcpy live laws is_copy service_length service service_copy
        → IsDecided system strlcpy live laws is_copy h size data_size
            (Fits system strlcpy live laws is_copy node_length node
              × Fits system strlcpy live laws is_copy service_length service)
            (λ ctx d. IsTcpContext tcp_pi ctx × (d.node ≡ node) × (d.service ≡ service))
            (tcp_pi_data system strlcpy ctx node_copy service_copy)
    unfolding init_common
    tcp_pi_data-IsDecided node service none service_copy a b = λ good. a good.0
    tcp_pi_data-IsDecided node service (some n) none a b = λ good. b good.1
    tcp_pi_data-IsDecided node service (some n) (some s) a b =
        ((a.0, b.0), ((refl, refl, refl, refl), a.1, b.1))

  module _ (h : H) (size data_size : ℕ) (ctx : Ctx) where
    -- `modbus_new_rtu`, if `malloc` does not fail, succeeds exactly for a device that is not empty and
    -- fits its array, and the parity 'N', 'E' or 'O': it returns a context of RTU with the settings
    -- given, and `modbus_free` releases all that it has allocated. In all other cases it fails with
    -- EINVAL and leaves nothing allocated.
    pub new_rtu-IsOutcome :
        (port : Rtu) (device_size : ℕ) (device : List ℕ) (baud : ℤ) (parity : ℕ)
        (data_bit stop_bit : ℤ)
        → IsOutcome system strlcpy live laws is_copy h size data_size
            (GoodRtu device_size device parity)
            (IsRtuContext device baud parity data_bit stop_bit)
            (new_rtu system strlcpy h size data_size device_size ctx port device baud parity
              data_bit stop_bit)
    unfolding new_rtu rtu_fields
    new_rtu-IsOutcome port device_size device baud parity data_bit stop_bit =
        create-IsOutcome system strlcpy live laws is_copy h size data_size
          (GoodRtu device_size device parity) (IsRtuContext device baud parity data_bit stop_bit)
          (rtu_fields system strlcpy device_size ctx port device baud parity data_bit stop_bit)
          (rtu_data-IsDecided h size data_size ctx port device_size device baud parity data_bit
            stop_bit (copy_text system strlcpy device_size device)
            (copy_text-Copied system strlcpy live laws is_copy device_size device))

    -- `modbus_new_tcp` and `modbus_new_tcp_pi`, if `malloc` does not fail, succeed exactly for texts that
    -- are not empty and fit their arrays: they return a context that is not connected, with the texts
    -- given, and `modbus_free` releases all that they have allocated. In all other cases they fail
    -- with EINVAL and leave nothing allocated.
    pub new_tcp-IsOutcome :
        (ip node service : List ℕ) (tcp_port : ℤ)
        → IsOutcome system strlcpy live laws is_copy h size data_size
            (Fits system strlcpy live laws is_copy ip_length ip)
            (λ ctx d. IsTcpContext tcp ctx × (d.ip ≡ ip) × (d.port ≡ tcp_port))
            (new_tcp system strlcpy h size data_size ctx ip tcp_port)
          × IsOutcome system strlcpy live laws is_copy h size data_size
              (Fits system strlcpy live laws is_copy node_length node
                × Fits system strlcpy live laws is_copy service_length service)
              (λ ctx d. IsTcpContext tcp_pi ctx × (d.node ≡ node) × (d.service ≡ service))
              (new_tcp_pi system strlcpy h size data_size ctx node service)
    unfolding new_tcp tcp_fields new_tcp_pi tcp_pi_fields
    new_tcp-IsOutcome ip node service tcp_port = (
      create-IsOutcome system strlcpy live laws is_copy h size data_size _ _
          (tcp_fields system strlcpy ctx ip tcp_port)
          (tcp_data-IsDecided h size data_size ctx ip tcp_port
            (copy_text system strlcpy ip_length ip)
            (copy_text-Copied system strlcpy live laws is_copy ip_length ip)),
      create-IsOutcome system strlcpy live laws is_copy h size data_size _ _
          (tcp_pi_fields system strlcpy ctx node service)
          (tcp_pi_data-IsDecided h size data_size ctx node service
            (copy_text system strlcpy node_length node)
            (copy_text system strlcpy service_length service)
            (copy_text-Copied system strlcpy live laws is_copy node_length node)
            (copy_text-Copied system strlcpy live laws is_copy service_length service)),
    )
