-- ===== src/Rtu/Port/Line.antt =====
-- The RTU backend of a system as a line of the protocol, and that it is a stream. The world is that of
-- the system and the data of the backend, which `_modbus_rtu_connect` changes.
use swift_lib_modbus.Prelude.{ℕ, refl, ap, Option}
use swift_lib_modbus.Prelude.Int.{ℤ}
use swift_lib_modbus.Protocol.{Result}
use swift_lib_modbus.Context.{Ctx, Timeval}
use swift_lib_modbus.Memory.{Buf}
use swift_lib_modbus.Net.Wait.{Interrupts}
use swift_lib_modbus.Net.Line.{select_result, IsConnected, connected-IsStream}
use swift_lib_modbus.Link.{Link}
use swift_lib_modbus.Link.Stream.{IsStream}
use swift_lib_modbus.Serial.{Serial}
use swift_lib_modbus.Rtu.Settings.{Rtu}
use swift_lib_modbus.Rtu.Port.{rtu_connect, rtu_close, rtu_flush, rtu_recv, rtu_send}

pub record PortWorld {ℓ} (W : Type ℓ) : Type ℓ where
  pub port : Rtu
  pub world : W

-- A call that leaves the data of the backend alone.
abbrev beside {ℓ κ} : {W : Type ℓ} {A : Type κ} → Rtu → A × W → A × PortWorld W
beside port r = (r.0, record { port = port; world = r.1 })

module _ {ℓ} {W : Type ℓ} (sys : Serial W) (signals : W → ℕ)
    (fewer : Interrupts sys.select_read signals) where
  abbrev pub port_select :
      ℤ → Option Timeval → PortWorld W → Result ℕ × Option Timeval × PortWorld W
  port_select s tv w =
      let r = sys.select_read s tv w.world in (r.0, r.1, record { port = w.port; world = r.2 })

  abbrev pub port_read : ℤ → ℕ → PortWorld W → Result Buf × PortWorld W
  port_read s n w = beside w.port (sys.read s n w.world)

  pub port_select-Interrupts : Interrupts port_select (λ w. signals w.world)
  port_select-Interrupts s tv tv' w w' e =
      fewer s tv tv' w.world w'.world (ap (λ r. (r.0, r.1, r.2.world)) e)

  abbrev connect_port : Ctx → PortWorld W → Result ℕ × Ctx × PortWorld W
  connect_port ctx w =
      let r = rtu_connect sys ctx w.port w.world in (r.0, r.1, record { port = r.2; world = r.3 })

  -- `_modbus_rtu_backend`. Its loop has fuel for all signals.
  unfoldable pub rtu_line : Link (PortWorld W)
  rtu_line = record {
    select = λ ctx tv length_to_read w.
        select_result port_select (λ w. signals w.world) port_select-Interrupts ctx.s tv w;
    recv = λ ctx n w. beside w.port (rtu_recv sys ctx n w.world);
    send = λ ctx req n w. beside w.port (rtu_send sys ctx req n w.world);
    flush = λ ctx w. beside w.port (rtu_flush sys ctx w.world);
    close = λ ctx w. record w { world = rtu_close sys ctx w.port w.world };
    connect = λ ctx w. connect_port ctx w;
    sleep = λ t w. record w { world = sys.sleep t w.world };
  }

  module _ (place : W → ℕ) (stream : ℕ → ℕ) (s : ℤ) (stop : ℕ) where
    abbrev pub IsPortConnected : Type ℓ
    IsPortConnected =
        IsConnected port_select (λ w. signals w.world) port_select-Interrupts port_read
          (λ w. place w.world) stream s stop

    -- Over an open port the RTU backend is a stream for the code of modbus.c, whatever signals
    -- interrupt its calls of `select`.
    pub rtu_line-IsStream : IsPortConnected → IsStream rtu_line (λ w. place w.world) stream s stop
    unfolding rtu_line rtu_recv
    rtu_line-IsStream connected =
        connected-IsStream port_select (λ w. signals w.world) port_select-Interrupts port_read
          (λ w. place w.world) stream s stop rtu_line
          (record { select_is = λ ctx tv n w. refl; recv_is = λ ctx n w. refl }) connected
