-- ===== src/Tcp/Stream/Line.antt =====
-- The TCP backends of a system as lines of the protocol, and that they are streams.
use swift_lib_modbus.Prelude.{ℕ, suc, refl, arith, false}
use swift_lib_modbus.Prelude.Int.{ℤ}
use swift_lib_modbus.Protocol.{Result}
use swift_lib_modbus.Context.{Ctx}
use swift_lib_modbus.Fuel.{result_of, finished-IsDone}
use swift_lib_modbus.Net.{Sockets}
use swift_lib_modbus.Net.Wait.{Interrupts}
use swift_lib_modbus.Net.Line.{select_result, IsConnected, connected-IsStream}
use swift_lib_modbus.Link.{Link}
use swift_lib_modbus.Link.Stream.{IsStream}
use swift_lib_modbus.Tcp.Connect.{TcpPi, tcp_connect, tcp_pi_connect, tcp_close}
use swift_lib_modbus.Tcp.Stream.{tcp_recv, tcp_send, tcp_flush}
use swift_lib_modbus.Tcp.Stream.Flush.{IsNonblocking, tcp_flush-IsEmptied}

module _ {ℓ} {W : Type ℓ} {A : Type 0} (sys : Sockets W A) (signals waiting : W → ℕ)
    (fewer : Interrupts sys.select_read signals) (nonblocking : IsNonblocking sys waiting) where
  -- The result of `_modbus_tcp_flush`.
  unfoldable pub flush_result : Ctx → W → Result ℕ × W
  flush_result ctx w =
      let emptied =
        tcp_flush-IsEmptied sys waiting (suc (waiting w)) ctx w nonblocking (omega arith) in
      result_of (tcp_flush sys (suc (waiting w)) ctx w)
        (finished-IsDone (tcp_flush sys (suc (waiting w)) ctx w) _ emptied.returns)

  abbrev line_by : (Ctx → W → Result ℕ × Ctx × W) → Link W
  line_by connect = record {
    select = λ ctx tv length_to_read w. select_result sys.select_read signals fewer ctx.s tv w;
    recv = λ ctx n w. tcp_recv sys ctx n w;
    send = λ ctx req n w. tcp_send sys ctx req n w;
    flush = λ ctx w. flush_result ctx w;
    close = λ ctx w. tcp_close sys ctx w;
    connect = connect;
    sleep = λ t w. sys.sleep t w;
  }

  -- `_modbus_tcp_backend` for the address `addr`. Its loops have fuel for all signals and all bytes
  -- that wait.
  unfoldable pub tcp_line : A → Link W
  unfolding flush_result
  tcp_line addr = line_by (λ ctx w. tcp_connect sys addr ctx w)

  -- `_modbus_tcp_pi_backend`.
  unfoldable pub tcp_pi_line : TcpPi → Link W
  unfolding flush_result
  tcp_pi_line to = line_by (λ ctx w. tcp_pi_connect sys to ctx w)

  module _ (place : W → ℕ) (stream : ℕ → ℕ) (s : ℤ) (stop : ℕ) where
    abbrev pub IsSocketConnected : Type ℓ
    IsSocketConnected =
        IsConnected sys.select_read signals fewer (λ s n w. sys.recv s n false w) place stream s
          stop

    -- Over a connected socket both TCP backends are streams for the code of modbus.c, whatever signals
    -- interrupt their calls of `select`.
    pub tcp_line-IsStream :
        (addr : A) (to : TcpPi)
        → IsSocketConnected
        → IsStream (tcp_line addr) place stream s stop
          × IsStream (tcp_pi_line to) place stream s stop
    unfolding tcp_line tcp_pi_line tcp_recv
    tcp_line-IsStream addr to connected = (
      connected-IsStream sys.select_read signals fewer (λ s n w. sys.recv s n false w) place stream
          s stop (tcp_line addr)
          (record { select_is = λ ctx tv n w. refl; recv_is = λ ctx n w. refl }) connected,
      connected-IsStream sys.select_read signals fewer (λ s n w. sys.recv s n false w) place stream
          s stop (tcp_pi_line to)
          (record { select_is = λ ctx tv n w. refl; recv_is = λ ctx n w. refl }) connected,
    )
