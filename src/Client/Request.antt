-- ===== src/Client/Request.antt =====
-- The request that `build_request_basis` makes, for each backend.
use swift_lib_modbus.Prelude.{ℕ, ◌+◌, ◌-◌, ◌/◌, ◌%◌, ◌<◌, ◌≤◌, ◌≡◌, refl, arith, Option, some}
use swift_lib_modbus.Prelude.Int.{pos}
use swift_lib_modbus.Context.{Ctx, Backend, rtu, tcp, tcp_pi}
use swift_lib_modbus.Backend.{header_length, basis}
use swift_lib_modbus.Memory.{Buf, write_mod, update, IsBytes}
use swift_lib_modbus.Server.Loops.{word_cells}
use swift_lib_modbus.Rtu.{has_slave}
use swift_lib_modbus.Rtu
use swift_lib_modbus.Tcp

-- `result` is a request for the function with the address and the quantity, by a context that is
-- `ctx` but for the transaction identifier.
pub record IsBuilt (backend : Backend) (ctx : Ctx) (slave function addr nb : ℕ) (req : Buf)
    (result : Option (Ctx × Buf × ℕ)) : Type 0 where
  pub t_id : ℕ
  pub out : Buf
  pub returns : result ≡ some (record ctx { t_id = t_id }, out, header_length backend + 5)
  pub same_cap : out.cap ≡ req.cap
  pub slave_cell : out.cell (header_length backend - 1) ≡ slave
  pub function_cell : out.cell (header_length backend) ≡ function
  pub address : word_cells out (header_length backend + 1) ≡ addr
  pub quantity : word_cells out (header_length backend + 3) ≡ nb
  pub bytes : IsBytes req → IsBytes out

module _ (ctx : Ctx) (slave function addr nb : ℕ) (req : Buf) (is_slave : ctx.slave ≡ pos slave)
    (slave_small : slave < 256) (function_small : function < 256) (addr_small : addr < 65536)
    (nb_small : nb < 65536) (room : 12 ≤ req.cap) where
  abbrev rtu_request : Buf
  rtu_request = record req {
    cell =
        update
          (update
            (update (update (update (update req.cell 0 slave) 1 function) 2 (addr / 256)) 3
              (addr % 256))
            4 (nb / 256))
          5 (nb % 256);
  }

  rtu-IsBuilt : IsBuilt rtu ctx slave function addr nb req (basis rtu ctx function addr nb req)
  unfolding Rtu.build_request_basis has_slave write_mod
  rtu-IsBuilt = record {
    t_id = ctx.t_id;
    out = rtu_request;
    returns = rw is_slave (ground (arith, slave_small, function_small, addr_small, nb_small, room));
    same_cap = refl;
    slave_cell = refl;
    function_cell = refl;
    address = omega arith;
    quantity = omega arith;
    bytes = λ small k. ground (arith, small k, slave_small, function_small, addr_small, nb_small);
  }

  abbrev tcp_request : Buf
  tcp_request =
      let t_id = Tcp.next_t_id ctx.t_id in
      record req {
        cell =
            update
              (update
                (update
                  (update
                    (update
                      (update
                        (update
                          (update
                            (update (update req.cell 0 (t_id / 256 % 256)) 1 (t_id % 256 % 256)) 2
                            0)
                          3 0)
                        6 slave)
                      7 function)
                    8 (addr / 256))
                  9 (addr % 256))
                10 (nb / 256))
              11 (nb % 256);
      }

  tcp-returns :
      Tcp.build_request_basis ctx function addr nb req
      ≡ some (record ctx { t_id = Tcp.next_t_id ctx.t_id }, tcp_request, 12)
  unfolding Tcp.build_request_basis write_mod
  tcp-returns =
      rw is_slave (ground (arith, slave_small, function_small, addr_small, nb_small, room))

  tcp-bytes : IsBytes req → IsBytes tcp_request
  tcp-bytes small k = ground (arith, small k, slave_small, function_small, addr_small, nb_small)

  -- `build_request_basis` makes the request, if the slave is set and the values fit their fields.
  pub build_request_basis-IsBuilt :
      (backend : Backend)
      → IsBuilt backend ctx slave function addr nb req (basis backend ctx function addr nb req)
  build_request_basis-IsBuilt rtu = rtu-IsBuilt
  build_request_basis-IsBuilt tcp = record {
    t_id = Tcp.next_t_id ctx.t_id;
    out = tcp_request;
    returns = tcp-returns;
    same_cap = refl;
    slave_cell = refl;
    function_cell = refl;
    address = omega arith;
    quantity = omega arith;
    bytes = tcp-bytes;
  }
  build_request_basis-IsBuilt tcp_pi = record {
    t_id = Tcp.next_t_id ctx.t_id;
    out = tcp_request;
    returns = tcp-returns;
    same_cap = refl;
    slave_cell = refl;
    function_cell = refl;
    address = omega arith;
    quantity = omega arith;
    bytes = tcp-bytes;
  }
