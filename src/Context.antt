-- ===== src/Context.antt =====
-- `modbus_t`, the part of the backends' own data that the protocol uses, and the functions of
-- modbus.c that set and read the fields.
use swift_lib_modbus.Prelude.{ℕ, ◌%◌, Bool, false, not, bit_and, leb, ◌==◌, if◌then◌else◌}
use swift_lib_modbus.Prelude.Int.{ℤ, pos, negsuc, minus_one}
use swift_lib_modbus.Protocol.{einval, Result, ok, err}

-- The three tables of functions, `_modbus_rtu_backend`, `_modbus_tcp_backend` and
-- `_modbus_tcp_pi_backend`.
pub data Backend : Type 0 where
  rtu tcp tcp_pi : Backend

-- `struct timeval`.
pub record Timeval : Type 0 where
  pub tv_sec : ℤ
  pub tv_usec : ℤ

abbrev pub timeval : ℤ → ℤ → Timeval
timeval s u = record { tv_sec = s; tv_usec = u }

-- `t_id` stands for the field of `modbus_tcp_t` and `modbus_tcp_pi_t`, the last two fields for those
-- of `modbus_rtu_t`.
pub record Ctx : Type 0 where
  pub slave : ℤ
  pub s : ℤ
  pub debug : Bool
  pub error_recovery : ℕ
  pub response_timeout : Timeval
  pub byte_timeout : Timeval
  pub backend : Backend
  pub t_id : ℕ
  pub rts : ℕ
  pub confirmation_to_ignore : Bool

-- The flags of `error_recovery`.
abbrev pub error_recovery_link : ℕ
error_recovery_link = 2

abbrev pub error_recovery_protocol : ℕ
error_recovery_protocol = 4

unfoldable pub recovers_link : Ctx → Bool
recovers_link ctx = not (bit_and ctx.error_recovery error_recovery_link == 0)

unfoldable pub recovers_protocol : Ctx → Bool
recovers_protocol ctx = not (bit_and ctx.error_recovery error_recovery_protocol == 0)

-- `_modbus_init_common`; the other fields are left as they are.
unfoldable pub init_common : Ctx → Ctx
init_common ctx = record ctx {
  slave = minus_one;
  s = minus_one;
  debug = false;
  error_recovery = 0;
  response_timeout = timeval (pos 0) (pos 500000);
  byte_timeout = timeval (pos 0) (pos 500000);
}

-- The slaves that `_modbus_set_slave` of modbus-rtu.c takes: 0 to 247.
unfoldable pub rtu_takes_slave : ℤ → Bool
rtu_takes_slave (pos n) = leb n 247
rtu_takes_slave (negsuc n) = false

-- MODBUS_TCP_SLAVE.
unfoldable pub is_tcp_slave : ℤ → Bool
is_tcp_slave (pos n) = n == 0xff
is_tcp_slave (negsuc n) = false

-- `_modbus_set_slave` of modbus-rtu.c.
unfoldable pub rtu_set_slave : Ctx → ℤ → Result Ctx
unfolding rtu_takes_slave
rtu_set_slave ctx slave =
    if rtu_takes_slave slave then ok (record ctx { slave = slave }) else err einval

-- `_modbus_set_slave` of modbus-tcp.c, which also takes MODBUS_TCP_SLAVE.
unfoldable pub tcp_set_slave : Ctx → ℤ → Result Ctx
unfolding rtu_takes_slave is_tcp_slave
tcp_set_slave ctx slave =
    if rtu_takes_slave slave
    then ok (record ctx { slave = slave })
    else if is_tcp_slave slave
    then ok (record ctx { slave = slave })
    else err einval

abbrev dispatch_set_slave : Backend → Ctx → ℤ → Result Ctx
dispatch_set_slave rtu = rtu_set_slave
dispatch_set_slave tcp = tcp_set_slave
dispatch_set_slave tcp_pi = tcp_set_slave

-- `modbus_set_slave`.
unfoldable pub set_slave : Ctx → ℤ → Result Ctx
unfolding rtu_set_slave tcp_set_slave
set_slave ctx slave = dispatch_set_slave ctx.backend ctx slave

-- `modbus_set_error_recovery`; the mode is converted to `uint8_t`.
unfoldable pub set_error_recovery : Ctx → ℤ → Result Ctx
set_error_recovery ctx (pos n) = ok (record ctx { error_recovery = n % 256 })
set_error_recovery ctx (negsuc n) = err einval

-- `modbus_set_socket`.
unfoldable pub set_socket : Ctx → ℤ → Ctx
set_socket ctx socket = record ctx { s = socket }

-- `modbus_get_socket`.
unfoldable pub get_socket : Ctx → ℤ
get_socket ctx = ctx.s

-- `modbus_set_response_timeout`.
unfoldable pub set_response_timeout : Ctx → Timeval → Ctx
set_response_timeout ctx timeout = record ctx { response_timeout = timeout }

-- `modbus_get_response_timeout`.
unfoldable pub get_response_timeout : Ctx → Timeval
get_response_timeout ctx = ctx.response_timeout

-- `modbus_set_byte_timeout`.
unfoldable pub set_byte_timeout : Ctx → Timeval → Ctx
set_byte_timeout ctx timeout = record ctx { byte_timeout = timeout }

-- `modbus_get_byte_timeout`.
unfoldable pub get_byte_timeout : Ctx → Timeval
get_byte_timeout ctx = ctx.byte_timeout

-- `modbus_set_debug`.
unfoldable pub set_debug : Ctx → Bool → Ctx
set_debug ctx boolean = record ctx { debug = boolean }
