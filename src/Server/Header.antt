-- ===== src/Server/Header.antt =====
-- The header of a response, for each backend.
use swift_lib_modbus.Prelude.{ℕ, ◌+◌, ◌-◌, ◌/◌, ◌%◌, ◌<◌, ◌≤◌, ◌≡◌, refl, ◌∙◌, arith, Option, some}
use swift_lib_modbus.Memory.{Buf, write_mod, update, IsBytes}
use swift_lib_modbus.Context.{Backend, rtu, tcp, tcp_pi}
use swift_lib_modbus.Backend.{header_length, build_response_basis}
use swift_lib_modbus.Protocol.{Sft}
use swift_lib_modbus.Rtu
use swift_lib_modbus.Tcp

-- The transaction identifier of a header: the messages of a serial line have none.
abbrev pub HasTid : Backend → Sft → Buf → Type 0
HasTid rtu sft out = Unit
HasTid tcp sft out = (out.cell 0 ≡ sft.t_id / 256 % 256) × (out.cell 1 ≡ sft.t_id % 256 % 256)
HasTid tcp_pi sft out = (out.cell 0 ≡ sft.t_id / 256 % 256) × (out.cell 1 ≡ sft.t_id % 256 % 256)

-- It stands before the function code.
pub HasTid-same :
    (backend : Backend) (sft : Sft) (a b : Buf)
    → ((k : ℕ) → k < header_length backend → a.cell k ≡ b.cell k)
    → HasTid backend sft b
    → HasTid backend sft a
HasTid-same rtu sft a b same t = tt
HasTid-same tcp sft a b same t = (same 0 (omega arith) ∙ t.0, same 1 (omega arith) ∙ t.1)
HasTid-same tcp_pi sft a b same t = (same 0 (omega arith) ∙ t.0, same 1 (omega arith) ∙ t.1)

-- `result` is `rsp` with a header for the slave and the function, which ends behind the function
-- code, and with nothing changed behind it.
pub record IsHeader (backend : Backend) (sft : Sft) (rsp : Buf) (result : Option (Buf × ℕ))
    : Type 0 where
  pub out : Buf
  pub returns : result ≡ some (out, header_length backend + 1)
  pub same_cap : out.cap ≡ rsp.cap
  pub tid : HasTid backend sft out
  pub slave : out.cell (header_length backend - 1) ≡ sft.slave % 256
  pub function : out.cell (header_length backend) ≡ sft.function % 256
  pub outside : (k : ℕ) → header_length backend < k → out.cell k ≡ rsp.cell k
  pub small : IsBytes rsp → IsBytes out

abbrev rtu_header : Sft → Buf → Buf
rtu_header sft b = record b {
  cell = update (update b.cell 0 (sft.slave % 256)) 1 (sft.function % 256);
}

abbrev tcp_header : Sft → Buf → Buf
tcp_header sft b = record b {
  cell =
      update
        (update
          (update
            (update (update (update b.cell 0 (sft.t_id / 256 % 256)) 1 (sft.t_id % 256 % 256)) 2 0)
            3 0)
          6 (sft.slave % 256))
        7 (sft.function % 256);
}

tcp_basis :
    (sft : Sft) (rsp : Buf)
    → 8 ≤ rsp.cap
    → Tcp.build_response_basis sft rsp ≡ some (tcp_header sft rsp, 8)
unfolding Tcp.build_response_basis write_mod
tcp_basis sft rsp room = ground arith

tcp-IsHeader :
    (sft : Sft) (rsp : Buf) → 8 ≤ rsp.cap → IsHeader tcp sft rsp (Tcp.build_response_basis sft rsp)
tcp-IsHeader sft rsp room = record {
  out = tcp_header sft rsp;
  tid = (refl, refl);
  returns = tcp_basis sft rsp room;
  same_cap = refl;
  slave = refl;
  function = refl;
  outside = λ k h. ground arith;
  small = λ s k. ground (arith, s k);
}

pub build_response_basis-IsHeader :
    (backend : Backend) (sft : Sft) (rsp : Buf)
    → 8 ≤ rsp.cap
    → IsHeader backend sft rsp (build_response_basis backend sft rsp)
unfolding build_response_basis
build_response_basis-IsHeader rtu sft rsp room = record {
  out = rtu_header sft rsp;
  tid = tt;
  returns = unfold Rtu.build_response_basis write_mod in ground arith;
  same_cap = refl;
  slave = refl;
  function = refl;
  outside = λ k h. ground arith;
  small = λ s k. ground (arith, s k);
}
build_response_basis-IsHeader tcp sft rsp room = tcp-IsHeader sft rsp room
build_response_basis-IsHeader tcp_pi sft rsp room =
    let h = tcp-IsHeader sft rsp room in
    record {
      out = h.out;
      tid = h.tid;
      returns = h.returns;
      same_cap = h.same_cap;
      slave = h.slave;
      function = h.function;
      outside = h.outside;
      small = h.small;
    }
