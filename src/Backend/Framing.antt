-- ===== src/Backend/Framing.antt =====
-- What `send_msg_pre` of each backend does to a message, and what it leaves.
use swift_lib_modbus.Prelude.{
  ℕ, ◌+◌, ◌-◌, ◌/◌, ◌%◌, ◌^◌, ◌<◌, ◌≤◌, ◌≡◌, refl, ◌⊎◌, inr, arith, Option, some,
}
use swift_lib_modbus.Context.{Backend, rtu, tcp, tcp_pi}
use swift_lib_modbus.Backend.{header_length, checksum_length, send_msg_pre}
use swift_lib_modbus.Memory.{Buf, write_mod, update, IsBytes}
use swift_lib_modbus.Tcp
use swift_lib_modbus.Rtu.Frame.{with_crc, send_msg_pre-with_crc, with_crc-IsBytes}

-- The bytes of a message that `send_msg_pre` leaves alone: all but the length of the MBAP header.
abbrev pub IsKept : Backend → ℕ → Type 0
IsKept rtu k = Unit
IsKept tcp k = (k < 4) ⊎ (6 ≤ k)
IsKept tcp_pi k = (k < 4) ⊎ (6 ≤ k)

pub function-IsKept : (backend : Backend) (k : ℕ) → header_length backend ≤ k + 1 → IsKept backend k
function-IsKept rtu k h = tt
function-IsKept tcp k h = inr (omega arith)
function-IsKept tcp_pi k h = inr (omega arith)

-- `result` is a frame of the message: longer by the checksum, and otherwise as it was but
-- for the length.
pub record IsFramed (backend : Backend) (sent : Buf) (n : ℕ) (result : Option (Buf × ℕ))
    : Type 0 where
  pub frame : Buf
  pub returns : result ≡ some (frame, n + checksum_length backend)
  pub keeps : (k : ℕ) → IsKept backend k → k < n → frame.cell k ≡ sent.cell k
  pub bytes : IsBytes sent → IsBytes frame
  pub same_cap : frame.cap ≡ sent.cap

abbrev with_length : Buf → ℕ → Buf
with_length b n =
    let mbap_length = (n + 2 ^ 32 - 6) % 2 ^ 32 in
    record b {
      cell = update (update b.cell 4 (mbap_length / 256 % 256)) 5 (mbap_length % 256 % 256);
    }

tcp-IsFramed :
    (sent : Buf) (n : ℕ) → n ≤ sent.cap → 6 ≤ n → IsFramed tcp sent n (Tcp.send_msg_pre sent n)
tcp-IsFramed sent n room header = record {
  frame = with_length sent n;
  returns = unfold Tcp.send_msg_pre write_mod in ground arith;
  keeps = λ k h h'. ground arith;
  bytes = λ small k. ground (arith, small k);
  same_cap = refl;
}

-- Any message with its header, in an array with room for the checksum, is framed.
pub send_msg_pre-IsFramed :
    (backend : Backend) (sent : Buf) (n : ℕ)
    → n + checksum_length backend ≤ sent.cap
    → header_length backend < n
    → IsFramed backend sent n (send_msg_pre backend sent n)
unfolding send_msg_pre
send_msg_pre-IsFramed rtu sent n room header = record {
  frame = with_crc sent n;
  returns = send_msg_pre-with_crc sent n room;
  keeps = λ k h h'. ground arith;
  bytes = with_crc-IsBytes sent n;
  same_cap = refl;
}
send_msg_pre-IsFramed tcp sent n room header =
    tcp-IsFramed sent n (omega (arith, room)) (omega arith)
send_msg_pre-IsFramed tcp_pi sent n room header =
    let r = tcp-IsFramed sent n (omega (arith, room)) (omega arith) in
    record {
      frame = r.frame;
      returns = r.returns;
      keeps = r.keeps;
      bytes = r.bytes;
      same_cap = r.same_cap;
    }
