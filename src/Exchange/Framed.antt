-- ===== src/Exchange/Framed.antt =====
-- An answer of `modbus_reply` that `send_msg_pre` has framed.
use swift_lib_modbus.Prelude.{ℕ, ◌+◌, ◌<◌, ◌≤◌, ◌≡◌, sym, subst, ap, ◌∙◌, Option, some, ◌>>=◌}
use swift_lib_modbus.Context.{Backend}
use swift_lib_modbus.Backend.{header_length, checksum_length, send_msg_pre}
use swift_lib_modbus.Backend.Framing.{IsKept, send_msg_pre-IsFramed}
use swift_lib_modbus.Memory.{Buf}
use swift_lib_modbus.Server.Mapping.{Mapping}
use swift_lib_modbus.Server.Reply.{Reply, response}
use swift_lib_modbus.Exchange.{framed_reply}

module _ (backend : Backend) (result : Option Reply) (out : Buf) (n : ℕ) (mb : Mapping)
    (returns : result ≡ some (response out n mb)) where
  pub framed_answer :
      (frame : Buf) (m : ℕ)
      → result >>= framed_reply backend ≡ some (frame, m)
      → send_msg_pre backend out n ≡ some (frame, m)
  unfolding framed_reply
  framed_answer frame m framed =
      sym (ap (λ r. r >>= λ reply. framed_reply backend reply) returns) ∙ framed

  -- The frame is longer than the answer by the checksum, and keeps what the client looks at.
  pub record IsFrameOf (frame : Buf) (m : ℕ) : Type 0 where
    pub long : m ≡ n + checksum_length backend
    pub kept : (k : ℕ) → IsKept backend k → k < n → frame.cell k ≡ out.cell k

  pub answer-IsFrameOf :
      (frame : Buf) (m : ℕ)
      → n + checksum_length backend ≤ out.cap
      → header_length backend < n
      → send_msg_pre backend out n ≡ some (frame, m)
      → IsFrameOf frame m
  answer-IsFrameOf frame m room header framed =
      let f = send_msg_pre-IsFramed backend out n room header in
      let made : Option.some (f.frame, n + checksum_length backend) ≡ some (frame, m) =
        sym f.returns ∙ framed in
      let frame_is : f.frame ≡ frame = cc made in
      let length_is : n + checksum_length backend ≡ m = cc made in
      record {
        long = sym length_is;
        kept = λ k q p. subst (λ b. b.cell k ≡ out.cell k) frame_is (f.keeps k q p);
      }
