-- ===== src/Server/Serve.antt =====
-- `modbus_reply` and `modbus_reply_exception` of modbus.c as a whole: the response is built and sent.
use swift_lib_modbus.Prelude.{ℕ, Option, none, some}
use swift_lib_modbus.Protocol.{einval, enoprotoopt, Result, err}
use swift_lib_modbus.Context.{Ctx}
use swift_lib_modbus.Memory.{Buf}
use swift_lib_modbus.Link.{Link}
use swift_lib_modbus.Fuel.{Run, out_of_fuel, undefined, finished, and_then, lift}
use swift_lib_modbus.Send.{send_msg}
use swift_lib_modbus.Server.Mapping.{Mapping, IsMapping}
use swift_lib_modbus.Server.Reply.{
  Reply, response, not_implemented, reply_message, reply_exception_message,
}
use swift_lib_modbus.Prelude.Defined.{Holds}
use swift_lib_modbus.Server.Reply.Invariant.{
  IsPreserved, Preserves, reply_message-Preserves, unchanged,
}

-- The result, the tables, the array of the response, the context and the world.
pub record Replied {ℓ} (W : Type ℓ) : Type ℓ where
  pub result : Result ℕ
  pub mb_mapping : Mapping
  pub rsp : Buf
  pub ctx : Ctx
  pub world : W

module _ {ℓ} {W : Type ℓ} (link : Link W) (fuel : ℕ) where
  abbrev pub send_reply : Ctx → Mapping → Buf → W → Reply → Run (Replied W)
  send_reply ctx mb_mapping rsp w not_implemented = finished (record {
    result = err enoprotoopt;
    mb_mapping = mb_mapping;
    rsp = rsp;
    ctx = ctx;
    world = w;
  })
  send_reply ctx mb_mapping rsp w (response rsp' rsp_length mb_mapping') =
      and_then (send_msg link fuel ctx rsp' rsp_length w) (λ sent. finished (record {
        result = sent.0;
        mb_mapping = mb_mapping';
        rsp = sent.1;
        ctx = sent.2;
        world = sent.3;
      }))

  -- `modbus_reply(ctx, req, req_length, mb_mapping)`, with its array `rsp`.
  unfoldable pub modbus_reply : Ctx → Buf → ℕ → Mapping → Buf → W → Run (Replied W)
  unfolding reply_message send_msg
  modbus_reply ctx req req_length mb_mapping rsp w =
      and_then (lift (reply_message ctx.backend req req_length mb_mapping rsp))
        (send_reply ctx mb_mapping rsp w)

  abbrev send_exception : Ctx → Buf → W → Option (Buf × ℕ) → Run (Result ℕ × Buf × Ctx × W)
  send_exception ctx rsp w none = finished (err einval, rsp, ctx, w)
  send_exception ctx rsp w (some (rsp', rsp_length)) = send_msg link fuel ctx rsp' rsp_length w

  -- `modbus_reply_exception(ctx, req, exception_code)`.
  unfoldable pub modbus_reply_exception : Ctx → Buf → ℕ → Buf → W → Run (Result ℕ × Buf × Ctx × W)
  unfolding reply_exception_message send_msg
  modbus_reply_exception ctx req exception_code rsp w =
      and_then (lift (reply_exception_message ctx.backend req exception_code rsp))
        (send_exception ctx rsp w)

  -- The tables of a server that has replied.
  abbrev pub IsServed : Mapping → Run (Replied W) → Type 0
  IsServed mb out_of_fuel = Unit
  IsServed mb undefined = Unit
  IsServed mb (finished r) = IsPreserved mb r.mb_mapping

  sent-IsServed :
      (ctx : Ctx) (mb : Mapping) (rsp : Buf) (w : W) (reply : Reply)
      → IsMapping mb
      → Preserves mb reply
      → IsServed mb (send_reply ctx mb rsp w reply)
  sent-IsServed ctx mb rsp w not_implemented is kept = unchanged mb is
  sent-IsServed ctx mb rsp w (response rsp' n mb') is kept =
      served (send_msg link fuel ctx rsp' n w)
    where
      served :
          (run : Run (Result ℕ × Buf × Ctx × W))
          → IsServed mb (
              and_then run (λ sent. finished (record {
                result = sent.0;
                mb_mapping = mb';
                rsp = sent.1;
                ctx = sent.2;
                world = sent.3;
              })))
      served out_of_fuel = tt
      served undefined = tt
      served (finished sent) = kept

  -- Whatever the request is, and whether the response is sent or not, `modbus_reply` leaves tables that
  -- are well formed and as large as they were, and changes neither the discrete inputs nor the input
  -- registers, if it returns.
  pub modbus_reply-IsServed :
      (ctx : Ctx) (req : Buf) (req_length : ℕ) (mb_mapping : Mapping) (rsp : Buf) (w : W)
      → IsMapping mb_mapping
      → IsServed mb_mapping (modbus_reply ctx req req_length mb_mapping rsp w)
  unfolding modbus_reply
  modbus_reply-IsServed ctx req req_length mb_mapping rsp w is =
      built (reply_message ctx.backend req req_length mb_mapping rsp)
        ((reply_message-Preserves ctx.backend req req_length mb_mapping rsp is).holds)
    where
      built :
          (reply : Option Reply)
          → Holds (Preserves mb_mapping) reply
          → IsServed mb_mapping (and_then (lift reply) (send_reply ctx mb_mapping rsp w))
      built none kept = tt
      built (some reply) kept = sent-IsServed ctx mb_mapping rsp w reply is kept
