-- ===== src/Client.antt =====
-- The requests of a client: `modbus_read_bits`, `modbus_read_registers`, `modbus_write_bits` and the
-- others of modbus.c.
pub mod Request
pub mod Bits
pub mod Read
pub mod Write
use swift_lib_modbus.Prelude.{
  ℕ, zero, suc, ◌+◌, ◌-◌, ◌*◌, ◌/◌, ◌%◌, ◌^◌, Bool, true, false, not, ◌&&◌, Option, none, some, ltb,
  ◌==◌, if◌then◌else◌, ◌>>=◌, bit_and, bit_or,
}
use swift_lib_modbus.Protocol.{
  Result, ok, err, embmdata, confirmation, fc_read_coils, fc_read_discrete_inputs,
  fc_read_holding_registers, fc_read_input_registers, fc_write_single_coil,
  fc_write_single_register, fc_write_multiple_coils, fc_write_multiple_registers,
  fc_report_slave_id, fc_write_and_read_registers, max_read_bits, max_read_registers,
  max_write_bits, max_write_registers, max_rw_write_registers,
}
use swift_lib_modbus.Context.{Ctx}
use swift_lib_modbus.Backend.{header_length, build_request_basis}
use swift_lib_modbus.Length.{word_or_at, byte_count}
use swift_lib_modbus.Data.{truth_of_bit}
use swift_lib_modbus.Memory.{Buf, read, write, write16}
use swift_lib_modbus.Link.{Link}
use swift_lib_modbus.Fuel.{Run, finished, and_then, lift}
use swift_lib_modbus.Receive.{receive_msg}
use swift_lib_modbus.Confirm.{check_confirmation}
use swift_lib_modbus.Values.{store_bits, store_registers, store_bytes, pack_bits, pack_registers}
use swift_lib_modbus.Send.{send_msg}

-- What a client knows after an exchange: the result so far, and whether the array holds a response
-- that was compared with the request.
pub record Exchanged {ℓ} (W : Type ℓ) : Type ℓ where
  pub result : Result ℕ
  pub is_checked : Bool
  pub rsp : Buf
  pub ctx : Ctx
  pub world : W

abbrev exchanged {ℓ} : {W : Type ℓ} → Result ℕ → Bool → Buf → Ctx → W → Run (Exchanged W)
exchanged result is_checked rsp ctx w =
    finished (record { result = result; is_checked = is_checked; rsp = rsp; ctx = ctx; world = w })

-- The requests with values; `req` is the functions' own array.
module _ (req : Buf) where
  -- The request of `modbus_write_bits`.
  unfoldable pub write_bits_request : Ctx → ℕ → ℕ → Buf → Option (Ctx × Buf × ℕ)
  unfolding pack_bits
  write_bits_request ctx addr nb src = do
    (ctx, req, req_length) ← build_request_basis ctx fc_write_multiple_coils addr nb req
    req ← write req req_length (byte_count nb)
    (req, req_length) ← pack_bits req (req_length + 1) 0 nb src 0 (byte_count nb)
    some (ctx, req, req_length)

  -- The request of `modbus_write_registers`.
  unfoldable pub write_registers_request : Ctx → ℕ → ℕ → Buf → Option (Ctx × Buf × ℕ)
  unfolding pack_registers
  write_registers_request ctx addr nb src = do
    (ctx, req, req_length) ← build_request_basis ctx fc_write_multiple_registers addr nb req
    req ← write req req_length (nb * 2)
    (req, req_length) ← pack_registers req (req_length + 1) src nb 0
    some (ctx, req, req_length)

  -- The request of `modbus_write_and_read_registers`.
  unfoldable pub write_and_read_request : Ctx → ℕ → ℕ → Buf → ℕ → ℕ → Option (Ctx × Buf × ℕ)
  unfolding pack_registers
  write_and_read_request ctx write_addr write_nb src read_addr read_nb = do
    (ctx, req, req_length) ←
        build_request_basis ctx fc_write_and_read_registers read_addr read_nb req
    req ← write req req_length (write_addr / 256)
    req ← write req (req_length + 1) (bit_and write_addr 0xff)
    req ← write req (req_length + 2) (write_nb / 256)
    req ← write req (req_length + 3) (bit_and write_nb 0xff)
    req ← write req (req_length + 4) (write_nb * 2)
    (req, req_length) ← pack_registers req (req_length + 5) src write_nb 0
    some (ctx, req, req_length)

-- `fuel` is for the loops of sending and receiving; `req` and `rsp` are the functions' own arrays.
module _ {ℓ} {W : Type ℓ} (link : Link W) (fuel : ℕ) (req rsp : Buf) where
  abbrev pub after_receive : Buf → Result ℕ × Buf × Ctx × W → Run (Exchanged W)
  after_receive sent (err e, msg, ctx, w) = exchanged (err e) false msg ctx w
  after_receive sent (ok rc, msg, ctx, w) =
      and_then (lift (check_confirmation link ctx sent msg rc w))
        (λ checked. exchanged checked.0 true msg ctx checked.1)

  abbrev pub after_send : Result ℕ × Buf × Ctx × W → Run (Exchanged W)
  after_send (err e, sent, ctx, w) = exchanged (err e) false rsp ctx w
  after_send (ok rc, sent, ctx, w) =
      if not (ltb 0 rc)
      then exchanged (ok rc) false rsp ctx w
      else and_then (receive_msg link fuel ctx rsp confirmation w) (after_receive sent)

  -- `send_msg`, and if something was sent `_modbus_receive_msg` and `check_confirmation`: what every
  -- request of a client does. The request is compared as `send_msg` left it.
  unfoldable pub exchange : Ctx → Buf → ℕ → W → Run (Exchanged W)
  exchange ctx msg req_length w = and_then (send_msg link fuel ctx msg req_length w) after_send

  -- The values of a response that was checked are stored in `dest`.
  abbrev pub store :
      (Buf → ℕ → Buf → Option Buf) → Buf → Exchanged W → Run (Result ℕ × Buf × Ctx × W)
  store values dest e = elim e.result as (λ _. Run (Result ℕ × Buf × Ctx × W)) [
    | err e' ↦ finished (err e', dest, e.ctx, e.world)
    | ok rc ↦
        if not e.is_checked
        then finished (ok rc, dest, e.ctx, e.world)
        else and_then (lift (values dest rc e.rsp))
            (λ dest'. finished (ok rc, dest', e.ctx, e.world))
  ]

  abbrev pub keep : Exchanged W → Run (Result ℕ × Ctx × W)
  keep e = finished (e.result, e.ctx, e.world)

  -- `read_io_status`.
  unfoldable pub read_io_status : Ctx → ℕ → ℕ → ℕ → Buf → W → Run (Result ℕ × Buf × Ctx × W)
  unfolding store_bits exchange
  read_io_status ctx function addr nb dest w =
      and_then (lift (build_request_basis ctx function addr nb req)) (λ built.
        and_then (exchange built.0 built.1 built.2 w)
          (store (λ dest rc rsp. store_bits dest 0 nb rsp rc (header_length ctx.backend + 2)) dest))

  -- `nb` is returned instead of the number of bytes.
  abbrev pub with_quantity : ℕ → Result ℕ × Buf × Ctx × W → Run (Result ℕ × Buf × Ctx × W)
  with_quantity nb (err e, dest, ctx, w) = finished (err e, dest, ctx, w)
  with_quantity nb (ok rc, dest, ctx, w) = finished (ok nb, dest, ctx, w)

  -- `modbus_read_bits`.
  unfoldable pub read_bits : Ctx → ℕ → ℕ → Buf → W → Run (Result ℕ × Buf × Ctx × W)
  unfolding read_io_status
  read_bits ctx addr nb dest w =
      if ltb max_read_bits nb
      then finished (err embmdata, dest, ctx, w)
      else and_then (read_io_status ctx fc_read_coils addr nb dest w) (with_quantity nb)

  -- `modbus_read_input_bits`.
  unfoldable pub read_input_bits : Ctx → ℕ → ℕ → Buf → W → Run (Result ℕ × Buf × Ctx × W)
  unfolding read_io_status
  read_input_bits ctx addr nb dest w =
      if ltb max_read_bits nb
      then finished (err embmdata, dest, ctx, w)
      else and_then (read_io_status ctx fc_read_discrete_inputs addr nb dest w) (with_quantity nb)

  -- `read_registers`.
  unfoldable pub read_registers_by : Ctx → ℕ → ℕ → ℕ → Buf → W → Run (Result ℕ × Buf × Ctx × W)
  unfolding store_registers exchange
  read_registers_by ctx function addr nb dest w =
      if ltb max_read_registers nb
      then finished (err embmdata, dest, ctx, w)
      else and_then (lift (build_request_basis ctx function addr nb req)) (λ built.
        and_then (exchange built.0 built.1 built.2 w) (
          store (λ dest rc rsp. store_registers dest rc 0 rsp (header_length ctx.backend + 2))
            dest))

  -- `modbus_read_registers`.
  unfoldable pub read_registers : Ctx → ℕ → ℕ → Buf → W → Run (Result ℕ × Buf × Ctx × W)
  unfolding read_registers_by
  read_registers ctx addr nb dest w =
      if ltb max_read_registers nb
      then finished (err embmdata, dest, ctx, w)
      else read_registers_by ctx fc_read_holding_registers addr nb dest w

  -- `modbus_read_input_registers`.
  unfoldable pub read_input_registers : Ctx → ℕ → ℕ → Buf → W → Run (Result ℕ × Buf × Ctx × W)
  unfolding read_registers_by
  read_input_registers ctx addr nb dest w =
      if ltb max_read_registers nb
      then finished (err embmdata, dest, ctx, w)
      else read_registers_by ctx fc_read_input_registers addr nb dest w

  -- `write_single`; `rsp` is its array of _MIN_REQ_LENGTH bytes.
  unfoldable pub write_single : Ctx → ℕ → ℕ → ℕ → W → Run (Result ℕ × Ctx × W)
  unfolding exchange
  write_single ctx function addr value w =
      and_then (lift (build_request_basis ctx function addr value req))
        (λ built. and_then (exchange built.0 built.1 built.2 w) keep)

  -- `modbus_write_bit`.
  unfoldable pub write_bit : Ctx → ℕ → ℕ → W → Run (Result ℕ × Ctx × W)
  unfolding write_single
  write_bit ctx addr status w =
      write_single ctx fc_write_single_coil addr (if not (status == 0) then 0xff00 else 0) w

  -- `modbus_write_register`.
  unfoldable pub write_register : Ctx → ℕ → ℕ → W → Run (Result ℕ × Ctx × W)
  unfolding write_single
  write_register ctx addr value w = write_single ctx fc_write_single_register addr value w

  -- `modbus_write_bits`.
  unfoldable pub write_bits : Ctx → ℕ → ℕ → Buf → W → Run (Result ℕ × Ctx × W)
  unfolding write_bits_request exchange
  write_bits ctx addr nb src w =
      if ltb max_write_bits nb
      then finished (err embmdata, ctx, w)
      else and_then (lift (write_bits_request req ctx addr nb src))
          (λ built. and_then (exchange built.0 built.1 built.2 w) keep)

  -- `modbus_write_registers`.
  unfoldable pub write_registers : Ctx → ℕ → ℕ → Buf → W → Run (Result ℕ × Ctx × W)
  unfolding write_registers_request exchange
  write_registers ctx addr nb src w =
      if ltb max_write_registers nb
      then finished (err embmdata, ctx, w)
      else and_then (lift (write_registers_request req ctx addr nb src))
          (λ built. and_then (exchange built.0 built.1 built.2 w) keep)

  -- `modbus_write_and_read_registers`.
  unfoldable pub write_and_read_registers :
      Ctx → ℕ → ℕ → Buf → ℕ → ℕ → Buf → W → Run (Result ℕ × Buf × Ctx × W)
  unfolding write_and_read_request exchange store_registers
  write_and_read_registers ctx write_addr write_nb src read_addr read_nb dest w =
      if ltb max_rw_write_registers write_nb
      then finished (err embmdata, dest, ctx, w)
      else if ltb max_read_registers read_nb
      then finished (err embmdata, dest, ctx, w)
      else and_then
          (lift (write_and_read_request req ctx write_addr write_nb src read_addr read_nb))
          (λ built. and_then (exchange built.0 built.1 built.2 w) (
            store (λ dest rc rsp. store_registers dest rc 0 rsp (header_length ctx.backend + 2))
              dest))

  -- `modbus_report_slave_id`: the request without its address and quantity.
  unfoldable pub report_slave_id : Ctx → Buf → W → Run (Result ℕ × Buf × Ctx × W)
  unfolding exchange store_bytes
  report_slave_id ctx dest w =
      and_then (lift (build_request_basis ctx fc_report_slave_id 0 0 req)) (λ built.
        and_then (exchange built.0 built.1 (built.2 - 4) w)
          (store (λ dest rc rsp. store_bytes dest rc 0 rsp (header_length ctx.backend + 2)) dest))
