-- ===== src/Confirm/Sound.antt =====
-- What a response must be for `check_confirmation` to take it.
use swift_lib_modbus.Prelude.{
  ℕ, ◌+◌, ◌*◌, ◌/◌, ◌<◌, ◌≤◌, ◌≡◌, ◌≢◌, refl, subst, ap, arith, Option, none, some, ◌⊎◌, ◌>>=◌,
}
use swift_lib_modbus.Context.{Ctx, Backend, rtu, tcp, tcp_pi}
use swift_lib_modbus.Protocol.{Result, ok, err, Errno}
use swift_lib_modbus.Backend.{header_length, checksum_length, pre_check_confirmation}
use swift_lib_modbus.Length.{byte_count}
use swift_lib_modbus.Memory.{Buf, read, IsBytes}
use swift_lib_modbus.Memory.Laws.{read_inside}
use swift_lib_modbus.Server.Loops.{word_cells, word_at_inside}
use swift_lib_modbus.Link.{Link}
use swift_lib_modbus.Rtu
use swift_lib_modbus.Tcp
use swift_lib_modbus.Confirm.{
  check_confirmation, check_function, check_values, check_exception, nb_values, after_pre_check,
  pre_check_error, protocol_error,
}
use swift_lib_modbus.Confirm.Accepted.{Matches, compute_response_length_lem}

module _ {ℓ} {W : Type ℓ} (link : Link W) (ctx : Ctx) (req rsp : Buf) (rsp_length : ℕ) (w : W) where
  abbrev h : ℕ
  h = header_length ctx.backend

  -- The result of a call, without the world.
  abbrev result_of : Option (Result ℕ × W) → Option (Result ℕ)
  result_of none = none
  result_of (some r) = some r.0

  pre_check_error-err : (e : Errno) (v : ℕ) → (pre_check_error link ctx e w).0 ≢ ok v
  unfolding pre_check_error
  pre_check_error-err e v = ground arith

  protocol_error-err : (e : Errno) (v : ℕ) → (protocol_error link ctx e w).0 ≢ ok v
  unfolding protocol_error
  protocol_error-err e v = λ p. absurd (cc p)

  after_pre_check-ok :
      (function v : ℕ) (r : Option (Result ℕ))
      → result_of (r >>= after_pre_check link ctx req rsp rsp_length w function) ≡ some (ok v)
      → result_of (check_function link ctx req rsp rsp_length w function) ≡ some (ok v)
  after_pre_check-ok function v none e = absurd (cc e)
  after_pre_check-ok function v (some (ok n)) e = e
  after_pre_check-ok function v (some (err no')) e = absurd (pre_check_error-err no' v (cc e))

  registers_checked :
      (v : ℕ)
      → IsBytes req
      → h + 5 ≤ req.cap
      → h + 5 ≤ rsp.cap
      → (req.cell h ≡ 3) ⊎ (req.cell h ≡ 4)
      → result_of (check_function link ctx req rsp rsp_length w (rsp.cell h)) ≡ some (ok v)
      → (rsp.cell h ≡ req.cell h)
        × (v ≡ word_cells req (h + 3))
        × (rsp.cell (h + 1) / 2 ≡ v)
        × (rsp_length ≡ h + 2 + 2 * v + checksum_length ctx.backend)
  unfolding check_function check_values check_exception nb_values read protocol_error
  registers_checked v small room room' is e =
      let computed = compute_response_length_lem ctx.backend req small room in
      ground (arith, computed, is, e, word_at_inside req (h + 3))

  bits_checked :
      (v : ℕ)
      → IsBytes req
      → h + 5 ≤ req.cap
      → h + 5 ≤ rsp.cap
      → (req.cell h ≡ 1) ⊎ (req.cell h ≡ 2)
      → result_of (check_function link ctx req rsp rsp_length w (rsp.cell h)) ≡ some (ok v)
      → (rsp.cell h ≡ req.cell h)
        × (v ≡ byte_count (word_cells req (h + 3)))
        × (rsp.cell (h + 1) ≡ v)
        × (rsp_length ≡ h + 2 + v + checksum_length ctx.backend)
  unfolding check_function check_values check_exception nb_values read protocol_error
  bits_checked v small room room' is e =
      let computed = compute_response_length_lem ctx.backend req small room in
      ground (arith, computed, is, e, word_at_inside req (h + 3))

  passed :
      (function v : ℕ) (r : Option (Result ℕ))
      → result_of (r >>= after_pre_check link ctx req rsp rsp_length w function) ≡ some (ok v)
      → (n : ℕ) × (r ≡ some (ok n))
  passed function v none e = absurd (cc e)
  passed function v (some (ok n)) e = (n, refl)
  passed function v (some (err no')) e = absurd (pre_check_error-err no' v (cc e))

  confirmation_result :
      (v : ℕ) (w' : W)
      → h < rsp.cap
      → check_confirmation link ctx req rsp rsp_length w ≡ some (ok v, w')
      → result_of (
          pre_check_confirmation ctx.backend req rsp
          >>= after_pre_check link ctx req rsp rsp_length w (rsp.cell h))
        ≡ some (ok v)
  unfolding check_confirmation
  confirmation_result v w' inside e =
      subst
        (λ r.
          result_of (
            r >>= λ function.
            pre_check_confirmation ctx.backend req rsp
            >>= after_pre_check link ctx req rsp rsp_length w function)
          ≡ some (ok v))
        (read_inside rsp h inside) (ap result_of e)

pre_check-Matches :
    (backend : Backend) (req rsp : Buf) (n : ℕ)
    → pre_check_confirmation backend req rsp ≡ some (ok n)
    → Matches backend req rsp
unfolding pre_check_confirmation Rtu.pre_check_confirmation Tcp.pre_check_confirmation read
pre_check-Matches rtu req rsp n e = ground (arith, e)
pre_check-Matches tcp req rsp n e = ground (arith, e)
pre_check-Matches tcp_pi req rsp n e = ground (arith, e)

module _ {ℓ} {W : Type ℓ} (link : Link W) (ctx : Ctx) (req rsp : Buf) (rsp_length v : ℕ)
    (w w' : W) where
  -- If `check_confirmation` takes a response to a request to read registers, with the request and the
  -- response in their arrays, then it comes from where the request went, has its function code, is of
  -- the length that the quantity asks for, says so many registers, and the quantity is returned.
  pub registers_sound :
      IsBytes req
      → header_length ctx.backend + 5 ≤ req.cap
      → header_length ctx.backend + 5 ≤ rsp.cap
      → (req.cell (header_length ctx.backend) ≡ 3) ⊎ (req.cell (header_length ctx.backend) ≡ 4)
      → check_confirmation link ctx req rsp rsp_length w ≡ some (ok v, w')
      → Matches ctx.backend req rsp
        × (rsp.cell (header_length ctx.backend) ≡ req.cell (header_length ctx.backend))
        × (v ≡ word_cells req (header_length ctx.backend + 3))
        × (rsp.cell (header_length ctx.backend + 1) / 2 ≡ v)
        × (rsp_length ≡ header_length ctx.backend + 2 + 2 * v + checksum_length ctx.backend)
  registers_sound small room room' is e =
      let function : ℕ = rsp.cell (header_length ctx.backend) in
      let r = pre_check_confirmation ctx.backend req rsp in
      let result =
        confirmation_result link ctx req rsp rsp_length w v w' (omega (arith, room')) e in
      let taken = passed link ctx req rsp rsp_length w function v r result in
      let checked = after_pre_check-ok link ctx req rsp rsp_length w function v r result in
      let c = registers_checked link ctx req rsp rsp_length w v small room room' is checked in
      (pre_check-Matches ctx.backend req rsp taken.0 taken.1, c.0, c.1, c.2, c.3)

  -- If `check_confirmation` takes a response to a request to read bits, with the request and the
  -- response in their arrays, then it comes from where the request went, has its function code, is of
  -- the length that the quantity asks for, says so many bytes, and their number is returned.
  pub bits_sound :
      IsBytes req
      → header_length ctx.backend + 5 ≤ req.cap
      → header_length ctx.backend + 5 ≤ rsp.cap
      → (req.cell (header_length ctx.backend) ≡ 1) ⊎ (req.cell (header_length ctx.backend) ≡ 2)
      → check_confirmation link ctx req rsp rsp_length w ≡ some (ok v, w')
      → Matches ctx.backend req rsp
        × (rsp.cell (header_length ctx.backend) ≡ req.cell (header_length ctx.backend))
        × (v ≡ byte_count (word_cells req (header_length ctx.backend + 3)))
        × (rsp.cell (header_length ctx.backend + 1) ≡ v)
        × (rsp_length ≡ header_length ctx.backend + 2 + v + checksum_length ctx.backend)
  bits_sound small room room' is e =
      let function : ℕ = rsp.cell (header_length ctx.backend) in
      let r = pre_check_confirmation ctx.backend req rsp in
      let result =
        confirmation_result link ctx req rsp rsp_length w v w' (omega (arith, room')) e in
      let taken = passed link ctx req rsp rsp_length w function v r result in
      let checked = after_pre_check-ok link ctx req rsp rsp_length w function v r result in
      let c = bits_checked link ctx req rsp rsp_length w v small room room' is checked in
      (pre_check-Matches ctx.backend req rsp taken.0 taken.1, c.0, c.1, c.2, c.3)
