-- ===== src/Confirm/Accepted.antt =====
-- Answers that `check_confirmation` takes, and exceptions that it reports.
use swift_lib_modbus.Prelude.{
  ℕ, ◌+◌, ◌-◌, ◌*◌, ◌<◌, ◌≤◌, ◌≡◌, refl, arith, some, ◌⊎◌, leb, true, ==_refl, lt→ltb, ◌==◌, ◌||◌,
  if◌then◌else◌,
}
use swift_lib_modbus.Bits.Fields.{bit_or_word}
use swift_lib_modbus.Context.{Ctx, Backend, rtu, tcp, tcp_pi}
use swift_lib_modbus.Protocol.{ok, err, enobase}
use swift_lib_modbus.Backend.{header_length, checksum_length, pre_check_confirmation}
use swift_lib_modbus.Length.{
  word_or_at, byte_count, compute_response_length_from_request, ResponseLength, undefined, computed,
}
use swift_lib_modbus.Memory.{Buf, read, IsBytes}
use swift_lib_modbus.Memory.Laws.{read_inside}
use swift_lib_modbus.Rtu
use swift_lib_modbus.Tcp
use swift_lib_modbus.Server.Loops.{word_cells, word_at_inside}
use swift_lib_modbus.Link.{Link}
use swift_lib_modbus.Confirm.{
  check_confirmation, check_function, check_values, check_exception, nb_values,
}

-- What `pre_check_confirmation` wants: over a serial line the answer of the slave that was asked,
-- or any answer to a broadcast; over TCP the transaction identifier of the request.
abbrev pub Matches : Backend → Buf → Buf → Type 0
Matches rtu req rsp = (req.cell 0 ≡ 0) ⊎ (req.cell 0 ≡ rsp.cell 0)
Matches tcp req rsp = (req.cell 0 ≡ rsp.cell 0) × (req.cell 1 ≡ rsp.cell 1)
Matches tcp_pi req rsp = (req.cell 0 ≡ rsp.cell 0) × (req.cell 1 ≡ rsp.cell 1)

-- The request and the answer are in their arrays, and belong together.
pub record IsPair (backend : Backend) (req rsp : Buf) : Type 0 where
  pub req_bytes : IsBytes req
  pub req_room : header_length backend + 5 ≤ req.cap
  pub rsp_room : header_length backend + 5 ≤ rsp.cap
  pub matches : Matches backend req rsp

pre_check-ok :
    (backend : Backend) (req rsp : Buf)
    → 2 ≤ req.cap
    → 2 ≤ rsp.cap
    → Matches backend req rsp
    → pre_check_confirmation backend req rsp ≡ some (ok 0)
unfolding pre_check_confirmation Rtu.pre_check_confirmation Tcp.pre_check_confirmation read
pre_check-ok rtu req rsp h h' m = ground arith
pre_check-ok tcp req rsp h h' m = ground arith
pre_check-ok tcp_pi req rsp h h' m = ground arith

pub word_or_at_inside :
    (b : Buf) (k : ℕ) → k + 1 < b.cap → IsBytes b → word_or_at b k ≡ some (word_cells b k)
unfolding word_or_at read
word_or_at_inside b k h small =
    ground (arith, bit_or_word (b.cell k) (b.cell (k + 1)) (small (k + 1)))

-- The length of the response to a request in an array.
abbrev pub expected_length : Backend → Buf → ResponseLength
expected_length backend req =
    let h = header_length backend in
    let nb = word_cells req (h + 3) in
    let total = λ (length : ℕ). computed (h + length + checksum_length backend) in
    let function = req.cell h in
    if function == 1 || function == 2
    then total (2 + byte_count nb)
    else if function == 23 || function == 3 || function == 4
    then total (2 + 2 * nb)
    else if function == 7
    then total 3
    else if function == 17
    then undefined
    else total 5

pub compute_response_length_lem :
    (backend : Backend) (req : Buf)
    → IsBytes req
    → header_length backend + 5 ≤ req.cap
    → compute_response_length_from_request backend req ≡ some (expected_length backend req)
unfolding compute_response_length_from_request read
compute_response_length_lem backend req small room =
    let h = header_length backend in
    ground (arith, word_or_at_inside req (h + 3) (omega (arith, room)) small)

module _ {ℓ} {W : Type ℓ} (link : Link W) (ctx : Ctx) (req rsp : Buf) (rsp_length : ℕ) (w : W) where
  abbrev h : ℕ
  h = header_length ctx.backend

  abbrev quantity : ℕ
  quantity = word_cells req (h + 3)

  matching-check_function :
      IsPair ctx.backend req rsp
      → check_confirmation link ctx req rsp rsp_length w
        ≡ check_function link ctx req rsp rsp_length w (rsp.cell h)
  unfolding check_confirmation
  matching-check_function p =
      rw
        (
          read_inside rsp h (omega (arith, p.rsp_room)),
          pre_check-ok ctx.backend req rsp (omega (arith, p.req_room)) (omega (arith, p.rsp_room))
              p.matches,
        )
        refl

  -- An answer to a request to read, or write and read, registers that says so many bytes and is so long is confirmed
  -- with the number of registers.
  pub registers_confirmed :
      IsPair ctx.backend req rsp
      → (req.cell h ≡ 3) ⊎ (req.cell h ≡ 4) ⊎ (req.cell h ≡ 0x17)
      → rsp.cell h ≡ req.cell h
      → rsp.cell (h + 1) ≡ 2 * quantity
      → rsp_length ≡ h + 2 + 2 * quantity + checksum_length ctx.backend
      → check_confirmation link ctx req rsp rsp_length w ≡ some (ok quantity, w)
  unfolding check_function check_values nb_values compute_response_length_from_request read
  registers_confirmed p is same says long = rw (matching-check_function p) (
      ground
        (arith, p.req_room, p.rsp_room, word_at_inside req (h + 3), word_or_at_inside req (h + 3)))

  -- An answer to a request to read bits that says as many bytes as the bits take and is so long is
  -- confirmed with the number of bytes.
  pub bits_confirmed :
      IsPair ctx.backend req rsp
      → (req.cell h ≡ 1) ⊎ (req.cell h ≡ 2)
      → rsp.cell h ≡ req.cell h
      → rsp.cell (h + 1) ≡ byte_count quantity
      → rsp_length ≡ h + 2 + byte_count quantity + checksum_length ctx.backend
      → check_confirmation link ctx req rsp rsp_length w ≡ some (ok (byte_count quantity), w)
  unfolding check_function check_values nb_values compute_response_length_from_request read
  bits_confirmed p is same says long = rw (matching-check_function p) (
      ground
        (arith, p.req_room, p.rsp_room, word_at_inside req (h + 3), word_or_at_inside req (h + 3)))

  -- The confirmation of a request to write several coils or registers that repeats the quantity.
  pub writes_confirmed :
      IsPair ctx.backend req rsp
      → (req.cell h ≡ 15) ⊎ (req.cell h ≡ 16)
      → rsp.cell h ≡ req.cell h
      → IsBytes rsp
      → word_cells rsp (h + 3) ≡ quantity
      → rsp_length ≡ h + 5 + checksum_length ctx.backend
      → check_confirmation link ctx req rsp rsp_length w ≡ some (ok quantity, w)
  unfolding check_function check_values nb_values compute_response_length_from_request read
  writes_confirmed p is same small says long = rw (matching-check_function p) (
      ground (
        arith,
        p.req_room,
        p.rsp_room,
        word_at_inside req (h + 3),
        word_or_at_inside rsp (h + 3) (omega (arith, p.rsp_room)) small,
      ))

  -- An exception response to the request is reported as the error of its code.
  pub exception_reported :
      IsPair ctx.backend req rsp
      → rsp.cell h ≡ req.cell h + 0x80
      → rsp.cell (h + 1) < 12
      → rsp_length ≡ h + 2 + checksum_length ctx.backend
      → check_confirmation link ctx req rsp rsp_length w
        ≡ some (err (enobase (rsp.cell (h + 1))), w)
  unfolding check_function check_exception
  exception_reported p same known long =
      let big : leb 0x80 (rsp.cell h) ≡ true = ground (arith, same) in
      let back : rsp.cell h - 0x80 ≡ req.cell h = omega (arith, same) in
      rw
        (
          matching-check_function p,
          compute_response_length_lem ctx.backend req p.req_bytes p.req_room,
          big,
          read_inside req h (omega (arith, p.req_room)),
          back,
          long,
          ==_refl (h + 2 + checksum_length ctx.backend),
          ==_refl (req.cell h),
          read_inside rsp (h + 1) (omega (arith, p.rsp_room)),
          lt→ltb (rsp.cell (h + 1)) 12 known,
        )
        refl
