-- ===== src/Receive/Lengths.antt =====
-- Where a message ends, by its own bytes, and the steps of `_modbus_receive_msg`.
use native.Mathlib.Decide.{ℕ_discrete}
use swift_lib_modbus.Memory.Laws.{read_inside}
use swift_lib_modbus.Prelude.{
  ℕ, ◌+◌, ◌<◌, ◌≤◌, ◌≡◌, ◌≢◌, refl, sym, subst, ◌∙◌, ne→==, arith, ◌||◌, Option, some, leb, ◌==◌,
  if◌then◌else◌,
}
use swift_lib_modbus.Protocol.{
  MsgType, indication, confirmation, fc_write_multiple_coils, fc_write_multiple_registers,
  fc_report_slave_id, fc_write_and_read_registers, fc_read_input_registers, Result, ok,
}
use swift_lib_modbus.Context.{Backend}
use swift_lib_modbus.Backend.{header_length, checksum_length, max_adu_length}
use swift_lib_modbus.Length.{compute_meta_length_after_function, compute_data_length_after_meta}
use swift_lib_modbus.Memory.{Buf, read}
use swift_lib_modbus.Receive.{Step, step_function, step_meta, step_data, next_step, after_meta}

-- The number of data bytes that the message with the bytes `f` announces, where its header has `h`
-- bytes before the function code.
abbrev pub data_length : ℕ → MsgType → (ℕ → ℕ) → ℕ
data_length h indication f =
    if f h == fc_write_multiple_coils || f h == fc_write_multiple_registers
    then f (h + 5)
    else if f h == fc_write_and_read_registers
    then f (h + 9)
    else 0
data_length h confirmation f =
    if leb (f h) fc_read_input_registers
      || f h == fc_report_slave_id
      || f h == fc_write_and_read_registers
    then f (h + 1)
    else 0

module _ (backend : Backend) (msg_type : MsgType) (f : ℕ → ℕ) where
  abbrev pub fields_end : ℕ
  fields_end =
      header_length backend
      + 1
      + compute_meta_length_after_function (f (header_length backend)) msg_type

  -- The length of the whole message, its checksum included.
  abbrev pub message_end : ℕ
  message_end =
      fields_end + data_length (header_length backend) msg_type f + checksum_length backend

  -- The length of the message at the end of a step.
  abbrev pub step_end : Step → ℕ
  step_end step_function = header_length backend + 1
  step_end step_meta = fields_end
  step_end step_data = message_end

-- The array `msg` begins with the bytes `f` of the message, `n` of them.
abbrev pub Begins : Buf → ℕ → (ℕ → ℕ) → Type 0
Begins msg n f = (k : ℕ) → k < n → msg.cell k ≡ f k

data_length_after_meta :
    (backend : Backend) (msg_type : MsgType) (f : ℕ → ℕ) (msg : Buf)
    → fields_end backend msg_type f ≤ msg.cap
    → Begins msg (fields_end backend msg_type f) f
    → compute_data_length_after_meta backend msg msg_type
      ≡ some (data_length (header_length backend) msg_type f + checksum_length backend)
unfolding compute_data_length_after_meta compute_meta_length_after_function read
data_length_after_meta backend indication f msg room begins =
    let h = header_length backend in ground (arith, begins h, begins (h + 5), begins (h + 9))
data_length_after_meta backend confirmation f msg room begins =
    let h = header_length backend in ground (arith, begins h, begins (h + 1))

after_meta_lem :
    (backend : Backend) (msg_type : MsgType) (f : ℕ → ℕ) (msg : Buf)
    → fields_end backend msg_type f ≤ msg.cap
    → message_end backend msg_type f ≤ max_adu_length backend
    → Begins msg (fields_end backend msg_type f) f
    → after_meta backend msg_type msg (fields_end backend msg_type f)
      ≡ some
          (ok (step_data, data_length (header_length backend) msg_type f + checksum_length backend))
unfolding after_meta
after_meta_lem backend msg_type f msg room short begins =
    rw (data_length_after_meta backend msg_type f msg room begins) (ground arith)

-- `result` is a step that goes on at `here`, and whose end is behind `here` unless all is read.
pub record IsAdvanced (end : Step → ℕ) (total here : ℕ) (result : Option (Result (Step × ℕ)))
    : Type 0 where
  pub step : Step
  pub length : ℕ
  pub returns : result ≡ some (ok (step, length))
  pub goes_to : here + length ≡ end step
  pub or_all : length ≡ 0 → here ≡ total

module _ (backend : Backend) (msg_type : MsgType) (f : ℕ → ℕ) (msg : Buf)
    (short : message_end backend msg_type f ≤ max_adu_length backend)
    (room : max_adu_length backend ≤ msg.cap) where
  abbrev Advances : Step → ℕ → Type 0
  Advances step here =
      IsAdvanced (step_end backend msg_type f) (message_end backend msg_type f) here
        (next_step backend msg_type step msg here)

  after_meta-IsAdvanced :
      Begins msg (fields_end backend msg_type f) f
      → IsAdvanced
          (step_end backend msg_type f)
          (message_end backend msg_type f)
          (fields_end backend msg_type f)
          (after_meta backend msg_type msg (fields_end backend msg_type f))
  after_meta-IsAdvanced begins = record {
    step = step_data;
    length = data_length (header_length backend) msg_type f + checksum_length backend;
    returns = after_meta_lem backend msg_type f msg (omega (arith, short, room)) short begins;
    goes_to = omega arith;
    or_all = λ e. omega (arith, e);
  }

  abbrev meta : ℕ
  meta = compute_meta_length_after_function (f (header_length backend)) msg_type

  function_read :
      Begins msg (header_length backend + 1) f
      → read msg (header_length backend) ≡ some (f (header_length backend))
  function_read begins =
      let h = header_length backend in
      let inside : h < msg.cap = omega (arith, room, short) in
      rw (read_inside msg h inside, begins h (omega arith)) refl

  fields_follow :
      Begins msg (header_length backend + 1) f
      → meta ≢ 0
      → next_step backend msg_type step_function msg (header_length backend + 1)
        ≡ some (ok (step_meta, meta))
  unfolding next_step
  fields_follow begins ne = rw (function_read begins, ne→== meta 0 ne) refl

  no_fields_follow :
      Begins msg (header_length backend + 1) f
      → meta ≡ 0
      → next_step backend msg_type step_function msg (header_length backend + 1)
        ≡ after_meta backend msg_type msg (header_length backend + 1)
  unfolding next_step
  no_fields_follow begins e = rw (function_read begins, e) refl

  function_step :
      Begins msg (header_length backend + 1) f → Advances step_function (header_length backend + 1)
  function_step begins = elim (ℕ_discrete meta 0) [
    | no ne ↦ record {
      step = step_meta;
      length = meta;
      returns = fields_follow begins ne;
      goes_to = refl;
      or_all = λ e. absurd (ne e);
    }
    | yes e ↦
        let same : fields_end backend msg_type f ≡ header_length backend + 1 = omega (arith, e) in
        let begins' : Begins msg (fields_end backend msg_type f) f = rw same begins in
        let rest = after_meta-IsAdvanced begins' in
        record {
          step = rest.step;
          length = rest.length;
          returns =
              no_fields_follow begins e
              ∙ subst (λ n. after_meta backend msg_type msg n ≡ some (ok (rest.step, rest.length)))
                  same rest.returns;
          goes_to =
              subst (λ n. n + rest.length ≡ step_end backend msg_type f rest.step) same
                rest.goes_to;
          or_all = λ z. sym same ∙ rest.or_all z;
        }
  ]

  -- The step that is at its end is followed by the right one.
  pub next_step-IsAdvanced :
      (step : Step)
      → Begins msg (step_end backend msg_type f step) f
      → Advances step (step_end backend msg_type f step)
  unfolding next_step
  next_step-IsAdvanced step_function begins = function_step begins
  next_step-IsAdvanced step_meta begins = after_meta-IsAdvanced begins
  next_step-IsAdvanced step_data begins = record {
    step = step_data;
    length = 0;
    returns = refl;
    goes_to = omega arith;
    or_all = λ e. refl;
  }
