-- ===== src/Rtu/Frame.antt =====
-- `send_msg_pre` and `check_integrity` of modbus-rtu.c on the same message, or on one that was changed
-- on the way.
use swift_lib_modbus.Prelude.{
  ℕ, ◌+◌, ◌-◌, ◌*◌, ◌/◌, ◌%◌, ◌<◌, ◌≤◌, ◌≡◌, ◌≢◌, ◌⊎◌, inl, inr, refl, ap, subst, sym, ◌∙◌, arith,
  Option, some, ◌∷◌, ◌++◌, ◌==◌, not, ◌&&◌, false, if◌then◌else◌, ◌>>=◌, ==_refl,
}
use native.Mathlib.Decide.{dec_lt}
use swift_lib_modbus.Prelude.Int.{ℤ, pos, negsuc}
use swift_lib_modbus.Bits.Fields.{bit_or_word}
use swift_lib_modbus.Memory.{Buf, read, write_mod, update, cells, IsBytes}
use swift_lib_modbus.Memory.Laws.{cells-update, cells-split, cells-same}
use swift_lib_modbus.Crc.Bytes.{crc_bytes, crc16-crc_bytes, crc_bytes-lt, All-cells}
use swift_lib_modbus.Crc.Detect.{crc_bytes-detects}
use swift_lib_modbus.Rtu.{send_msg_pre, integrity, Integrity, ignored, valid, bad_crc, is_slave}

-- The array after `send_msg_pre`.
abbrev pub with_crc : Buf → ℕ → Buf
with_crc b n =
    let crc = crc_bytes (cells b.cell 0 n) in
    record b { cell = update (update b.cell n (crc / 256 % 256)) (n + 1) (crc % 256 % 256) }

pub send_msg_pre-with_crc :
    (b : Buf) (n : ℕ) → n + 2 ≤ b.cap → send_msg_pre b n ≡ some (with_crc b n, n + 2)
unfolding send_msg_pre write_mod
send_msg_pre-with_crc b n h = rw (crc16-crc_bytes b n (omega arith)) (ground arith)

-- A message is taken if it names this slave, or all of them.
abbrev pub IsFor : ℤ → ℕ → Type 0
IsFor own slave = (own ≡ pos slave) ⊎ (slave ≡ 0)

is_for :
    (own : ℤ) (slave : ℕ) → IsFor own slave → (not (is_slave own slave) && not (slave == 0)) ≡ false
unfolding is_slave
is_for (pos n) slave mine = ground arith
is_for (negsuc n) slave mine = ground arith

abbrev integrity_by_crc : Buf → ℕ → Integrity
integrity_by_crc b n =
    if crc_bytes (cells b.cell 0 n) == b.cell n * 256 + b.cell (n + 1) then valid else bad_crc

integrity_lem :
    (own : ℤ) (b : Buf) (n : ℕ)
    → n + 2 ≤ b.cap
    → IsBytes b
    → integrity own b (n + 2)
      ≡ some (
          if not (is_slave own (b.cell 0)) && not (b.cell 0 == 0)
          then ignored
          else integrity_by_crc b n)
unfolding integrity read
integrity_lem own b n h small =
    let body : n + 2 - 2 ≡ n = omega arith in
    let last : n + 2 - 1 ≡ n + 1 = omega arith in
    rw (body, last, crc16-crc_bytes b n (omega arith))
      (ground (arith, bit_or_word (b.cell n) (b.cell (n + 1)) (small (n + 1))))

integrity-crc :
    (own : ℤ) (b : Buf) (n : ℕ)
    → n + 2 ≤ b.cap
    → IsBytes b
    → IsFor own (b.cell 0)
    → integrity own b (n + 2) ≡ some (integrity_by_crc b n)
integrity-crc own b n h small mine = rw (integrity_lem own b n h small, is_for own (b.cell 0) mine)

crc_of_valid :
    (own : ℤ) (b : Buf) (n : ℕ)
    → n + 2 ≤ b.cap
    → IsBytes b
    → integrity own b (n + 2) ≡ some valid
    → crc_bytes (cells b.cell 0 n) ≡ b.cell n * 256 + b.cell (n + 1)
crc_of_valid own b n h small e = ground (arith, integrity_lem own b n h small)

pub with_crc-IsBytes : (b : Buf) (n : ℕ) → IsBytes b → IsBytes (with_crc b n)
with_crc-IsBytes b n small i = ground (arith, small i)

with_crc-body : (b : Buf) (n : ℕ) → cells (with_crc b n).cell 0 n ≡ cells b.cell 0 n
with_crc-body b n =
    let crc : ℕ = crc_bytes (cells b.cell 0 n) in
    cells-update (update b.cell n (crc / 256 % 256)) (n + 1) (crc % 256 % 256) 0 n
      (inr (omega arith))
    ∙ cells-update b.cell n (crc / 256 % 256) 0 n (inr (omega arith))

with_crc-tail :
    (b : Buf) (n : ℕ)
    → IsBytes b
    → (with_crc b n).cell n * 256 + (with_crc b n).cell (n + 1) ≡ crc_bytes (cells b.cell 0 n)
with_crc-tail b n small =
    ground (arith, crc_bytes-lt (cells b.cell 0 n) (All-cells b.cell small 0 n))

with_crc-first : (b : Buf) (n : ℕ) → 0 < n → (with_crc b n).cell 0 ≡ b.cell 0
with_crc-first b n h = ground arith

-- A message of at least one byte for this slave (or for all), framed by `send_msg_pre` in an array
-- with room for the CRC, passes `check_integrity` on the receiving side.
pub integrity-send_msg_pre :
    (own : ℤ) (b : Buf) (n : ℕ)
    → 0 < n
    → n + 2 ≤ b.cap
    → IsBytes b
    → IsFor own (b.cell 0)
    → (do (frame, m) ← send_msg_pre b n; integrity own frame m) ≡ some valid
integrity-send_msg_pre own b n pos_n h small mine =
    let first : IsFor own ((with_crc b n).cell 0) = rw (with_crc-first b n pos_n) mine in
    rw (
      send_msg_pre-with_crc b n h,
      integrity-crc own (with_crc b n) n h (with_crc-IsBytes b n small) first,
      with_crc-body b n,
      with_crc-tail b n small,
      ==_refl (crc_bytes (cells b.cell 0 n)),
    )

-- One byte of an array is changed.
abbrev pub corrupt : Buf → ℕ → ℕ → Buf
corrupt b j v = record b { cell = update b.cell j v }

corrupt-IsBytes : (b : Buf) (j v : ℕ) → IsBytes b → v < 256 → IsBytes (corrupt b j v)
corrupt-IsBytes b j v small hv i = ground (arith, small i)

-- A change in the body changes the CRC of the body.
corrupt_body :
    (b : Buf) (n j v : ℕ)
    → IsBytes b
    → j < n
    → v < 256
    → v ≢ b.cell j
    → crc_bytes (cells (corrupt b j v).cell 0 n) ≢ crc_bytes (cells b.cell 0 n)
corrupt_body b n j v small h hv different e =
    let f : ℕ → ℕ = update b.cell j v in
    let before = cells-update b.cell j v 0 j (inr (omega arith)) in
    let after = cells-update b.cell j v (j + 1) (n - j - 1) (inl (omega arith)) in
    let here : f j ≡ v = ground arith in
    let split : cells f 0 n ≡ cells b.cell 0 j ++ v ∷ cells b.cell (j + 1) (n - j - 1) =
      cells-split f j n h ∙ (λ i. before i ++ here i ∷ after i) in
    crc_bytes-detects (cells b.cell 0 j) (cells b.cell (j + 1) (n - j - 1)) v (b.cell j)
      (All-cells b.cell small 0 j) (All-cells b.cell small (j + 1) (n - j - 1)) hv (small j)
      different (ap crc_bytes (sym split) ∙ e ∙ ap crc_bytes (cells-split b.cell j n h))

-- The last two bytes are the CRC of the others.
abbrev IsFrame : Buf → ℕ → Type 0
IsFrame frame n =
    (n + 2 ≤ frame.cap)
    × IsBytes frame
    × (crc_bytes (cells frame.cell 0 n) ≡ frame.cell n * 256 + frame.cell (n + 1))

-- In an array whose last two bytes are the CRC of the others, no change passes.
corrupt_frame :
    (own : ℤ) (frame : Buf) (n j v : ℕ)
    → n + 2 ≤ frame.cap
    → IsBytes frame
    → crc_bytes (cells frame.cell 0 n) ≡ frame.cell n * 256 + frame.cell (n + 1)
    → j < n + 2
    → v < 256
    → v ≢ frame.cell j
    → integrity own (corrupt frame j v) (n + 2) ≢ some valid
corrupt_frame own frame n j v h small tail hj hv different e =
    let taken = crc_of_valid own (corrupt frame j v) n h (corrupt-IsBytes frame j v small hv) e in
    elim (dec_lt j n) [
      | yes in_body ↦
          let same : (corrupt frame j v).cell n * 256 + (corrupt frame j v).cell (n + 1)
              ≡ frame.cell n * 256 + frame.cell (n + 1) =
            ground arith in
          corrupt_body frame n j v small in_body hv different (taken ∙ same ∙ sym tail)
      | no in_crc ↦
          let body = ap crc_bytes (cells-update frame.cell j v 0 n (inr (omega arith))) in
          ground (arith, small n, small (n + 1), taken, sym body ∙ taken)
    ]

-- If any one byte of a frame that `send_msg_pre` made is changed on the way, be it in the body or in
-- the CRC, `check_integrity` does not take the frame as valid.
pub integrity-corrupt :
    (own : ℤ) (b frame : Buf) (n m j v : ℕ)
    → n + 2 ≤ b.cap
    → IsBytes b
    → send_msg_pre b n ≡ some (frame, m)
    → j < m
    → v < 256
    → v ≢ frame.cell j
    → integrity own (corrupt frame j v) m ≢ some valid
integrity-corrupt own b frame n m j v h small sent hj hv different e =
    let made : Option.some (with_crc b n, n + 2) ≡ some (frame, m) =
      sym (send_msg_pre-with_crc b n h) ∙ sent in
    let frame_is : with_crc b n ≡ frame = cc made in
    let length_is : n + 2 ≡ m = cc made in
    let is : IsFrame frame n =
      subst (λ f. IsFrame f n) frame_is
        (
          h,
          with_crc-IsBytes b n small,
          ap crc_bytes (with_crc-body b n) ∙ sym (with_crc-tail b n small),
        ) in
    corrupt_frame own frame n j v is.0 is.1 is.2 (rw length_is hj) hv different (rw length_is e)

-- Arrays that agree on a message pass `check_integrity` both or neither.
pub integrity-same :
    (own : ℤ) (a b : Buf) (n : ℕ)
    → n + 2 ≤ a.cap
    → n + 2 ≤ b.cap
    → IsBytes a
    → IsBytes b
    → ((k : ℕ) → k < n + 2 → a.cell k ≡ b.cell k)
    → integrity own a (n + 2) ≡ integrity own b (n + 2)
integrity-same own a b n ha hb small_a small_b same =
    rw
      (
        integrity_lem own a n ha small_a,
        integrity_lem own b n hb small_b,
        same 0 (omega arith),
        cells-same a.cell b.cell 0 n (λ k h h'. same k (omega (arith, h'))),
        same n (omega arith),
        same (n + 1) (omega arith),
      )
      refl
