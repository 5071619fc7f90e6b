-- ===== src/Receive/Kinds.antt =====
-- The lengths that the kinds of requests and responses announce.
use swift_lib_modbus.Prelude.{ℕ, ◌+◌, ◌≤◌, ◌≡◌, arith, ◌⊎◌}
use swift_lib_modbus.Context.{Backend}
use swift_lib_modbus.Protocol.{indication, confirmation}
use swift_lib_modbus.Backend.{header_length, checksum_length}
use swift_lib_modbus.Length.{compute_meta_length_after_function}
use swift_lib_modbus.Receive.Lengths.{message_end}

-- A request with an address and a quantity or a value.
pub short_request-message_end :
    (backend : Backend) (f : ℕ → ℕ)
    → f (header_length backend) ≤ 6
    → message_end backend indication f ≡ header_length backend + 5 + checksum_length backend
unfolding compute_meta_length_after_function
short_request-message_end backend f small = ground arith

-- A request to write several coils or registers, whose data take `count` bytes.
pub long_request-message_end :
    (backend : Backend) (f : ℕ → ℕ) (count : ℕ)
    → (f (header_length backend) ≡ 15) ⊎ (f (header_length backend) ≡ 16)
    → f (header_length backend + 5) ≡ count
    → message_end backend indication f ≡ header_length backend + 6 + count + checksum_length backend
unfolding compute_meta_length_after_function
long_request-message_end backend f count is says = ground arith

-- The function codes whose answers hold elements of a table.
abbrev pub AsksToRead : ℕ → Type 0
AsksToRead function = (function ≤ 4) ⊎ (function ≡ 0x17)

-- An answer with `count` bytes of elements.
pub read_answer-message_end :
    (backend : Backend) (f : ℕ → ℕ) (count : ℕ)
    → AsksToRead (f (header_length backend))
    → f (header_length backend + 1) ≡ count
    → message_end backend confirmation f
      ≡ header_length backend + 2 + count + checksum_length backend
unfolding compute_meta_length_after_function
read_answer-message_end backend f count is says = ground arith

-- The confirmation of a request to write.
pub write_answer-message_end :
    (backend : Backend) (f : ℕ → ℕ)
    → (f (header_length backend) ≡ 5)
      ⊎ (f (header_length backend) ≡ 6)
      ⊎ (f (header_length backend) ≡ 15)
      ⊎ (f (header_length backend) ≡ 16)
    → message_end backend confirmation f ≡ header_length backend + 5 + checksum_length backend
unfolding compute_meta_length_after_function
write_answer-message_end backend f is = ground arith

-- An exception response.
pub exception-message_end :
    (backend : Backend) (f : ℕ → ℕ)
    → 0x80 ≤ f (header_length backend)
    → message_end backend confirmation f ≡ header_length backend + 2 + checksum_length backend
unfolding compute_meta_length_after_function
exception-message_end backend f is = ground arith
