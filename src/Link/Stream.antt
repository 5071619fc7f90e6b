-- ===== src/Link/Stream.antt =====
-- A line on which bytes are waiting: what `select` and `recv` are documented to do then.
use swift_lib_modbus.Prelude.{ℕ, ◌+◌, ◌<◌, ◌≤◌, ◌≡◌, Option}
use swift_lib_modbus.Prelude.Int.{ℤ}
use swift_lib_modbus.Protocol.{ok}
use swift_lib_modbus.Context.{Ctx, Timeval}
use swift_lib_modbus.Memory.{Buf}
use swift_lib_modbus.Link.{Link}

module _ {ℓ} {W : Type ℓ} (link : Link W) (pos : W → ℕ) (stream : ℕ → ℕ) where
  -- `select` succeeds and reads nothing.
  pub record IsReady (ctx : Ctx) (p_tv : Option Timeval) (n : ℕ) (w : W) : Type ℓ where
    pub tv : Option Timeval
    pub world : W
    pub returns : link.select ctx p_tv n w ≡ (ok tv, world)
    pub stays : pos world ≡ pos w

  -- `recv` takes at least one byte and at most `n` of those that come next.
  pub record IsRead (ctx : Ctx) (n : ℕ) (w : W) : Type ℓ where
    pub bytes : Buf
    pub world : W
    pub returns : link.recv ctx n w ≡ (ok bytes, world)
    pub some_bytes : 0 < bytes.cap
    pub not_more : bytes.cap ≤ n
    pub are_next : (k : ℕ) → k < bytes.cap → bytes.cell k ≡ stream (pos w + k)
    pub are_bytes : (k : ℕ) → bytes.cell k < 256
    pub moves : pos world ≡ pos w + bytes.cap

  -- In the world `w` the bytes of the stream before `pos w` have been read; those before `stop` have
  -- arrived or are to come in time. Nothing is said of descriptors other than `s`.
  pub record IsStream (s : ℤ) (stop : ℕ) : Type ℓ where
    pub of_bytes : (k : ℕ) → stream k < 256
    pub ready :
        (ctx : Ctx) (p_tv : Option Timeval) (n : ℕ) (w : W)
        → ctx.s ≡ s
        → pos w < stop
        → IsReady ctx p_tv n w
    pub reads : (ctx : Ctx) (n : ℕ) (w : W) → ctx.s ≡ s → 0 < n → pos w + n ≤ stop → IsRead ctx n w
