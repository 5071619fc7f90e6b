-- ===== src/Serial/System.antt =====
-- What the system calls of Serial are documented to do with the open descriptors and with the
-- settings of the terminal.
use swift_lib_modbus.Prelude.{ℕ, ◌≡◌, List, ◌∷◌}
use swift_lib_modbus.Prelude.Int.{ℤ, pos}
use swift_lib_modbus.Protocol.{Result, ok, err}
use swift_lib_modbus.Serial.{Speed, Termios, Serial}

module _ {ℓ} {W : Type ℓ} (fds : W → List ℤ) (terminal : W → Termios) where
  abbrev pub IsOpened : W → Result ℕ × W → Type 0
  IsOpened w (ok fd, w') = (fds w' ≡ pos fd ∷ fds w) × (terminal w' ≡ terminal w)
  IsOpened w (err e, w') = (fds w' ≡ fds w) × (terminal w' ≡ terminal w)

  -- The new settings are in effect, or nothing has changed.
  abbrev pub IsApplied : Termios → W → Result ℕ × W → Type 0
  IsApplied t w (ok rc, w') = (fds w' ≡ fds w) × (terminal w' ≡ t)
  IsApplied t w (err e, w') = (fds w' ≡ fds w) × (terminal w' ≡ terminal w)

-- `tcgetattr` fills the structure with the settings, or fails and leaves it as it is.
abbrev pub IsGotten {ℓ} : {W : Type ℓ} → (W → Termios) → Termios → Result ℕ × Termios × W → Type 0
IsGotten terminal t (ok rc, t', w) = t' ≡ terminal w
IsGotten terminal t (err e, t', w) = t' ≡ t

-- `terminal` are the settings of the port's terminal, which outlast the descriptors.
pub record IsPort {ℓ} {W : Type ℓ} (sys : Serial W) (fds : W → List ℤ) (terminal : W → Termios)
    : Type ℓ where
  pub opens : (device : List ℕ) (w : W) → IsOpened fds terminal w (sys.open_device device w)
  pub closes : (s : ℤ) (w : W) (rest : List ℤ) → fds w ≡ s ∷ rest → fds (sys.close s w) ≡ rest
  pub close_keeps : (s : ℤ) (w : W) → terminal (sys.close s w) ≡ terminal w
  pub gets : (s : ℤ) (t : Termios) (w : W) → IsGotten terminal t (sys.tcgetattr s t w)
  pub get_keeps : (s : ℤ) (t : Termios) (w : W) → (sys.tcgetattr s t w).2 ≡ w
  pub sets : (s : ℤ) (t : Termios) (w : W) → IsApplied fds terminal t w (sys.tcsetattr s t w)

-- The speed is stored in the structure and nothing else is changed.
pub record IsSpeeds {ℓ} {W : Type ℓ} (sys : Serial W) : Type ℓ where
  pub sets_ispeed :
      (t : Termios) (speed : Speed) → sys.cfsetispeed t speed ≡ ok (record t { ispeed = speed })
  pub sets_ospeed :
      (t : Termios) (speed : Speed) → sys.cfsetospeed t speed ≡ ok (record t { ospeed = speed })
