-- ===== src/Frontend/Serial.antt =====
-- src/frontend/serial.rs: what the terminal passes on to the serial port, and when it stops the VM.
pub mod Escape
mod Tests
use kvm_rust.Base.{Bool, List, [], false, if◌then◌else◌, not, true, ℕ, ◌&&◌, ◌++◌, ◌==◌, ◌∷◌}

-- QUIT_BYTE, and the escape character.
abbrev pub quit_byte : ℕ
quit_byte = 0x78

abbrev pub escape : ℕ
escape = 0x01

-- What one byte does: whether the next one is escaped, the bytes sent, and whether it quits.
pub record Step : Type 0 where
  pub is_escape : Bool
  pub sent : List ℕ
  pub quits : Bool

unfoldable pub step : Bool → ℕ → Step
step is_escape b =
    if not is_escape && b == escape
    then record { is_escape = true; sent = []; quits = false }
    else if is_escape
    then (if b == quit_byte
        then record { is_escape = false; sent = []; quits = true }
        else if b == escape
        then record { is_escape = false; sent = b ∷ []; quits = false }
        else record { is_escape = false; sent = []; quits = false })
    else record { is_escape = false; sent = b ∷ []; quits = false }

-- The loop over the bytes of standard input: the bytes sent, and whether it ended by the quit byte.
-- The VM is stopped at its end in either case.
unfoldable pub start_tty : Bool → List ℕ → List ℕ × Bool
start_tty is_escape [] = ([], false)
start_tty is_escape (b ∷ bytes) =
    let s = step is_escape b in
    let (sent, quits) = start_tty s.is_escape bytes in
    if s.quits then ([], true) else (s.sent ++ sent, quits)
