-- ===== src/Arch/I8042/Keymap.antt =====
-- keysym_to_set1 of src/arch/x86_64/i8042.rs: X11 keysyms to scancode set 1.
pub mod Codes
use mathlib.Core.Option
use kvm_rust.Base.{
  Bool, List, Option, [], false, if◌then◌else◌, map, none, position, some, true, u8, within, ℕ, ◌+◌,
  ◌-◌, ◌==◌, ◌||◌, ◌∷◌,
}

abbrev pub row_qwerty : List ℕ
row_qwerty = b'q' ∷ b'w' ∷ b'e' ∷ b'r' ∷ b't' ∷ b'y' ∷ b'u' ∷ b'i' ∷ b'o' ∷ b'p' ∷ []

abbrev pub row_asdf : List ℕ
row_asdf = b'a' ∷ b's' ∷ b'd' ∷ b'f' ∷ b'g' ∷ b'h' ∷ b'j' ∷ b'k' ∷ b'l' ∷ []

abbrev pub row_zxcv : List ℕ
row_zxcv = b'z' ∷ b'x' ∷ b'c' ∷ b'v' ∷ b'b' ∷ b'n' ∷ b'm' ∷ []

-- `to_ascii_lowercase` of a byte.
abbrev pub to_ascii_lowercase : ℕ → ℕ
to_ascii_lowercase c = if within 0x41 0x5a c then c + 0x20 else c

-- The row of the letter decides; a byte in no row has no code.
unfoldable pub letter_code : ℕ → Option ℕ
letter_code keysym =
    let c = to_ascii_lowercase (u8 keysym) in
    elim (position c row_qwerty) [
      | some i ↦ some (0x10 + u8 i)
      | none ↦ elim (position c row_asdf) [
        | some i ↦ some (0x1e + u8 i)
        | none ↦ Option.map (λ i. 0x2c + u8 i) (position c row_zxcv)
      ]
    ]

-- The arms of the two matches that name single keysyms, in the order of the source.
abbrev pub plain_keys : List (ℕ × ℕ)
plain_keys =
    (0x21, 0x02)
    ∷ (0x40, 0x03)
    ∷ (0x23, 0x04)
    ∷ (0x24, 0x05)
    ∷ (0x25, 0x06)
    ∷ (0x5e, 0x07)
    ∷ (0x26, 0x08)
    ∷ (0x2a, 0x09)
    ∷ (0x28, 0x0a)
    ∷ (0x29, 0x0b)
    ∷ (0x2d, 0x0c)
    ∷ (0x5f, 0x0c)
    ∷ (0x3d, 0x0d)
    ∷ (0x2b, 0x0d)
    ∷ (0x5b, 0x1a)
    ∷ (0x7b, 0x1a)
    ∷ (0x5d, 0x1b)
    ∷ (0x7d, 0x1b)
    ∷ (0x3b, 0x27)
    ∷ (0x3a, 0x27)
    ∷ (0x27, 0x28)
    ∷ (0x22, 0x28)
    ∷ (0x60, 0x29)
    ∷ (0x7e, 0x29)
    ∷ (0x5c, 0x2b)
    ∷ (0x7c, 0x2b)
    ∷ (0x2c, 0x33)
    ∷ (0x3c, 0x33)
    ∷ (0x2e, 0x34)
    ∷ (0x3e, 0x34)
    ∷ (0x2f, 0x35)
    ∷ (0x3f, 0x35)
    ∷ (0x20, 0x39)
    ∷ (0xff1b, 0x01)
    ∷ (0xff08, 0x0e)
    ∷ (0xff09, 0x0f)
    ∷ (0xff0d, 0x1c)
    ∷ (0xffe3, 0x1d)
    ∷ (0xffe1, 0x2a)
    ∷ (0xffe2, 0x36)
    ∷ (0xffe9, 0x38)
    ∷ (0xffe5, 0x3a)
    ∷ []

abbrev pub last_keys : List (ℕ × ℕ)
last_keys = (0xffc8, 0x57) ∷ (0xffc9, 0x58) ∷ []

abbrev pub extended_keys : List (ℕ × ℕ)
extended_keys =
    (0xffe4, 0x1d)
    ∷ (0xffea, 0x38)
    ∷ (0xfe03, 0x38)
    ∷ (0xff50, 0x47)
    ∷ (0xff52, 0x48)
    ∷ (0xff55, 0x49)
    ∷ (0xff51, 0x4b)
    ∷ (0xff53, 0x4d)
    ∷ (0xff57, 0x4f)
    ∷ (0xff54, 0x50)
    ∷ (0xff56, 0x51)
    ∷ (0xff63, 0x52)
    ∷ (0xffff, 0x53)
    ∷ []

-- The first arm whose keysym it is.
unfoldable pub key_lookup : ℕ → List (ℕ × ℕ) → Option ℕ
key_lookup keysym [] = none
key_lookup keysym ((k, code) ∷ arms) = if keysym == k then some code else key_lookup keysym arms

-- The rest of the match, below the single keysyms: F1 to F10, F11, F12, and the extended keys.
unfoldable pub function_or_extended : ℕ → Option (Bool × ℕ)
function_or_extended keysym =
    if within 0xffbe 0xffc7 keysym
    then some (false, u8 (keysym - 0xffbe) + 0x3b)
    else elim (key_lookup keysym last_keys) [
      | some code ↦ some (false, code)
      | none ↦ Option.map (λ code. (true, code)) (key_lookup keysym extended_keys)
    ]

-- The match from the punctuation keys on.
unfoldable pub named_key : ℕ → Option (Bool × ℕ)
named_key keysym = elim (key_lookup keysym plain_keys) [
  | some code ↦ some (false, code)
  | none ↦ function_or_extended keysym
]

unfoldable pub keysym_to_set1 : ℕ → Option (Bool × ℕ)
keysym_to_set1 keysym =
    if keysym == 0x30
    then some (false, 0x0b)
    else if within 0x31 0x39 keysym
    then some (false, u8 keysym - 0x31 + 0x02)
    else if within 0x41 0x5a keysym || within 0x61 0x7a keysym
    then Option.map (λ code. (false, code)) (letter_code keysym)
    else named_key keysym
