-- ===== src/Vm/MemSize.antt =====
-- parse_mem_size of src/main.rs. A string is the list of its characters' code points.
pub mod Digits
mod Tests
use kvm_rust.Base.{
  Bool, List, Option, [], if◌then◌else◌, ltb, none, some, within, ℕ, ◌&&◌, ◌*◌, ◌+◌, ◌-◌, ◌==◌, ◌^◌,
  ◌||◌, ◌∷◌,
}

-- The ways in which it fails: an unknown suffix, a number that does not parse, and a size of 0 or one
-- that does not fit.
pub data SizeError : Type 0 where
  unknown_suffix invalid_number invalid_size : SizeError

pub data Parsed : Type 0 where
  size : ℕ → Parsed
  failed : SizeError → Parsed

-- `num.parse::<usize>()` from the digits on: each is checked, and so is each sum.
unfoldable pub parse_digits : ℕ → List ℕ → Option ℕ
parse_digits acc [] = some acc
parse_digits acc (c ∷ cs) =
    let rest = parse_digits (acc * 10 + (c - 0x30)) cs in
    if within 0x30 0x39 c && ltb (acc * 10 + (c - 0x30)) (2 ^ 64) then rest else none

-- A sign `+` may stand before the digits; an empty string, or a sign alone, is no number.
unfoldable pub parse_usize : List ℕ → Option ℕ
unfolding parse_digits
parse_usize [] = none
parse_usize (c ∷ []) = if c == 0x2b then none else parse_digits 0 (c ∷ [])
parse_usize (c ∷ b ∷ cs) =
    if c == 0x2b then parse_digits 0 (b ∷ cs) else parse_digits 0 (c ∷ b ∷ cs)

-- `is_ascii_alphabetic` and `to_ascii_uppercase`.
abbrev pub is_alphabetic : ℕ → Bool
is_alphabetic c = within 0x41 0x5a c || within 0x61 0x7a c

abbrev pub to_uppercase : ℕ → ℕ
to_uppercase c = if within 0x61 0x7a c then c - 0x20 else c

-- The last character, and those before it.
abbrev pub split_last : List ℕ → Option (List ℕ × ℕ)
split_last [] = none
split_last (c ∷ cs) = elim (split_last cs) [
  | none ↦ some ([], c)
  | some (front, last) ↦ some (c ∷ front, last)
]

-- The number's text and the unit, `K` where the last character is no letter.
abbrev pub unit_at : List ℕ → Option (List ℕ × ℕ) → List ℕ × ℕ
unit_at arg none = (arg, 0x4b)
unit_at arg (some (front, c)) = if is_alphabetic c then (front, to_uppercase c) else (arg, 0x4b)

abbrev pub split_unit : List ℕ → List ℕ × ℕ
split_unit arg = unit_at arg (split_last arg)

abbrev pub shift_of : ℕ → Option ℕ
shift_of unit =
    if unit == 0x4b
    then some 10
    else if unit == 0x4d
    then some 20
    else if unit == 0x47
    then some 30
    else none

-- `checked_mul(1 << shift)`, and sizes above 0 only.
abbrev pub sized : Option ℕ → ℕ → Parsed
sized none shift = failed invalid_number
sized (some num) shift =
    if ltb (num * 2 ^ shift) (2 ^ 64) && ltb 0 (num * 2 ^ shift)
    then size (num * 2 ^ shift)
    else failed invalid_size

unfoldable pub parse_number : List ℕ → Option ℕ → Parsed
unfolding parse_usize
parse_number num none = failed unknown_suffix
parse_number num (some shift) = sized (parse_usize num) shift

unfoldable pub parse_with : List ℕ × ℕ → Parsed
unfolding parse_number
parse_with (num, unit) = parse_number num (shift_of unit)

unfoldable pub parse_mem_size : List ℕ → Parsed
unfolding parse_with
parse_mem_size arg = parse_with (split_unit arg)
