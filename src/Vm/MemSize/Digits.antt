-- ===== src/Vm/MemSize/Digits.antt =====
-- parse_mem_size of src/main.rs on numbers in decimal digits.
use kvm_rust.Vm.MemSize.{
  Parsed, size, failed, invalid_number, invalid_size, parse_digits, parse_usize, split_last,
  split_unit, is_alphabetic, to_uppercase, shift_of, sized, parse_mem_size, parse_with,
  parse_number, unit_at,
}
use kvm_rust.Base.{
  All, Bool-cases, List, [], ap, arith, false, if◌then◌else◌, inl, inr, leb, ltb, ltb→lt, map, none,
  refl, some, subst, sym, true, ℕ, ◌&&◌, ◌*◌, ◌++◌, ◌+◌, ◌-◌, ◌<◌, ◌==◌, ◌^◌, ◌∙◌, ◌∷◌, ◌≡◌, ◌≤◌,
  ◌⊎◌,
}

-- The number that digits stand for, after others; it has no bound.
abbrev pub value_from : ℕ → List ℕ → ℕ
value_from acc [] = acc
value_from acc (d ∷ ds) = value_from (acc * 10 + d) ds

abbrev pub value : List ℕ → ℕ
value ds = value_from 0 ds

abbrev pub AreDigits : List ℕ → Type 0
AreDigits = All (λ d. d < 10)

-- Their characters.
abbrev pub text : List ℕ → List ℕ
text ds = map (λ d. 0x30 + d) ds

value_from-le : (acc : ℕ) (ds : List ℕ) → acc ≤ value_from acc ds
value_from-le acc [] = omega arith
value_from-le acc (d ∷ ds) = omega (arith, value_from-le (acc * 10 + d) ds)

digit_char : (d : ℕ) → 0x30 + d - 0x30 ≡ d
digit_char d = omega arith

parse_digits_lem :
    (acc : ℕ) (ds : List ℕ)
    → AreDigits ds
    → acc < 2 ^ 64
    → parse_digits acc (text ds)
      ≡ (if ltb (value_from acc ds) (2 ^ 64) then some (value_from acc ds) else none)
unfolding parse_digits
parse_digits_lem acc [] digits small = ground arith
parse_digits_lem acc (d ∷ ds) digits small =
    rw (digit_char d) (elim (Bool-cases (ltb (acc * 10 + d) (2 ^ 64))) [
      | inl fits ↦
          ground (
            arith,
            parse_digits_lem (acc * 10 + d) ds digits.1 (ltb→lt (acc * 10 + d) (2 ^ 64) fits),
          )
      | inr big ↦ ground (arith, value_from-le (acc * 10 + d) ds)
    ])

no_sign : (d : ℕ) → (0x30 + d == 0x2b) ≡ false
no_sign d = ground arith

-- A number without a sign.
parse_usize_lem :
    (d : ℕ) (ds : List ℕ)
    → AreDigits (d ∷ ds)
    → parse_usize (text (d ∷ ds))
      ≡ (if ltb (value (d ∷ ds)) (2 ^ 64) then some (value (d ∷ ds)) else none)
unfolding parse_usize
parse_usize_lem d [] digits = rw (no_sign d) (parse_digits_lem 0 (d ∷ []) digits (omega arith))
parse_usize_lem d (b ∷ ds) digits =
    rw (no_sign d) (parse_digits_lem 0 (d ∷ b ∷ ds) digits (omega arith))

split_last-append : (cs : List ℕ) (c : ℕ) → split_last (cs ++ c ∷ []) ≡ some (cs, c)
split_last-append [] c = refl
split_last-append (b ∷ cs) c = rw (split_last-append cs c) refl

-- What a number of so many bytes is taken as.
abbrev pub size_of : ℕ → ℕ → Parsed
size_of n shift =
    if leb (2 ^ 64) n
    then failed invalid_number
    else if ltb 0 n && ltb (n * 2 ^ shift) (2 ^ 64)
    then size (n * 2 ^ shift)
    else failed invalid_size

shift_cases :
    (unit shift : ℕ) → shift_of unit ≡ some shift → (shift ≡ 10) ⊎ (shift ≡ 20) ⊎ (shift ≡ 30)
shift_cases unit shift e = ground arith

abbrev SizesAt : ℕ → ℕ → Type 0
SizesAt n shift = sized (if ltb n (2 ^ 64) then some n else none) shift ≡ size_of n shift

sized_lem : (n shift unit : ℕ) → shift_of unit ≡ some shift → SizesAt n shift
sized_lem n shift unit e = elim (shift_cases unit shift e) [
  | inl k ↦ subst (SizesAt n) (sym k) (ground arith)
  | inr (inl m) ↦ subst (SizesAt n) (sym m) (ground arith)
  | inr (inr g) ↦ subst (SizesAt n) (sym g) (ground arith)
]

split_unit-append :
    (cs : List ℕ) (c : ℕ)
    → is_alphabetic c ≡ true
    → split_unit (cs ++ c ∷ []) ≡ (cs, to_uppercase c)
split_unit-append cs c letter =
    ap (unit_at (cs ++ c ∷ [])) (split_last-append cs c) ∙ rw letter refl

-- A size in decimal digits with a suffix K, M or G, large or small, is the number times 2^10, 2^20
-- or 2^30, computed without a bound; it fails where the number is 0, where it does not fit 64 bits,
-- or where the product does not.
pub parse_mem_size_lem :
    (d c shift : ℕ) (ds : List ℕ)
    → AreDigits (d ∷ ds)
    → is_alphabetic c ≡ true
    → shift_of (to_uppercase c) ≡ some shift
    → parse_mem_size (text (d ∷ ds) ++ c ∷ []) ≡ size_of (value (d ∷ ds)) shift
unfolding parse_mem_size parse_with parse_number
parse_mem_size_lem d c shift ds digits letter unit =
    ap parse_with (split_unit-append (text (d ∷ ds)) c letter)
    ∙ ap (parse_number (text (d ∷ ds))) unit
    ∙ ap (λ n. sized n shift) (parse_usize_lem d ds digits)
    ∙ sized_lem (value (d ∷ ds)) shift (to_uppercase c) unit
