-- ===== src/Arch/I8042/Keymap/Codes.antt =====
-- src/arch/x86_64/i8042.rs: the scancodes of keysym_to_set1.
use mathlib.Core.Option
use kvm_rust.Base.{
  All, Bool, List, Option, Option-cases, [], all_below, all_below_sound, arith, false,
  if◌then◌else◌, inl, inr, ltb, none, not, refl, some, true, within, ℕ, ◌&&◌, ◌+◌, ◌<◌, ◌==◌, ◌||◌,
  ◌∷◌, ◌≡◌,
}
use kvm_rust.Arch.I8042.Keymap.{
  keysym_to_set1, letter_code, key_lookup, function_or_extended, plain_keys, last_keys,
  extended_keys, named_key,
}

-- A make code: not zero, and below the 0x80 that marks a release.
abbrev pub IsMake : ℕ → Type 0
IsMake code = (0 < code) × (code < 0x80)

key_lookup-IsMake :
    (k : ℕ) (arms : List (ℕ × ℕ)) (code : ℕ)
    → All (λ arm. IsMake arm.1) arms
    → key_lookup k arms ≡ some code
    → IsMake code
unfolding key_lookup
key_lookup-IsMake k [] code all e = cc
key_lookup-IsMake k ((j, c) ∷ arms) code all e = ground (arith, key_lookup-IsMake k arms code all.1)

abbrev is_letter : ℕ → Bool
is_letter k = within 0x41 0x5a k || within 0x61 0x7a k

make_or_other : ℕ → Bool
make_or_other k =
    if is_letter k
    then elim (letter_code k) [ none ↦ false | some code ↦ ltb 0 code && ltb code 0x80 ]
    else true

letters_make : all_below 0x7b make_or_other ≡ true
unfolding all_below letter_code make_or_other
letters_make = refl

letter_code-IsMake : (k code : ℕ) → is_letter k ≡ true → letter_code k ≡ some code → IsMake code
letter_code-IsMake k code h e =
    let t : make_or_other k ≡ true =
      all_below_sound 0x7b make_or_other k letters_make (ground arith) in
    unfold make_or_other in ground arith

function_or_extended-IsMake :
    (k : ℕ) (ext : Bool) (code : ℕ) → function_or_extended k ≡ some (ext, code) → IsMake code
unfolding function_or_extended
function_or_extended-IsMake k ext code e = ground (
  arith,
  key_lookup-IsMake k last_keys code (omega arith),
  key_lookup-IsMake k extended_keys code (omega arith),
)

named_key-IsMake : (k : ℕ) (ext : Bool) (code : ℕ) → named_key k ≡ some (ext, code) → IsMake code
unfolding named_key
named_key-IsMake k ext code e = elim (Option-cases (key_lookup k plain_keys)) [
  | inl none_there ↦ ground (arith, function_or_extended-IsMake k ext code)
  | inr (c, there) ↦ ground (arith, key_lookup-IsMake k plain_keys c (omega arith) there)
]

-- Every keysym that has a scancode has a make code: not zero, and below 0x80, so the break code
-- that sets bit 7 is another byte.
pub keysym_to_set1-IsMake :
    (k : ℕ) (ext : Bool) (code : ℕ) → keysym_to_set1 k ≡ some (ext, code) → IsMake code
unfolding keysym_to_set1
keysym_to_set1-IsMake k ext code e =
    ground (arith, letter_code-IsMake k code, named_key-IsMake k ext code)

-- The codes of two keys, as a test that both are there and equal.
abbrev same_code : Option ℕ → Option ℕ → Bool
same_code none o = false
same_code (some c) none = false
same_code (some c) (some d) = c == d

letter_cases : ℕ → Bool
letter_cases i = same_code (letter_code (0x41 + i)) (letter_code (0x61 + i))

letter_cases_table : all_below 26 letter_cases ≡ true
unfolding all_below letter_code letter_cases
letter_cases_table = refl

distinct_from : ℕ → ℕ → Bool
distinct_from i j = (i == j) || not (same_code (letter_code (0x61 + i)) (letter_code (0x61 + j)))

distinct_row : ℕ → Bool
distinct_row i = all_below 26 (distinct_from i)

distinct_table : all_below 26 distinct_row ≡ true
unfolding all_below letter_code distinct_row distinct_from
distinct_table = refl

distinct_letters : (i j : ℕ) → i < 26 → j < 26 → distinct_from i j ≡ true
unfolding distinct_row
distinct_letters i j hi hj =
    all_below_sound 26 (distinct_from i) j (all_below_sound 26 distinct_row i distinct_table hi) hj

keysym_letter :
    (k : ℕ)
    → is_letter k ≡ true
    → keysym_to_set1 k ≡ Option.map (λ code. (false, code)) (letter_code k)
unfolding keysym_to_set1
keysym_letter k h = ground arith

same_key-IsSome : (a b : Option ℕ) → same_code a b ≡ true → (c : ℕ) × (a ≡ some c) × (b ≡ some c)
same_key-IsSome none b h = cc
same_key-IsSome (some c) none h = cc
same_key-IsSome (some c) (some d) h = (c, refl, ground arith)

letter_key :
    (i : ℕ)
    → i < 26
    → (c : ℕ) × (letter_code (0x41 + i) ≡ some c) × (letter_code (0x61 + i) ≡ some c)
unfolding letter_cases
letter_key i h =
    same_key-IsSome (letter_code (0x41 + i)) (letter_code (0x61 + i))
      (all_below_sound 26 letter_cases i letter_cases_table h)

key_of_code :
    (k c : ℕ) → is_letter k ≡ true → letter_code k ≡ some c → keysym_to_set1 k ≡ some (false, c)
key_of_code k c h e = rw (keysym_letter k h, e)

-- Both cases of a letter type the same plain key, and no other letter does.
pub keysym_letters :
    (i j : ℕ)
    → i < 26
    → j < 26
    → ((code : ℕ) × (keysym_to_set1 (0x41 + i) ≡ some (false, code))
        × (keysym_to_set1 (0x61 + i) ≡ some (false, code)))
      × (keysym_to_set1 (0x61 + i) ≡ keysym_to_set1 (0x61 + j) → i ≡ j)
unfolding distinct_from
keysym_letters i j hi hj =
    let (c, up, low) = letter_key i hi in
    let (d, _, theirs) = letter_key j hj in
    (
      (c, key_of_code (0x41 + i) c (ground arith) up, key_of_code (0x61 + i) c (ground arith) low),
      λ e. ground (
        arith,
        distinct_letters i j hi hj,
        key_of_code (0x61 + i) c (ground arith) low,
        key_of_code (0x61 + j) d (ground arith) theirs,
      ),
    )
