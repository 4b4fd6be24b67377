-- ===== src/Util/Binary.antt =====
-- src/util/binary.rs: numbers and strings in byte slices.
pub mod RoundTrip
mod Tests
use kvm_rust.Base.{
  Bool, List, Option, Outcome, [], drop, err, get_elem?, if◌then◌else◌, invalid_data, leb, length,
  none, ok, other_error, panic, position, some, suc, take, u8, zero, ℕ, ◌*◌, ◌++◌, ◌+◌, ◌-◌, ◌/◌,
  ◌∷◌, ◌>>=◌, ◌>>◌,
}

-- `b[i]` and `b[lo..hi]`; an index out of range panics.
abbrev pub index : List ℕ → ℕ → Outcome ℕ
index b i = elim (get_elem? b i) [ none ↦ panic | some v ↦ ok v ]

abbrev pub slice : List ℕ → ℕ → ℕ → Outcome (List ℕ)
slice b lo hi =
    if leb lo hi
    then if leb hi (length b) then ok (take (hi - lo) (drop lo b)) else panic
    else panic

-- `b[lo..hi].copy_from_slice(bytes)`, for as many bytes as the slice holds.
abbrev pub copy_at : List ℕ → ℕ → List ℕ → Outcome (List ℕ)
copy_at b lo bytes =
    if leb (lo + length bytes) (length b)
    then ok (take lo b ++ (bytes ++ drop (lo + length bytes) b))
    else panic

-- `v.to_le_bytes()` for a number of `n` bytes, and `from_le_bytes`.
abbrev pub to_le_bytes : ℕ → ℕ → List ℕ
to_le_bytes zero v = []
to_le_bytes (suc n) v = u8 v ∷ to_le_bytes n (v / 256)

abbrev pub from_le_bytes : List ℕ → ℕ
from_le_bytes [] = 0
from_le_bytes (b ∷ bs) = b + 256 * from_le_bytes bs

-- The bytes that `read_unaligned` makes a `T` of, where `T` has `size` bytes.
unfoldable pub new_from : ℕ → List ℕ → ℕ → Option (List ℕ)
new_from size bytes o =
    if leb (o + size) (length bytes) then some (take size (drop o bytes)) else none

unfoldable pub read_le16 : List ℕ → ℕ → Outcome ℕ
read_le16 b o = do b0 ← index b o; b1 ← index b (o + 1); ok (from_le_bytes (b0 ∷ b1 ∷ []))

unfoldable pub read_le32 : List ℕ → ℕ → Outcome ℕ
read_le32 b o = do
  b0 ← index b o
  b1 ← index b (o + 1)
  b2 ← index b (o + 2)
  b3 ← index b (o + 3)
  ok (from_le_bytes (b0 ∷ b1 ∷ b2 ∷ b3 ∷ []))

unfoldable pub read_le64 : List ℕ → ℕ → Outcome ℕ
read_le64 b o = do bytes ← slice b o (o + 8); ok (from_le_bytes bytes)

unfoldable pub write_le16 : List ℕ → ℕ → ℕ → Outcome (List ℕ)
write_le16 b o val = copy_at b o (to_le_bytes 2 val)

unfoldable pub write_le32 : List ℕ → ℕ → ℕ → Outcome (List ℕ)
write_le32 b o val = copy_at b o (to_le_bytes 4 val)

unfoldable pub write_le64 : List ℕ → ℕ → ℕ → Outcome (List ℕ)
write_le64 b o val = copy_at b o (to_le_bytes 8 val)

-- The bytes before the first zero byte from `o` on. `is_utf8` is the standard library's check.
unfoldable pub read_string : (List ℕ → Bool) → List ℕ → ℕ → Outcome (List ℕ)
read_string is_utf8 b o = do
  tail ← slice b o (length b)
  end ← elim (position 0 tail) [ none ↦ err other_error | some i ↦ ok i ]
  text ← slice b o (o + end)
  if is_utf8 text then ok text else err invalid_data
