-- ===== src/Util/Binary/RoundTrip.antt =====
-- src/util/binary.rs: reading a number after writing it.
use native.Mathlib.Nat.{pow-suc}
use kvm_rust.Base.{
  List, [], ap, arith, drop, get_elem?, inl, inr, length, length-append, length-drop, length-take,
  ok, refl, some, suc, sym, take, zero, ℕ, ◌++◌, ◌+◌, ◌-◌, ◌/◌, ◌<◌, ◌^◌, ◌∙◌, ◌∷◌, ◌≡◌, ◌≤◌, ◌⊎◌,
}
use kvm_rust.Util.Binary.{index, copy_at, to_le_bytes, from_le_bytes, read_le32, write_le32}

pub from_le_bytes-to_le_bytes : (n v : ℕ) → v < 256 ^ n → from_le_bytes (to_le_bytes n v) ≡ v
from_le_bytes-to_le_bytes zero v h = omega arith
from_le_bytes-to_le_bytes (suc n) v h =
    omega
      (arith, pow-suc 256 n, from_le_bytes-to_le_bytes n (v / 256) (omega (arith, pow-suc 256 n)))

pub length-to_le_bytes : (n v : ℕ) → length (to_le_bytes n v) ≡ n
length-to_le_bytes zero v = refl
length-to_le_bytes (suc n) v = ap suc (length-to_le_bytes n (v / 256))

module _ {ℓ} {A : Type ℓ} where
  pub get_elem?-append_right :
      (xs ys : List A) (i n : ℕ) → length xs ≡ n → get_elem? (xs ++ ys) (n + i) ≡ get_elem? ys i
  get_elem?-append_right [] ys i n h = ap (get_elem? ys) (omega arith)
  get_elem?-append_right (x ∷ xs) ys i n h =
      let e : n + i ≡ suc (n - 1 + i) = omega arith in
      rw e (get_elem?-append_right xs ys i (n - 1) (omega arith))

  pub get_elem?-append_left :
      (xs ys : List A) (i : ℕ) → i < length xs → get_elem? (xs ++ ys) i ≡ get_elem? xs i
  get_elem?-append_left [] ys i h = absurd (omega arith)
  get_elem?-append_left (x ∷ xs) ys zero h = refl
  get_elem?-append_left (x ∷ xs) ys (suc i) h = get_elem?-append_left xs ys i (omega arith)

  pub get_elem?-take :
      (n : ℕ) (xs : List A) (i : ℕ) → i < n → get_elem? (take n xs) i ≡ get_elem? xs i
  get_elem?-take zero xs i h = absurd (omega arith)
  get_elem?-take (suc n) [] i h = refl
  get_elem?-take (suc n) (x ∷ xs) zero h = refl
  get_elem?-take (suc n) (x ∷ xs) (suc i) h = get_elem?-take n xs i (omega arith)

  pub get_elem?-drop :
      (n : ℕ) (xs : List A) (i : ℕ) → get_elem? (drop n xs) i ≡ get_elem? xs (n + i)
  get_elem?-drop zero xs i = ap (get_elem? xs) (omega arith)
  get_elem?-drop (suc n) [] i = refl
  get_elem?-drop (suc n) (x ∷ xs) i =
      let e : suc n + i ≡ suc (n + i) = omega arith in rw e (get_elem?-drop n xs i)

-- What `copy_at` leaves: the bytes from `o` on, and all others as they were.
module _ (b bytes : List ℕ) (o : ℕ) (fits : o + length bytes ≤ length b) where
  abbrev copied : List ℕ
  copied = take o b ++ (bytes ++ drop (o + length bytes) b)

  pub copy_at-ok : copy_at b o bytes ≡ ok copied
  copy_at-ok = ground arith

  length-taken : length (take o b) ≡ o
  length-taken = omega (arith, length-take o b)

  pub length-copied : length copied ≡ length b
  length-copied = omega (
    arith,
    length-append (take o b) (bytes ++ drop (o + length bytes) b),
    length-append bytes (drop (o + length bytes) b),
    length-take o b,
    length-drop (o + length bytes) b,
  )

  pub copied_inside : (i : ℕ) → i < length bytes → get_elem? copied (o + i) ≡ get_elem? bytes i
  copied_inside i h =
      get_elem?-append_right (take o b) (bytes ++ drop (o + length bytes) b) i o length-taken
      ∙ get_elem?-append_left bytes (drop (o + length bytes) b) i h

  pub copied_before : (i : ℕ) → i < o → get_elem? copied i ≡ get_elem? b i
  copied_before i h =
      get_elem?-append_left (take o b) _ i (omega (arith, length-taken)) ∙ get_elem?-take o b i h

  pub copied_after : (i : ℕ) → o + length bytes ≤ i → get_elem? copied i ≡ get_elem? b i
  copied_after i h =
      let e : i ≡ o + (length bytes + (i - (o + length bytes))) = omega arith in
      let e' : i ≡ o + length bytes + (i - (o + length bytes)) = omega arith in
      ap (get_elem? copied) e
      ∙ get_elem?-append_right (take o b) (bytes ++ drop (o + length bytes) b) _ o length-taken
      ∙ get_elem?-append_right bytes (drop (o + length bytes) b) _ (length bytes) refl
      ∙ get_elem?-drop (o + length bytes) b (i - (o + length bytes))
      ∙ ap (get_elem? b) (sym e')

  pub copied_outside :
      (i : ℕ) → (i < o) ⊎ (o + length bytes ≤ i) → get_elem? copied i ≡ get_elem? b i
  copied_outside i (inl h) = copied_before i h
  copied_outside i (inr h) = copied_after i h

  pub index-copied :
      (i j : ℕ) {v : ℕ}
      → get_elem? bytes i ≡ some v
      → i < length bytes
      → j ≡ o + i
      → index copied j ≡ ok v
  index-copied i j e h q = rw (q, index, copied_inside i h, e)

-- A 32-bit number written at an offset that leaves room for it is read back from there; the slice
-- keeps its length and every byte outside the four.
pub read_le32-write_le32 :
    (b : List ℕ) (o v : ℕ)
    → v < 2 ^ 32
    → o + 4 ≤ length b
    → (b' : List ℕ) × (write_le32 b o v ≡ ok b')
      × (read_le32 b' o ≡ ok v)
      × (length b' ≡ length b)
      × ((i : ℕ) → (i < o) ⊎ (o + 4 ≤ i) → get_elem? b' i ≡ get_elem? b i)
unfolding write_le32 read_le32
read_le32-write_le32 b o v hv hb = (
  copied b bytes o hb,
  copy_at-ok b bytes o hb,
  rw
      (
        index-copied b bytes o hb 0 o refl (omega arith) (omega arith),
        index-copied b bytes o hb 1 (o + 1) refl (omega arith) refl,
        index-copied b bytes o hb 2 (o + 2) refl (omega arith) refl,
        index-copied b bytes o hb 3 (o + 3) refl (omega arith) refl,
      )
      (ap ok (from_le_bytes-to_le_bytes 4 v hv)),
  length-copied b bytes o hb,
  copied_outside b bytes o hb,
)
  where
    bytes : List ℕ
    bytes = to_le_bytes 4 v
