-- ===== src/Frontend/Rfb/Format.antt =====
-- src/frontend/rfb.rs: PixelFormat on the wire, and pixels in a format.
use kvm_rust.Base.{
  Bool, List, [], arith, as_num, false, if◌then◌else◌, length, length-append, length-take, ok, refl,
  take, true, u32, u8, ℕ, ◌%◌, ◌*◌, ◌/=◌, ◌/◌, ◌<<<◌, ◌<◌, ◌>>>◌, ◌^◌, ◌∙◌, ◌∷◌, ◌≡◌,
}
use kvm_rust.Frontend.Rfb.{
  PixelFormat, from_bytes, to_bytes, bytes_per_pixel, supported, placed, reverse, encode, be16,
}

-- The fields are bytes, and the maxima 16-bit numbers.
pub record IsFormat (f : PixelFormat) : Type 0 where
  pub max_red : f.max.red < 2 ^ 16
  pub max_green : f.max.green < 2 ^ 16
  pub max_blue : f.max.blue < 2 ^ 16

be16_lem : (v : ℕ) → v < 2 ^ 16 → be16 (u8 (v / 256)) (u8 v) ≡ v
be16_lem v h = omega arith

bit_back : (b : Bool) → (as_num b /= 0) ≡ b
bit_back true = refl
bit_back false = refl

length-reverse : (bs : List ℕ) → length (reverse bs) ≡ length bs
length-reverse [] = refl
length-reverse (b ∷ bs) = omega (arith, length-append (reverse bs) (b ∷ []), length-reverse bs)

-- A format sent to a client is 16 bytes long, and read back it is the same format.
pub from_bytes-to_bytes :
    (f : PixelFormat) → IsFormat f → (length (to_bytes f) ≡ 16) × (from_bytes (to_bytes f) ≡ f)
unfolding from_bytes to_bytes
from_bytes-to_bytes f v = (
  refl,
  ground (
    arith,
    bit_back f.big_endian,
    bit_back f.true_colour,
    be16_lem f.max.red v.max_red,
    be16_lem f.max.green v.max_green,
    be16_lem f.max.blue v.max_blue,
  ),
)

placed-ok :
    (component top by : ℕ)
    → by < 32
    → placed component top by ≡ ok (u32 ((component * top / 255) <<< by))
unfolding placed
placed-ok component top by h = ground arith

length_used :
    (f : PixelFormat) (b0 b1 b2 b3 : ℕ)
    → supported f ≡ true
    → length (take (bytes_per_pixel f) (b0 ∷ b1 ∷ b2 ∷ b3 ∷ [])) ≡ bytes_per_pixel f
unfolding supported
length_used f b0 b1 b2 b3 s =
    let four = length-take (bytes_per_pixel f) (b0 ∷ b1 ∷ b2 ∷ b3 ∷ []) in ground (arith, four)

length-order :
    (big_endian : Bool) (used : List ℕ)
    → length (if big_endian then reverse used else used) ≡ length used
length-order true used = length-reverse used
length-order false used = refl

-- A pixel takes the bytes that its format says: in a supported format with shifts below 32, encoding
-- any colour succeeds and gives as many bytes as the format has per pixel.
pub encode_lem :
    (f : PixelFormat) (rgb : ℕ)
    → supported f ≡ true
    → f.shift.red < 32
    → f.shift.green < 32
    → f.shift.blue < 32
    → (bytes : List ℕ) × (encode f rgb ≡ ok bytes) × (length bytes ≡ bytes_per_pixel f)
unfolding encode
encode_lem f rgb s hr hg hb =
    let red = placed-ok ((rgb >>> 16) % 256) f.max.red f.shift.red hr in
    let green = placed-ok ((rgb >>> 8) % 256) f.max.green f.shift.green hg in
    let blue = placed-ok (rgb % 256) f.max.blue f.shift.blue hb in
    rw (red, green, blue) (_, refl, length-order f.big_endian _ ∙ length_used f _ _ _ _ s)
