-- ===== src/Frontend/Rfb.antt =====
-- src/frontend/rfb.rs: pixel formats, the handshake, and the client's messages.
pub mod Format
pub mod Session
pub mod Updates
mod Tests
use kvm_rust.Base.{
  Bool, List, Outcome, [], as_num, bit_or, false, get_or, if◌then◌else◌, leb, ok, panic, take, true,
  u32, u8, ℕ, ◌%◌, ◌&&◌, ◌*◌, ◌++◌, ◌+◌, ◌/=◌, ◌/◌, ◌<<<◌, ◌==◌, ◌>>>◌, ◌||◌, ◌∷◌, ◌>>=◌, ◌>>◌,
}

-- Three numbers, one for each colour.
pub record Triple : Type 0 where
  pub red : ℕ
  pub green : ℕ
  pub blue : ℕ

pub record PixelFormat : Type 0 where
  pub bits_per_pixel : ℕ
  pub depth : ℕ
  pub big_endian : Bool
  pub true_colour : Bool
  pub max : Triple
  pub shift : Triple

abbrev pub default_format : PixelFormat
default_format = record {
  bits_per_pixel = 32;
  depth = 24;
  big_endian = false;
  true_colour = true;
  max = record { red = 255; green = 255; blue = 255 };
  shift = record { red = 16; green = 8; blue = 0 };
}

-- `from_be_bytes` and `to_be_bytes` of 16 and 32 bits.
abbrev pub be16 : ℕ → ℕ → ℕ
be16 hi lo = hi * 256 + lo

abbrev pub be16_bytes : ℕ → List ℕ
be16_bytes v = u8 (v / 256) ∷ u8 v ∷ []

abbrev pub be32 : ℕ → ℕ → ℕ → ℕ → ℕ
be32 b0 b1 b2 b3 = be16 b0 b1 * 65536 + be16 b2 b3

abbrev pub be32_bytes : ℕ → List ℕ
be32_bytes v = be16_bytes (v / 65536) ++ be16_bytes v

-- Byte `i` of an array that has one.
abbrev pub byte_at : List ℕ → ℕ → ℕ
byte_at b i = get_or b i 0

unfoldable pub from_bytes : List ℕ → PixelFormat
from_bytes b = record {
  bits_per_pixel = byte_at b 0;
  depth = byte_at b 1;
  big_endian = byte_at b 2 /= 0;
  true_colour = byte_at b 3 /= 0;
  max = record {
    red = be16 (byte_at b 4) (byte_at b 5);
    green = be16 (byte_at b 6) (byte_at b 7);
    blue = be16 (byte_at b 8) (byte_at b 9);
  };
  shift = record { red = byte_at b 10; green = byte_at b 11; blue = byte_at b 12 };
}

unfoldable pub to_bytes : PixelFormat → List ℕ
to_bytes f =
    f.bits_per_pixel
    ∷ f.depth
    ∷ as_num f.big_endian
    ∷ as_num f.true_colour
    ∷ (be16_bytes f.max.red
        ++ be16_bytes f.max.green
        ++ be16_bytes f.max.blue
        ++ f.shift.red ∷ f.shift.green ∷ f.shift.blue ∷ 0 ∷ 0 ∷ 0 ∷ [])

abbrev pub bytes_per_pixel : PixelFormat → ℕ
bytes_per_pixel f = f.bits_per_pixel / 8

unfoldable pub supported : PixelFormat → Bool
supported f =
    f.true_colour && (f.bits_per_pixel == 8 || f.bits_per_pixel == 16 || f.bits_per_pixel == 32)

-- A component scaled and shifted; a shift of 32 or more panics, and bits shifted out are lost.
unfoldable pub placed : ℕ → ℕ → ℕ → Outcome ℕ
placed component top by = if leb 32 by then panic else ok (u32 ((component * top / 255) <<< by))

abbrev pub reverse : List ℕ → List ℕ
reverse [] = []
reverse (b ∷ bs) = reverse bs ++ b ∷ []

-- The bytes of one pixel.
unfoldable pub encode : PixelFormat → ℕ → Outcome (List ℕ)
encode f rgb = do
  r ← placed ((rgb >>> 16) % 256) f.max.red f.shift.red
  g ← placed ((rgb >>> 8) % 256) f.max.green f.shift.green
  b ← placed (rgb % 256) f.max.blue f.shift.blue
  let value = bit_or (bit_or r g) b
  let bytes = u8 value ∷ u8 (value / 256) ∷ u8 (value / 65536) ∷ u8 (value / 16777216) ∷ []
  let used = take (bytes_per_pixel f) bytes
  ok (if f.big_endian then reverse used else used)
