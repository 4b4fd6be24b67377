-- ===== src/Base/Words.antt =====
-- Machine words as native numbers. A word of w bits wraps by `% 2 ^ w`.
use Prim.Native.Nat.{ℕ, ◌-◌, ◌*◌, ◌/◌, ◌%◌, ◌^◌, bit_and}
use mathlib.Core.Bool.{Bool}
use kvm_rust.Base.Tests.{◌/=◌}

abbrev pub u8 : ℕ → ℕ
u8 n = n % 2 ^ 8

abbrev pub u16 : ℕ → ℕ
u16 n = n % 2 ^ 16

abbrev pub u32 : ℕ → ℕ
u32 n = n % 2 ^ 32

abbrev pub u64 : ℕ → ℕ
u64 n = n % 2 ^ 64

infixl 75 ◌<<<◌ ◌>>>◌
abbrev pub ◌<<<◌ : ℕ → ℕ → ℕ
n <<< k = n * 2 ^ k

abbrev pub ◌>>>◌ : ℕ → ℕ → ℕ
n >>> k = n / 2 ^ k

-- `n & mask != 0`
abbrev pub has : ℕ → ℕ → Bool
has n mask = bit_and n mask /= 0

-- `n & !mask` on a byte and on 32 bits.
abbrev pub clear8 : ℕ → ℕ → ℕ
clear8 n mask = bit_and n (0xff - mask)

abbrev pub clear32 : ℕ → ℕ → ℕ
clear32 n mask = bit_and n (0xffff_ffff - mask)
