-- ===== src/Prelude/Words.antt =====
-- Machine words: arithmetic with its wrap-around written out, and little-endian bytes.
use Prim.Native.Nat.{ℕ, ◌+◌, ◌*◌, ◌/◌, ◌%◌, ◌≤◌, ◌<◌}
use mathlib.Core.Path.{◌≡◌}
use native.Mathlib.Omega.{arith}

abbrev pub u32_max : ℕ
u32_max = 0xffff_ffff

abbrev pub u64_max : ℕ
u64_max = 0xffff_ffff_ffff_ffff

abbrev pub IsByte : ℕ → Type 0
IsByte x = x < 256

abbrev pub IsU32 : ℕ → Type 0
IsU32 x = x < 0x1_0000_0000

abbrev pub IsU64 : ℕ → Type 0
IsU64 x = x < 0x1_0000_0000_0000_0000

-- Products and sums in `std::size_t` or `std::uint64_t`.
abbrev pub mul64 : ℕ → ℕ → ℕ
mul64 a b = a * b % 0x1_0000_0000_0000_0000

abbrev pub add64 : ℕ → ℕ → ℕ
add64 a b = (a + b) % 0x1_0000_0000_0000_0000

abbrev pub add32 : ℕ → ℕ → ℕ
add32 a b = (a + b) % 0x1_0000_0000

pub fits_u64 : (a b : ℕ) → IsU32 a → IsU32 b → a * b ≤ u64_max
fits_u64 a b ha hb = grind arith

pub mul64_u32 : (a b : ℕ) → IsU32 a → IsU32 b → mul64 a b ≡ a * b
mul64_u32 a b ha hb = grind arith

-- The test `b != 0 && a > max / b` rules a wrap out.
pub mul64_checked : (a b : ℕ) → a ≤ u64_max / b → 0 < b → mul64 a b ≡ a * b
mul64_checked a b h p = grind arith

pub checked_fits : (a b : ℕ) → a ≤ u64_max / b → 0 < b → a * b ≤ u64_max
checked_fits a b h p = grind arith
