-- ===== src/Base/Words.antt =====
-- Machine integers, their big-endian bytes, and the build profile that decides what an overflow
-- and a failed `debug_assert!` do.
use antarc.Shared.{
  ℕ, ◌+◌, ◌-◌, ◌*◌, ◌/◌, ◌%◌, ◌^◌, ◌<◌, ◌≡◌, Bool, true, false, List, [], ◌∷◌, arith, ltb, ◌==◌,
  if◌then◌else◌, Option, none, some, foldl,
}
use antarc.Base.Errors.{int_conversion}
use antarc.Base.Results.{Result, ok, err, panic}

-- The profile, and the checksum of the crate crc32fast.
pub record Build : Type 0 where
  pub debug_assertions : Bool
  pub crc32 : List ℕ → ℕ

-- What the code relies on: a checksum is a u32.
abbrev pub IsCrc32 : Build → Type 0
IsCrc32 b = (bytes : List ℕ) → b.crc32 bytes < 2 ^ 32

abbrev pub IsByte : ℕ → Type 0
IsByte x = x < 256

-- `debug_assert!`
abbrev pub debug_assert : Build → Bool → Result (Unit {0})
debug_assert b true = ok tt
debug_assert b false = if b.debug_assertions then panic else ok tt

-- `x + y` and `x - y` at an unsigned type of `m` values: an overflow panics with debug
-- assertions and wraps without.
unfoldable pub checked_sum : Build → ℕ → ℕ → ℕ → Result ℕ
checked_sum b m x y =
    if ltb (x + y) m then ok (x + y) else if b.debug_assertions then panic else ok ((x + y) % m)

pub checked_sum_ok : (b : Build) (m x y : ℕ) → x + y < m → checked_sum b m x y ≡ ok (x + y)
unfolding checked_sum
checked_sum_ok b m x y small = ground arith

unfoldable pub checked_difference : Build → ℕ → ℕ → ℕ → Result ℕ
checked_difference b m x y =
    if ltb x y then if b.debug_assertions then panic else ok (x + m - y) else ok (x - y)

-- `NonZeroU32::checked_add(1)` and `NonZeroU16::new(id + 1)`.
abbrev pub u32_mod : ℕ
u32_mod = 2 ^ 32

abbrev pub u16_mod : ℕ
u16_mod = 2 ^ 16

-- `checked_add(1)` at a `NonZeroU32`.
unfoldable pub checked_succ : ℕ → Option ℕ
checked_succ x = if ltb (x + 1) u32_mod then some (x + 1) else none

-- `TryFrom<u16> for NonZeroU16`, `TryFrom<u32> for NonZeroU32`.
unfoldable pub nonzero : ℕ → Result ℕ
nonzero x = if x == 0 then err int_conversion else ok x

-- `to_be_bytes`
abbrev pub u8_to_be_bytes : ℕ → List ℕ
u8_to_be_bytes x = (x % 256) ∷ []

abbrev pub u16_to_be_bytes : ℕ → List ℕ
u16_to_be_bytes x = (x / 256 % 256) ∷ (x % 256) ∷ []

abbrev pub u32_to_be_bytes : ℕ → List ℕ
u32_to_be_bytes x = (x / 16777216 % 256) ∷ (x / 65536 % 256) ∷ (x / 256 % 256) ∷ (x % 256) ∷ []

-- `from_be_bytes`
abbrev pub from_be_bytes : List ℕ → ℕ
from_be_bytes = foldl (λ acc x. acc * 256 + x) 0

pub from-u8_to_be_bytes : (x : ℕ) → x < 256 → from_be_bytes (u8_to_be_bytes x) ≡ x
from-u8_to_be_bytes x h = omega arith

pub from-u16_to_be_bytes : (x : ℕ) → x < u16_mod → from_be_bytes (u16_to_be_bytes x) ≡ x
from-u16_to_be_bytes x h = omega arith

pub from-u32_to_be_bytes : (x : ℕ) → x < u32_mod → from_be_bytes (u32_to_be_bytes x) ≡ x
from-u32_to_be_bytes x h = omega arith

-- Reading and writing again: any bytes are those of the number they spell.
pub u16-from_be_bytes :
    (p q : ℕ) → IsByte p → IsByte q → u16_to_be_bytes (from_be_bytes (p ∷ q ∷ [])) ≡ p ∷ q ∷ []
u16-from_be_bytes p q hp hq = ground arith

pub u32-from_be_bytes :
    (p q r s : ℕ)
    → IsByte p
    → IsByte q
    → IsByte r
    → IsByte s
    → u32_to_be_bytes (from_be_bytes (p ∷ q ∷ r ∷ s ∷ [])) ≡ p ∷ q ∷ r ∷ s ∷ []
u32-from_be_bytes p q r s hp hq hr hs = ground arith
