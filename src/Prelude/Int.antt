-- ===== src/Prelude/Int.antt =====
-- C++ `int` as an integer in the range of 32 bits, and its two's complement pattern.
use Prim.Native.Nat.{ℕ, zero, suc, ◌+◌, ◌-◌, ◌%◌, ◌^◌, ◌≤◌, ◌<◌}
use mathlib.Core.Path.{◌≡◌, refl}
use mathlib.Core.Logic.{◌↔◌}
use mathlib.Core.Bool.{Bool, true, false}
use native.Mathlib.Omega.{arith}
use pa.Prelude.Tests.{ltb, ◌==◌, if◌then◌else◌}

-- `negsuc n` is -(n + 1).
pub data ℤ : Type 0 where
  pos : ℕ → ℤ
  negsuc : ℕ → ℤ

abbrev pub minus_one : ℤ
minus_one = negsuc 0

abbrev pub eq_int : ℤ → ℤ → Bool
eq_int (pos a) (pos b) = a == b
eq_int (pos a) (negsuc b) = false
eq_int (negsuc a) (pos b) = false
eq_int (negsuc a) (negsuc b) = a == b

-- `n >= 0`
abbrev pub is_nonneg : ℤ → Bool
is_nonneg (pos n) = true
is_nonneg (negsuc n) = false

abbrev pub pos_part : ℤ → ℕ
pos_part (pos n) = n
pos_part (negsuc n) = 0

-- The value lies in the range of a 32-bit `int`.
abbrev pub IsInt : ℤ → Type 0
IsInt (pos n) = n < 2 ^ 31
IsInt (negsuc n) = n < 2 ^ 31

-- The conversion of an `int` to `uint32_t`: the value modulo 2 ^ 32.
unfoldable pub to_word : ℤ → ℕ
to_word (pos n) = n % 2 ^ 32
to_word (negsuc n) = 2 ^ 32 - 1 - n % 2 ^ 32

-- The conversion of a `uint32_t` back to `int`.
unfoldable pub from_word : ℕ → ℤ
from_word w =
    if ltb (w % 2 ^ 32) (2 ^ 31) then pos (w % 2 ^ 32) else negsuc (2 ^ 32 - 1 - w % 2 ^ 32)

-- `n++` on an `int`, wrapped to 32 bits.
unfoldable pub inc : ℤ → ℤ
unfolding to_word from_word
inc n = from_word (to_word n + 1)

pub to_word-lt : (n : ℤ) → to_word n < 2 ^ 32
unfolding to_word
to_word-lt (pos n) = omega arith
to_word-lt (negsuc n) = omega arith

pub from_word-to_word : (n : ℤ) → IsInt n → from_word (to_word n) ≡ n
unfolding to_word from_word
from_word-to_word (pos n) h = ground arith
from_word-to_word (negsuc n) h = ground arith

pub from_word-IsInt : (w : ℕ) → IsInt (from_word w)
unfolding from_word
from_word-IsInt w = ground arith

pub eq_int_iff : (a b : ℤ) → (eq_int a b ≡ true) ↔ (a ≡ b)
eq_int_iff (pos a) (pos b) = ground arith
eq_int_iff (pos a) (negsuc b) = ground arith
eq_int_iff (negsuc a) (pos b) = ground arith
eq_int_iff (negsuc a) (negsuc b) = ground arith

-- `n - 1` as an integer: the index of the last of `n` things.
abbrev pub last_of : ℕ → ℤ
last_of zero = minus_one
last_of (suc n) = pos n

-- Subtracting one in `size_t` and narrowing to `int` gives that index.
pub from_word-size : (n : ℕ) → n ≤ 2 ^ 31 → from_word ((n + 2 ^ 64 - 1) % 2 ^ 64) ≡ last_of n
unfolding from_word
from_word-size zero h = refl
from_word-size (suc n) h =
    let e : (suc n + 2 ^ 64 - 1) % 2 ^ 64 % 2 ^ 32 ≡ n = omega arith in rw e (ground arith)

-- `n++` is exact below the largest `int`.
pub inc_pos : (n : ℕ) → n + 1 < 2 ^ 31 → inc (pos n) ≡ pos (n + 1)
unfolding inc to_word from_word
inc_pos n h = let e : (n % 2 ^ 32 + 1) % 2 ^ 32 ≡ n + 1 = omega arith in rw e (ground arith)
