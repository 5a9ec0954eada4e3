-- ===== src/Base/Words.antt =====
-- Machine words as native numbers: an `int` or `unsigned int` is its bit pattern below 2 ^ 32, a
-- `uint64_t` a number below 2 ^ 64. Every sum and difference wraps.
use Prim.Native.Nat.{ℕ, ◌+◌, ◌-◌, ◌*◌, ◌/◌, ◌%◌, ◌^◌, ◌<◌}
use mathlib.Core.Path.{◌≡◌}
use mathlib.Core.Bool.{Bool}
use mathlib.Core.List.{List, [], ◌∷◌, ◌++◌}
use native.Mathlib.Omega.{arith}
use eudaq_ahcal.Base.Tests.{ltb, leb, if◌then◌else◌}

abbrev pub add32 : ℕ → ℕ → ℕ
add32 a b = (a + b) % 2 ^ 32

abbrev pub sub32 : ℕ → ℕ → ℕ
sub32 a b = (a + 2 ^ 32 - b) % 2 ^ 32

abbrev pub add64 : ℕ → ℕ → ℕ
add64 a b = (a + b) % 2 ^ 64

abbrev pub sub64 : ℕ → ℕ → ℕ
sub64 a b = (a + 2 ^ 64 - b) % 2 ^ 64

-- Division of an `int64_t` by a positive `int`, towards zero.
abbrev pub sdiv64 : ℕ → ℕ → ℕ
sdiv64 a b = if ltb a (2 ^ 63) then a / b else sub64 0 (sub64 0 a / b)

-- The `uint64_t` that an `int` is converted to.
abbrev pub from_int : ℕ → ℕ
from_int w = if ltb w (2 ^ 31) then w else w + 2 ^ 64 - 2 ^ 32

abbrev pub mul32 : ℕ → ℕ → ℕ
mul32 a b = a * b % 2 ^ 32

abbrev pub mul64 : ℕ → ℕ → ℕ
mul64 a b = a * b % 2 ^ 64

-- The place of an `int` in the signed order.
abbrev pub int_rank : ℕ → ℕ
int_rank w = (w + 2 ^ 31) % 2 ^ 32

-- a < b and a <= b on `int`.
abbrev pub slt : ℕ → ℕ → Bool
slt a b = ltb (int_rank a) (int_rank b)

abbrev pub sle : ℕ → ℕ → Bool
sle a b = leb (int_rank a) (int_rank b)

-- The `int` that an `int16_t`, an `int8_t` is promoted to.
abbrev pub from_int16 : ℕ → ℕ
from_int16 w = if ltb w (2 ^ 15) then w else w + 2 ^ 32 - 2 ^ 16

abbrev pub from_int8 : ℕ → ℕ
from_int8 w = if ltb w (2 ^ 7) then w else w + 2 ^ 32 - 2 ^ 8

abbrev pub minus_one : ℕ
minus_one = 2 ^ 32 - 1

abbrev pub sum64 : List ℕ → ℕ
sum64 [] = 0
sum64 (x ∷ xs) = add64 x (sum64 xs)

pub sum64-lt : (xs : List ℕ) → sum64 xs < 2 ^ 64
sum64-lt [] = omega arith
sum64-lt (x ∷ xs) = omega arith

pub sum64-append : (xs ys : List ℕ) → sum64 (xs ++ ys) ≡ add64 (sum64 xs) (sum64 ys)
sum64-append [] ys = omega (arith, sum64-lt ys)
sum64-append (x ∷ xs) ys = omega (arith, sum64-append xs ys)
