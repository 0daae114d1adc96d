-- ===== src/Base/Machine.antt =====
-- Go's 64-bit `int` as its bit pattern, a number below 2 ^ 64: a pattern from 2 ^ 63 on stands for
-- the negative number 2 ^ 64 lower. Sums wrap; the order is that of the numbers stood for.
use Prim.Native.Nat.{ℕ, ◌+◌, ◌-◌, ◌%◌, ◌^◌, ◌<◌}
use mathlib.Core.Path.{◌≡◌, refl}
use mathlib.Core.Bool.{Bool, true, false}
use native.Mathlib.Omega.{arith}
use dllog.Base.Tests.{ltb, leb}

abbrev pub Int64 : Type 0
Int64 = ℕ

-- The largest `int`, plus one.
abbrev pub int_half : ℕ
int_half = 2 ^ 63

abbrev pub add_int : Int64 → Int64 → Int64
add_int a b = (a + b) % 2 ^ 64

-- -n, for n up to 2 ^ 63.
abbrev pub neg_int : ℕ → Int64
neg_int n = (2 ^ 64 - n) % 2 ^ 64

abbrev pub lt_int : Int64 → Int64 → Bool
lt_int a b = ltb ((a + 2 ^ 63) % 2 ^ 64) ((b + 2 ^ 63) % 2 ^ 64)

abbrev pub le_int : Int64 → Int64 → Bool
le_int a b = leb ((a + 2 ^ 63) % 2 ^ 64) ((b + 2 ^ 63) % 2 ^ 64)

-- On two numbers below 2 ^ 63 the tests are those of the numbers.
pub lt_int-pos : (a b : Int64) → a < int_half → b < int_half → lt_int a b ≡ ltb a b
lt_int-pos a b ha hb = ground arith

pub le_int-pos : (a b : Int64) → a < int_half → b < int_half → le_int a b ≡ leb a b
le_int-pos a b ha hb = ground arith

-- The two tests are one another's negation.
pub le_int_of_not_lt : (a b : Int64) → lt_int a b ≡ false → le_int b a ≡ true
le_int_of_not_lt a b h = ground arith

neg_order : lt_int (neg_int 4) 0 ≡ true
neg_order = refl
