-- ===== src/Prelude/Int.antt =====
-- Signed integers over the native numbers, and the int64 of Go.
use Prim.Native.Nat.{ℕ, ◌+◌, ◌-◌, ◌%◌, ◌^◌}
use mathlib.Core.Bool.{Bool, true, false}
use go_odata.Prelude.Tests.{ltb, if◌then◌else◌, ◌==◌}

-- `negsuc n` is -(n + 1).
pub data ℤ : Type 0 where
  pos : ℕ → ℤ
  negsuc : ℕ → ℤ

-- An int64 in two's complement, as a number below 2^64.
abbrev pub Int64 : Type 0
Int64 = ℕ

-- The number that an int64 stands for.
abbrev pub of_int64 : Int64 → ℤ
of_int64 n = if ltb n 0x8000000000000000 then pos n else negsuc (0xffffffffffffffff - n)

abbrev pub increment : Int64 → Int64
increment v = (v + 1) % 2 ^ 64

abbrev pub decrement : Int64 → Int64
decrement v = (v + 0xffffffffffffffff) % 2 ^ 64

-- `a < b`, with signs.
abbrev pub less : Int64 → Int64 → Bool
less a b = ltb ((a + 2 ^ 63) % 2 ^ 64) ((b + 2 ^ 63) % 2 ^ 64)

abbrev pub int_less : ℤ → ℤ → Bool
int_less (pos a) (pos b) = ltb a b
int_less (pos a) (negsuc b) = false
int_less (negsuc a) (pos b) = true
int_less (negsuc a) (negsuc b) = ltb b a

abbrev pub int_eq : ℤ → ℤ → Bool
int_eq (pos a) (pos b) = a == b
int_eq (negsuc a) (negsuc b) = a == b
int_eq _ _ = false
