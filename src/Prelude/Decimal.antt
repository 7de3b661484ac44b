-- ===== src/Prelude/Decimal.antt =====
-- Integers in decimal: strconv.ParseInt, which strconv.Atoi is on a 64-bit machine, and strconv.Itoa.
use Prim.Native.Nat.{ℕ, zero, suc, ◌+◌, ◌-◌, ◌*◌, ◌/◌, ◌%◌, ◌^◌, ◌≤◌, ◌<◌}
use mathlib.Core.Path.{◌≡◌, refl, ap}
use mathlib.Core.Bool.{Bool, true, false}
use mathlib.Core.Option.{Option, none, some}
use mathlib.Core.List.{[], ◌∷◌}
use native.Mathlib.Omega.{arith}
use go_odata.Prelude.Tests.{ltb, leb, ◌==◌, if◌then◌else◌}
use go_odata.Prelude.Text.{Bytes, within}
use go_odata.Prelude.Int.{ℤ, pos, negsuc}

-- The value of decimal digits, or `none` where another byte stands among them.
unfoldable pub digits_value : ℕ → Bytes → Option ℕ
digits_value acc [] = some acc
digits_value acc (c ∷ cs) =
    if within b'0' b'9' c then digits_value (acc * 10 + (c - b'0')) cs else none

-- A magnitude as an int64.
abbrev to_int64 : Bool → ℕ → Option ℤ
to_int64 negative n =
    if negative
    then (if n == 0 then some (pos 0) else if leb n (2 ^ 63) then some (negsuc (n - 1)) else none)
    else if ltb n (2 ^ 63)
    then some (pos n)
    else none

unfoldable pub unsigned_int : Bool → Bytes → Option ℤ
unfolding digits_value
unsigned_int negative [] = none
unsigned_int negative (c ∷ cs) = elim (digits_value 0 (c ∷ cs)) [
  | none ↦ none
  | some n ↦ to_int64 negative n
]

-- `strconv.ParseInt(value, 10, 64)`.
unfoldable pub parse_int : Bytes → Option ℤ
unfolding unsigned_int
parse_int [] = none
parse_int (c ∷ cs) =
    if c == b'-'
    then unsigned_int true cs
    else if c == b'+'
    then unsigned_int false cs
    else unsigned_int false (c ∷ cs)

-- The digits in front of a text: a round for each, the last first. As many rounds as the number
-- says are enough.
unfoldable pub emit : ℕ → ℕ → Bytes → Bytes
emit zero n out = out
emit (suc f) n out =
    let rest = emit f (n / 10) ((b'0' + n % 10) ∷ out) in if n == 0 then out else rest

unfoldable pub print_nat : ℕ → Bytes
unfolding emit
print_nat n = if n == 0 then b'0' ∷ [] else emit n n []

-- `strconv.Itoa`
unfoldable pub itoa : ℤ → Bytes
unfolding print_nat
itoa (pos n) = print_nat n
itoa (negsuc n) = b'-' ∷ print_nat (n + 1)

-- The integers that an int64 has.
abbrev pub IsInt64 : ℤ → Type 0
IsInt64 (pos n) = n < 2 ^ 63
IsInt64 (negsuc n) = n < 2 ^ 63

pub digits_value-emit :
    (f n : ℕ) (out : Bytes) → n ≤ f → digits_value 0 (emit f n out) ≡ digits_value n out
unfolding emit digits_value
digits_value-emit zero n out h = ap (λ (k : ℕ). digits_value k out) (omega arith)
digits_value-emit (suc f) n out h =
    ground (arith, digits_value-emit f (n / 10) ((b'0' + n % 10) ∷ out))

pub digits_value-print_nat : (n : ℕ) → digits_value 0 (print_nat n) ≡ some n
unfolding print_nat digits_value
digits_value-print_nat n = ground (arith, digits_value-emit n n [])

-- A print starts with a digit.
abbrev pub StartsWithDigit : Bytes → Type 0
StartsWithDigit [] = ⊥
StartsWithDigit (c ∷ cs) = within b'0' b'9' c ≡ true

emit-StartsWithDigit :
    (f n : ℕ) (out : Bytes) → StartsWithDigit out → StartsWithDigit (emit f n out)
unfolding emit
emit-StartsWithDigit zero n out h = h
emit-StartsWithDigit (suc f) n out h =
    ground (arith, emit-StartsWithDigit f (n / 10) ((b'0' + n % 10) ∷ out), h)

pub print_nat-StartsWithDigit : (n : ℕ) → StartsWithDigit (print_nat n)
unfolding print_nat emit
print_nat-StartsWithDigit zero = refl
print_nat-StartsWithDigit (suc n) =
    ground (arith, emit-StartsWithDigit n (suc n / 10) ((b'0' + suc n % 10) ∷ []) (ground arith))

parse_int-digits :
    (s : Bytes) (n : ℕ)
    → StartsWithDigit s
    → digits_value 0 s ≡ some n
    → n < 2 ^ 63
    → parse_int s ≡ some (pos n)
unfolding parse_int unsigned_int
parse_int-digits [] n d e h = elim d [ ]
parse_int-digits (c ∷ cs) n d e h = ground (arith, d, e, h)

parse_int-minus :
    (s : Bytes) (n : ℕ)
    → StartsWithDigit s
    → digits_value 0 s ≡ some (n + 1)
    → n < 2 ^ 63
    → parse_int (b'-' ∷ s) ≡ some (negsuc n)
unfolding parse_int unsigned_int
parse_int-minus [] n d e h = elim d [ ]
parse_int-minus (c ∷ cs) n d e h = ground (arith, d, e, h)

-- What Itoa prints of an int64, Atoi reads.
pub parse_int-itoa : (z : ℤ) → IsInt64 z → parse_int (itoa z) ≡ some z
unfolding itoa
parse_int-itoa (pos n) h =
    parse_int-digits _ n (print_nat-StartsWithDigit n) (digits_value-print_nat n) h
parse_int-itoa (negsuc n) h =
    parse_int-minus _ n (print_nat-StartsWithDigit (n + 1)) (digits_value-print_nat (n + 1)) h
