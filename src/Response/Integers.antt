-- ===== src/Response/Integers.antt =====
-- internal/response/ordered_map.go: writeInt and writeUint. The digits go from the end of an array of
-- 20 bytes to its front; here they go in front of a text. An int64 is a number below 2^64 in two's
-- complement.
mod Examples
use native.Mathlib.Nat.{pow-zero, pow-suc}
use go_odata.Prelude.{
  ℕ, zero, suc, ◌+◌, ◌-◌, ◌*◌, ◌/◌, ◌%◌, ◌^◌, ◌≤◌, ◌<◌, Bool, true, false, List, [], ◌∷◌, Bytes,
  codes, Int64, ℤ, pos, negsuc, ltb, leb, ◌==◌, ◌&&◌, if◌then◌else◌, of_int64, ==_iff, emit,
  print_nat, itoa, length, ◌≡◌, refl, sym, ap, ◌∙◌, arith, Bool-cases, inl, inr,
}

-- The loop and the digit behind it. A number from `top` on is negative, so that the loop ends there;
-- the rounds are those that the array has room for.
unfoldable pub write_digits : ℕ → ℕ → ℕ → Bytes → Bytes
write_digits top zero v out = out
write_digits top (suc f) v out =
    let rest = write_digits top f (v / 10) ((b'0' + v % 10) % 256 ∷ out) in
    if leb 10 v && ltb v top then rest else (b'0' + v) % 256 ∷ out

-- `-v`, of an int64.
abbrev negated : Int64 → Int64
negated v = (2 ^ 64 - v) % 2 ^ 64

unfoldable pub write_int : Int64 → Bytes
write_int v =
    if leb (2 ^ 63) v
    then b'-' ∷ write_digits (2 ^ 63) 19 (negated v) []
    else write_digits (2 ^ 63) 19 v []

unfoldable pub write_uint : ℕ → Bytes
write_uint v = write_digits (2 ^ 64) 20 v []

emit_zero : (g : ℕ) (out : Bytes) → emit g 0 out ≡ out
unfolding emit
emit_zero zero out = refl
emit_zero (suc g) out = refl

goes_on : (top v : ℕ) → leb 10 v ≡ true → v < top → (leb 10 v && ltb v top) ≡ true
goes_on top v h t = ground arith

ends : (top v : ℕ) → leb 10 v ≡ false → (leb 10 v && ltb v top) ≡ false
ends top v h = rw h refl

digit_byte : (v : ℕ) → (b'0' + v % 10) % 256 ≡ b'0' + v % 10
digit_byte v = omega arith

last_digit : (v : ℕ) → leb 10 v ≡ false → (b'0' + v) % 256 ≡ b'0' + v % 10
last_digit v h = ground arith

not_zero : (v : ℕ) → 1 ≤ v → (v == 0) ≡ false
not_zero v h = ground arith

over_ten : (v : ℕ) → leb 10 v ≡ false → v / 10 ≡ 0
over_ten v h = ground arith

from_ten : (v : ℕ) → leb 10 v ≡ true → 10 ≤ v
from_ten v h = ground arith

write_digits-emit :
    (top f v g : ℕ) (out : Bytes)
    → v < 10 ^ f
    → v < top
    → 1 ≤ v
    → v ≤ g
    → write_digits top f v out ≡ emit g v out
unfolding write_digits emit
write_digits-emit top zero v g out h t p q =
    let absurd : ⊥ = omega (arith, h, pow-zero 10, p) in elim absurd [ ]
write_digits-emit top (suc f) v zero out h t p q = let absurd : ⊥ = omega arith in elim absurd [ ]
write_digits-emit top (suc f) v (suc g) out h t p q = elim (Bool-cases (leb 10 v)) [
  | inl b ↦
      let ten = from_ten v b in
      rw (goes_on top v b t, not_zero v p, digit_byte v)
        (write_digits-emit top f (v / 10) g ((b'0' + v % 10) ∷ out) (omega (arith, h, pow-suc 10 f))
          (omega arith) (omega (arith, ten)) (omega arith))
  | inr b ↦
      rw (ends top v b, not_zero v p, last_digit v b, over_ten v b)
        (sym (emit_zero g ((b'0' + v % 10) ∷ out)))
]

length-write_digits :
    (top f v : ℕ) (out : Bytes) → length (write_digits top f v out) ≤ f + length out
unfolding write_digits
length-write_digits top zero v out = omega arith
length-write_digits top (suc f) v out =
    let rest = length-write_digits top f (v / 10) ((b'0' + v % 10) % 256 ∷ out) in
    elim (Bool-cases (leb 10 v && ltb v top)) [
      | inl b ↦ rw b (omega (arith, rest))
      | inr b ↦ rw b (omega arith)
    ]

write_digits-print_nat :
    (top f v : ℕ) → v < 10 ^ suc f → v < top → write_digits top (suc f) v [] ≡ print_nat v
unfolding write_digits print_nat emit
write_digits-print_nat top f zero h t = refl
write_digits-print_nat top f (suc v) h t =
    write_digits-emit top (suc f) (suc v) (suc v) [] h t (omega arith) (omega arith)
    ∙ rw (not_zero (suc v) (omega arith)) refl

-- What writeInt writes.
abbrev pub int_text : Int64 → Bytes
int_text v = if v == 2 ^ 63 then codes "-0" else itoa (of_int64 v)

below_half : (v : ℕ) → leb (2 ^ 63) v ≡ false → ltb v 0x8000000000000000 ≡ true
below_half v h = ground arith

from_half : (v : ℕ) → leb (2 ^ 63) v ≡ true → ltb v 0x8000000000000000 ≡ false
from_half v h = ground arith

below_top : (v : ℕ) → leb (2 ^ 63) v ≡ false → (v == 2 ^ 63) ≡ false
below_top v h = ground arith

is_below : (v : ℕ) → leb (2 ^ 63) v ≡ false → v < 2 ^ 63
is_below v h = ground arith

negated_lem : (v : ℕ) → v < 2 ^ 64 → leb (2 ^ 63) v ≡ true → 0xffffffffffffffff - v + 1 ≡ negated v
negated_lem v k h = ground arith

negated_lt :
    (v : ℕ) → v < 2 ^ 64 → leb (2 ^ 63) v ≡ true → (v == 2 ^ 63) ≡ false → negated v < 2 ^ 63
negated_lt v k h e = ground arith

digits_enough : (v : ℕ) → v < 2 ^ 63 → v < 10 ^ 19
digits_enough v h = omega arith

int_text_positive : (v : Int64) → leb (2 ^ 63) v ≡ false → int_text v ≡ print_nat v
unfolding itoa
int_text_positive v h = rw (below_top v h, below_half v h) refl

int_text_negative :
    (v : Int64)
    → v < 2 ^ 64
    → leb (2 ^ 63) v ≡ true
    → (v == 2 ^ 63) ≡ false
    → int_text v ≡ b'-' ∷ print_nat (negated v)
unfolding itoa
int_text_negative v k h e = rw (e, from_half v h) (ap (λ n. b'-' ∷ print_nat n) (negated_lem v k h))

least_text : write_int (2 ^ 63) ≡ int_text (2 ^ 63)
unfolding write_int write_digits
least_text = refl

write_int_lem : (v : Int64) → v < 2 ^ 64 → write_int v ≡ int_text v
unfolding write_int
write_int_lem v h = elim (Bool-cases (leb (2 ^ 63) v)) [
  | inr b ↦
      rw b (write_digits-print_nat (2 ^ 63) 18 v (digits_enough v (is_below v b)) (is_below v b))
      ∙ sym (int_text_positive v b)
  | inl b ↦ elim (Bool-cases (v == 2 ^ 63)) [
    | inl e ↦ rw ((==_iff v (2 ^ 63)).0 e) least_text
    | inr e ↦ rw b (
        ap (λ s. b'-' ∷ s)
          (write_digits-print_nat (2 ^ 63) 18 (negated v)
            (digits_enough (negated v) (negated_lt v h b e)) (negated_lt v h b e))
        ∙ sym (int_text_negative v h b e))
  ]
]

length-write_int : (v : Int64) → length (write_int v) ≤ 20
unfolding write_int
length-write_int v = elim (Bool-cases (leb (2 ^ 63) v)) [
  | inl b ↦ rw b (omega (arith, length-write_digits (2 ^ 63) 19 (negated v) []))
  | inr b ↦ rw b (omega (arith, length-write_digits (2 ^ 63) 19 v []))
]

-- For every int64, writeInt writes what Itoa does, but for the least one, -2^63, for which it writes
-- -0. For every number below 2^64, writeUint writes what FormatUint does. Neither text is longer than
-- the array of 20 bytes.
pub write_int-itoa :
    (v : ℕ)
    → v < 2 ^ 64
    → (write_int v ≡ (if v == 2 ^ 63 then codes "-0" else itoa (of_int64 v)))
      × (write_uint v ≡ print_nat v)
      × (length (write_int v) ≤ 20)
      × (length (write_uint v) ≤ 20)
unfolding write_uint
write_int-itoa v h = (
  write_int_lem v h,
  write_digits-print_nat (2 ^ 64) 19 v (omega arith) h,
  length-write_int v,
  length-write_digits (2 ^ 64) 20 v [],
)
