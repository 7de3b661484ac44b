-- ===== src/Etag/Hex.antt =====
-- etag.go: the sixteen digits of a hash.
use go_odata.Prelude.{
  ℕ, zero, suc, ◌+◌, ◌-◌, ◌*◌, ◌/◌, ◌%◌, ◌^◌, ◌≤◌, ◌<◌, ◌≡◌, refl, sym, ap, ◌∙◌, List, [], ◌∷◌, map,
  none, some, arith, Bytes, leb, if◌then◌else◌, length, get_elem?, All,
}
use native.Mathlib.Nat.{div-div-eq-div-mul, pow-suc}
use go_odata.Etag.{hex_table, hex_digit, shifts, encode_hex16}

-- The value of a digit.
abbrev unhex : ℕ → ℕ
unhex c = if leb c b'9' then c - b'0' else c - 87

abbrev IsTable : ℕ → Bytes → Type 0
IsTable from [] = Unit
IsTable from (c ∷ cs) = (unhex c ≡ from) × IsTable (from + 1) cs

abbrev entry : Bytes → ℕ → ℕ
entry cs n = elim (get_elem? cs n) [ none ↦ 0 | some c ↦ c ]

unhex-entry :
    (from : ℕ) (cs : Bytes) (n : ℕ)
    → IsTable from cs
    → n < length cs
    → unhex (entry cs n) ≡ from + n
unhex-entry from [] n h l = absurd (omega arith)
unhex-entry from (c ∷ cs) zero h l = h.0 ∙ omega arith
unhex-entry from (c ∷ cs) (suc n) h l =
    unhex-entry (from + 1) cs n h.1 (omega (arith, l)) ∙ omega arith

unhex-hex_digit : (n : ℕ) → n < 16 → unhex (hex_digit n) ≡ n
unhex-hex_digit n h = unhex-entry 0 hex_table n table (omega (arith, h)) ∙ omega arith
  where
    table : IsTable 0 hex_table
    table = (
      refl,
      (
        refl,
        (
          refl,
          (
            refl,
            (
              refl,
              (
                refl,
                (refl, (refl, (refl, (refl, (refl, (refl, (refl, (refl, (refl, (refl, tt)))))))))),
              ),
            ),
          ),
        ),
      ),
    )

-- The shifts from the digit `n` down.
abbrev shifts_from : ℕ → List ℕ
shifts_from zero = []
shifts_from (suc n) = 4 * n ∷ shifts_from n

abbrev value : ℕ → Bytes → ℕ
value acc [] = acc
value acc (c ∷ cs) = value (acc * 16 + unhex c) cs

power : (a : ℕ) → 2 ^ (a + 4) ≡ 2 ^ a * 16
power a =
    let four : a + 4 ≡ suc (suc (suc (suc a))) = omega arith in
    ap (λ n. 2 ^ n) four
    ∙ pow-suc 2 (suc (suc (suc a)))
    ∙ ap (λ p. p * 2)
        (pow-suc 2 (suc (suc a))
          ∙ ap (λ p. p * 2) (pow-suc 2 (suc a) ∙ ap (λ p. p * 2) (pow-suc 2 a)))
    ∙ omega arith

next_digit : (v n : ℕ) → v / 2 ^ (4 * suc n) * 16 + v / 2 ^ (4 * n) % 16 ≡ v / 2 ^ (4 * n)
next_digit v n =
    let four : 4 * suc n ≡ 4 * n + 4 = omega arith in
    rw (four, power (4 * n), sym (div-div-eq-div-mul v (2 ^ (4 * n)) 16)) (omega arith)

value-digits :
    (n v : ℕ) → value (v / 2 ^ (4 * n)) (map (λ s. hex_digit (v / 2 ^ s % 16)) (shifts_from n)) ≡ v
value-digits zero v = omega arith
value-digits (suc n) v =
    let digit = unhex-hex_digit (v / 2 ^ (4 * n) % 16) (omega arith) in
    ap (λ acc. value acc (map (λ s. hex_digit (v / 2 ^ s % 16)) (shifts_from n)))
      (ap (λ d. v / 2 ^ (4 * suc n) * 16 + d) digit ∙ next_digit v n)
    ∙ value-digits n v

-- The sixteen digits of a number below 2^64 have its value, so equal digits come of equal numbers.
pub encode_hex16-injective :
    (v w : ℕ) → v < 2 ^ 64 → w < 2 ^ 64 → encode_hex16 v ≡ encode_hex16 w → v ≡ w
unfolding encode_hex16
encode_hex16-injective v w hv hw e = sym (from_zero v hv) ∙ ap (value 0) e ∙ from_zero w hw
  where
    from_zero : (v : ℕ) → v < 2 ^ 64 → value 0 (map (λ s. hex_digit (v / 2 ^ s % 16)) shifts) ≡ v
    from_zero v h =
        let none_above : v / 2 ^ 64 ≡ 0 = omega (arith, h) in rw none_above at (value-digits 16 v)

-- The bytes from 0 to f, between which the digits lie.
abbrev pub IsHex : ℕ → Type 0
IsHex c = (b'0' ≤ c) × (c ≤ b'f')

entry-IsHex : (cs : Bytes) (n : ℕ) → All IsHex cs → n < length cs → IsHex (entry cs n)
entry-IsHex [] n h l = absurd (omega arith)
entry-IsHex (c ∷ cs) zero h l = h.0
entry-IsHex (c ∷ cs) (suc n) h l = entry-IsHex cs n h.1 (omega (arith, l))

table-IsHex : All IsHex hex_table
table-IsHex = (
  (omega arith, omega arith),
  (
    (omega arith, omega arith),
    (
      (omega arith, omega arith),
      (
        (omega arith, omega arith),
        (
          (omega arith, omega arith),
          (
            (omega arith, omega arith),
            (
              (omega arith, omega arith),
              (
                (omega arith, omega arith),
                (
                  (omega arith, omega arith),
                  (
                    (omega arith, omega arith),
                    (
                      (omega arith, omega arith),
                      (
                        (omega arith, omega arith),
                        (
                          (omega arith, omega arith),
                          (
                            (omega arith, omega arith),
                            ((omega arith, omega arith), ((omega arith, omega arith), tt)),
                          ),
                        ),
                      ),
                    ),
                  ),
                ),
              ),
            ),
          ),
        ),
      ),
    ),
  ),
)

All-map :
    {A B : Type 0} (P : B → Type 0) (f : A → B) (xs : List A)
    → ((a : A) → P (f a))
    → All P (map f xs)
All-map P f [] h = tt
All-map P f (x ∷ xs) h = (h x, All-map P f xs h)

pub encode_hex16-IsHex : (v : ℕ) → All IsHex (encode_hex16 v)
unfolding encode_hex16
encode_hex16-IsHex v =
    All-map IsHex (λ s. hex_digit (v / 2 ^ s % 16)) shifts
      λ s. entry-IsHex hex_table (v / 2 ^ s % 16) table-IsHex (omega arith)
