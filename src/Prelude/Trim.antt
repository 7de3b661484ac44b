-- ===== src/Prelude/Trim.antt =====
-- What trimming leaves: the text without white space at its ends, which trimming again leaves alone.
use Prim.Native.Nat.{ℕ, ◌≤◌}
use mathlib.Core.Path.{◌≡◌, refl, sym, ap, subst, ◌∙◌}
use mathlib.Core.Logic.{inl, inr}
use mathlib.Core.Bool.{Bool, true, false}
use mathlib.Core.List.{[], ◌∷◌, ◌++◌, reverse, reverse-append, reverse-cons, reverse-reverse}
use native.Mathlib.Omega.{arith}
use go_odata.Prelude.Tests.{◌==◌, ==_iff, if◌then◌else◌, Bool-cases}
use go_odata.Prelude.Lists.{length, All, All-append, any}
use go_odata.Prelude.Text.{Bytes, is_space, is_space2, is_space3, trim_with, trim_bytes}

module _ (two : ℕ → ℕ → Bool) (three : ℕ → ℕ → ℕ → Bool) where
  length-trim_with : (s : Bytes) → length (trim_with two three s) ≤ length s
  unfolding trim_with
  length-trim_with [] = omega arith
  length-trim_with (c ∷ []) = ground arith
  length-trim_with (c ∷ d ∷ []) = ground (arith, length-trim_with (d ∷ []))
  length-trim_with (c ∷ d ∷ e ∷ cs) =
      ground (arith, length-trim_with (d ∷ e ∷ cs), length-trim_with (e ∷ cs), length-trim_with cs)

  trim_with-trim_with :
      (s : Bytes) → trim_with two three (trim_with two three s) ≡ trim_with two three s
  unfolding trim_with
  trim_with-trim_with [] = refl
  trim_with-trim_with (c ∷ []) = ground arith
  trim_with-trim_with (c ∷ d ∷ []) = ground (arith, trim_with-trim_with (d ∷ []))
  trim_with-trim_with (c ∷ d ∷ e ∷ cs) = ground (
    arith,
    trim_with-trim_with (d ∷ e ∷ cs),
    trim_with-trim_with (e ∷ cs),
    trim_with-trim_with cs,
  )

  pub trim_with-space :
      (c : ℕ) (s : Bytes) → is_space c ≡ true → trim_with two three (c ∷ s) ≡ trim_with two three s
  unfolding trim_with
  trim_with-space c [] h = rw h refl
  trim_with-space c (d ∷ []) h = rw h refl
  trim_with-space c (d ∷ e ∷ cs) h = rw h refl

  -- A text that starts with no white space, and the start of such a text.
  trim_with-start :
      (p q : Bytes) → trim_with two three (p ++ q) ≡ p ++ q → trim_with two three p ≡ p
  unfolding trim_with
  trim_with-start [] q h = refl
  trim_with-start (c ∷ []) [] h = h
  trim_with-start (c ∷ []) (d ∷ []) h = ground (arith, h, ap length h, length-trim_with (d ∷ []))
  trim_with-start (c ∷ []) (d ∷ e ∷ q) h =
      ground (arith, h, ap length h, length-trim_with (d ∷ e ∷ q))
  trim_with-start (c ∷ d ∷ []) [] h = h
  trim_with-start (c ∷ d ∷ []) (e ∷ q) h =
      ground (arith, h, ap length h, length-trim_with (d ∷ e ∷ q), length-trim_with (e ∷ q))
  trim_with-start (c ∷ d ∷ e ∷ p) q h = ground (
    arith,
    h,
    ap length h,
    length-trim_with (d ∷ e ∷ p ++ q),
    length-trim_with (e ∷ p ++ q),
    length-trim_with (p ++ q),
  )

  -- What is cut off stands in front.
  cut_off : (s : Bytes) → (a : Bytes) × (s ≡ a ++ trim_with two three s)
  unfolding trim_with
  cut_off [] = ([], refl)
  cut_off (c ∷ []) = elim (Bool-cases (is_space c)) [
    | inl h ↦ (c ∷ [], rw h refl)
    | inr h ↦ ([], rw h refl)
  ]
  cut_off (c ∷ d ∷ []) =
      let (a, e) = cut_off (d ∷ []) in
      elim (Bool-cases (is_space c)) [
        | inl h ↦ (c ∷ a, rw (h, trim_with) (ap (λ (x : Bytes). c ∷ x) e))
        | inr h ↦ elim (Bool-cases (two c d)) [
          | inl k ↦ (c ∷ d ∷ [], rw (h, k) refl)
          | inr k ↦ ([], rw (h, k) refl)
        ]
      ]
  cut_off (c ∷ d ∷ e ∷ cs) = elim (Bool-cases (is_space c)) [
    | inl h ↦
        let (a, p) = cut_off (d ∷ e ∷ cs) in
        (c ∷ a, rw (h, trim_with) (ap (λ (x : Bytes). c ∷ x) p))
    | inr h ↦ elim (Bool-cases (two c d)) [
      | inl k ↦
          let (a, p) = cut_off (e ∷ cs) in
          (c ∷ d ∷ a, rw (h, k, trim_with) (ap (λ (x : Bytes). c ∷ d ∷ x) p))
      | inr k ↦ elim (Bool-cases (three c d e)) [
        | inl t ↦
            let (a, p) = cut_off cs in
            (c ∷ d ∷ e ∷ a, rw (h, k, t, trim_with) (ap (λ (x : Bytes). c ∷ d ∷ e ∷ x) p))
        | inr t ↦ ([], rw (h, k, t) refl)
      ]
    ]
  ]

abbrev front : Bytes → Bytes
front = trim_with is_space2 is_space3

abbrev back : Bytes → Bytes
back = trim_with (λ d c. is_space2 c d) (λ e d c. is_space3 c d e)

front-trim_bytes : (s : Bytes) → front (trim_bytes s) ≡ trim_bytes s
unfolding trim_bytes
front-trim_bytes s =
    let u = front s in
    let w = back (reverse u) in
    let (a, e) = cut_off (λ d c. is_space2 c d) (λ e d c. is_space3 c d e) (reverse u) in
    let whole : u ≡ reverse w ++ reverse a =
      sym (reverse-reverse u) ∙ ap reverse e ∙ reverse-append a w in
    trim_with-start is_space2 is_space3 (reverse w) (reverse a)
      (ap front (sym whole) ∙ trim_with-trim_with is_space2 is_space3 s ∙ whole)

pub trim_bytes-trim_bytes : (s : Bytes) → trim_bytes (trim_bytes s) ≡ trim_bytes s
unfolding trim_bytes
trim_bytes-trim_bytes s =
    let u = reverse (front s) in
    ap (λ (x : Bytes). reverse (back (reverse x))) (front-trim_bytes s)
    ∙ ap (λ (x : Bytes). reverse (back x)) (reverse-reverse (back u))
    ∙ ap reverse (trim_with-trim_with (λ d c. is_space2 c d) (λ e d c. is_space3 c d e) u)

pub trim_bytes-space : (s : Bytes) → trim_bytes (b' ' ∷ s) ≡ trim_bytes s
unfolding trim_bytes
trim_bytes-space s =
    ap (λ (x : Bytes). reverse (back (reverse x))) (trim_with-space is_space2 is_space3 b' ' s refl)

module _ {κ} (P : ℕ → Type κ) where
  All-behind : (a b : Bytes) → All P (a ++ b) → All P b
  All-behind [] b h = h
  All-behind (x ∷ a) b h = All-behind a b h.1

  All-reverse : (s : Bytes) → All P s → All P (reverse s)
  All-reverse [] h = tt
  All-reverse (x ∷ s) h =
      subst (All P) (sym (reverse-cons x s))
        (All-append P (reverse s) (x ∷ []) (All-reverse s h.1) (h.0, tt))

  pub All-trim_bytes : (s : Bytes) → All P s → All P (trim_bytes s)
  unfolding trim_bytes
  All-trim_bytes s h =
      let (a, e) = cut_off is_space2 is_space3 s in
      let u = front s in
      let hu = All-behind a u (rw e at h) in
      let (b, f) = cut_off (λ d c. is_space2 c d) (λ e d c. is_space3 c d e) (reverse u) in
      All-reverse (back (reverse u)) (All-behind b _ (rw f at (All-reverse u hu)))

module _ (q : ℕ) where
  abbrev pub has : Bytes → Bool
  has = any (λ c. c == q)

  has-append : (a b : Bytes) → has (a ++ b) ≡ (if has a then true else has b)
  has-append [] b = refl
  has-append (x ∷ a) b = ground (arith, has-append a b)

  has-reverse : (s : Bytes) → has (reverse s) ≡ has s
  has-reverse [] = refl
  has-reverse (x ∷ s) =
      ap has (reverse-cons x s) ∙ has-append (reverse s) (x ∷ []) ∙ ground (arith, has-reverse s)

  -- The byte is no part of a space of two or three bytes.
  module _ (two : ℕ → ℕ → Bool) (three : ℕ → ℕ → ℕ → Bool) (plain : is_space q ≡ false)
      (not_two : (c d : ℕ) → two c d ≡ true → ((c == q) ≡ false) × ((d == q) ≡ false))
      (not_three : (c d e : ℕ)
        → three c d e ≡ true
        → ((c == q) ≡ false) × ((d == q) ≡ false) × ((e == q) ≡ false)) where
    not_one : (c : ℕ) → is_space c ≡ true → (c == q) ≡ false
    not_one c h = elim (Bool-cases (c == q)) [
      | inl e ↦ cc (h, plain, ap is_space ((==_iff c q).0 e))
      | inr e ↦ e
    ]

    has-trim_with : (s : Bytes) → has (trim_with two three s) ≡ has s
    unfolding trim_with
    has-trim_with [] = refl
    has-trim_with (c ∷ []) = ground (arith, not_one c)
    has-trim_with (c ∷ d ∷ []) = ground (arith, has-trim_with (d ∷ []), not_one c, not_two c d)
    has-trim_with (c ∷ d ∷ e ∷ cs) = ground (
      arith,
      has-trim_with (d ∷ e ∷ cs),
      has-trim_with (e ∷ cs),
      has-trim_with cs,
      not_one c,
      not_two c d,
      not_three c d e,
    )

has_quote-front : (s : Bytes) → has b'"' (front s) ≡ has b'"' s
has_quote-front s =
    has-trim_with b'"' is_space2 is_space3 refl (λ c d h. ground (arith, h))
      (λ c d e h. ground (arith, h)) s

has_quote-back : (s : Bytes) → has b'"' (back s) ≡ has b'"' s
has_quote-back s =
    has-trim_with b'"' (λ d c. is_space2 c d) (λ e d c. is_space3 c d e) refl
      (λ c d h. ground (arith, h)) (λ c d e h. ground (arith, h)) s

pub has_quote-trim_bytes : (s : Bytes) → has b'"' (trim_bytes s) ≡ has b'"' s
unfolding trim_bytes
has_quote-trim_bytes s =
    has-reverse b'"' (back (reverse (front s)))
    ∙ has_quote-back (reverse (front s))
    ∙ has-reverse b'"' (front s)
    ∙ has_quote-front s
