-- ===== src/Filter/Literals/Moves.antt =====
-- tokenizer.go: how far each reader moves over the input, where its caller's test holds.
use go_odata.Prelude.{
  ℕ, ◌+◌, ◌≡◌, ◌≢◌, refl, Bool, true, false, not, ◌&&◌, ◌||◌, [], ◌∷◌, inl, inr, none, some, arith,
  Bytes, ◌==◌, if◌then◌else◌, Bool-cases,
}
use go_odata.Filter.Chars.{is_digit, is_identifier_char, is_identifier_start}
use go_odata.Filter.Cursor.{Tokenizer, ch, peek, advance, skip_while}
use go_odata.Filter.Cursor.Moves.{
  Moves, Takes, Moves-refl, Moves-trans, Moves-if, Takes-then, advance-Takes, ne_zero,
  skip_while-Moves, skip_while-Takes, skip_up_to-Moves, skip_up_to-Takes,
}
use go_odata.Filter.Literals.{
  read_escaped, in_string, read_string, skip_if, read_number, not_end, read_date_literal,
  read_time_literal, read_zone, read_date_time_literal_if_present, read_guid_literal,
  read_identifier, is_date_literal, is_time_literal,
}

abbrev state : Bytes → Bool → ℕ → Tokenizer
state rest mode n = record { rest = rest; pos = n; case_insensitive = mode }

one :
    (c : ℕ) (cs : Bytes) (mode : Bool) (n : ℕ)
    → Moves (state (c ∷ cs) mode n) (state cs mode (n + 1))
one c cs mode n = record { passed = c ∷ []; splits = refl; counts = omega arith; mode = refl }

two :
    (c d : ℕ) (cs : Bytes) (mode : Bool) (n : ℕ)
    → Moves (state (c ∷ d ∷ cs) mode n) (state cs mode (n + 2))
two c d cs mode n = record { passed = c ∷ d ∷ []; splits = refl; counts = omega arith; mode = refl }

-- The state that a branching reader returns.
Moves-if-result :
    {t : Tokenizer} (b : Bool) (x y : Bytes × Tokenizer)
    → (b ≡ true → Moves t x.1)
    → (b ≡ false → Moves t y.1)
    → Moves t (if b then x else y).1
Moves-if-result true x y hx hy = hx refl
Moves-if-result false x y hx hy = hy refl

read_escaped-Moves :
    (quote : ℕ) (rest result : Bytes) (mode : Bool) (n : ℕ)
    → Moves (state rest mode n) (read_escaped quote result mode n rest).1
unfolding read_escaped
read_escaped-Moves quote [] result mode n = Moves-refl _
read_escaped-Moves quote (c ∷ []) result mode n =
    Moves-if-result (c == 0) _ _ (λ _. Moves-refl _)
      (λ _. Moves-if-result (c == quote) _ _ (λ _. one c [] mode n) (λ _. one c [] mode n))
read_escaped-Moves quote (c ∷ d ∷ cs) result mode n =
    Moves-if-result (c == 0) _ _ (λ _. Moves-refl _)
      (λ _.
        Moves-if-result (c == quote) _ _
          (λ _.
            Moves-if-result (d == quote) _ _
              (λ _. Moves-trans (two c d cs mode n) (read_escaped-Moves quote cs _ mode (n + 2)))
              (λ _. one c (d ∷ cs) mode n))
          (λ _.
            Moves-trans (one c (d ∷ cs) mode n) (read_escaped-Moves quote (d ∷ cs) _ mode (n + 1))))

pub read_string-Takes : (t : Tokenizer) → ch t ≢ 0 → Takes t (read_string t).1
unfolding read_string
read_string-Takes t h =
    let here = skip_while (in_string (ch t)) (advance t) in
    let inside = Takes-then (advance-Takes t h) (skip_while-Moves (in_string (ch t)) (advance t)) in
    Takes-then inside (
      Moves-if-result (ch here == 0) _ _ (λ _. Moves-refl here)
        (λ more.
          Moves-if-result (peek here == ch t) _ _
            (λ _. read_escaped-Moves (ch t) here.rest _ here.case_insensitive here.pos)
            (λ _. (advance-Takes here (ground arith)).moves)))

pub skip_if-Moves : (test : ℕ → Bool) (t : Tokenizer) → test 0 ≡ false → Moves t (skip_if test t)
skip_if-Moves test t z =
    Moves-if (test (ch t)) (λ h. (advance-Takes t (ne_zero test (ch t) z h)).moves)
      (λ _. Moves-refl t)

-- What `readNumber` reads behind the integer part.
fraction-Moves :
    (t : Tokenizer) → Moves t (if ch t == b'.' then skip_while is_digit (advance t) else t)
fraction-Moves t =
    Moves-if (ch t == b'.')
      (λ h.
        Moves-trans (advance-Takes t (ground arith)).moves (skip_while-Moves is_digit (advance t)))
      (λ _. Moves-refl t)

exponent-Moves :
    (t : Tokenizer)
    → Moves t (
        if ch t == b'e' || ch t == b'E'
        then skip_while is_digit (skip_if (λ c. c == b'+' || c == b'-') (advance t))
        else t)
exponent-Moves t =
    Moves-if (ch t == b'e' || ch t == b'E')
      (λ h. Moves-trans (advance-Takes t (ground arith)).moves (
        Moves-trans (skip_if-Moves (λ c. c == b'+' || c == b'-') (advance t) refl)
          (skip_while-Moves is_digit _)))
      (λ _. Moves-refl t)

signed_whole-Takes :
    (t : Tokenizer)
    → (is_digit (ch t) || ch t == b'-' && is_digit (peek t)) ≡ true
    → Takes t (skip_while is_digit (skip_if (λ c. c == b'-') t))
unfolding is_digit
signed_whole-Takes t h = elim (Bool-cases (ch t == b'-')) [
  | inl minus ↦
      rw minus (Takes-then (advance-Takes t (ground arith)) (skip_while-Moves is_digit (advance t)))
  | inr plain ↦ rw plain (skip_while-Takes is_digit t refl (ground arith))
]

pub read_number-Takes :
    (t : Tokenizer)
    → (is_digit (ch t) || ch t == b'-' && is_digit (peek t)) ≡ true
    → Takes t (read_number t).1
unfolding read_number
read_number-Takes t h = Takes-then (signed_whole-Takes t h) (
    Moves-trans (fraction-Moves _)
      (Moves-trans (exponent-Moves _) (skip_if-Moves (λ c. c == b'f' || c == b'F') _ refl)))

not_end_of : (c : ℕ) → c ≢ 0 → not_end c ≡ true
not_end_of c h = ground arith

pub read_date_literal-Takes : (t : Tokenizer) → ch t ≢ 0 → Takes t (read_date_literal t).1
unfolding read_date_literal
read_date_literal-Takes t h = skip_up_to-Takes not_end 9 t refl (not_end_of (ch t) h)

pub read_guid_literal-Takes : (t : Tokenizer) → ch t ≢ 0 → Takes t (read_guid_literal t).1
unfolding read_guid_literal
read_guid_literal-Takes t h = skip_up_to-Takes not_end 35 t refl (not_end_of (ch t) h)

read_time_literal-Moves : (t : Tokenizer) → Moves t (read_time_literal t).1
unfolding read_time_literal
read_time_literal-Moves t = Moves-trans (skip_up_to-Moves not_end 8 t refl) (fraction-Moves _)

pub read_time_literal-Takes : (t : Tokenizer) → ch t ≢ 0 → Takes t (read_time_literal t).1
unfolding read_time_literal
read_time_literal-Takes t h =
    Takes-then (skip_up_to-Takes not_end 7 t refl (not_end_of (ch t) h)) (fraction-Moves _)

read_zone-Moves : (built : Bytes) (t : Tokenizer) → Moves t (read_zone built t).1
unfolding read_zone is_digit
read_zone-Moves built t =
    Moves-if-result (ch t == b'Z' || ch t == b'z') _ _ (λ h. (advance-Takes t (ground arith)).moves)
      (λ _.
        Moves-if-result (ch t == b'+' || ch t == b'-') _ _
          (λ h. Moves-trans (advance-Takes t (ground arith)).moves (
            Moves-trans (skip_up_to-Moves is_digit 2 (advance t) refl) (
              Moves-trans (skip_if-Moves (λ c. c == b':') _ refl)
                (skip_up_to-Moves is_digit 2 _ refl))))
          (λ _. Moves-refl t))

-- What three guards in a row let through.
three_guards :
    (a b c : Bool) {x found : Bytes × Tokenizer}
    → (if a then none else if b then none else if c then none else some x) ≡ some found
    → (b ≡ false) × (x ≡ found)
three_guards a b c h = ground arith

pub read_date_time-Takes :
    (t : Tokenizer) (found : Bytes × Tokenizer)
    → ch t ≢ 0
    → read_date_time_literal_if_present t ≡ some found
    → Takes t found.1
unfolding read_date_time_literal_if_present
read_date_time-Takes t found h e =
    let dated = (read_date_literal t).1 in
    let marked = advance dated in
    let (mark, result) =
      three_guards (not (is_date_literal t)) (not (ch dated == b'T') && not (ch dated == b't'))
        (not (is_time_literal marked)) e in
    rw (← result) (
      Takes-then (read_date_literal-Takes t h) (
        Moves-trans (advance-Takes dated (ground arith)).moves
          (Moves-trans (read_time_literal-Moves marked) (read_zone-Moves _ _))))

identifier_start_goes_on :
    (c : ℕ)
    → is_identifier_start c ≡ true
    → c ≢ b'$'
    → (not (c == 0) && is_identifier_char c) ≡ true
unfolding is_identifier_start is_identifier_char
identifier_start_goes_on c h ne = ground arith

pub read_identifier-Takes :
    (t : Tokenizer) → is_identifier_start (ch t) ≡ true → Takes t (read_identifier t).1
unfolding read_identifier is_identifier_char
read_identifier-Takes t h = elim (Bool-cases (ch t == b'$')) [
  | inl mark ↦
      rw mark (Takes-then (advance-Takes t (ground arith)) (skip_while-Moves _ (advance t)))
  | inr plain ↦ rw plain (
      skip_while-Takes (λ c. not (c == 0) && is_identifier_char c) t refl
        (identifier_start_goes_on (ch t) h (ground arith)))
]
