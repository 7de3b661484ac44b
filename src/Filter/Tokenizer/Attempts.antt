-- ===== src/Filter/Tokenizer/Attempts.antt =====
-- tokenizer.go: the attempts of `NextToken`, and the bytes that their tokens take.
use go_odata.Prelude.{
  ℕ, ◌≡◌, ◌≢◌, refl, Bool, true, false, ◌&&◌, ◌||◌, List, [], ◌∷◌, inl, inr, Option, none, some,
  arith, Bytes, ◌==◌, if◌then◌else◌, Bool-cases, length, any, All,
}
use go_odata.Filter.Token.{Token, TokenType, type_eq}
use go_odata.Filter.Chars.{is_digit, is_identifier_start}
use go_odata.Filter.Cursor.{Tokenizer, ch, peek}
use go_odata.Filter.Cursor.Moves.{Takes, Takes-then, advance-Takes}
use go_odata.Filter.Literals.{
  is_date_literal, is_time_literal, read_date_time_literal_if_present, is_guid_literal,
  read_identifier,
}
use go_odata.Filter.Literals.Moves.{
  read_string-Takes, read_number-Takes, read_date_literal-Takes, read_guid_literal-Takes,
  read_time_literal-Takes, read_date_time-Takes, read_identifier-Takes,
}
use go_odata.Filter.Keywords.{
  Keyword, first_keyword, keyword_equals, two_letters, three_letters, four_letters, five_letters,
  classify_keyword_fast, is_function_keyword,
}
use go_odata.Filter.Tokenizer.{
  Found, token_of, or_else, tokenize_string, tokenize_digits, tokenize_number,
  tokenize_special_char, classify_identifier, tokenize_identifier_or_keyword,
}

abbrev pub is_eof : TokenType → Bool
is_eof type = type_eq type TokenType.eof

-- A token that is found stands at `pos`, is not the end, and took a byte behind `t`.
pub data FoundTakes (pos : ℕ) (t : Tokenizer) : Found → Type 0 where
  nothing : FoundTakes pos t none
  found :
      {token : Token} {u : Tokenizer}
      → Takes t u
      → token.pos ≡ pos
      → is_eof token.type ≡ false
      → FoundTakes pos t (some (token, u))

FoundTakes-if :
    {pos : ℕ} {t : Tokenizer} (b : Bool) (x y : Found)
    → (b ≡ true → FoundTakes pos t x)
    → (b ≡ false → FoundTakes pos t y)
    → FoundTakes pos t (if b then x else y)
FoundTakes-if true x y hx hy = hx refl
FoundTakes-if false x y hx hy = hy refl

pub FoundTakes-or_else :
    {pos : ℕ} {t : Tokenizer} (x y : Found)
    → FoundTakes pos t x
    → FoundTakes pos t y
    → FoundTakes pos t (or_else x y)
FoundTakes-or_else x y nothing hy = hy
FoundTakes-or_else x y (found k p e) hy = found k p e

pub tokenize_string-Takes : (t : Tokenizer) → FoundTakes t.pos t (tokenize_string t)
unfolding tokenize_string
tokenize_string-Takes t =
    FoundTakes-if (ch t == b'\'' || ch t == b'"') _ _
      (λ h. found (read_string-Takes t (ground arith)) refl refl) (λ _. nothing)

at_digit : (t : Tokenizer) → is_digit (ch t) ≡ true → ch t ≢ 0
unfolding is_digit
at_digit t h e = ground arith

date_time_found :
    (t : Tokenizer) (o : Option (Bytes × Tokenizer)) (other : Found)
    → ((literal : Bytes × Tokenizer) → o ≡ some literal → Takes t literal.1)
    → FoundTakes t.pos t other
    → FoundTakes t.pos t
        (elim o [ some literal ↦ token_of TokenType.date_time t.pos literal | none ↦ other ])
date_time_found t none other h k = k
date_time_found t (some literal) other h k = found (h literal refl) refl refl

tokenize_digits-Takes : (t : Tokenizer) → ch t ≢ 0 → FoundTakes t.pos t (tokenize_digits t)
unfolding tokenize_digits
tokenize_digits-Takes t h =
    FoundTakes-if (is_guid_literal t) _ _ (λ _. found (read_guid_literal-Takes t h) refl refl)
      (λ _.
        date_time_found t (read_date_time_literal_if_present t) _
          (λ literal e. read_date_time-Takes t literal h e)
          (FoundTakes-if (is_date_literal t) _ _
            (λ _. found (read_date_literal-Takes t h) refl refl)
            (λ _.
              FoundTakes-if (is_time_literal t) _ _
                (λ _. found (read_time_literal-Takes t h) refl refl) (λ _. nothing))))

pub tokenize_number-Takes : (t : Tokenizer) → FoundTakes t.pos t (tokenize_number t)
unfolding tokenize_number
tokenize_number-Takes t =
    FoundTakes-or_else _ _
      (FoundTakes-if (is_digit (ch t)) _ _ (λ h. tokenize_digits-Takes t (at_digit t h))
        (λ _. nothing))
      (FoundTakes-if (is_digit (ch t) || ch t == b'-' && is_digit (peek t)) _ _
        (λ h. found (read_number-Takes t h) refl refl) (λ _. nothing))

pub tokenize_special_char-Takes :
    (t : Tokenizer) → ch t ≢ 0 → FoundTakes t.pos t (tokenize_special_char t)
unfolding tokenize_special_char
tokenize_special_char-Takes t h =
    let k = advance-Takes t h in
    FoundTakes-if (ch t == b'(') _ _ (λ _. found (k) refl refl)
      (λ _.
        FoundTakes-if (ch t == b')') _ _ (λ _. found (k) refl refl)
          (λ _.
            FoundTakes-if (ch t == b',') _ _ (λ _. found (k) refl refl)
              (λ _.
                FoundTakes-if (ch t == b':') _ _ (λ _. found (k) refl refl)
                  (λ _.
                    FoundTakes-if (ch t == b'+' || ch t == b'-' || ch t == b'*' || ch t == b'/') _ _
                      (λ _. found (k) refl refl) (λ _. nothing)))))

abbrev KeywordFits : Option Keyword → Type 0
KeywordFits none = Unit
KeywordFits (some (type, _)) = is_eof type ≡ false

first_keyword-KeywordFits :
    (mode : Bool) (value : Bytes) (words : List Keyword)
    → All (λ (k : Keyword). is_eof k.0 ≡ false) words
    → KeywordFits (first_keyword mode value words)
unfolding first_keyword
first_keyword-KeywordFits mode value [] h = tt
first_keyword-KeywordFits mode value ((type, target) ∷ words) h =
    elim (Bool-cases (keyword_equals mode value target)) [
      | inl same ↦ rw same h.0
      | inr other ↦ rw other (first_keyword-KeywordFits mode value words h.1)
    ]

classify-KeywordFits :
    (mode : Bool) (value : Bytes) → KeywordFits (classify_keyword_fast mode value)
unfolding classify_keyword_fast
classify-KeywordFits mode value =
    pick (length value == 2) _ _ (first_keyword-KeywordFits mode value two_letters (ground arith)) (
      pick (length value == 3) _ _
        (first_keyword-KeywordFits mode value three_letters (ground arith))
        (pick (length value == 4) _ _
          (first_keyword-KeywordFits mode value four_letters (ground arith))
          (pick (length value == 5) _ _
            (first_keyword-KeywordFits mode value five_letters (ground arith)) tt)))
  where
    pick :
        (b : Bool) (x y : Option Keyword)
        → KeywordFits x
        → KeywordFits y
        → KeywordFits (if b then x else y)
    pick true x y h k = h
    pick false x y h k = k

any_identifier :
    (pos : ℕ) (t : Tokenizer) (mode : Bool) (name : Bytes × Tokenizer)
    → Takes t name.1
    → FoundTakes pos t (elim (classify_keyword_fast mode name.0) [
      | some (type, target) ↦ token_of type pos (target, name.1)
      | none ↦ token_of TokenType.identifier pos name
    ])
any_identifier pos t mode name k =
    go (classify_keyword_fast mode name.0) (classify-KeywordFits mode name.0)
  where
    go :
        (o : Option Keyword)
        → KeywordFits o
        → FoundTakes pos t (elim o [
          | some (type, target) ↦ token_of type pos (target, name.1)
          | none ↦ token_of TokenType.identifier pos name
        ])
    go none h = found k refl refl
    go (some (type, target)) h = found k refl h

classify_identifier-Takes :
    (pos : ℕ) (t : Tokenizer) (name : Bytes × Tokenizer)
    → Takes t name.1
    → FoundTakes pos t (classify_identifier pos name)
unfolding classify_identifier
classify_identifier-Takes pos t (value, u) k =
    FoundTakes-if (ch u == b'\'' && any (λ c. c == b'.') value) _ _
      (λ h. found (Takes-then k (read_string-Takes u (ground arith)).moves) refl refl)
      (λ _.
        FoundTakes-if (ch u == b'(' && is_function_keyword u.case_insensitive value) _ _
          (λ _. found k refl refl) (λ _. any_identifier pos t u.case_insensitive (value, u) k))

pub tokenize_identifier-Takes :
    (t : Tokenizer) → ch t ≢ 0 → FoundTakes t.pos t (tokenize_identifier_or_keyword t)
unfolding tokenize_identifier_or_keyword
tokenize_identifier-Takes t h =
    FoundTakes-if (is_identifier_start (ch t)) _ _
      (λ start.
        FoundTakes-if (is_guid_literal t) _ _ (λ _. found (read_guid_literal-Takes t h) refl refl)
          (λ _.
            classify_identifier-Takes t.pos t (read_identifier t) (read_identifier-Takes t start)))
      (λ _. nothing)
