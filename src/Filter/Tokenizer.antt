-- ===== src/Filter/Tokenizer.antt =====
-- internal/query/tokenizer.go: `NextToken`, its four attempts and `TokenizeAll`. `getToken` hands
-- out a slot of a buffer that grows; no slot is handed out twice, so it is the token's value here.
pub mod Attempts
pub mod Progress
pub mod Quoted
use go_odata.Prelude.{
  ℕ, zero, suc, ◌+◌, Bool, true, false, ◌&&◌, ◌||◌, List, [], ◌∷◌, ◌++◌, Option, none, some, Result,
  ok, err, out_of_fuel, ◌>>=◌, Bytes, codes, ◌==◌, if◌then◌else◌, length, any,
}
use go_odata.Filter.Token.{Token, TokenType, type_eq}
use go_odata.Filter.Chars.{is_digit, is_identifier_start}
use go_odata.Filter.Cursor.{Tokenizer, new_tokenizer, ch, peek, advance, skip_whitespace}
use go_odata.Filter.Literals.{
  read_string, read_number, is_date_literal, read_date_literal, is_time_literal, read_time_literal,
  read_date_time_literal_if_present, is_guid_literal, read_guid_literal, read_identifier,
}
use go_odata.Filter.Keywords.{classify_keyword_fast, is_function_keyword}

-- `unexpected character '%c' at position %d`
pub data TokenError : Type 0 where
  unexpected_character : ℕ → ℕ → TokenError

abbrev pub Found : Type 0
Found = Option (Token × Tokenizer)

-- A reader's text and state, as a token at `pos`.
abbrev pub token_of : TokenType → ℕ → Bytes × Tokenizer → Found
token_of type pos (value, t) = some (record { type = type; value = value; pos = pos }, t)

unfoldable pub tokenize_string : Tokenizer → Found
unfolding read_string
tokenize_string t =
    if ch t == b'\'' || ch t == b'"' then token_of TokenType.string t.pos (read_string t) else none

-- The attempts before the number, at a digit.
unfoldable pub tokenize_digits : Tokenizer → Found
unfolding is_guid_literal read_guid_literal read_date_time_literal_if_present is_date_literal
    read_date_literal is_time_literal read_time_literal
tokenize_digits t =
    if is_guid_literal t
    then token_of TokenType.guid t.pos (read_guid_literal t)
    else elim (read_date_time_literal_if_present t) [
      | some literal ↦ token_of TokenType.date_time t.pos literal
      | none ↦
          if is_date_literal t
          then token_of TokenType.date t.pos (read_date_literal t)
          else if is_time_literal t
          then token_of TokenType.time t.pos (read_time_literal t)
          else none
    ]

abbrev or_else : Found → Found → Found
or_else (some found) other = some found
or_else none other = other

unfoldable pub tokenize_number : Tokenizer → Found
unfolding tokenize_digits read_number is_digit
tokenize_number t =
    let number =
      if is_digit (ch t) || ch t == b'-' && is_digit (peek t)
      then token_of TokenType.number t.pos (read_number t)
      else none in
    or_else (if is_digit (ch t) then tokenize_digits t else none) number

unfoldable pub tokenize_special_char : Tokenizer → Found
unfolding advance
tokenize_special_char t =
    let c = ch t in
    let single = λ (type : TokenType). token_of type t.pos (c ∷ [], advance t) in
    if c == b'('
    then single TokenType.l_paren
    else if c == b')'
    then single TokenType.r_paren
    else if c == b','
    then single TokenType.comma
    else if c == b':'
    then single TokenType.colon
    else if c == b'+' || c == b'-' || c == b'*' || c == b'/'
    then single TokenType.arithmetic
    else none

-- The classification of the name that was read: enum literal, function name, keyword, name.
unfoldable pub classify_identifier : ℕ → Bytes × Tokenizer → Found
unfolding read_string is_function_keyword classify_keyword_fast
classify_identifier pos (value, t) =
    if ch t == b'\'' && any (λ c. c == b'.') value
    then (let (member_name, behind) = read_string t in
        token_of TokenType.enum_value pos (value ++ (b'\'' ∷ (member_name ++ b'\'' ∷ [])), behind))
    else if ch t == b'(' && is_function_keyword t.case_insensitive value
    then token_of TokenType.identifier pos (value, t)
    else elim (classify_keyword_fast t.case_insensitive value) [
      | some (type, target) ↦ token_of type pos (target, t)
      | none ↦ token_of TokenType.identifier pos (value, t)
    ]

unfoldable pub tokenize_identifier_or_keyword : Tokenizer → Found
unfolding is_identifier_start is_guid_literal read_guid_literal read_identifier classify_identifier
tokenize_identifier_or_keyword t =
    if is_identifier_start (ch t)
    then (if is_guid_literal t
        then token_of TokenType.guid t.pos (read_guid_literal t)
        else classify_identifier t.pos (read_identifier t))
    else none

-- The attempts in their order, behind the white space.
unfoldable pub token_at : Tokenizer → Result TokenError (Token × Tokenizer)
unfolding tokenize_string tokenize_number tokenize_special_char tokenize_identifier_or_keyword
token_at t =
    elim (or_else (tokenize_string t) (
      or_else (tokenize_number t)
        (or_else (tokenize_special_char t) (tokenize_identifier_or_keyword t)))) [
          | some found ↦ ok found
          | none ↦ err (unexpected_character (ch t) t.pos)
        ]

unfoldable pub next_token : Tokenizer → Result TokenError (Token × Tokenizer)
unfolding skip_whitespace token_at
next_token t =
    let here = skip_whitespace t in
    if ch here == 0
    then ok (record { type = TokenType.eof; value = []; pos = here.pos }, here)
    else token_at here

-- The loop of `TokenizeAll`; fuel bounds its rounds.
unfoldable pub tokenize_from : ℕ → Tokenizer → Result TokenError (List Token)
unfolding next_token
tokenize_from zero t = out_of_fuel
tokenize_from (suc fuel) t = next_token t >>= λ (token, behind).
    let more = tokenize_from fuel behind in
    if type_eq token.type TokenType.eof
    then ok (token ∷ [])
    else more >>= λ tokens. ok (token ∷ tokens)

-- One round more than there are bytes.
unfoldable pub tokenize_all : Bytes → Bool → Result TokenError (List Token)
unfolding tokenize_from
tokenize_all input mode = tokenize_from (length input + 1) (new_tokenizer input mode)
