-- ===== src/Filter/Values.antt =====
-- internal/query/ast_parser_arithmetic.go and binary_literal.go: the values of literals.
use go_odata.Prelude.{
  ℕ, ◌+◌, Bool, true, false, not, ◌&&◌, ◌||◌, List, [], ◌∷◌, Option, none, some, Bytes, codes,
  bytes_eq, within, parse_int, ◌==◌, if◌then◌else◌, map, any,
}
use go_odata.Filter.Ast.{
  AstNode, LiteralValue, literal_expr, text, integer, floating, infinity, minus_infinity,
  not_a_number,
}

-- What the parser takes from the standard library and the model does not spell out: whether
-- strconv.ParseFloat accepts a text at 32 or 64 bits, and the decoders of package base64, in the
-- order of `binaryLiteralDecoders`.
pub record Codecs : Type 0 where
  pub float_parses : ℕ → Bytes → Bool
  pub decoders : List (Bytes → Option Bytes)

-- `strings.ToLower` on ASCII letters. Of the others only U+0130 and U+212A become ASCII, and a byte
-- of theirs that is not a letter of Latin-1 keeps them out of the names and numbers of the tokenizer.
abbrev pub lower_byte : ℕ → ℕ
lower_byte c = if within b'A' b'Z' c then c + 32 else c

abbrev pub to_lower : Bytes → Bytes
to_lower = map lower_byte

-- The text without its last byte, where that is `f` or `F`.
unfoldable pub trim_float_suffix : Bytes → Option Bytes
trim_float_suffix [] = none
trim_float_suffix (c ∷ []) = if c == b'f' || c == b'F' then some [] else none
trim_float_suffix (c ∷ d ∷ cs) = elim (trim_float_suffix (d ∷ cs)) [
  | none ↦ none
  | some r ↦ some (c ∷ r)
]

abbrev pub number_literal : LiteralValue → AstNode
number_literal v = literal_expr v (codes "number")

unfoldable pub parse_plain_number : Codecs → Bytes → AstNode
unfolding parse_int
parse_plain_number lib value = elim (parse_int value) [
  | some n ↦ number_literal (integer n)
  | none ↦
      if lib.float_parses 64 value
      then number_literal (floating 64 value)
      else number_literal (text value)
]

-- The suffix is cut off for all the attempts that follow.
unfoldable pub parse_number_literal : Codecs → Bytes → AstNode
unfolding trim_float_suffix parse_plain_number bytes_eq
parse_number_literal lib value =
    let lower = to_lower value in
    if bytes_eq lower (codes "inf")
    then number_literal infinity
    else if bytes_eq lower (codes "-inf")
    then number_literal minus_infinity
    else if bytes_eq lower (codes "nan")
    then number_literal not_a_number
    else elim (trim_float_suffix value) [
      | some value' ↦
          if lib.float_parses 32 value'
          then number_literal (floating 32 value')
          else parse_plain_number lib value'
      | none ↦ parse_plain_number lib value
    ]

abbrev try_decoders : List (Bytes → Option Bytes) → Bytes → Option Bytes
try_decoders [] s = none
try_decoders (d ∷ ds) s = elim (d s) [ some b ↦ some b | none ↦ try_decoders ds s ]

unfoldable pub decode_base64_lenient : Codecs → Bytes → Option Bytes
decode_base64_lenient lib [] = some []
decode_base64_lenient lib (c ∷ cs) = try_decoders lib.decoders (c ∷ cs)

abbrev contains_byte : ℕ → Bytes → Bool
contains_byte b = any (λ c. c == b)

abbrev ends_in : ℕ → Bytes → Bool
ends_in b [] = false
ends_in b (c ∷ []) = c == b
ends_in b (c ∷ d ∷ cs) = ends_in b (d ∷ cs)

-- The text before the first `sep`, and the text behind it if there is one.
unfoldable pub cut : ℕ → Bytes → Bytes × Option Bytes
cut sep [] = ([], none)
cut sep (c ∷ cs) =
    let (before, behind) = cut sep cs in if c == sep then ([], some cs) else (c ∷ before, behind)

abbrev is_empty : Bytes → Bool
is_empty [] = true
is_empty (_ ∷ _) = false

valid_with_time : Bytes → Bytes → Bool
valid_with_time date_part time_part =
    not (is_empty date_part && is_empty time_part)
    && (is_empty date_part || ends_in b'D' date_part)
    && (is_empty time_part
        || any (λ c. c == b'H' || c == b'M' || c == b'S') time_part
          && not (contains_byte b'-' time_part))

valid_body : Bytes → Bool
unfolding valid_with_time cut
valid_body [] = false
valid_body (c ∷ cs) =
    let (date_part, time) = cut b'T' (c ∷ cs) in
    elim time [
      | some time_part ↦ valid_with_time date_part time_part
      | none ↦ ends_in b'D' (c ∷ cs)
    ]

abbrev after_minus : Bytes → Bytes
after_minus [] = []
after_minus (c ∷ cs) = if c == b'-' then cs else c ∷ cs

abbrev after_period : Bytes → Bool
after_period [] = false
after_period (c ∷ cs) = c == b'P' && valid_body cs

unfoldable pub is_valid_duration_literal : Bytes → Bool
unfolding valid_body
is_valid_duration_literal value = after_period (after_minus value)
