-- ===== src/Filter/Parser/Primary.antt =====
-- Primary expressions: groups, literals, paths, function calls and lambda expressions. `nested`
-- is `parseOr` at the next depth.
use go_odata.Prelude.{
  ℕ, zero, suc, ◌+◌, Bool, not, ◌&&◌, ◌||◌, List, [], ◌∷◌, ◌++◌, Option, none, some, Result, ok,
  err, out_of_fuel, ◌>>=◌, Bytes, codes, bytes_eq, if◌then◌else◌, length, reverse,
}
use go_odata.Filter.Token.{Token, TokenType}
use go_odata.Filter.Ast.{
  AstNode, Predicate, no_predicate, predicate, function_call_expr, identifier_expr, literal_expr,
  group_expr, lambda_expr, text, truth, nil, decoded, minus_infinity, not_a_number,
}
use go_odata.Filter.Values.{
  Codecs, to_lower, parse_number_literal, number_literal, cut, decode_base64_lenient,
  is_valid_duration_literal,
}
use go_odata.Filter.Parser.Cursor.{
  ParseError, unexpected_token, invalid_binary_literal, invalid_duration_literal,
  expected_identifier_in_path, expected_colon_after_lambda_var, failed_to_parse_lambda_pred, Parser,
  Parsed, current_token, advance, is_next, has_type, is_token, expect,
}
use go_odata.Filter.Parser.Layers.{parse_items}

-- `parseLiteral`; `none` is its nil.
unfoldable pub literal_of : Codecs → Token → Option AstNode
unfolding parse_number_literal
literal_of lib t = elim t.type [
  | TokenType.string ↦ some (literal_expr (text t.value) (codes "string"))
  | TokenType.number ↦ some (parse_number_literal lib t.value)
  | TokenType.boolean ↦
      some (literal_expr (truth (bytes_eq t.value (codes "true"))) (codes "boolean"))
  | TokenType.null ↦ some (literal_expr nil (codes "null"))
  | TokenType.date ↦ some (literal_expr (text t.value) (codes "date"))
  | TokenType.time ↦ some (literal_expr (text t.value) (codes "time"))
  | TokenType.date_time ↦ some (literal_expr (text t.value) (codes "datetime"))
  | TokenType.guid ↦ some (literal_expr (text t.value) (codes "guid"))
  | TokenType.enum_value ↦ some (literal_expr (text t.value) (codes "enum"))
  | _ ↦ none
]

abbrev pub lower_is : Token → Bytes → Bool
lower_is t word = bytes_eq (to_lower t.value) word

abbrev pub is_special_float : Token → Bool
is_special_float t =
    has_type TokenType.number t && (lower_is t (codes "inf") || lower_is t (codes "nan"))

-- `-INF` and `-NaN`.
abbrev pub is_minus_float : List Token → Bool
is_minus_float ts =
    is_token TokenType.arithmetic (codes "-") (current_token ts) && is_next is_special_float ts

abbrev pub is_prefix_word : Bytes → Bool
is_prefix_word word =
    bytes_eq word (codes "geography")
    || bytes_eq word (codes "geometry")
    || bytes_eq word (codes "binary")
    || bytes_eq word (codes "duration")

-- The literal that a prefix and a string make.
unfoldable pub prefixed_literal : Codecs → Bytes → Bytes → Result ParseError AstNode
unfolding decode_base64_lenient is_valid_duration_literal bytes_eq
prefixed_literal lib word value =
    if bytes_eq word (codes "binary")
    then elim (decode_base64_lenient lib value) [
      | none ↦ err invalid_binary_literal
      | some b ↦ ok (literal_expr (decoded b) (codes "binary"))
    ]
    else if bytes_eq word (codes "duration")
    then (if is_valid_duration_literal value
        then ok (literal_expr (text value) (codes "duration"))
        else err invalid_duration_literal)
    else ok (literal_expr (text value) word)

abbrev pub with_error : ParseError → Parsed → Parsed
with_error e (ok x) = ok x
with_error e (err _) = err e
with_error e out_of_fuel = out_of_fuel

abbrev pub is_slash : Token → Bool
is_slash = is_token TokenType.arithmetic (codes "/")

abbrev pub is_lambda_word : Bytes → Bool
is_lambda_word word = bytes_eq word (codes "any") || bytes_eq word (codes "all")

-- `strings.Split(path, "/")`: the parts before the last joined again, and the last.
unfoldable pub split_last_part : Bytes → Bytes × Bytes
unfolding cut
split_last_part path =
    let (last, before) = cut b'/' (reverse path) in
    elim before [ some r ↦ (reverse r, reverse last) | none ↦ ([], path) ]

module _ (lib : Codecs) (nested : Parser) where
  unfoldable pub parse_grouped_expression : Parser
  unfolding expect
  parse_grouped_expression ts = nested (advance ts) >>= λ (value, rest).
      expect TokenType.r_paren rest >>= λ end. ok (group_expr value, end)

  unfoldable pub parse_function_call : Bytes → Parser
  unfolding parse_items
  parse_function_call name ts =
      parse_items nested (advance ts) >>= λ (args, rest). ok (function_call_expr name args, rest)

  abbrev pub lambda_of : Bytes → Bytes → Bytes → Predicate → List Token → Parsed
  lambda_of path operator variable pred rest =
      ok (lambda_expr (identifier_expr path) operator variable pred, rest)

  -- The range variable, the colon and the predicate, up to the closing parenthesis.
  unfoldable pub parse_range_predicate : Bytes → Bytes → Parser
  unfolding expect
  parse_range_predicate path operator ts = elim (expect TokenType.colon (advance ts)) [
    | ok behind_colon ↦
        with_error failed_to_parse_lambda_pred (nested behind_colon) >>= λ (value, rest).
        expect TokenType.r_paren rest >>= λ end.
        lambda_of path operator (current_token ts).value (predicate value) end
    | _ ↦ err expected_colon_after_lambda_var
  ]

  unfoldable pub parse_lambda_expression : Bytes → Bytes → Parser
  unfolding parse_range_predicate
  parse_lambda_expression path operator ts =
      let inside = advance ts in
      if has_type TokenType.r_paren (current_token inside)
      then lambda_of path operator [] no_predicate (advance inside)
      else if has_type TokenType.identifier (current_token inside)
      then parse_range_predicate path operator inside
      else expect TokenType.r_paren inside >>= λ end. lambda_of path operator [] no_predicate end

  -- Behind the loop of `parsePropertyPath`.
  unfoldable pub finish_path : Bytes → Parser
  unfolding split_last_part parse_lambda_expression parse_function_call
  finish_path path ts =
      let (collection, last) = split_last_part path in
      if has_type TokenType.l_paren (current_token ts)
      then (if is_lambda_word (to_lower last)
          then parse_lambda_expression collection (to_lower last) ts
          else parse_function_call path ts)
      else ok (identifier_expr path, ts)

  -- The loop of `parsePropertyPath`; each round takes a slash and a name.
  unfoldable pub path_loop : ℕ → Bytes → Parser
  unfolding finish_path
  path_loop zero path ts = out_of_fuel
  path_loop (suc fuel) path ts =
      let name = advance ts in
      let behind = advance name in
      let next = (current_token name).value in
      let longer = path_loop fuel (path ++ (b'/' ∷ next)) behind in
      if not (is_slash (current_token ts))
      then finish_path path ts
      else if not (has_type TokenType.identifier (current_token name))
      then err (expected_identifier_in_path (current_token name).pos)
      else if is_lambda_word (to_lower next) && has_type TokenType.l_paren (current_token behind)
      then parse_lambda_expression path (to_lower next) behind
      else longer

  unfoldable pub parse_property_path : Bytes → Parser
  unfolding path_loop
  parse_property_path initial ts = path_loop (length ts + 1) initial ts

  unfoldable pub parse_identifier_or_function_call : Token → Parser
  unfolding prefixed_literal parse_property_path parse_function_call advance current_token is_next
  parse_identifier_or_function_call token ts =
      let behind = advance ts in
      let word = to_lower token.value in
      if is_prefix_word word && has_type TokenType.string (current_token behind)
      then (prefixed_literal lib word (current_token behind).value >>= λ value.
          ok (value, advance behind))
      else if is_slash (current_token behind) && is_next (has_type TokenType.identifier) behind
      then parse_property_path token.value behind
      else if has_type TokenType.l_paren (current_token behind)
      then parse_function_call token.value behind
      else ok (identifier_expr token.value, behind)

  unfoldable pub parse_primary : Parser
  unfolding parse_grouped_expression literal_of parse_identifier_or_function_call
  parse_primary ts =
      let token = current_token ts in
      if is_minus_float ts
      then (let value =
            if lower_is (current_token (advance ts)) (codes "inf")
            then minus_infinity
            else not_a_number in
          ok (number_literal value, advance (advance ts)))
      else if has_type TokenType.l_paren token
      then parse_grouped_expression ts
      else elim (literal_of lib token) [
        | some value ↦ ok (value, advance ts)
        | none ↦
            if has_type TokenType.identifier token
            then parse_identifier_or_function_call token ts
            else err (unexpected_token token.type token.pos)
      ]
