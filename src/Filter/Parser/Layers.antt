-- ===== src/Filter/Parser/Layers.antt =====
-- The layers of precedence, over the parser of primary expressions: `parseTerm`,
-- `parseArithmetic`, `parseComparison`, `parseNot`, `parseAnd`, `parseOr` and `parseCollection`.
use go_odata.Prelude.{
  ℕ, zero, suc, ◌+◌, Bool, ◌&&◌, ◌||◌, List, Result, ok, err, out_of_fuel, ◌>>=◌, codes, bytes_eq,
  if◌then◌else◌, length,
}
use go_odata.Filter.Token.{Token, TokenType}
use go_odata.Filter.Ast.{
  AstNode, Nodes, binary_expr, unary_expr, comparison_expr, collection_expr, no_nodes, node,
}
use go_odata.Filter.Parser.Cursor.{
  ParseError, expected_parenthesis_after_in, Parser, current_token, advance, has_type, is_token,
  expect,
}

-- `for test(current) { op := advance(); right := operand(); left = left op right }`. Each round
-- takes a token; `fuel` bounds the rounds.
unfoldable pub binary_loop : ℕ → (Token → Bool) → Parser → AstNode → Parser
unfolding current_token advance
binary_loop zero test operand left ts = out_of_fuel
binary_loop (suc fuel) test operand left ts =
    let more = operand (advance ts) >>= λ (right, rest).
    binary_loop fuel test operand (binary_expr left (current_token ts).value right) rest in
    if test (current_token ts) then more else ok (left, ts)

-- The four functions of binary operators have this body.
unfoldable pub parse_binary : (Token → Bool) → Parser → Parser
unfolding binary_loop
parse_binary test operand ts =
    operand ts >>= λ (left, rest). binary_loop (length rest + 1) test operand left rest

unfoldable pub is_term_operator : Token → Bool
unfolding bytes_eq
is_term_operator t =
    has_type TokenType.arithmetic t
    && (bytes_eq t.value (codes "*")
        || bytes_eq t.value (codes "/")
        || bytes_eq t.value (codes "mul")
        || bytes_eq t.value (codes "div")
        || bytes_eq t.value (codes "divby")
        || bytes_eq t.value (codes "mod"))

unfoldable pub is_sum_operator : Token → Bool
unfolding bytes_eq
is_sum_operator t =
    has_type TokenType.arithmetic t
    && (bytes_eq t.value (codes "+")
        || bytes_eq t.value (codes "-")
        || bytes_eq t.value (codes "add")
        || bytes_eq t.value (codes "sub"))

unfoldable pub is_and : Token → Bool
unfolding bytes_eq
is_and = is_token TokenType.logical (codes "and")

unfoldable pub is_or : Token → Bool
unfolding bytes_eq
is_or = is_token TokenType.logical (codes "or")

-- `for { value := item(); values = append(values, value); if comma { advance() } else { break } }`
unfoldable pub items_loop : ℕ → Parser → List Token → Result ParseError (Nodes × List Token)
unfolding current_token advance
items_loop zero item ts = out_of_fuel
items_loop (suc fuel) item ts = item ts >>= λ (value, rest).
    let more =
      items_loop fuel item (advance rest) >>= λ (values, end). ok (node value values, end) in
    if has_type TokenType.comma (current_token rest) then more else ok (node value no_nodes, rest)

-- The items up to the closing parenthesis, which is passed.
unfoldable pub parse_items : Parser → List Token → Result ParseError (Nodes × List Token)
unfolding items_loop expect
parse_items item ts =
    (if has_type TokenType.r_paren (current_token ts)
      then ok (no_nodes, ts)
      else items_loop (length ts + 1) item ts)
    >>= λ (values, rest). expect TokenType.r_paren rest >>= λ end. ok (values, end)

abbrev pub after_in : Result ParseError (List Token) → Result ParseError (List Token)
after_in (ok ts) = ok ts
after_in (err e) = err (expected_parenthesis_after_in e)
after_in out_of_fuel = out_of_fuel

module _ (primary : Parser) where
  unfoldable pub parse_collection : Parser
  unfolding parse_items
  parse_collection ts = after_in (expect TokenType.l_paren ts) >>= λ open_list.
      parse_items primary open_list >>= λ (values, rest). ok (collection_expr values, rest)

  unfoldable pub parse_term : Parser
  unfolding parse_binary is_term_operator
  parse_term = parse_binary is_term_operator primary

  unfoldable pub parse_arithmetic : Parser
  unfolding parse_term is_sum_operator
  parse_arithmetic = parse_binary is_sum_operator parse_term

  -- The operand on the right: a collection behind `in`.
  unfoldable pub parse_comparison : Parser
  unfolding parse_arithmetic parse_collection
  parse_comparison ts = parse_arithmetic ts >>= λ (left, rest).
      let operator = (current_token rest).value in
      let behind = advance rest in
      let right =
        if bytes_eq operator (codes "in")
        then parse_collection behind
        else parse_arithmetic behind in
      let compared = right >>= λ (value, end). ok (comparison_expr left operator value, end) in
      if has_type TokenType.operator (current_token rest) then compared else ok (left, rest)

  unfoldable pub parse_not : Parser
  unfolding parse_comparison
  parse_not ts =
      let operand = parse_comparison (advance ts) >>= λ (value, rest).
      ok (unary_expr (current_token ts).value value, rest) in
      if has_type TokenType.not (current_token ts) then operand else parse_comparison ts

  unfoldable pub parse_and : Parser
  unfolding parse_not is_and
  parse_and = parse_binary is_and parse_not

  unfoldable pub parse_or_with : Parser
  unfolding parse_and is_or
  parse_or_with = parse_binary is_or parse_and
