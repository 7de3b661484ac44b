-- ===== src/Filter/Parser.antt =====
-- internal/query/ast_parser_core.go, ast_parser_boolean.go, ast_parser_arithmetic.go,
-- ast_parser_lambda.go and ast_parser_functions.go: the recursive descent parser. Its state is the
-- list of the tokens from `current` on.
pub mod Cursor
pub mod Layers
pub mod Primary
use go_odata.Prelude.{
  ℕ, zero, suc, ◌+◌, ◌≡◌, Bool, List, [], ◌∷◌, Result, ok, err, out_of_fuel, ◌>>=◌, Bytes, ◌==◌,
  if◌then◌else◌, length,
}
use go_odata.Filter.Token.{Token, TokenType, type_eq}
use go_odata.Filter.Ast.{AstNode}
use go_odata.Filter.Values.{Codecs}
use go_odata.Filter.Parser.Cursor.{
  ParseError, unexpected_after_expression, Parsed, Parser, current_token,
}
use go_odata.Filter.Parser.Layers.{parse_or_with}
use go_odata.Filter.Parser.Primary.{parse_primary}

-- `parseOr`. The fuel bounds the depth of nesting: the parser calls itself behind an opening
-- parenthesis only.
unfoldable pub parse_or : Codecs → ℕ → Parser
unfolding parse_or_with parse_primary
parse_or lib zero ts = out_of_fuel
parse_or lib (suc depth) ts = parse_or_with (parse_primary lib (parse_or lib depth)) ts

-- `Parse`: all the tokens but the end are consumed.
unfoldable pub parse : Codecs → List Token → Result ParseError AstNode
unfolding parse_or current_token
parse lib ts = parse_or lib (length ts + 1) ts >>= λ (node, rest).
    let token = current_token rest in
    if type_eq token.type TokenType.eof
    then ok node
    else err (unexpected_after_expression token.type token.pos)
