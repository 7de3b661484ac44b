-- ===== src/Filter/Parser/Cursor.antt =====
-- ast_parser_core.go: the parser's place in the tokens, its errors and `expect`.
use go_odata.Prelude.{
  ℕ, Bool, false, ◌&&◌, List, [], ◌∷◌, Result, ok, err, Bytes, bytes_eq, if◌then◌else◌,
}
use go_odata.Filter.Token.{Token, TokenType, type_eq}
use go_odata.Filter.Ast.{AstNode}

pub data ParseError : Type 0 where
  expected : TokenType → TokenType → ℕ → ParseError
  expected_parenthesis_after_in : ParseError → ParseError
  unexpected_after_expression : TokenType → ℕ → ParseError
  unexpected_token : TokenType → ℕ → ParseError
  invalid_binary_literal invalid_duration_literal : ParseError
  expected_identifier_in_path : ℕ → ParseError
  expected_colon_after_lambda_var failed_to_parse_lambda_pred : ParseError

abbrev pub Parsed : Type 0
Parsed = Result ParseError (AstNode × List Token)

abbrev pub Parser : Type 0
Parser = List Token → Parsed

abbrev pub end_token : Token
end_token = record { type = TokenType.eof; value = []; pos = 0 }

unfoldable pub current_token : List Token → Token
current_token [] = end_token
current_token (t ∷ _) = t

-- The last token is never passed.
unfoldable pub advance : List Token → List Token
advance [] = []
advance (t ∷ []) = t ∷ []
advance (t ∷ u ∷ ts) = u ∷ ts

-- The token behind the current one, if there is one.
unfoldable pub is_next : (Token → Bool) → List Token → Bool
is_next test (t ∷ u ∷ ts) = test u
is_next test _ = false

abbrev pub has_type : TokenType → Token → Bool
has_type type t = type_eq t.type type

abbrev pub is_token : TokenType → Bytes → Token → Bool
is_token type value t = has_type type t && bytes_eq t.value value

unfoldable pub expect : TokenType → List Token → Result ParseError (List Token)
unfolding current_token advance
expect type ts =
    let token = current_token ts in
    if type_eq token.type type then ok (advance ts) else err (expected type token.type token.pos)
