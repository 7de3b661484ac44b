-- ===== src/Search.antt =====
-- internal/query/search_expression.go: the $search expression, from text to tokens to a tree and to
-- the queries of the full text search engines. A text is a list of runes here, as in the source
-- behind its `[]rune(input)`.
pub mod Tokens
pub mod Words
pub mod Queries
mod Examples
use go_odata.Prelude.{
  ℕ, zero, suc, ◌+◌, Bool, true, false, not, ◌&&◌, ◌||◌, List, [], ◌∷◌, ◌++◌, Option, none, some,
  Result, ok, err, out_of_fuel, ◌>>=◌, Bytes, codes, bytes_eq, ◌==◌, if◌then◌else◌, length,
}
use go_odata.Search.Tokens.{SearchTok, SearchTokType, is_type, tokenize_search, trim_space}

-- `SearchExprNode`, with the fields that the source sets for each `op`; nil is `none` of an option.
pub data SearchExprNode : Type 0 where
  term phrase : Bytes → SearchExprNode
  both either : SearchExprNode → SearchExprNode → SearchExprNode
  negated : SearchExprNode → SearchExprNode

abbrev pub end_token : SearchTok
end_token = record { type = SearchTokType.eof; text = [] }

abbrev pub peek : List SearchTok → SearchTok
peek [] = end_token
peek (t ∷ _) = t

unfoldable pub consume : List SearchTok → List SearchTok
consume [] = []
consume (t ∷ ts) = if is_type SearchTokType.eof t then t ∷ ts else ts

-- The parser has no errors of its own.
pub data NoError : Type 0 where

abbrev pub Parsed : Type 0
Parsed = Result NoError (Option SearchExprNode × List SearchTok)

abbrev pub starts_operand : SearchTok → Bool
starts_operand t =
    is_type SearchTokType.term t
    || is_type SearchTokType.phrase t
    || is_type SearchTokType.not t
    || is_type SearchTokType.l_paren t

abbrev pub negate : Option SearchExprNode → SearchExprNode
negate none = term (codes "NOT")
negate (some operand) = negated operand

-- `nested` is `parseOr` at the next depth of parentheses.
module _ (nested : List SearchTok → Parsed) where
  unfoldable pub parse_primary : List SearchTok → Parsed
  unfolding consume
  parse_primary ts =
      let token = peek ts in
      elim token.type [
        | SearchTokType.phrase ↦ ok (some (phrase token.text), consume ts)
        | SearchTokType.term ↦ ok (some (term token.text), consume ts)
        | SearchTokType.l_paren ↦ nested (consume ts) >>= λ (inner, rest).
            ok (inner, if is_type SearchTokType.r_paren (peek rest) then consume rest else rest)
        | _ ↦ ok (none, ts)
      ]

  -- Each recursive call stands behind a NOT, which `consume` passes.
  unfoldable pub parse_not : List SearchTok → Parsed
  unfolding parse_primary
  parse_not [] = parse_primary []
  parse_not (t ∷ ts) =
      let operand = parse_not ts >>= λ (o, rest). ok (some (negate o), rest) in
      if is_type SearchTokType.not t then operand else parse_primary (t ∷ ts)

  -- The loop of `parseAnd`; fuel bounds its rounds.
  unfoldable pub and_loop : ℕ → SearchExprNode → List SearchTok → Parsed
  unfolding parse_not consume
  and_loop zero left ts = out_of_fuel
  and_loop (suc fuel) left ts =
      let joined = parse_not (consume ts) >>= λ (right, rest). elim right [
        | none ↦ ok (some (both left (term (codes "AND"))), rest)
        | some r ↦ and_loop fuel (both left r) rest
      ] in
      let adjacent = parse_not ts >>= λ (right, rest). elim right [
        | none ↦ ok (some left, rest)
        | some r ↦ and_loop fuel (both left r) rest
      ] in
      if is_type SearchTokType.and (peek ts)
      then joined
      else if starts_operand (peek ts)
      then adjacent
      else ok (some left, ts)

  unfoldable pub parse_and : List SearchTok → Parsed
  unfolding and_loop
  parse_and ts = parse_not ts >>= λ (left, rest). elim left [
    | none ↦ ok (none, rest)
    | some l ↦ and_loop (length rest + 1) l rest
  ]

  -- The loop of `parseOr`.
  unfoldable pub or_loop : ℕ → SearchExprNode → List SearchTok → Parsed
  unfolding parse_and consume
  or_loop zero left ts = out_of_fuel
  or_loop (suc fuel) left ts =
      let joined = parse_and (consume ts) >>= λ (right, rest). elim right [
        | none ↦ ok (some (both left (term (codes "OR"))), rest)
        | some r ↦ or_loop fuel (either left r) rest
      ] in
      if is_type SearchTokType.or (peek ts) then joined else ok (some left, ts)

  unfoldable pub parse_or_with : List SearchTok → Parsed
  unfolding or_loop
  parse_or_with ts = parse_and ts >>= λ (left, rest). elim left [
    | none ↦ ok (none, rest)
    | some l ↦ or_loop (length rest + 1) l rest
  ]

-- The fuel bounds the depth of parentheses.
unfoldable pub parse_or : ℕ → List SearchTok → Parsed
unfolding parse_or_with
parse_or zero ts = out_of_fuel
parse_or (suc depth) ts = parse_or_with (parse_or depth) ts

-- `ParseSearchExpression` behind its `TrimSpace`.
unfoldable pub parse_trimmed : Bytes → Result NoError (Option SearchExprNode)
unfolding parse_or tokenize_search
parse_trimmed [] = ok none
parse_trimmed (r ∷ rs) =
    let tokens = tokenize_search (r ∷ rs) in
    parse_or (length tokens + 1) tokens >>= λ (tree, _). ok tree

unfoldable pub parse_search_expression : Bytes → Result NoError (Option SearchExprNode)
unfolding parse_trimmed trim_space
parse_search_expression query = parse_trimmed (trim_space query)
