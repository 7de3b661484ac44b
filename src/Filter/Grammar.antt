-- ===== src/Filter/Grammar.antt =====
-- The grammar of filter expressions over tokens, written independently of the parser: which lists
-- of tokens spell which tree, at each level of precedence. Binary operators associate to the left.
use go_odata.Prelude.{◌≡◌, true, false, List, [], ◌∷◌, ◌++◌, some, ok, Bytes, codes, bytes_eq}
use go_odata.Filter.Token.{Token, TokenType}
use go_odata.Filter.Ast.{
  AstNode, Nodes, Predicate, binary_expr, unary_expr, comparison_expr, function_call_expr,
  identifier_expr, group_expr, collection_expr, lambda_expr, no_nodes, node, no_predicate,
  predicate, minus_infinity, not_a_number,
}
use go_odata.Filter.Values.{Codecs, to_lower, number_literal}
use go_odata.Filter.Parser.Cursor.{has_type, is_token}
use go_odata.Filter.Parser.Layers.{is_term_operator, is_sum_operator, is_and, is_or}
use go_odata.Filter.Parser.Primary.{
  literal_of, lower_is, prefixed_literal, is_prefix_word, is_lambda_word, is_slash, split_last_part,
}

pub data Level : Type 0 where
  primary term sum comparison negation conjunction disjunction : Level

abbrev pub Is : TokenType → Token → Type 0
Is type t = has_type type t ≡ true

-- The names behind the first, each with its slash, and the path that they make.
pub data Segments (initial : Bytes) : List Token → Bytes → Type 0 where
  start : Segments initial [] initial
  segment :
      {xs : List Token} {path : Bytes} (slash name : Token)
      → Segments initial xs path
      → is_slash slash ≡ true
      → Is TokenType.identifier name
      → Segments initial (xs ++ slash ∷ name ∷ []) (path ++ b'/' ∷ name.value)

mutual
  pub data Derives (lib : Codecs) : Level → List Token → AstNode → Type 0 where
    primary_term :
        {xs : List Token} {a : AstNode} → Derives lib primary xs a → Derives lib term xs a
    term_sum : {xs : List Token} {a : AstNode} → Derives lib term xs a → Derives lib sum xs a
    sum_comparison :
        {xs : List Token} {a : AstNode} → Derives lib sum xs a → Derives lib comparison xs a
    comparison_negation :
        {xs : List Token} {a : AstNode} → Derives lib comparison xs a → Derives lib negation xs a
    negation_conjunction :
        {xs : List Token} {a : AstNode} → Derives lib negation xs a → Derives lib conjunction xs a
    conjunction_disjunction :
        {xs : List Token} {a : AstNode}
        → Derives lib conjunction xs a
        → Derives lib disjunction xs a
    times :
        {xs ys : List Token} {a b : AstNode} (op : Token)
        → Derives lib term xs a
        → is_term_operator op ≡ true
        → Derives lib primary ys b
        → Derives lib term (xs ++ op ∷ ys) (binary_expr a op.value b)
    plus :
        {xs ys : List Token} {a b : AstNode} (op : Token)
        → Derives lib sum xs a
        → is_sum_operator op ≡ true
        → Derives lib term ys b
        → Derives lib sum (xs ++ op ∷ ys) (binary_expr a op.value b)
    compares :
        {xs ys : List Token} {a b : AstNode} (op : Token)
        → Derives lib sum xs a
        → Is TokenType.operator op
        → bytes_eq op.value (codes "in") ≡ false
        → Derives lib sum ys b
        → Derives lib comparison (xs ++ op ∷ ys) (comparison_expr a op.value b)
    is_in :
        {xs ys : List Token} {a : AstNode} {values : Nodes} (op open_list : Token)
        → Derives lib sum xs a
        → Is TokenType.operator op
        → bytes_eq op.value (codes "in") ≡ true
        → Is TokenType.l_paren open_list
        → DerivesItems lib primary ys values
        → Derives lib comparison
            (xs ++ op ∷ open_list ∷ ys)
            (comparison_expr a op.value (collection_expr values))
    negates :
        {ys : List Token} {b : AstNode} (op : Token)
        → Is TokenType.not op
        → Derives lib comparison ys b
        → Derives lib negation (op ∷ ys) (unary_expr op.value b)
    both :
        {xs ys : List Token} {a b : AstNode} (op : Token)
        → Derives lib conjunction xs a
        → is_and op ≡ true
        → Derives lib negation ys b
        → Derives lib conjunction (xs ++ op ∷ ys) (binary_expr a op.value b)
    either :
        {xs ys : List Token} {a b : AstNode} (op : Token)
        → Derives lib disjunction xs a
        → is_or op ≡ true
        → Derives lib conjunction ys b
        → Derives lib disjunction (xs ++ op ∷ ys) (binary_expr a op.value b)
    minus_inf :
        (minus t : Token)
        → is_token TokenType.arithmetic (codes "-") minus ≡ true
        → Is TokenType.number t
        → lower_is t (codes "inf") ≡ true
        → Derives lib primary (minus ∷ t ∷ []) (number_literal minus_infinity)
    minus_nan :
        (minus t : Token)
        → is_token TokenType.arithmetic (codes "-") minus ≡ true
        → Is TokenType.number t
        → lower_is t (codes "nan") ≡ true
        → Derives lib primary (minus ∷ t ∷ []) (number_literal not_a_number)
    group :
        {xs : List Token} {a : AstNode} (opening closing : Token)
        → Is TokenType.l_paren opening
        → Derives lib disjunction xs a
        → Is TokenType.r_paren closing
        → Derives lib primary (opening ∷ (xs ++ closing ∷ [])) (group_expr a)
    literal : (t : Token) {a : AstNode} → literal_of lib t ≡ some a → Derives lib primary (t ∷ []) a
    prefixed :
        (t value : Token) {a : AstNode}
        → Is TokenType.identifier t
        → is_prefix_word (to_lower t.value) ≡ true
        → Is TokenType.string value
        → prefixed_literal lib (to_lower t.value) value.value ≡ ok a
        → Derives lib primary (t ∷ value ∷ []) a
    path_name :
        (t : Token) {xs : List Token} {path : Bytes}
        → Is TokenType.identifier t
        → Segments t.value xs path
        → Derives lib primary (t ∷ xs) (identifier_expr path)
    call :
        (t opening : Token) {xs ys : List Token} {path : Bytes} {args : Nodes}
        → Is TokenType.identifier t
        → Segments t.value xs path
        → Is TokenType.l_paren opening
        → DerivesItems lib disjunction ys args
        → Derives lib primary (t ∷ (xs ++ opening ∷ ys)) (function_call_expr path args)
    lambda :
        (t slash word : Token) {xs ys : List Token} {path variable : Bytes} {pred : Predicate}
        → Is TokenType.identifier t
        → Segments t.value xs path
        → is_slash slash ≡ true
        → Is TokenType.identifier word
        → is_lambda_word (to_lower word.value) ≡ true
        → LambdaBody lib ys variable pred
        → Derives lib primary
            (t ∷ (xs ++ slash ∷ word ∷ ys))
            (lambda_expr (identifier_expr path) (to_lower word.value) variable pred)
    -- a name that itself holds a slash and ends in `any` or `all`; the tokenizer makes none
    lambda_in_name :
        (t : Token) {xs ys : List Token} {path variable : Bytes} {pred : Predicate}
        → Is TokenType.identifier t
        → Segments t.value xs path
        → is_lambda_word (to_lower (split_last_part path).1) ≡ true
        → LambdaBody lib ys variable pred
        → Derives lib primary (t ∷ (xs ++ ys)) (
            lambda_expr
              (identifier_expr (split_last_part path).0)
              (to_lower (split_last_part path).1)
              variable
              pred)

  -- Items with commas between them and the closing parenthesis behind them.
  pub data DerivesItems (lib : Codecs) : Level → List Token → Nodes → Type 0 where
    no_items :
        {level : Level} (closing : Token)
        → Is TokenType.r_paren closing
        → DerivesItems lib level (closing ∷ []) no_nodes
    items :
        {level : Level} {xs : List Token} (closing : Token) {values : Nodes}
        → DerivesList lib level xs values
        → Is TokenType.r_paren closing
        → DerivesItems lib level (xs ++ closing ∷ []) values

  pub data DerivesList (lib : Codecs) : Level → List Token → Nodes → Type 0 where
    one_item :
        {level : Level} {xs : List Token} {a : AstNode}
        → Derives lib level xs a
        → DerivesList lib level xs (node a no_nodes)
    more_items :
        {level : Level} {xs ys : List Token} {a : AstNode} {values : Nodes} (comma : Token)
        → Derives lib level xs a
        → Is TokenType.comma comma
        → DerivesList lib level ys values
        → DerivesList lib level (xs ++ comma ∷ ys) (node a values)

  -- What stands behind `any` or `all`, with the range variable and the predicate.
  pub data LambdaBody (lib : Codecs) : List Token → Bytes → Predicate → Type 0 where
    no_body :
        (opening closing : Token)
        → Is TokenType.l_paren opening
        → Is TokenType.r_paren closing
        → LambdaBody lib (opening ∷ closing ∷ []) [] no_predicate
    ranged :
        (opening variable colon closing : Token) {xs : List Token} {a : AstNode}
        → Is TokenType.l_paren opening
        → Is TokenType.identifier variable
        → Is TokenType.colon colon
        → Derives lib disjunction xs a
        → Is TokenType.r_paren closing
        → LambdaBody lib
            (opening ∷ variable ∷ colon ∷ (xs ++ closing ∷ []))
            variable.value
            (predicate a)
