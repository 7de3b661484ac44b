-- ===== src/Search/Words.antt =====
-- The words of a search: those of a tree, those of tokens, and what it means that they are kept.
pub mod Primary
pub mod Loops
use go_odata.Prelude.{
  ℕ, zero, suc, ◌+◌, ◌≤◌, ◌<◌, ◌≡◌, refl, sym, ap, ◌∙◌, Bool, true, false, ◌&&◌, ◌||◌, List, [],
  ◌∷◌, ◌++◌, append_assoc, append-nil, Option, none, some, inl, inr, arith, Result, ok, err,
  out_of_fuel, ◌>>=◌, Ensures, holds, failed, Ensures-if, Ensures-bind, Ensures-map, Bytes, codes,
  bytes_eq, ◌==◌, if◌then◌else◌, Bool-cases, length, length-append,
}
use go_odata.Search.Tokens.{SearchTok, SearchTokType, iota, is_type, tokenize_search, trim_space}
use go_odata.Search.{
  SearchExprNode, term, phrase, both, either, negated, NoError, Parsed, peek, consume,
  starts_operand, parse_primary, parse_not, negate, and_loop, parse_and, or_loop, parse_or_with,
  parse_or, parse_search_expression,
}

abbrev pub is_keyword : Bytes → Bool
is_keyword w = bytes_eq w (codes "AND") || bytes_eq w (codes "OR") || bytes_eq w (codes "NOT")

pub data Leaf : Type 0 where
  a_word a_phrase : Bytes → Leaf

-- A word, unless it is a keyword that stands for itself.
abbrev pub word_leaf : Bytes → List Leaf
word_leaf w = if is_keyword w then [] else a_word w ∷ []

-- The words and phrases of a tree and of tokens, in their order.
abbrev pub leaves : SearchExprNode → List Leaf
leaves (term w) = word_leaf w
leaves (phrase w) = a_phrase w ∷ []
leaves (both l r) = leaves l ++ leaves r
leaves (either l r) = leaves l ++ leaves r
leaves (negated o) = leaves o

abbrev pub leaves_of : Option SearchExprNode → List Leaf
leaves_of none = []
leaves_of (some e) = leaves e

abbrev pub token_leaves : SearchTok → List Leaf
token_leaves t = elim t.type [
  | SearchTokType.term ↦ word_leaf t.text
  | SearchTokType.phrase ↦ a_phrase t.text ∷ []
  | _ ↦ []
]

abbrev pub words : List SearchTok → List Leaf
words [] = []
words (t ∷ ts) = token_leaves t ++ words ts

pub words-append : (xs ys : List SearchTok) → words (xs ++ ys) ≡ words xs ++ words ys
words-append [] ys = refl
words-append (t ∷ xs) ys =
    ap (λ ls. token_leaves t ++ ls) (words-append xs ys)
    ∙ sym (append_assoc (token_leaves t) (words xs) (words ys))

-- What was read off `ts`, which holds `before` in front: with a tree at least one token.
abbrev pub IsFewer : Option SearchExprNode → ℕ → ℕ → Type 0
IsFewer none rest all = rest ≤ all
IsFewer (some _) rest all = rest < all

pub record Reads (before : List Leaf) (ts : List SearchTok)
    (r : Option SearchExprNode × List SearchTok) : Type 0 where
  pub body : List SearchTok
  pub splits : ts ≡ body ++ r.1
  pub kept : leaves_of r.0 ≡ before ++ words body
  pub less : IsFewer r.0 (length r.1) (length ts)

abbrev pub IsSound : ℕ → (List SearchTok → Parsed) → Type 0
IsSound bound p = (ts : List SearchTok) → length ts ≤ bound → Ensures (Reads [] ts) (p ts)
