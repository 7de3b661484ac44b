-- ===== src/Search/Examples.antt =====
-- Runs of the search parser, and its theorems at small queries.
use go_odata.Prelude.{◌≡◌, refl, Bool, true, false, none, some, ok, Ensures, Bytes, codes, bytes_eq}
use go_odata.Search.Tokens.{tokenize_search, trim_space}
use go_odata.Search.{SearchExprNode, term, phrase, both, either, negated, parse_search_expression}
use go_odata.Search.Queries.{
  to_websearch_query, to_fts5_query, matches_search_expr, to_websearch_query-either,
}
use go_odata.Search.Words.Loops.{Kept, parse_search_expression-Kept}

abbrev query : Bytes
query = codes " red AND (\"large car\" OR NOT blue) fast"

abbrev tree : SearchExprNode
tree =
    both
      (both (term (codes "red"))
        (either (phrase (codes "large car")) (negated (term (codes "blue")))))
      (term (codes "fast"))

parsed : parse_search_expression query ≡ ok (some tree)
unfolding parse_search_expression
parsed = refl

-- A query that starts with an operator has no tree.
leading : parse_search_expression (codes "AND red") ≡ ok none
unfolding parse_search_expression
leading = refl

fts5 : to_fts5_query tree ≡ codes "red AND (\"large car\" OR NOT blue) AND fast"
unfolding to_fts5_query
fts5 = refl

parse_search_expression-Kept_example :
    Ensures (Kept (tokenize_search (trim_space query))) (parse_search_expression query)
parse_search_expression-Kept_example = parse_search_expression-Kept query

abbrev red_only : Bytes → Bool
red_only w = bytes_eq w (codes "red")

to_websearch_query-either_example :
    (to_websearch_query
        (both (either (term (codes "red")) (term (codes "blue"))) (term (codes "car")))
      ≡ to_websearch_query
          (either (term (codes "red")) (both (term (codes "blue")) (term (codes "car")))))
    × (matches_search_expr red_only
          (both (either (term (codes "red")) (term (codes "blue"))) (term (codes "car")))
        ≡ false)
    × (matches_search_expr red_only
          (either (term (codes "red")) (both (term (codes "blue")) (term (codes "car"))))
        ≡ true)
unfolding bytes_eq
to_websearch_query-either_example =
    to_websearch_query-either red_only (term (codes "red")) (term (codes "blue"))
      (term (codes "car")) refl refl
