-- ===== src/Search/Queries.antt =====
-- search_expression.go: the queries made of a tree.
use go_odata.Prelude.{
  ◌≡◌, ap, ◌∙◌, Bool, true, false, not, ◌&&◌, ◌||◌, [], ◌∷◌, ◌++◌, append_assoc, arith, Bytes,
  codes, ◌==◌, if◌then◌else◌,
}
use go_odata.Search.{SearchExprNode, term, phrase, both, either, negated}

abbrev pub contains_not : SearchExprNode → Bool
contains_not (term _) = false
contains_not (phrase _) = false
contains_not (both l r) = contains_not l || contains_not r
contains_not (either l r) = contains_not l || contains_not r
contains_not (negated _) = true

-- `"` + strings.ReplaceAll(term, `"`, by) + `"`
unfoldable pub quote_with : Bytes → Bytes → Bytes
quote_with by [] = b'"' ∷ []
quote_with by (c ∷ cs) = if c == b'"' then by ++ quote_with by cs else c ∷ quote_with by cs

abbrev pub quoted : Bytes → Bytes → Bytes
unfolding quote_with
quoted by text = b'"' ∷ quote_with by text

-- The query of the node, in parentheses unless it is a term or a phrase.
abbrev pub wrap_fts5 : SearchExprNode → Bytes → Bytes
wrap_fts5 (term _) query = query
wrap_fts5 (phrase _) query = query
wrap_fts5 _ query = b'(' ∷ (query ++ codes ")")

unfoldable pub to_fts5_query : SearchExprNode → Bytes
unfolding quoted
to_fts5_query (term w) = w
to_fts5_query (phrase w) = quoted (codes "\"\"") w
to_fts5_query (both l r) = to_fts5_query l ++ codes " AND " ++ to_fts5_query r
to_fts5_query (either l r) =
    b'(' ∷ (to_fts5_query l ++ codes " OR " ++ to_fts5_query r ++ codes ")")
to_fts5_query (negated o) = codes "NOT " ++ wrap_fts5 o (to_fts5_query o)

abbrev joined : Bytes → Bytes → Bytes
joined [] r = r
joined (c ∷ l) [] = c ∷ l
joined (c ∷ l) (d ∷ r) = c ∷ l ++ codes " " ++ d ∷ r

unfoldable pub to_fts34_query : SearchExprNode → Bytes
unfolding quoted
to_fts34_query (term w) = w
to_fts34_query (phrase w) = quoted (codes "\"\"") w
to_fts34_query (both l r) = joined (to_fts34_query l) (to_fts34_query r)
to_fts34_query (either l r) =
    b'(' ∷ (to_fts34_query l ++ codes " OR " ++ to_fts34_query r ++ codes ")")
to_fts34_query (negated o) = []

unfoldable pub to_websearch_query : SearchExprNode → Bytes
unfolding quoted
to_websearch_query (term w) = w
to_websearch_query (phrase w) = quoted [] w
to_websearch_query (both l r) = to_websearch_query l ++ codes " " ++ to_websearch_query r
to_websearch_query (either l r) = to_websearch_query l ++ codes " or " ++ to_websearch_query r
to_websearch_query (negated (term w)) = codes "-" ++ w
to_websearch_query (negated (phrase w)) = b'-' ∷ quoted [] w
to_websearch_query (negated o) = codes "-(" ++ to_websearch_query o ++ codes ")"

-- search.go: `matchesSearchExpr`; `has` is `matchesTermInEntity` on the term in lower case.
abbrev pub matches_search_expr : (Bytes → Bool) → SearchExprNode → Bool
matches_search_expr has (term w) = has w
matches_search_expr has (phrase w) = has w
matches_search_expr has (both l r) = matches_search_expr has l && matches_search_expr has r
matches_search_expr has (either l r) = matches_search_expr has l || matches_search_expr has r
matches_search_expr has (negated o) = not (matches_search_expr has o)

-- The query for PostgreSQL of (a OR b) AND c is that of a OR (b AND c), though of an entity that
-- matches a but not c the search in memory finds the second and not the first.
pub to_websearch_query-either :
    (has : Bytes → Bool) (a b c : SearchExprNode)
    → matches_search_expr has a ≡ true
    → matches_search_expr has c ≡ false
    → (to_websearch_query (both (either a b) c) ≡ to_websearch_query (either a (both b c)))
      × (matches_search_expr has (both (either a b) c) ≡ false)
      × (matches_search_expr has (either a (both b c)) ≡ true)
unfolding to_websearch_query
to_websearch_query-either has a b c ha hc =
    let first = to_websearch_query a ++ codes " or " in
    (
      ap (λ q. q ++ to_websearch_query c) (append_assoc first (to_websearch_query b) (codes " "))
          ∙ append_assoc first (to_websearch_query b ++ codes " ") (to_websearch_query c),
      ground arith,
      ground arith,
    )
