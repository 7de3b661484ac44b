-- ===== src/Filter/Sound/Layers.antt =====
-- Each layer of precedence against its level of the grammar, given the layer below.
use go_odata.Prelude.{
  ℕ, ◌≤◌, ◌<◌, ◌≡◌, refl, ◌∙◌, ap, Bool, true, false, ◌&&◌, List, [], ◌∷◌, ◌++◌, inl, inr, arith,
  Result, Ensures, holds, failed, Ensures-if, Ensures-bind, Ensures-map, ◌==◌, length, codes,
  bytes_eq, Bool-cases,
}
use go_odata.Filter.Token.{Token, TokenType, iota}
use go_odata.Filter.Ast.{AstNode, Nodes, collection_expr}
use go_odata.Filter.Values.{Codecs}
use go_odata.Filter.Grammar
use go_odata.Filter.Grammar.{
  Level, Is, Derives, DerivesItems, DerivesList, term, sum, comparison, negation, conjunction,
  disjunction,
}
use go_odata.Filter.Parser.Cursor.{ParseError, Parser, current_token, has_type, expect}
use go_odata.Filter.Parser.Layers.{
  is_term_operator, is_sum_operator, is_and, is_or, parse_collection, parse_term, parse_arithmetic,
  parse_comparison, parse_not, parse_and, parse_or_with, after_in,
}
use go_odata.Filter.Sound.Tokens.{EndsInEof, passed_of, Passed-Is, Takes, expect-Takes}
use go_odata.Filter.Sound.Readings.{
  IsSound, IsOperator, length-splits, joined, parse_binary-Reads, parse_items-Reads,
}

-- An operator that a test accepts is not the end of the input.
typed :
    (type : TokenType) (b : Bool) (t : Token)
    → (has_type type t && b) ≡ true
    → (iota type == 0) ≡ false
    → has_type TokenType.eof t ≡ false
typed type b t h k = ground arith

term-IsOperator : IsOperator is_term_operator
unfolding is_term_operator
term-IsOperator t h = typed TokenType.arithmetic _ t h refl

sum-IsOperator : IsOperator is_sum_operator
unfolding is_sum_operator
sum-IsOperator t h = typed TokenType.arithmetic _ t h refl

and_IsOperator : IsOperator is_and
unfolding is_and
and_IsOperator t h = typed TokenType.logical _ t h refl

or_IsOperator : IsOperator is_or
unfolding is_or
or_IsOperator t h = typed TokenType.logical _ t h refl

after_in-Takes :
    (ts : List Token)
    → EndsInEof ts
    → Ensures (Takes TokenType.l_paren ts) (after_in (expect TokenType.l_paren ts))
after_in-Takes ts n = go (expect-Takes TokenType.l_paren ts n refl)
  where
    go :
        {r : Result ParseError (List Token)}
        → Ensures (Takes TokenType.l_paren ts) r
        → Ensures (Takes TokenType.l_paren ts) (after_in r)
    go (holds h) = holds h
    go failed = failed

module _ (lib : Codecs) (primary : Parser) (bound : ℕ)
    (sound : IsSound (Derives lib Level.primary) bound primary) where
  term-Reads : IsSound (Derives lib term) bound (parse_term primary)
  unfolding parse_term
  term-Reads =
      parse_binary-Reads (Derives lib Level.primary) (Derives lib term) is_term_operator primary
        bound term-IsOperator sound (λ _ _ _ _ op d h e. Grammar.times op d h e)
        (λ _ _ d. Grammar.primary_term d)

  sum-Reads : IsSound (Derives lib sum) bound (parse_arithmetic primary)
  unfolding parse_arithmetic
  sum-Reads =
      parse_binary-Reads (Derives lib term) (Derives lib sum) is_sum_operator (parse_term primary)
        bound sum-IsOperator term-Reads (λ _ _ _ _ op d h e. Grammar.plus op d h e)
        (λ _ _ d. Grammar.term_sum d)

  -- The collection behind `in`, with its opening parenthesis.
  record Collection (ts : List Token) (r : AstNode × List Token) : Type 0 where
    values : Nodes
    opening : Token
    body : List Token
    is_value : r.0 ≡ collection_expr values
    is_opening : Is TokenType.l_paren opening
    splits : ts ≡ opening ∷ (body ++ r.1)
    derives : DerivesItems lib Level.primary body values
    ends : EndsInEof r.1
    shorter : length r.1 < length ts

  Collection-Reads :
      (ts : List Token)
      → length ts ≤ bound
      → EndsInEof ts
      → Ensures (Collection ts) (parse_collection primary ts)
  unfolding parse_collection
  Collection-Reads ts b n = Ensures-bind (after_in-Takes ts n) λ inside t.
      let one_less = length-splits (t.token ∷ []) inside t.splits in
      Ensures-bind
        (parse_items-Reads lib Level.primary primary bound sound inside (omega arith) t.ends)
        λ (values, rest) r. holds (record {
          values = values;
          opening = t.token;
          body = r.body;
          is_value = refl;
          is_opening = t.is_type;
          splits = t.splits ∙ ap (◌∷◌ t.token) r.splits;
          derives = r.derives;
          ends = r.ends;
          shorter = omega (arith, r.shorter);
        })

  comparison-Reads : IsSound (Derives lib comparison) bound (parse_comparison primary)
  unfolding parse_comparison
  comparison-Reads ts b n = Ensures-bind (sum-Reads ts b n) λ (left, rest) r.
      Ensures-if (has_type TokenType.operator (current_token rest))
        (λ h.
          let p = passed_of TokenType.operator rest r.ends h refl in
          let one_less = length-splits (p.token ∷ []) p.rest p.splits in
          rw (p.moved, p.current)
            (elim (Bool-cases (bytes_eq p.token.value (codes "in"))) [
              | inl word ↦ rw word (
                  Ensures-bind (Collection-Reads p.rest (omega (arith, r.shorter)) p.ends)
                    λ (value, end) c. holds (record {
                      body = r.body ++ p.token ∷ c.opening ∷ c.body;
                      splits =
                          joined r.body p.token (c.opening ∷ c.body) end r.splits p.splits c.splits;
                      derives = rw c.is_value (
                          Grammar.is_in p.token c.opening r.derives
                            (Passed-Is TokenType.operator p h) word c.is_opening c.derives);
                      ends = c.ends;
                      shorter = omega (arith, r.shorter, c.shorter);
                    }))
              | inr word ↦ rw word (
                  Ensures-bind (sum-Reads p.rest (omega (arith, r.shorter)) p.ends)
                    λ (value, end) q. holds (record {
                      body = r.body ++ p.token ∷ q.body;
                      splits = joined r.body p.token q.body end r.splits p.splits q.splits;
                      derives =
                          Grammar.compares p.token r.derives (Passed-Is TokenType.operator p h) word
                            q.derives;
                      ends = q.ends;
                      shorter = omega (arith, r.shorter, q.shorter);
                    }))
            ]))
        (λ _. holds (record {
          body = r.body;
          splits = r.splits;
          derives = Grammar.sum_comparison r.derives;
          ends = r.ends;
          shorter = r.shorter;
        }))

  not-Reads : IsSound (Derives lib negation) bound (parse_not primary)
  unfolding parse_not
  not-Reads ts b n =
      Ensures-if (has_type TokenType.not (current_token ts))
        (λ h.
          let p = passed_of TokenType.not ts n h refl in
          let one_less = length-splits (p.token ∷ []) p.rest p.splits in
          rw (p.moved, p.current)
            (Ensures-bind (comparison-Reads p.rest (omega arith) p.ends) λ (value, end) q.
              holds (record {
                body = p.token ∷ q.body;
                splits = p.splits ∙ ap (◌∷◌ p.token) q.splits;
                derives = Grammar.negates p.token (Passed-Is TokenType.not p h) q.derives;
                ends = q.ends;
                shorter = omega (arith, q.shorter);
              })))
        (λ _. Ensures-map (comparison-Reads ts b n) λ _ q. record {
          body = q.body;
          splits = q.splits;
          derives = Grammar.comparison_negation q.derives;
          ends = q.ends;
          shorter = q.shorter;
        })

  and-Reads : IsSound (Derives lib conjunction) bound (parse_and primary)
  unfolding parse_and
  and-Reads =
      parse_binary-Reads (Derives lib negation) (Derives lib conjunction) is_and (parse_not primary)
        bound and_IsOperator not-Reads (λ _ _ _ _ op d h e. Grammar.both op d h e)
        (λ _ _ d. Grammar.negation_conjunction d)

  pub or-Reads : IsSound (Derives lib disjunction) bound (parse_or_with primary)
  unfolding parse_or_with
  or-Reads =
      parse_binary-Reads (Derives lib conjunction) (Derives lib disjunction) is_or
        (parse_and primary) bound or_IsOperator and-Reads
        (λ _ _ _ _ op d h e. Grammar.either op d h e) (λ _ _ d. Grammar.conjunction_disjunction d)
