-- ===== src/Filter/Sound/Calls.antt =====
-- Groups, calls and lambda expressions against the grammar, given `parseOr` at the next depth.
use go_odata.Prelude.{
  ℕ, suc, ◌≤◌, ◌≡◌, refl, ◌∙◌, sym, ap, false, List, [], ◌∷◌, ◌++◌, append_assoc, arith, Result, ok,
  err, ◌>>=◌, Ensures, holds, failed, Ensures-if, Ensures-bind, Ensures-map, length, Bytes,
}
use go_odata.Filter.Token.{Token, TokenType}
use go_odata.Filter.Ast.{
  AstNode, Nodes, Predicate, no_predicate, predicate, function_call_expr, identifier_expr,
  group_expr, lambda_expr,
}
use go_odata.Filter.Values.{Codecs}
use go_odata.Filter.Grammar
use go_odata.Filter.Grammar.{Level, Is, Segments, Derives, DerivesItems, LambdaBody, disjunction}
use go_odata.Filter.Parser.Cursor
use go_odata.Filter.Parser.Cursor.{
  ParseError, Parser, Parsed, current_token, advance, has_type, is_token, is_next, expect,
}
use go_odata.Filter.Parser.Primary.{
  with_error, parse_grouped_expression, parse_function_call, parse_range_predicate,
  parse_lambda_expression,
}
use go_odata.Filter.Sound.Tokens.{
  EndsInEof, Passed, passed_of, Passed-Is, Takes, Takes-current, expect-Takes,
}
use go_odata.Filter.Sound.Readings.{Reads, IsSound, length-splits, closed-Reads, parse_items-Reads}

-- What `G` says of the tokens from `ts` on, `H` says with those before them.
pub extend-Reads :
    {A B : Type 0} {G : List Token → A → Type 0} {H : List Token → B → Type 0}
    {all ts rest : List Token} {a : A} (t : Token) (read : List Token) (b : B)
    → all ≡ t ∷ (read ++ ts)
    → Reads G ts (a, rest)
    → ((body : List Token) → G body a → H (t ∷ (read ++ body)) b)
    → Reads H all (b, rest)
extend-Reads {ts = ts} {rest = rest} t read b e r k = record {
  body = t ∷ (read ++ r.body);
  splits =
      e ∙ ap (λ x. t ∷ (read ++ x)) r.splits ∙ ap (◌∷◌ t) (sym (append_assoc read r.body rest));
  derives = k r.body r.derives;
  ends = r.ends;
  shorter = omega (arith, r.shorter, length-splits (t ∷ read) ts e);
}

module _ (lib : Codecs) (nested : Parser) (bound : ℕ)
    (sound : IsSound (Derives lib disjunction) bound nested) where
  abbrev pub Fits : List Token → Type 0
  Fits ts = length ts ≤ suc bound

  -- The arguments of a call, with their parentheses.
  pub record CallBody (name : Bytes) (xs : List Token) (a : AstNode) : Type 0 where
    pub opening : Token
    pub ys : List Token
    pub args : Nodes
    pub is_opening : Is TokenType.l_paren opening
    pub is_body : xs ≡ opening ∷ ys
    pub derives : DerivesItems lib disjunction ys args
    pub is_value : a ≡ function_call_expr name args

  pub function_call-Reads :
      (name : Bytes) (ts : List Token)
      → Fits ts
      → EndsInEof ts
      → Is TokenType.l_paren (current_token ts)
      → Ensures (Reads (CallBody name) ts) (parse_function_call lib nested name ts)
  unfolding parse_function_call
  function_call-Reads name ts b n h =
      let p = passed_of TokenType.l_paren ts n h refl in
      let one_less = length-splits (p.token ∷ []) p.rest p.splits in
      rw p.moved (
        Ensures-bind
          (parse_items-Reads lib disjunction nested bound sound p.rest (omega arith) p.ends)
          λ (args, rest) r. holds (
            extend-Reads p.token [] (function_call_expr name args) p.splits r λ body d. record {
              opening = p.token;
              ys = body;
              args = args;
              is_opening = Passed-Is TokenType.l_paren p h;
              is_body = refl;
              derives = d;
              is_value = refl;
            }))

  pub grouped-Reads :
      (ts : List Token)
      → Fits ts
      → EndsInEof ts
      → Is TokenType.l_paren (current_token ts)
      → Ensures (Reads (Derives lib Level.primary) ts) (parse_grouped_expression lib nested ts)
  unfolding parse_grouped_expression
  grouped-Reads ts b n h =
      let p = passed_of TokenType.l_paren ts n h refl in
      let one_less = length-splits (p.token ∷ []) p.rest p.splits in
      rw p.moved (
        Ensures-bind (sound p.rest (omega arith) p.ends) λ (value, rest) r.
          Ensures-map
            (closed-Reads lib {H = λ xs a. Derives lib Level.primary (p.token ∷ xs) a} p.rest value
              rest group_expr r
              (λ xs closing d c.
                Grammar.group p.token closing (Passed-Is TokenType.l_paren p h) d c))
            λ (a, end) q. extend-Reads p.token [] a p.splits q (λ body d. d))

  pub record LambdaTail (path operator : Bytes) (xs : List Token) (a : AstNode) : Type 0 where
    pub variable : Bytes
    pub pred : Predicate
    pub derives : LambdaBody lib xs variable pred
    pub is_value : a ≡ lambda_expr (identifier_expr path) operator variable pred

  range_predicate-Reads :
      (path operator : Bytes) (ts : List Token)
      → Fits ts
      → EndsInEof ts
      → (p : Passed ts) → Is TokenType.l_paren p.token
      → Is TokenType.identifier (current_token p.rest)
      → Ensures
          (Reads (LambdaTail path operator) ts)
          (parse_range_predicate lib nested path operator p.rest)
  unfolding parse_range_predicate
  range_predicate-Reads path operator ts b n p opened h =
      let v = passed_of TokenType.identifier p.rest p.ends h refl in
      rw (v.moved, parse_range_predicate)
        (after_colon (expect-Takes TokenType.colon v.rest v.ends refl) λ u c.
          let before = p.splits ∙ ap (◌∷◌ p.token) (v.splits ∙ ap (◌∷◌ v.token) c.splits) in
          let fewer = length-splits (p.token ∷ v.token ∷ c.token ∷ []) u before in
          Ensures-bind (keep_error _ (sound u (omega arith) c.ends)) λ (value, rest) r.
            Ensures-map
              (closed-Reads lib
                {H = λ xs a. LambdaTail path operator (p.token ∷ v.token ∷ c.token ∷ xs) a} u value
                rest
                (λ x.
                  lambda_expr (identifier_expr path) operator (current_token p.rest).value
                    (predicate x))
                r
                (λ xs closing d is_closing. record {
                  variable = (current_token p.rest).value;
                  pred = predicate value;
                  derives = rw v.current (
                      Grammar.ranged p.token v.token c.token closing opened
                        (Passed-Is TokenType.identifier v h) c.is_type d is_closing);
                  is_value = refl;
                }))
              λ (a, end) q. extend-Reads p.token (v.token ∷ c.token ∷ []) a before q (λ body d. d))
    where
      after_colon :
          {us : List Token} {r : Result ParseError (List Token)} {f : List Token → Parsed}
          → Ensures (Takes TokenType.colon us) r
          → ((u : List Token)
              → Takes TokenType.colon us u
              → Ensures (Reads (LambdaTail path operator) ts) (f u))
          → Ensures
              (Reads (LambdaTail path operator) ts)
              (elim r [ ok u ↦ f u | _ ↦ err Cursor.expected_colon_after_lambda_var ])
      after_colon (holds {a} t) k = k a t
      after_colon failed k = failed

      keep_error :
          {us : List Token} {r : Parsed} (e : ParseError)
          → Ensures (Reads (Derives lib disjunction) us) r
          → Ensures (Reads (Derives lib disjunction) us) (with_error e r)
      keep_error e (holds x) = holds x
      keep_error e failed = failed

  pub lambda-Reads :
      (path operator : Bytes) (ts : List Token)
      → Fits ts
      → EndsInEof ts
      → Is TokenType.l_paren (current_token ts)
      → Ensures
          (Reads (LambdaTail path operator) ts)
          (parse_lambda_expression lib nested path operator ts)
  unfolding parse_lambda_expression
  lambda-Reads path operator ts b n h =
      let p = passed_of TokenType.l_paren ts n h refl in
      let one_less = length-splits (p.token ∷ []) p.rest p.splits in
      let opened = Passed-Is TokenType.l_paren p h in
      rw p.moved (
        Ensures-if (has_type TokenType.r_paren (current_token p.rest))
          (λ k.
            let q = passed_of TokenType.r_paren p.rest p.ends k refl in
            let before = p.splits ∙ ap (◌∷◌ p.token) q.splits in
            rw q.moved (
              holds (record {
                body = p.token ∷ q.token ∷ [];
                splits = before;
                derives = record {
                  variable = [];
                  pred = no_predicate;
                  derives =
                      Grammar.no_body p.token q.token opened (Passed-Is TokenType.r_paren q k);
                  is_value = refl;
                };
                ends = q.ends;
                shorter = omega (arith, length-splits (p.token ∷ q.token ∷ []) q.rest before);
              })))
          (λ k.
            Ensures-if (has_type TokenType.identifier (current_token p.rest))
              (λ v. range_predicate-Reads path operator ts b n p opened v)
              (λ _. never _ (expect-Takes TokenType.r_paren p.rest p.ends refl) k)))
    where
      never :
          {r : Result ParseError (List Token)} {us : List Token} (f : List Token → Parsed)
          → Ensures (Takes TokenType.r_paren us) r
          → has_type TokenType.r_paren (current_token us) ≡ false
          → Ensures (Reads (LambdaTail path operator) ts) (r >>= f)
      never f (holds {a} t) k = cc (Takes-current TokenType.r_paren _ a t)
      never f failed k = failed
