-- ===== src/Filter/Sound/Paths.antt =====
-- Paths and what stands behind them against the grammar, given `parseOr` at the next depth.
use go_odata.Prelude.{
  ℕ, zero, suc, ◌+◌, ◌≤◌, ◌<◌, ◌≡◌, ◌≢◌, refl, ◌∙◌, ap, true, false, not, ◌&&◌, List, [], ◌∷◌, ◌++◌,
  append_assoc, arith, Result, ok, err, out_of_fuel, ◌>>=◌, Ensures, holds, failed, Ensures-if,
  Ensures-map, length, Bytes,
}
use go_odata.Filter.Token.{Token, TokenType}
use go_odata.Filter.Ast.{AstNode, identifier_expr}
use go_odata.Filter.Values.{Codecs, to_lower}
use go_odata.Filter.Grammar
use go_odata.Filter.Grammar.{Level, Is, Segments, Derives, DerivesItems, LambdaBody, disjunction}
use go_odata.Filter.Parser.Cursor.{ParseError, Parser, current_token, has_type, is_next}
use go_odata.Filter.Parser.Primary.{
  prefixed_literal, is_prefix_word, is_lambda_word, is_slash, split_last_part, parse_function_call,
  finish_path, path_loop, parse_identifier_or_function_call,
}
use go_odata.Filter.Sound.Tokens.{
  EndsInEof, Passed, passed, passed_of, not_eof, unnot, left_of, right_of, Passed-Is,
}
use go_odata.Filter.Sound.Readings.{Reads, IsSound, length-splits, joined}
use go_odata.Filter.Sound.Calls.{extend-Reads, function_call-Reads, lambda-Reads}

prefixed_literal-ne-out_of_fuel :
    (lib : Codecs) (word value : Bytes) → prefixed_literal lib word value ≢ out_of_fuel
unfolding prefixed_literal
prefixed_literal-ne-out_of_fuel lib word value = ground arith

slash_ne_eof : (t : Token) → is_slash t ≡ true → has_type TokenType.eof t ≡ false
slash_ne_eof t h = not_eof TokenType.arithmetic t (left_of _ _ h) refl

module _ (lib : Codecs) (nested : Parser) (bound : ℕ)
    (sound : IsSound (Derives lib disjunction) bound nested) where
  -- A name was passed, and behind it `read`, which makes `path` of it; `ts` is left of `all`.
  pub record AtPath (all : List Token) (path : Bytes) (ts : List Token) : Type 0 where
    pub name : Token
    pub read : List Token
    pub is_name : Is TokenType.identifier name
    pub splits : all ≡ name ∷ (read ++ ts)
    pub segments : Segments name.value read path
    pub ends : EndsInEof ts

  AtPath-shorter :
      {all ts : List Token} {path : Bytes} → AtPath all path ts → length ts < length all
  AtPath-shorter {ts = ts} a = omega (arith, length-splits (a.name ∷ a.read) ts a.splits)

  path_name-Reads :
      (all : List Token) (path : Bytes) (ts : List Token)
      → AtPath all path ts
      → Reads (Derives lib Level.primary) all (identifier_expr path, ts)
  path_name-Reads all path ts a = record {
    body = a.name ∷ a.read;
    splits = a.splits;
    derives = Grammar.path_name a.name a.is_name a.segments;
    ends = a.ends;
    shorter = AtPath-shorter a;
  }

  path_call-Reads :
      (all : List Token) (path : Bytes) (ts : List Token)
      → length all ≤ suc bound
      → AtPath all path ts
      → Is TokenType.l_paren (current_token ts)
      → Ensures (Reads (Derives lib Level.primary) all) (parse_function_call lib nested path ts)
  path_call-Reads all path ts b a h =
      Ensures-map
        (function_call-Reads lib nested bound sound path ts (omega (arith, AtPath-shorter a)) a.ends
          h)
        λ (value, rest) r. extend-Reads a.name a.read value a.splits r λ body c.
          rw (c.is_body, c.is_value)
            (Grammar.call a.name c.opening a.is_name a.segments c.is_opening c.derives)

  finish_path-Reads :
      (all : List Token) (path : Bytes) (ts : List Token)
      → length all ≤ suc bound
      → AtPath all path ts
      → Ensures (Reads (Derives lib Level.primary) all) (finish_path lib nested path ts)
  unfolding finish_path
  finish_path-Reads all path ts b a =
      Ensures-if (has_type TokenType.l_paren (current_token ts))
        (λ h.
          Ensures-if (is_lambda_word (to_lower (split_last_part path).1))
            (λ w.
              Ensures-map
                (lambda-Reads lib nested bound sound _ _ ts (omega (arith, AtPath-shorter a)) a.ends
                  h)
                λ (value, rest) r. extend-Reads a.name a.read value a.splits r λ body c.
                  rw c.is_value (Grammar.lambda_in_name a.name a.is_name a.segments w c.derives))
            (λ _. path_call-Reads all path ts b a h))
        (λ _. holds (path_name-Reads all path ts a))

  -- A slash and a name are passed behind a path.
  AtPath-segment :
      (all : List Token) (path : Bytes) (ts : List Token) (a : AtPath all path ts) (s : Passed ts)
      (n : Passed s.rest)
      → is_slash s.token ≡ true
      → Is TokenType.identifier n.token
      → AtPath all (path ++ b'/' ∷ n.token.value) n.rest
  AtPath-segment all path ts a s n slash name = record {
    name = a.name;
    read = a.read ++ s.token ∷ n.token ∷ [];
    is_name = a.is_name;
    splits =
        a.splits
        ∙ ap (◌∷◌ a.name) (joined a.read s.token (n.token ∷ []) n.rest refl s.splits n.splits);
    segments = Grammar.segment s.token n.token a.segments slash name;
    ends = n.ends;
  }

  path_loop-Reads :
      (fuel : ℕ) (all : List Token) (path : Bytes) (ts : List Token)
      → length ts < fuel
      → length all ≤ suc bound
      → AtPath all path ts
      → Ensures (Reads (Derives lib Level.primary) all) (path_loop lib nested fuel path ts)
  unfolding path_loop AtPath-segment
  path_loop-Reads zero all path ts f b a = absurd (omega arith)
  path_loop-Reads (suc fuel) all path ts f b a =
      Ensures-if (not (is_slash (current_token ts))) (λ _. finish_path-Reads all path ts b a)
        (λ slash.
          let s = passed ts a.ends (slash_ne_eof (current_token ts) (unnot slash)) in
          rw s.moved (
            Ensures-if (not (has_type TokenType.identifier (current_token s.rest))) (λ _. failed)
              (λ name.
                let n = passed_of TokenType.identifier s.rest s.ends (unnot name) refl in
                let is_slash_token = rw s.current at (unnot slash) in
                let is_name = Passed-Is TokenType.identifier n (unnot name) in
                let a' = AtPath-segment all path ts a s n is_slash_token is_name in
                rw (n.moved, n.current)
                  (Ensures-if
                    (is_lambda_word (to_lower n.token.value)
                      && has_type TokenType.l_paren (current_token n.rest))
                    (λ w.
                      Ensures-map
                        (lambda-Reads lib nested bound sound _ _ n.rest
                          (omega (arith, AtPath-shorter a')) n.ends (right_of _ _ w))
                        λ (value, rest) r. extend-Reads a'.name a'.read value a'.splits r λ body c.
                          rw (c.is_value, append_assoc a.read (s.token ∷ n.token ∷ []) body)
                            (Grammar.lambda a.name s.token n.token a.is_name a.segments
                              is_slash_token is_name (left_of _ _ w) c.derives))
                    (λ _.
                      path_loop-Reads fuel all _ n.rest
                        (omega (
                          arith,
                          length-splits (s.token ∷ []) s.rest s.splits,
                          length-splits (n.token ∷ []) n.rest n.splits,
                        ))
                        b a')))))

  -- A name at `ts`, passed.
  at_name :
      (ts : List Token) (p : Passed ts)
      → Is TokenType.identifier p.token
      → AtPath ts p.token.value p.rest
  at_name ts p h = record {
    name = p.token;
    read = [];
    is_name = h;
    splits = p.splits;
    segments = Grammar.start;
    ends = p.ends;
  }

  -- A prefix word with its string.
  prefixed-Reads :
      (ts : List Token) (p : Passed ts) (q : Passed p.rest)
      → Is TokenType.identifier p.token
      → is_prefix_word (to_lower p.token.value) ≡ true
      → Is TokenType.string q.token
      → Ensures (Reads (Derives lib Level.primary) ts) (
          prefixed_literal lib (to_lower p.token.value) q.token.value >>= λ value.
          ok (value, q.rest))
  prefixed-Reads ts p q h w k =
      go (prefixed_literal lib (to_lower p.token.value) q.token.value) refl
    where
      go :
          (r : Result ParseError AstNode)
          → prefixed_literal lib (to_lower p.token.value) q.token.value ≡ r
          → Ensures (Reads (Derives lib Level.primary) ts) (r >>= λ value. ok (value, q.rest))
      go (ok value) e = holds (record {
        body = p.token ∷ q.token ∷ [];
        splits = p.splits ∙ ap (◌∷◌ p.token) q.splits;
        derives = Grammar.prefixed p.token q.token h w k e;
        ends = q.ends;
        shorter = omega (
          arith,
          length-splits (p.token ∷ q.token ∷ []) q.rest (p.splits ∙ ap (◌∷◌ p.token) q.splits),
        );
      })
      go (err e) x = failed
      go out_of_fuel x = absurd (prefixed_literal-ne-out_of_fuel lib _ _ x)

  pub identifier-Reads :
      (ts : List Token)
      → length ts ≤ suc bound
      → EndsInEof ts
      → Is TokenType.identifier (current_token ts)
      → Ensures
          (Reads (Derives lib Level.primary) ts)
          (parse_identifier_or_function_call lib nested (current_token ts) ts)
  unfolding parse_identifier_or_function_call
  identifier-Reads ts b n h =
      let p = passed_of TokenType.identifier ts n h refl in
      let is_name = Passed-Is TokenType.identifier p h in
      let a = at_name ts p is_name in
      rw (p.moved, p.current)
        (Ensures-if
          (is_prefix_word (to_lower p.token.value)
            && has_type TokenType.string (current_token p.rest))
          (λ w.
            let word =
              left_of (is_prefix_word (to_lower p.token.value))
                (has_type TokenType.string (current_token p.rest)) w in
            let text =
              right_of (is_prefix_word (to_lower p.token.value))
                (has_type TokenType.string (current_token p.rest)) w in
            let q = passed_of TokenType.string p.rest p.ends text refl in
            rw (q.moved, q.current)
              (prefixed-Reads ts p q is_name word (Passed-Is TokenType.string q text)))
          (λ _.
            Ensures-if
              (is_slash (current_token p.rest) && is_next (has_type TokenType.identifier) p.rest)
              (λ _. path_loop-Reads (length p.rest + 1) ts _ p.rest (omega arith) b a)
              (λ _.
                Ensures-if (has_type TokenType.l_paren (current_token p.rest))
                  (λ w. path_call-Reads ts _ p.rest b a w)
                  (λ _. holds (path_name-Reads ts _ p.rest a)))))
