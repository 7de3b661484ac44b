-- ===== src/Filter/Sound.antt =====
-- The parser against the grammar, on tokens and behind the tokenizer.
pub mod Tokens
pub mod Readings
pub mod Layers
pub mod Calls
pub mod Paths
use go_odata.Prelude.{
  ℕ, zero, suc, ◌+◌, ◌≤◌, ◌<◌, ◌≡◌, refl, ◌∙◌, sym, ap, Bool, true, false, ◌&&◌, ◌||◌, List, [],
  ◌∷◌, ◌++◌, append-nil, inl, inr, Option, none, some, arith, Result, ok, err, Ensures, holds,
  failed, Ensures-if, Ensures-bind, Ensures-map, if◌then◌else◌, length, Bytes, codes, bytes_eq,
  Bool-cases, Option-cases,
}
use go_odata.Filter.Token.{Token, TokenType}
use go_odata.Filter.Ast.{AstNode, minus_infinity, not_a_number}
use go_odata.Filter.Values.{Codecs, number_literal}
use go_odata.Filter.Grammar
use go_odata.Filter.Grammar.{Level, Is, Derives, disjunction}
use go_odata.Filter.Parser.Cursor.{
  ParseError, Parser, current_token, advance, has_type, is_token, is_next,
}
use go_odata.Filter.Parser.Primary.{
  literal_of, lower_is, is_minus_float, is_special_float, parse_primary,
}
use go_odata.Filter.Parser.{parse_or, parse}
use go_odata.Filter.Tokenizer.{tokenize_all}
use go_odata.Filter.Tokenizer.Progress.{Stream, last, more, tokenize_all-Stream}
use go_odata.Filter.Sound.Tokens.{
  EndsInEof, Passed, passed, passed_of, not_eof, left_of, right_of, Passed-Is,
}
use go_odata.Filter.Sound.Layers.{or-Reads}
use go_odata.Filter.Sound.Readings.{Reads, IsSound, length-splits}
use go_odata.Filter.Sound.Calls.{grouped-Reads}
use go_odata.Filter.Sound.Paths.{identifier-Reads}

-- The token behind the current one is the one that is passed next.
is_next-current :
    (test : Token → Bool) (ts : List Token) (p : Passed ts)
    → is_next test ts ≡ true
    → test (current_token p.rest) ≡ true
unfolding is_next current_token
is_next-current test ts p h = next p.rest (rw p.splits at h)
  where
    next :
        (rest : List Token)
        → is_next test (p.token ∷ rest) ≡ true
        → test (current_token rest) ≡ true
    next [] h = cc
    next (u ∷ us) h = h

special_number : (t : Token) → is_special_float t ≡ true → Is TokenType.number t
special_number t h =
    left_of (has_type TokenType.number t) (lower_is t (codes "inf") || lower_is t (codes "nan")) h

special_nan :
    (t : Token)
    → is_special_float t ≡ true
    → lower_is t (codes "inf") ≡ false
    → lower_is t (codes "nan") ≡ true
special_nan t h k = ground arith

Is-minus :
    (t : Token) → is_token TokenType.arithmetic (codes "-") t ≡ true → Is TokenType.arithmetic t
Is-minus t h = left_of (has_type TokenType.arithmetic t) (bytes_eq t.value (codes "-")) h

module _ (lib : Codecs) where
  -- `-INF` or `-NaN` at `ts`.
  two-Reads :
      (ts : List Token) (p : Passed ts) (q : Passed p.rest) (a : AstNode)
      → Derives lib Level.primary (p.token ∷ q.token ∷ []) a
      → Reads (Derives lib Level.primary) ts (a, q.rest)
  two-Reads ts p q a d =
      let before = p.splits ∙ ap (◌∷◌ p.token) q.splits in
      record {
        body = p.token ∷ q.token ∷ [];
        splits = before;
        derives = d;
        ends = q.ends;
        shorter = omega (arith, length-splits (p.token ∷ q.token ∷ []) q.rest before);
      }

  minus_float-Reads :
      (ts : List Token)
      → EndsInEof ts
      → is_minus_float ts ≡ true
      → Ensures {E = ParseError} (Reads (Derives lib Level.primary) ts) (
          ok (
            number_literal (
                if lower_is (current_token (advance ts)) (codes "inf")
                then minus_infinity
                else not_a_number),
            advance (advance ts),
          ))
  minus_float-Reads ts n h =
      let minus =
        left_of (is_token TokenType.arithmetic (codes "-") (current_token ts))
          (is_next is_special_float ts) h in
      let p = passed_of TokenType.arithmetic ts n (Is-minus (current_token ts) minus) refl in
      let special = is_next-current is_special_float ts p (
        right_of (is_token TokenType.arithmetic (codes "-") (current_token ts))
          (is_next is_special_float ts) h) in
      let q =
        passed_of TokenType.number p.rest p.ends (special_number (current_token p.rest) special)
          refl in
      let is_special = rw q.current at special in
      let is_minus_token = rw p.current at minus in
      rw (p.moved, q.moved, q.current)
        (elim (Bool-cases (lower_is q.token (codes "inf"))) [
          | inl w ↦ rw w (
              holds (
                two-Reads ts p q (number_literal minus_infinity) (
                  Grammar.minus_inf p.token q.token is_minus_token
                    (special_number q.token is_special) w)))
          | inr w ↦ rw w (
              holds (
                two-Reads ts p q (number_literal not_a_number) (
                  Grammar.minus_nan p.token q.token is_minus_token
                    (special_number q.token is_special) (special_nan q.token is_special w))))
        ])

  literal-ne-eof :
      (t : Token) (a : AstNode) → literal_of lib t ≡ some a → has_type TokenType.eof t ≡ false
  unfolding literal_of
  literal-ne-eof t a h = ground arith

  literal-Reads :
      (ts : List Token) (a : AstNode)
      → EndsInEof ts
      → literal_of lib (current_token ts) ≡ some a
      → Reads (Derives lib Level.primary) ts (a, advance ts)
  literal-Reads ts a n h =
      let p = passed ts n (literal-ne-eof (current_token ts) a h) in
      rw p.moved (record {
        body = p.token ∷ [];
        splits = p.splits;
        derives = Grammar.literal p.token (rw p.current at h);
        ends = p.ends;
        shorter = omega (arith, length-splits (p.token ∷ []) p.rest p.splits);
      })

  module _ (nested : Parser) (bound : ℕ)
      (sound : IsSound (Derives lib disjunction) bound nested) where
    primary-Reads : IsSound (Derives lib Level.primary) (suc bound) (parse_primary lib nested)
    unfolding parse_primary
    primary-Reads ts b n =
        Ensures-if (is_minus_float ts) (λ h. minus_float-Reads ts n h)
          (λ _.
            Ensures-if (has_type TokenType.l_paren (current_token ts))
              (λ h. grouped-Reads lib nested bound sound ts b n h)
              (λ _. elim (Option-cases (literal_of lib (current_token ts))) [
                | inl h ↦ rw h (
                    Ensures-if (has_type TokenType.identifier (current_token ts))
                      (λ k. identifier-Reads lib nested bound sound ts b n k) (λ _. failed))
                | inr (a, h) ↦ rw h (holds (literal-Reads ts a n h))
              ]))

  nonempty : (ts : List Token) → length ts ≤ 0 → EndsInEof ts → ⊥
  nonempty [] b n = n
  nonempty (t ∷ ts) b n = omega arith

  parse_or-Reads : (depth : ℕ) → IsSound (Derives lib disjunction) depth (parse_or lib (suc depth))
  unfolding parse_or
  parse_or-Reads zero = λ ts b n. absurd (nonempty ts b n)
  parse_or-Reads (suc depth) =
      or-Reads lib (parse_primary lib (parse_or lib (suc depth))) (suc depth)
        (primary-Reads (parse_or lib (suc depth)) depth (parse_or-Reads depth))

-- What a whole run reads: all the tokens but the end, derived at the top level.
pub record Whole (lib : Codecs) (ts : List Token) (tree : AstNode) : Type 0 where
  pub body : List Token
  pub rest : List Token
  pub splits : ts ≡ body ++ rest
  pub derives : Derives lib disjunction body tree
  pub at_end : Is TokenType.eof (current_token rest)
  pub ends : EndsInEof rest

-- The parser ends on every list of tokens that ends in the end of the input: it returns an error,
-- or a tree which the grammar derives from the tokens up to one that is the end of the input.
pub parse-Derives :
    (lib : Codecs) (ts : List Token) → EndsInEof ts → Ensures (Whole lib ts) (parse lib ts)
unfolding parse
parse-Derives lib ts n =
    let one_more : length ts + 1 ≡ suc (length ts) = omega arith in
    rw one_more (
      Ensures-bind (parse_or-Reads lib (length ts) ts (omega arith) n) λ (tree, rest) r.
        Ensures-if (has_type TokenType.eof (current_token rest))
          (λ h. holds (record {
            body = r.body;
            rest = rest;
            splits = r.splits;
            derives = r.derives;
            at_end = h;
            ends = r.ends;
          }))
          (λ _. failed))

Stream-EndsInEof : {size from : ℕ} (ts : List Token) → Stream size from ts → EndsInEof ts
Stream-EndsInEof [] s = elim s [ ]
Stream-EndsInEof (t ∷ []) (last a b e) = ground arith
Stream-EndsInEof (t ∷ []) (more a b e s) = elim s [ ]
Stream-EndsInEof (t ∷ u ∷ ts) (more a b e s) = Stream-EndsInEof (u ∷ ts) s

-- On every input the tokenizer returns an error, or tokens on which the parser returns an error or
-- a tree which the grammar derives from the tokens before the end of the input.
pub tokenize_all-parse-Derives :
    (lib : Codecs) (input : Bytes) (mode : Bool)
    → Ensures (λ ts. Ensures (Whole lib ts) (parse lib ts)) (tokenize_all input mode)
tokenize_all-parse-Derives lib input mode =
    Ensures-map (tokenize_all-Stream input mode)
      λ ts s. parse-Derives lib ts (Stream-EndsInEof ts s)
