-- ===== src/Filter/Sound/Readings.antt =====
-- What it means that a parser reads what a grammar derives, and the loops over operators and items.
use go_odata.Prelude.{
  ℕ, zero, suc, ◌+◌, ◌≤◌, ◌<◌, ◌≡◌, refl, ◌∙◌, sym, ap, Bool, true, false, List, [], ◌∷◌, ◌++◌,
  append_assoc, inl, inr, arith, ok, ◌>>=◌, Ensures, holds, Ensures-if, Ensures-bind, length,
  length-append, Bool-cases,
}
use go_odata.Filter.Token.{Token, TokenType}
use go_odata.Filter.Ast.{AstNode, Nodes, binary_expr}
use go_odata.Filter.Values.{Codecs}
use go_odata.Filter.Grammar
use go_odata.Filter.Grammar.{
  Level, Is, Derives, DerivesItems, DerivesList, term, sum, comparison, negation, conjunction,
  disjunction,
}
use go_odata.Filter.Parser.Cursor.{Parser, current_token, has_type, expect}
use go_odata.Filter.Parser.Layers.{binary_loop, parse_binary, items_loop, parse_items}
use go_odata.Filter.Sound.Tokens.{EndsInEof, passed, passed_of, Passed-Is, expect-Takes}

-- What was read off `ts`: `body` is derived as the value, and is not empty.
pub record Reads {ℓ} {A : Type ℓ} (G : List Token → A → Type 0) (ts : List Token)
    (r : A × List Token) : Type 0 where
  pub body : List Token
  pub splits : ts ≡ body ++ r.1
  pub derives : G body r.0
  pub ends : EndsInEof r.1
  pub shorter : length r.1 < length ts

-- The parser reads what `G` derives, on lists of at most `bound` tokens.
abbrev pub IsSound : (List Token → AstNode → Type 0) → ℕ → Parser → Type 0
IsSound G bound p =
    (ts : List Token) → length ts ≤ bound → EndsInEof ts → Ensures (Reads G ts) (p ts)

abbrev pub IsOperator : (Token → Bool) → Type 0
IsOperator test = (t : Token) → test t ≡ true → has_type TokenType.eof t ≡ false

pub length-splits :
    {A : Type 0} {xs : List A} (ys zs : List A) → xs ≡ ys ++ zs → length xs ≡ length ys + length zs
length-splits ys zs e = ap length e ∙ length-append ys zs

pub joined :
    {A : Type 0} {all ts mid : List A} (read : List A) (op : A) (body rest : List A)
    → all ≡ read ++ ts
    → ts ≡ op ∷ mid
    → mid ≡ body ++ rest
    → all ≡ (read ++ op ∷ body) ++ rest
joined read op body rest e s m =
    e ∙ ap (λ x. read ++ x) (s ∙ ap (◌∷◌ op) m) ∙ sym (append_assoc read (op ∷ body) rest)

-- The loop, once `read` has been read off `all` as the left operand.
module _ (lower upper : List Token → AstNode → Type 0) (test : Token → Bool) (operand : Parser)
    (bound : ℕ) (operator : IsOperator test) (sound : IsSound lower bound operand)
    (join : (xs ys : List Token) (a b : AstNode) (op : Token)
      → upper xs a
      → test op ≡ true
      → lower ys b
      → upper (xs ++ op ∷ ys) (binary_expr a op.value b)) where
  binary_loop-Reads :
      (fuel : ℕ) (all read : List Token) (left : AstNode) (ts : List Token)
      → length ts < fuel
      → length ts ≤ bound
      → length ts < length all
      → all ≡ read ++ ts
      → upper read left
      → EndsInEof ts
      → Ensures (Reads upper all) (binary_loop fuel test operand left ts)
  unfolding binary_loop
  binary_loop-Reads zero all read left ts f b s e d n = absurd (omega arith)
  binary_loop-Reads (suc fuel) all read left ts f b s e d n =
      Ensures-if (test (current_token ts))
        (λ h.
          let p = passed ts n (operator (current_token ts) h) in
          let one_less = length-splits (p.token ∷ []) p.rest p.splits in
          rw (p.moved, p.current)
            (Ensures-bind (sound p.rest (omega arith) p.ends) λ (right, rest) r.
              binary_loop-Reads fuel all (read ++ p.token ∷ r.body) _ rest
                (omega (arith, r.shorter)) (omega (arith, r.shorter)) (omega (arith, r.shorter))
                (joined read p.token r.body rest e p.splits r.splits)
                (join _ _ _ _ p.token d (rw p.current at h) r.derives) r.ends))
        (λ _. holds (record { body = read; splits = e; derives = d; ends = n; shorter = s }))

  pub parse_binary-Reads :
      ((xs : List Token) (a : AstNode) → lower xs a → upper xs a)
      → IsSound upper bound (parse_binary test operand)
  unfolding parse_binary
  parse_binary-Reads up ts b n = Ensures-bind (sound ts b n) λ (left, rest) r.
      binary_loop-Reads (length rest + 1) ts r.body left rest (omega arith)
        (omega (arith, r.shorter)) r.shorter r.splits (up _ _ r.derives) r.ends

module _ (lib : Codecs) where
  abbrev NodesAt : Level → List Token → Nodes × List Token → Type 0
  NodesAt level = Reads (DerivesList lib level)

  items_loop-Reads :
      (level : Level) (item : Parser) (bound : ℕ)
      → IsSound (Derives lib level) bound item
      → (fuel : ℕ) (ts : List Token) → length ts < fuel
      → length ts ≤ bound
      → EndsInEof ts
      → Ensures (Reads (DerivesList lib level) ts) (items_loop fuel item ts)
  unfolding items_loop
  items_loop-Reads level item bound sound zero ts f b n = absurd (omega arith)
  items_loop-Reads level item bound sound (suc fuel) ts f b n =
      Ensures-bind (sound ts b n) λ (value, rest) r.
        Ensures-if (has_type TokenType.comma (current_token rest))
          (λ h.
            let p = passed_of TokenType.comma rest r.ends h refl in
            let one_less = length-splits (p.token ∷ []) p.rest p.splits in
            rw p.moved (
              Ensures-bind
                (items_loop-Reads level item bound sound fuel p.rest (omega (arith, r.shorter))
                  (omega (arith, r.shorter)) p.ends)
                λ (values, end) q. holds (record {
                  body = r.body ++ p.token ∷ q.body;
                  splits = joined r.body p.token q.body end r.splits p.splits q.splits;
                  derives =
                      Grammar.more_items p.token r.derives (Passed-Is TokenType.comma p h)
                        q.derives;
                  ends = q.ends;
                  shorter = omega (arith, r.shorter, q.shorter);
                })))
          (λ _. holds (record {
            body = r.body;
            splits = r.splits;
            derives = Grammar.one_item r.derives;
            ends = r.ends;
            shorter = r.shorter;
          }))

  -- The closing parenthesis behind what was read.
  pub closed-Reads :
      {A B : Type 0} {G : List Token → A → Type 0} {H : List Token → B → Type 0} (ts : List Token)
      (value : A) (rest : List Token) (k : A → B)
      → Reads G ts (value, rest)
      → ((xs : List Token) (closing : Token)
          → G xs value
          → Is TokenType.r_paren closing
          → H (xs ++ closing ∷ []) (k value))
      → Ensures (Reads H ts) (expect TokenType.r_paren rest >>= λ end. ok (k value, end))
  closed-Reads ts value rest k r close =
      Ensures-bind (expect-Takes TokenType.r_paren rest r.ends refl) λ end t. holds (record {
        body = r.body ++ t.token ∷ [];
        splits = joined r.body t.token [] end r.splits t.splits refl;
        derives = close r.body t.token r.derives t.is_type;
        ends = t.ends;
        shorter = omega (arith, r.shorter, length-splits (t.token ∷ []) end t.splits);
      })

  pub parse_items-Reads :
      (level : Level) (item : Parser) (bound : ℕ)
      → IsSound (Derives lib level) bound item
      → (ts : List Token) → length ts ≤ bound
      → EndsInEof ts
      → Ensures (Reads (DerivesItems lib level) ts) (parse_items item ts)
  unfolding parse_items
  parse_items-Reads level item bound sound ts b n =
      elim (Bool-cases (has_type TokenType.r_paren (current_token ts))) [
        | inl h ↦ rw h (
            Ensures-bind (expect-Takes TokenType.r_paren ts n refl) λ end t. holds (record {
              body = t.token ∷ [];
              splits = t.splits;
              derives = Grammar.no_items t.token t.is_type;
              ends = t.ends;
              shorter = omega (arith, length-splits (t.token ∷ []) end t.splits);
            }))
        | inr h ↦ rw h (
            Ensures-bind
              (items_loop-Reads level item bound sound (length ts + 1) ts (omega arith) b n)
              λ (values, rest) r.
                closed-Reads ts values rest (λ v. v) r (λ xs c g k. Grammar.items c g k))
      ]
