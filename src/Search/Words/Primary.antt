-- ===== src/Search/Words/Primary.antt =====
-- search_expression.go: the words of an operand, as `parseNot` and `parsePrimary` read it.
use go_odata.Prelude.{
  ℕ, suc, ◌≤◌, ◌≡◌, refl, sym, ap, ◌∙◌, true, false, List, [], ◌∷◌, ◌++◌, append_assoc, append-nil,
  Option, none, some, inl, inr, arith, ok, Ensures, holds, Ensures-if, Ensures-bind, Bytes,
  bytes_eq, ◌==◌, if◌then◌else◌, Bool-cases, length,
}
use go_odata.Search.Tokens.{SearchTok, SearchTokType, iota, is_type}
use go_odata.Search.{
  SearchExprNode, term, phrase, NoError, Parsed, peek, consume, parse_primary, parse_not, negate,
}
use go_odata.Search.Words.{
  leaves, leaves_of, token_leaves, words, words-append, IsFewer, Reads, IsSound,
}

-- A token that is not the end is consumed.
pub record Consumed (ts : List SearchTok) : Type 0 where
  pub token : SearchTok
  pub splits : ts ≡ token ∷ consume ts
  pub current : peek ts ≡ token

pub consume-Consumed :
    (ts : List SearchTok) → is_type SearchTokType.eof (peek ts) ≡ false → Consumed ts
unfolding consume
consume-Consumed [] h = cc
consume-Consumed (t ∷ ts) h = record { token = t; splits = ap (◌∷◌ t) (rw h refl); current = refl }

pub not_eof :
    (type : SearchTokType) (t : SearchTok)
    → is_type type t ≡ true
    → (iota type == 0) ≡ false
    → is_type SearchTokType.eof t ≡ false
not_eof type t h k = ground arith

pub IsFewer-weaken :
    (o : Option SearchExprNode) {a a' b b' : ℕ} → IsFewer o a b → a' ≤ a → b ≤ b' → IsFewer o a' b'
IsFewer-weaken none h k l = omega (arith, h, k, l)
IsFewer-weaken (some _) h k l = omega (arith, h, k, l)

pub IsFewer-le : (o : Option SearchExprNode) {a b : ℕ} → IsFewer o a b → a ≤ b
IsFewer-le none h = h
IsFewer-le (some _) h = omega (arith, h)

pub other_leaves :
    (type : SearchTokType) (t : SearchTok)
    → is_type type t ≡ true
    → (iota type == 1) ≡ false
    → (iota type == 2) ≡ false
    → token_leaves t ≡ []
other_leaves type t h k l = ground arith

pub leaves-negate : (o : Option SearchExprNode) → leaves (negate o) ≡ leaves_of o
unfolding bytes_eq
leaves-negate none = refl
leaves-negate (some _) = refl

module _ (nested : List SearchTok → Parsed) (bound : ℕ) (sound : IsSound bound nested) where
  nothing : (ts : List SearchTok) → Ensures {E = NoError} (Reads [] ts) (ok (none, ts))
  nothing ts = holds (record { body = []; splits = refl; kept = refl; less = omega arith })

  -- One token was read as a tree with its words.
  one :
      (t : SearchTok) (ts : List SearchTok) (e : SearchExprNode)
      → is_type SearchTokType.eof t ≡ false
      → leaves e ≡ token_leaves t
      → Ensures {E = NoError} (Reads [] (t ∷ ts)) (ok (some e, consume (t ∷ ts)))
  unfolding consume
  one t ts e n h = rw n (
      holds (record {
        body = t ∷ [];
        splits = refl;
        kept = h ∙ sym (append-nil (token_leaves t));
        less = omega arith;
      }))

  -- A closing parenthesis is passed if it is there.
  pass_paren :
      (t : SearchTok) (ts : List SearchTok) (inner : Option SearchExprNode) (rest : List SearchTok)
      → token_leaves t ≡ []
      → Reads [] ts (inner, rest)
      → Reads []
          (t ∷ ts)
          (inner, if is_type SearchTokType.r_paren (peek rest) then consume rest else rest)
  pass_paren t ts inner rest h r = elim (Bool-cases (is_type SearchTokType.r_paren (peek rest))) [
    | inl k ↦
        let c = consume-Consumed rest (not_eof SearchTokType.r_paren (peek rest) k refl) in
        let is_paren = rw c.current at k in
        let silent = other_leaves SearchTokType.r_paren c.token is_paren refl refl in
        let split =
          r.splits
          ∙ ap (λ x. r.body ++ x) c.splits
          ∙ sym (append_assoc r.body (c.token ∷ []) (consume rest)) in
        rw k (record {
          body = t ∷ (r.body ++ c.token ∷ []);
          splits = ap (◌∷◌ t) split;
          kept =
              r.kept
              ∙ rw (h, words-append r.body (c.token ∷ []), silent)
                  (sym (append-nil (words r.body)));
          less = IsFewer-weaken inner r.less (omega (arith, ap length c.splits)) (omega arith);
        })
    | inr k ↦ rw k (record {
      body = t ∷ r.body;
      splits = ap (◌∷◌ t) r.splits;
      kept = r.kept ∙ rw h refl;
      less = IsFewer-weaken inner r.less (omega arith) (omega arith);
    })
  ]

  primary-Reads : IsSound (suc bound) (parse_primary nested)
  unfolding parse_primary consume
  primary-Reads [] b = nothing []
  primary-Reads (t ∷ ts) b = by_type t.type t.text
    where
      by_type :
          (type : SearchTokType) (w : Bytes)
          → Ensures
              (Reads [] (record { type = type; text = w } ∷ ts))
              (parse_primary nested (record { type = type; text = w } ∷ ts))
      by_type SearchTokType.term w = one _ ts (term w) refl refl
      by_type SearchTokType.phrase w = one _ ts (phrase w) refl refl
      by_type SearchTokType.l_paren w =
          Ensures-bind (sound ts (omega (arith, b))) λ (inner, rest) r.
            holds
              (pass_paren (record { type = SearchTokType.l_paren; text = w }) ts inner rest refl r)
      by_type SearchTokType.eof w = nothing _
      by_type SearchTokType.and w = nothing _
      by_type SearchTokType.or w = nothing _
      by_type SearchTokType.not w = nothing _
      by_type SearchTokType.r_paren w = nothing _

  pub not-Reads : IsSound (suc bound) (parse_not nested)
  unfolding parse_not
  not-Reads [] b = primary-Reads [] b
  not-Reads (t ∷ ts) b =
      Ensures-if (is_type SearchTokType.not t)
        (λ h. Ensures-bind (not-Reads ts (omega (arith, b))) λ (o, rest) r. holds (record {
          body = t ∷ r.body;
          splits = ap (◌∷◌ t) r.splits;
          kept = leaves-negate o ∙ r.kept ∙ rw (other_leaves SearchTokType.not t h refl refl) refl;
          less = omega (arith, IsFewer-le o r.less);
        }))
        (λ _. primary-Reads (t ∷ ts) b)
