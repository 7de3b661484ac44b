-- ===== src/Search/Words/Loops.antt =====
-- search_expression.go: the loops of the search parser, and the words of its tree.
use go_odata.Prelude.{
  ℕ, zero, suc, ◌+◌, ◌≤◌, ◌<◌, ◌≡◌, refl, sym, ap, ◌∙◌, true, false, List, [], ◌∷◌, ◌++◌,
  append_assoc, append-nil, Option, none, some, arith, ok, Ensures, holds, Ensures-if, Ensures-bind,
  Bytes, codes, bytes_eq, ◌==◌, length,
}
use go_odata.Search.Tokens.{SearchTok, SearchTokType, iota, is_type, tokenize_search, trim_space}
use go_odata.Search.{
  SearchExprNode, term, both, either, Parsed, peek, consume, starts_operand, parse_primary,
  parse_not, and_loop, parse_and, or_loop, parse_or_with, parse_or, parse_trimmed,
  parse_search_expression,
}
use go_odata.Search.Words.{leaves, leaves_of, words, words-append, Reads, IsSound}
use go_odata.Search.Words.Primary.{consume-Consumed, not_eof, other_leaves, not-Reads}

-- A keyword is passed behind what was read.
record Keyword (all : List SearchTok) (left : SearchExprNode) (ts : List SearchTok) : Type 0 where
  pub read' : List SearchTok
  pub splits : all ≡ read' ++ consume ts
  pub kept : leaves left ≡ words read'
  pub shorter : length (consume ts) < length ts

passed :
    (type : SearchTokType) (all read : List SearchTok) (left : SearchExprNode) (ts : List SearchTok)
    → is_type type (peek ts) ≡ true
    → (iota type == 0) ≡ false
    → (iota type == 1) ≡ false
    → (iota type == 2) ≡ false
    → all ≡ read ++ ts
    → leaves left ≡ words read
    → Keyword all left ts
passed type all read left ts h n0 n1 n2 e k =
    let c = consume-Consumed ts (not_eof type (peek ts) h n0) in
    record {
      read' = read ++ c.token ∷ [];
      splits =
          e ∙ ap (λ x. read ++ x) c.splits ∙ sym (append_assoc read (c.token ∷ []) (consume ts));
      kept =
          k
          ∙ rw
              (
                words-append read (c.token ∷ []),
                other_leaves type c.token (rw c.current at h) n1 n2,
              )
              (sym (append-nil (words read)));
      shorter = omega (arith, ap length c.splits);
    }

-- The operand on the right, read off `mid` behind `read'`: without one the loop ends with `last`.
next_operand :
    (all read' : List SearchTok) (left : SearchExprNode) (mid : List SearchTok)
    (right : Option SearchExprNode) (rest : List SearchTok) (last : SearchExprNode)
    (join : SearchExprNode → SearchExprNode) (loop : SearchExprNode → List SearchTok → Parsed)
    → length mid < length all
    → all ≡ read' ++ mid
    → leaves left ≡ words read'
    → leaves last ≡ leaves left
    → ((q : SearchExprNode) → leaves (join q) ≡ leaves left ++ leaves q)
    → Reads [] mid (right, rest)
    → ((q : SearchExprNode) (read'' : List SearchTok)
        → all ≡ read'' ++ rest
        → leaves (join q) ≡ words read''
        → length rest < length mid
        → Ensures (Reads [] all) (loop (join q) rest))
    → Ensures
        (Reads [] all)
        (elim right [ none ↦ ok (some last, rest) | some q ↦ loop (join q) rest ])
next_operand all read' left mid none rest last join loop s e k kl kj r again = holds (record {
  body = read' ++ r.body;
  splits = e ∙ ap (λ x. read' ++ x) r.splits ∙ sym (append_assoc read' r.body rest);
  kept = kl ∙ k ∙ rw (words-append read' r.body, sym r.kept) (sym (append-nil (words read')));
  less = omega (arith, s, r.less);
})
next_operand all read' left mid (some q) rest last join loop s e k kl kj r again =
    again q (read' ++ r.body)
      (e ∙ ap (λ x. read' ++ x) r.splits ∙ sym (append_assoc read' r.body rest))
      (kj q ∙ rw (k, r.kept) (sym (words-append read' r.body))) r.less

module _ (nested : List SearchTok → Parsed) (bound : ℕ) (sound : IsSound bound nested) where
  -- The loop of `parseAnd`, once `read` was read off `all` as `left`.
  and_loop-Reads :
      (fuel : ℕ) (all read : List SearchTok) (left : SearchExprNode) (ts : List SearchTok)
      → length ts < fuel
      → length ts ≤ suc bound
      → length ts < length all
      → all ≡ read ++ ts
      → leaves left ≡ words read
      → Ensures (Reads [] all) (and_loop nested fuel left ts)
  unfolding and_loop bytes_eq
  and_loop-Reads zero all read left ts f b s e k = absurd (omega arith)
  and_loop-Reads (suc fuel) all read left ts f b s e k =
      Ensures-if (is_type SearchTokType.and (peek ts))
        (λ h.
          let c = passed SearchTokType.and all read left ts h refl refl refl e k in
          Ensures-bind (not-Reads nested bound sound (consume ts) (omega (arith, b, c.shorter)))
            λ (right, rest) r.
              next_operand all c.read' left (consume ts) right rest (both left (term (codes "AND")))
                (both left) (and_loop nested fuel) (omega (arith, c.shorter, s)) c.splits c.kept
                (append-nil (leaves left)) (λ q. refl) r
                λ q read'' e' k' l.
                  and_loop-Reads fuel all read'' (both left q) rest (omega (arith, c.shorter, l))
                    (omega (arith, c.shorter, l)) (omega (arith, c.shorter, l)) e' k')
        (λ _.
          Ensures-if (starts_operand (peek ts))
            (λ _. Ensures-bind (not-Reads nested bound sound ts b) λ (right, rest) r.
              next_operand all read left ts right rest left (both left) (and_loop nested fuel) s e k
                refl (λ q. refl) r
                λ q read'' e' k' l.
                  and_loop-Reads fuel all read'' (both left q) rest (omega (arith, l))
                    (omega (arith, l)) (omega (arith, l)) e' k')
            (λ _. holds (record { body = read; splits = e; kept = k; less = s })))

  and-Reads : IsSound (suc bound) (parse_and nested)
  unfolding parse_and
  and-Reads ts b =
      Ensures-bind (not-Reads nested bound sound ts b) λ (left, rest) r. first left rest r
    where
      first :
          (left : Option SearchExprNode) (rest : List SearchTok)
          → Reads [] ts (left, rest)
          → Ensures (Reads [] ts) (elim left [
            | none ↦ ok (none, rest)
            | some l ↦ and_loop nested (length rest + 1) l rest
          ])
      first none rest r = holds r
      first (some l) rest r =
          and_loop-Reads (length rest + 1) ts r.body l rest (omega arith) (omega (arith, r.less, b))
            r.less r.splits r.kept

  or_loop-Reads :
      (fuel : ℕ) (all read : List SearchTok) (left : SearchExprNode) (ts : List SearchTok)
      → length ts < fuel
      → length ts ≤ suc bound
      → length ts < length all
      → all ≡ read ++ ts
      → leaves left ≡ words read
      → Ensures (Reads [] all) (or_loop nested fuel left ts)
  unfolding or_loop bytes_eq
  or_loop-Reads zero all read left ts f b s e k = absurd (omega arith)
  or_loop-Reads (suc fuel) all read left ts f b s e k =
      Ensures-if (is_type SearchTokType.or (peek ts))
        (λ h.
          let c = passed SearchTokType.or all read left ts h refl refl refl e k in
          Ensures-bind (and-Reads (consume ts) (omega (arith, b, c.shorter))) λ (right, rest) r.
            next_operand all c.read' left (consume ts) right rest (both left (term (codes "OR")))
              (either left) (or_loop nested fuel) (omega (arith, c.shorter, s)) c.splits c.kept
              (append-nil (leaves left)) (λ q. refl) r
              λ q read'' e' k' l.
                or_loop-Reads fuel all read'' (either left q) rest (omega (arith, c.shorter, l))
                  (omega (arith, c.shorter, l)) (omega (arith, c.shorter, l)) e' k')
        (λ _. holds (record { body = read; splits = e; kept = k; less = s }))

  or-Reads : IsSound (suc bound) (parse_or_with nested)
  unfolding parse_or_with
  or-Reads ts b = Ensures-bind (and-Reads ts b) λ (left, rest) r. first left rest r
    where
      first :
          (left : Option SearchExprNode) (rest : List SearchTok)
          → Reads [] ts (left, rest)
          → Ensures (Reads [] ts) (elim left [
            | none ↦ ok (none, rest)
            | some l ↦ or_loop nested (length rest + 1) l rest
          ])
      first none rest r = holds r
      first (some l) rest r =
          or_loop-Reads (length rest + 1) ts r.body l rest (omega arith) (omega (arith, r.less, b))
            r.less r.splits r.kept

parse_or-nothing : Ensures (Reads [] []) (parse_or 1 [])
unfolding parse_or parse_or_with parse_and parse_not parse_primary
parse_or-nothing = holds (record { body = []; splits = refl; kept = refl; less = omega arith })

parse_or-Reads : (depth : ℕ) → IsSound depth (parse_or (suc depth))
unfolding parse_or
parse_or-Reads zero = at_end
  where
    at_end : IsSound 0 (parse_or 1)
    at_end [] b = parse_or-nothing
    at_end (t ∷ ts) b = absurd (omega arith)
parse_or-Reads (suc depth) = or-Reads (parse_or (suc depth)) depth (parse_or-Reads depth)

-- The tree holds the words and phrases of the tokens up to some token, in their order.
pub record Kept (tokens : List SearchTok) (tree : Option SearchExprNode) : Type 0 where
  pub body : List SearchTok
  pub rest : List SearchTok
  pub splits : tokens ≡ body ++ rest
  pub kept : leaves_of tree ≡ words body

parse_trimmed-Kept :
    (trimmed : Bytes) → Ensures (Kept (tokenize_search trimmed)) (parse_trimmed trimmed)
unfolding parse_trimmed
parse_trimmed-Kept [] =
    holds (record { body = []; rest = tokenize_search []; splits = refl; kept = refl })
parse_trimmed-Kept (r ∷ rs) =
    let tokens = tokenize_search (r ∷ rs) in
    let one_more : length tokens + 1 ≡ suc (length tokens) = omega arith in
    rw one_more (
      Ensures-bind (parse_or-Reads (length tokens) tokens (omega arith)) λ (tree, rest) q.
        holds (record { body = q.body; rest = rest; splits = q.splits; kept = q.kept }))

-- The search parser ends on every query, with a tree or without, and the words and phrases of the
-- tree are those of the tokens that it read from the front, each once and in their order; the words
-- AND, OR and NOT are left out of the count on both sides.
pub parse_search_expression-Kept :
    (query : Bytes)
    → Ensures (Kept (tokenize_search (trim_space query))) (parse_search_expression query)
unfolding parse_search_expression
parse_search_expression-Kept query = parse_trimmed-Kept (trim_space query)
