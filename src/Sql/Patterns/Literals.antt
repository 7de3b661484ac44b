-- ===== src/Sql/Patterns/Literals.antt =====
-- internal/query/like_escape.go: `regexToLikePattern` on a pattern without operators.
use go_odata.Prelude.{
  ℕ, zero, suc, ◌+◌, ◌<◌, Bool, true, false, not, ◌||◌, [], ◌∷◌, ◌++◌, Bytes, ◌==◌, if◌then◌else◌,
  length, ◌≡◌, ◌≢◌, refl, ap, ◌∙◌, arith, All,
}
use go_odata.Sql.Patterns.{
  Previous, escaped, quantifiable, plain, escape_byte, escape_like_pattern, like_pattern,
  is_dropped, operator_round, regex_round, regex_loop, has_suffix_byte, has_prefix_byte, open_end,
  open_start, regex_to_like_pattern,
}
use go_odata.Sql.Patterns.Matching.{like, matches_value, like-like_pattern}

-- The bytes that mean something else than themselves in a regular expression.
abbrev pub is_operator : ℕ → Bool
is_operator c =
    c == b'\\'
    || c == b'^'
    || c == b'$'
    || c == b'['
    || c == b'.'
    || c == b'*'
    || c == b'+'
    || is_dropped c

abbrev is_escaped : Previous → Bool
is_escaped escaped = true
is_escaped _ = false

abbrev pub IsLiteral : ℕ → Type 0
IsLiteral c = is_operator c ≡ false

operator_round-IsLiteral :
    (previous : Previous) (c : ℕ) (cs : Bytes)
    → IsLiteral c
    → operator_round previous c cs ≡ (escape_byte c, quantifiable, cs)
unfolding operator_round escape_byte
operator_round-IsLiteral previous c cs h = ground (arith, h)

regex_round-IsLiteral :
    (previous : Previous) (c : ℕ) (cs : Bytes)
    → is_escaped previous ≡ false
    → IsLiteral c
    → regex_round previous c cs ≡ (escape_byte c, quantifiable, cs)
unfolding regex_round
regex_round-IsLiteral escaped c cs e h = cc
regex_round-IsLiteral quantifiable c cs e h = operator_round-IsLiteral quantifiable c cs h
regex_round-IsLiteral plain c cs e h = operator_round-IsLiteral plain c cs h

regex_loop-IsLiteral :
    (fuel : ℕ) (previous : Previous) (value : Bytes)
    → is_escaped previous ≡ false
    → All IsLiteral value
    → length value < fuel
    → regex_loop fuel previous value ≡ escape_like_pattern value
unfolding regex_loop escape_like_pattern
regex_loop-IsLiteral zero previous value e a l = absurd (omega (arith, l))
regex_loop-IsLiteral (suc fuel) escaped [] e a l = cc
regex_loop-IsLiteral (suc fuel) quantifiable [] e a l = refl
regex_loop-IsLiteral (suc fuel) plain [] e a l = refl
regex_loop-IsLiteral (suc fuel) previous (c ∷ value) e a l =
    rw (regex_round-IsLiteral previous c value e a.0, regex_loop)
      (ap (λ (s : Bytes). escape_byte c ++ s)
        (regex_loop-IsLiteral fuel quantifiable value refl a.1 (omega (arith, l))))

has_suffix_byte-cons :
    (q x : ℕ) (ys : Bytes) → ys ≢ [] → has_suffix_byte q (x ∷ ys) ≡ has_suffix_byte q ys
has_suffix_byte-cons q x [] n = absurd (n refl)
has_suffix_byte-cons q x (y ∷ ys) n = refl

escape_byte-front :
    (c : ℕ) (rest : Bytes)
    → (has_prefix_byte b'%' (escape_byte c ++ rest) ≡ false) × (escape_byte c ++ rest ≢ [])
unfolding escape_byte
escape_byte-front c rest = ground arith

escape_like_pattern-ne-nil : (c : ℕ) (value : Bytes) → escape_like_pattern (c ∷ value) ≢ []
unfolding escape_like_pattern
escape_like_pattern-ne-nil c value = (escape_byte-front c (escape_like_pattern value)).1

has_suffix_byte-escape_byte :
    (c : ℕ) (rest : Bytes)
    → rest ≢ []
    → has_suffix_byte b'%' (escape_byte c ++ rest) ≡ has_suffix_byte b'%' rest
unfolding escape_byte
has_suffix_byte-escape_byte c [] n = absurd (n refl)
has_suffix_byte-escape_byte c (r ∷ rest) n = ground arith

has_suffix_byte-escape_like_pattern :
    (c : ℕ) (value : Bytes)
    → has_suffix_byte b'%' (escape_like_pattern (c ∷ value)) ≡ has_suffix_byte b'%' (c ∷ value)
unfolding escape_like_pattern escape_byte
has_suffix_byte-escape_like_pattern c [] = ground arith
has_suffix_byte-escape_like_pattern c (d ∷ value) =
    has_suffix_byte-escape_byte c (escape_like_pattern (d ∷ value))
      (escape_like_pattern-ne-nil d value)
    ∙ has_suffix_byte-escape_like_pattern d value

IsLiteral-dollar : (value : Bytes) → All IsLiteral value → has_suffix_byte b'$' value ≡ false
IsLiteral-dollar [] a = refl
IsLiteral-dollar (c ∷ []) a = ground (arith, a.0)
IsLiteral-dollar (c ∷ d ∷ value) a = IsLiteral-dollar (d ∷ value) a.1

open_start-literal :
    (pattern result : Bytes)
    → has_prefix_byte b'^' pattern ≡ false
    → has_prefix_byte b'%' result ≡ false
    → open_start pattern result ≡ b'%' ∷ result
unfolding open_start
open_start-literal pattern result h k = rw (h, k) refl

open_end-literal :
    (pattern result : Bytes) (b : Bool)
    → has_suffix_byte b'$' pattern ≡ false
    → has_suffix_byte b'%' result ≡ b
    → open_end pattern result ≡ (if not b then result ++ b'%' ∷ [] else result)
unfolding open_end
open_end-literal pattern result b h k = rw (h, k) refl

translated :
    (c : ℕ) (value : Bytes)
    → All IsLiteral (c ∷ value)
    → regex_to_like_pattern (c ∷ value)
      ≡ like_pattern true (not (has_suffix_byte b'%' (c ∷ value))) (c ∷ value)
unfolding regex_to_like_pattern like_pattern
translated c value a =
    let pattern = c ∷ value in
    let result = escape_like_pattern pattern in
    let looped : regex_loop (length pattern + 1) plain pattern ≡ result =
      regex_loop-IsLiteral (length pattern + 1) plain pattern refl a (omega arith) in
    let front : has_prefix_byte b'%' result ≡ false =
      (escape_byte-front c (escape_like_pattern value)).0 in
    let started = open_start-literal pattern result (ground (arith, a.0)) front in
    let behind : has_suffix_byte b'%' (b'%' ∷ result) ≡ has_suffix_byte b'%' pattern =
      has_suffix_byte-cons b'%' b'%' result (escape_like_pattern-ne-nil c value)
      ∙ has_suffix_byte-escape_like_pattern c value in
    ap (λ (x : Bytes). open_end pattern (open_start pattern x)) looped
    ∙ ap (open_end pattern) started
    ∙ open_end-literal pattern (b'%' ∷ result) _ (IsLiteral-dollar pattern a) behind

-- A pattern without operators of regular expressions, of at least one byte: the LIKE pattern that
-- stands for it on SQL Server matches, by the rules of LIKE, the texts that contain it; but where
-- it ends in a percent sign, only the texts that end in it.
pub like-regex_to_like_pattern :
    (c : ℕ) (value text : Bytes)
    → All IsLiteral (c ∷ value)
    → like (regex_to_like_pattern (c ∷ value)) text
      ≡ matches_value true (not (has_suffix_byte b'%' (c ∷ value))) (c ∷ value) text
like-regex_to_like_pattern c value text a =
    ap (λ (p : Bytes). like p text) (translated c value a)
    ∙ like-like_pattern true (not (has_suffix_byte b'%' (c ∷ value))) (c ∷ value) text
