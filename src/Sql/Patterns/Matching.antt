-- ===== src/Sql/Patterns/Matching.antt =====
-- internal/query/like_escape.go: what LIKE matches, by the rules of SQL with a backslash as the
-- escape: `%` stands for any text, `_` for one character, an escaped character and any other for
-- itself.
use go_odata.Prelude.{
  ℕ, Bool, true, false, ◌&&◌, ◌||◌, [], ◌∷◌, ◌++◌, Bytes, ◌==◌, if◌then◌else◌, has_prefix, bytes_eq,
  ◌≡◌, refl, ◌∙◌, arith, Bool-cases, inl, inr, append_assoc,
}
use go_odata.Sql.Patterns.{escape_byte, escape_like_pattern, like_pattern}

-- Whether a test holds of a text or of what is left of it somewhere.
abbrev pub anywhere : (Bytes → Bool) → Bytes → Bool
anywhere f [] = f []
anywhere f (c ∷ cs) = f (c ∷ cs) || anywhere f cs

abbrev pub one_character : (Bytes → Bool) → Bytes → Bool
one_character f [] = false
one_character f (c ∷ cs) = f cs

abbrev pub this_character : ℕ → (Bytes → Bool) → Bytes → Bool
this_character d f [] = false
this_character d f (c ∷ cs) = c == d && f cs

unfoldable pub like : Bytes → Bytes → Bool
like [] [] = true
like [] (c ∷ cs) = false
like (p ∷ []) text =
    let end = like [] in
    if p == b'%'
    then anywhere end text
    else if p == b'_'
    then one_character end text
    else this_character p end text
like (p ∷ q ∷ pattern) text =
    let behind = like (q ∷ pattern) in
    let skipped = like pattern in
    if p == b'%'
    then anywhere behind text
    else if p == b'_'
    then one_character behind text
    else if p == b'\\'
    then this_character q skipped text
    else this_character p behind text

-- `contains`, `startswith`, `endswith` and equality, by whether any text may stand in front of the
-- value and behind it.
unfoldable pub matches_value : Bool → Bool → Bytes → Bytes → Bool
unfolding bytes_eq has_prefix
matches_value false false value text = bytes_eq text value
matches_value false true value text = has_prefix text value
matches_value true false value text = anywhere (λ t. bytes_eq t value) text
matches_value true true value text = anywhere (λ t. has_prefix t value) text

abbrev is_special : ℕ → Bool
is_special c = c == b'\\' || c == b'%' || c == b'_'

plain_tests :
    (c : ℕ)
    → is_special c ≡ false
    → ((c == b'%') ≡ false) × ((c == b'_') ≡ false) × ((c == b'\\') ≡ false)
plain_tests c h = ground (arith, h)

like_plain :
    (c : ℕ) (pattern text : Bytes)
    → ((c == b'%') ≡ false) × ((c == b'_') ≡ false) × ((c == b'\\') ≡ false)
    → like (c ∷ pattern) text ≡ this_character c (like pattern) text
unfolding like
like_plain c [] text (p, u, e) = rw (p, u, like) refl
like_plain c (q ∷ pattern) text (p, u, e) = rw (p, u, e, like) refl

-- A literal byte at the front of a pattern.
like-escape_byte :
    (c : ℕ) (pattern text : Bytes)
    → like (escape_byte c ++ pattern) text ≡ this_character c (like pattern) text
unfolding like escape_byte
like-escape_byte c pattern text = elim (Bool-cases (is_special c)) [
  | inl e ↦ rw (e, escape_byte) refl
  | inr e ↦ rw (e, escape_byte) (like_plain c pattern text (plain_tests c e))
]

like-escape_like_pattern :
    (value text : Bytes) → like (escape_like_pattern value) text ≡ bytes_eq text value
unfolding escape_like_pattern bytes_eq like
like-escape_like_pattern [] [] = refl
like-escape_like_pattern [] (c ∷ cs) = refl
like-escape_like_pattern (v ∷ value) [] = rw like-escape_byte refl
like-escape_like_pattern (v ∷ value) (c ∷ cs) =
    rw like-escape_byte (rw (like-escape_like_pattern value cs) refl)

anywhere-end : (f : Bytes → Bool) (text : Bytes) → f [] ≡ true → anywhere f text ≡ true
anywhere-end f [] h = h
anywhere-end f (c ∷ cs) h = ground (arith, anywhere-end f cs h)

pub anywhere-agree :
    (f g : Bytes → Bool) (text : Bytes)
    → ((t : Bytes) → f t ≡ g t)
    → anywhere f text ≡ anywhere g text
anywhere-agree f g [] h = h []
anywhere-agree f g (c ∷ cs) h = rw (h (c ∷ cs), anywhere-agree f g cs h) refl

like-any : (pattern text : Bytes) → like (b'%' ∷ pattern) text ≡ anywhere (like pattern) text
unfolding like
like-any [] text = refl
like-any (q ∷ pattern) text = refl

-- The same with a wildcard behind it.
like-open :
    (value text : Bytes)
    → like (escape_like_pattern value ++ b'%' ∷ []) text ≡ has_prefix text value
unfolding escape_like_pattern has_prefix like
like-open [] text = anywhere-end (like []) text refl
like-open (v ∷ value) [] = rw (append_assoc, like-escape_byte) refl
like-open (v ∷ value) (c ∷ cs) = rw (append_assoc, like-escape_byte) (rw (like-open value cs) refl)

-- The pattern that a filter function makes of a value matches, by the rules of LIKE, exactly the
-- texts that are equal to the value, start with it, end with it or contain it, by the function:
-- the value's own wildcards and backslashes stand for themselves.
pub like-like_pattern :
    (prefix_wildcard suffix_wildcard : Bool) (value text : Bytes)
    → like (like_pattern prefix_wildcard suffix_wildcard value) text
      ≡ matches_value prefix_wildcard suffix_wildcard value text
unfolding like_pattern matches_value
like-like_pattern false false value text = like-escape_like_pattern value text
like-like_pattern false true value text = like-open value text
like-like_pattern true false value text =
    like-any (escape_like_pattern value) text
    ∙ anywhere-agree _ _ text (λ (t : Bytes). like-escape_like_pattern value t)
like-like_pattern true true value text =
    like-any (escape_like_pattern value ++ b'%' ∷ []) text
    ∙ anywhere-agree _ _ text (λ (t : Bytes). like-open value t)
