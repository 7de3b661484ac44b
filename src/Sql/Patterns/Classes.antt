-- ===== src/Sql/Patterns/Classes.antt =====
-- internal/query/like_escape.go: LIKE in the database of a dialect. SQL Server also knows classes of
-- characters, as in `[a-z]` and `[^x]`; a class that does not end matches nothing.
use go_odata.Prelude.{
  ℕ, Bool, true, false, not, ◌&&◌, ◌||◌, [], ◌∷◌, ◌++◌, Bytes, ◌==◌, if◌then◌else◌, within, ◌≡◌,
  refl, ◌∙◌, arith, Bool-cases, inl, inr,
}
use go_odata.Sql.Quoting.{Dialect, sqlserver, mssql}
use go_odata.Sql.Patterns.{escape_byte, escape_like_pattern, like_pattern}
use go_odata.Sql.Patterns.Matching.{
  like, anywhere, one_character, this_character, anywhere-agree, matches_value, like-like_pattern,
}

abbrev in_set : Bytes → ℕ → Bool
in_set [] c = false
in_set (a ∷ []) c = c == a
in_set (a ∷ b ∷ []) c = c == a || c == b
in_set (a ∷ b ∷ d ∷ set) c =
    let range = within a d c || in_set set c in
    let single = c == a || in_set (b ∷ d ∷ set) c in if b == b'-' then range else single

abbrev in_class : Bytes → ℕ → Bool
in_class [] c = false
in_class (a ∷ set) c = if a == b'^' then not (in_set set c) else in_set (a ∷ set) c

abbrev class_character : Bytes → (Bytes → Bool) → Bytes → Bool
class_character set f [] = false
class_character set f (c ∷ cs) = in_class set c && f cs

unfoldable mutual
  pub class_like : Bytes → Bytes → Bool
  class_like [] [] = true
  class_like [] (c ∷ cs) = false
  class_like (p ∷ []) text =
      let end = class_like [] in
      if p == b'%'
      then anywhere end text
      else if p == b'_'
      then one_character end text
      else if p == b'['
      then false
      else this_character p end text
  class_like (p ∷ q ∷ pattern) text =
      let behind = class_like (q ∷ pattern) in
      let skipped = class_like pattern in
      let class = inside_class [] (q ∷ pattern) in
      if p == b'%'
      then anywhere behind text
      else if p == b'_'
      then one_character behind text
      else if p == b'['
      then class text
      else if p == b'\\'
      then this_character q skipped text
      else this_character p behind text

  -- Behind the bracket, with what the class has so far.
  pub inside_class : Bytes → Bytes → Bytes → Bool
  inside_class set [] text = false
  inside_class set (p ∷ pattern) text =
      let behind = class_like pattern in
      let more = inside_class (set ++ p ∷ []) pattern in
      if p == b']' then class_character set behind text else more text

abbrev pub has_classes : Dialect → Bool
has_classes sqlserver = true
has_classes mssql = true
has_classes _ = false

abbrev pub like_in : Dialect → Bytes → Bytes → Bool
like_in dialect pattern text =
    if has_classes dialect then class_like pattern text else like pattern text

abbrev pub has_bracket : Bytes → Bool
has_bracket [] = false
has_bracket (c ∷ cs) = c == b'[' || has_bracket cs

one_character-agree :
    (f g : Bytes → Bool) (text : Bytes)
    → ((t : Bytes) → f t ≡ g t)
    → one_character f text ≡ one_character g text
one_character-agree f g [] h = refl
one_character-agree f g (c ∷ cs) h = h cs

this_character-agree :
    (d : ℕ) (f g : Bytes → Bool) (text : Bytes)
    → ((t : Bytes) → f t ≡ g t)
    → this_character d f text ≡ this_character d g text
this_character-agree d f g [] h = refl
this_character-agree d f g (c ∷ cs) h = rw (h cs) refl

no_bracket :
    (c : ℕ) (cs : Bytes)
    → has_bracket (c ∷ cs) ≡ false
    → ((c == b'[') ≡ false) × (has_bracket cs ≡ false)
no_bracket c cs h = ground (arith, h)

-- Where no class begins, the two are the same.
class_like-like :
    (pattern text : Bytes)
    → has_bracket pattern ≡ false
    → class_like pattern text ≡ like pattern text
unfolding class_like like
class_like-like [] [] h = refl
class_like-like [] (c ∷ cs) h = refl
class_like-like (p ∷ []) text h =
    let (b, n) = no_bracket p [] h in
    let same = λ (t : Bytes). class_like-like [] t refl in
    rw b (elim (Bool-cases (p == b'%')) [
      | inl e ↦ rw e (anywhere-agree _ _ text same)
      | inr e ↦ rw e (elim (Bool-cases (p == b'_')) [
        | inl u ↦ rw u (one_character-agree _ _ text same)
        | inr u ↦ rw u (this_character-agree p _ _ text same)
      ])
    ])
class_like-like (p ∷ q ∷ pattern) text h =
    let (b, n) = no_bracket p (q ∷ pattern) h in
    let (b', n') = no_bracket q pattern n in
    let same = λ (t : Bytes). class_like-like (q ∷ pattern) t n in
    rw b (elim (Bool-cases (p == b'%')) [
      | inl e ↦ rw e (anywhere-agree _ _ text same)
      | inr e ↦ rw e (elim (Bool-cases (p == b'_')) [
        | inl u ↦ rw u (one_character-agree _ _ text same)
        | inr u ↦ rw u (elim (Bool-cases (p == b'\\')) [
          | inl s ↦
              rw s (this_character-agree q _ _ text (λ (t : Bytes). class_like-like pattern t n'))
          | inr s ↦ rw s (this_character-agree p _ _ text same)
        ])
      ])
    ])

has_bracket-append :
    (s t : Bytes) → has_bracket s ≡ false → has_bracket t ≡ false → has_bracket (s ++ t) ≡ false
has_bracket-append [] t h k = k
has_bracket-append (c ∷ s) t h k =
    let (b, n) = no_bracket c s h in rw (b, has_bracket-append s t n k) refl

has_bracket-escape_byte : (c : ℕ) → (c == b'[') ≡ false → has_bracket (escape_byte c) ≡ false
unfolding escape_byte
has_bracket-escape_byte c h = ground (arith, h)

has_bracket-escape_like_pattern :
    (value : Bytes) → has_bracket value ≡ false → has_bracket (escape_like_pattern value) ≡ false
unfolding escape_like_pattern
has_bracket-escape_like_pattern [] h = refl
has_bracket-escape_like_pattern (c ∷ value) h =
    let (b, n) = no_bracket c value h in
    has_bracket-append (escape_byte c) (escape_like_pattern value) (has_bracket-escape_byte c b)
      (has_bracket-escape_like_pattern value n)

has_bracket-like_pattern :
    (prefix_wildcard suffix_wildcard : Bool) (value : Bytes)
    → has_bracket value ≡ false
    → has_bracket (like_pattern prefix_wildcard suffix_wildcard value) ≡ false
unfolding like_pattern
has_bracket-like_pattern false false value h = has_bracket-escape_like_pattern value h
has_bracket-like_pattern true false value h = has_bracket-escape_like_pattern value h
has_bracket-like_pattern false true value h =
    has_bracket-append (escape_like_pattern value) (b'%' ∷ [])
      (has_bracket-escape_like_pattern value h) refl
has_bracket-like_pattern true true value h =
    has_bracket-append (escape_like_pattern value) (b'%' ∷ [])
      (has_bracket-escape_like_pattern value h) refl

-- The pattern that a filter function makes of a value matches, by the rules of LIKE in the database
-- of the dialect, exactly the texts that are equal to the value, start with it, end with it or
-- contain it, by the function: the value's own wildcards and backslashes stand for themselves. On SQL
-- Server, whose LIKE has classes, this holds of the values without an opening bracket.
pub like_in-like_pattern :
    (dialect : Dialect) (prefix_wildcard suffix_wildcard : Bool) (value text : Bytes)
    → (has_classes dialect ≡ true → has_bracket value ≡ false)
    → like_in dialect (like_pattern prefix_wildcard suffix_wildcard value) text
      ≡ matches_value prefix_wildcard suffix_wildcard value text
like_in-like_pattern dialect prefix_wildcard suffix_wildcard value text h =
    let pattern = like_pattern prefix_wildcard suffix_wildcard value in
    let plain = like-like_pattern prefix_wildcard suffix_wildcard value text in
    elim (Bool-cases (has_classes dialect)) [
      | inl k ↦ rw k (
          class_like-like pattern text
            (has_bracket-like_pattern prefix_wildcard suffix_wildcard value (h k))
          ∙ plain)
      | inr k ↦ rw k plain
    ]
