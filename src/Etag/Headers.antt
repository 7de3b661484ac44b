-- ===== src/Etag/Headers.antt =====
-- If-Match and If-None-Match with lists of tags that `Generate` made.
use go_odata.Prelude.{
  ℕ, ◌^◌, ◌<◌, ◌≡◌, refl, sym, ap, ◌∙◌, Bool, true, false, not, List, [], ◌∷◌, ◌++◌, append_assoc,
  map, reverse, some, inl, inr, arith, Bytes, codes, bytes_eq, bytes_eq_iff, bytes_eq_refl,
  is_space, is_space2, is_space3, trim_with, trim_bytes, has_prefix, ltb, ◌==◌, ==_iff, ==_refl,
  if◌then◌else◌, Bool-cases, length, select, any, All,
}
use mathlib.Core.List.{reverse-append, reverse-reverse}
use go_odata.Etag.{
  encode_hex16, generate, before_quote, unquote, parse, split_commas, in_front, is_filled,
  split_etags, any_matches, match, none_match,
}
use go_odata.Etag.Hex.{encode_hex16-injective, encode_hex16-IsHex, IsHex}

before_quote-append : (s : Bytes) → before_quote (s ++ b'"' ∷ []) ≡ some s
unfolding before_quote
before_quote-append [] = refl
before_quote-append (c ∷ []) = refl
before_quote-append (c ∷ d ∷ s) = rw (before_quote-append (d ∷ s)) refl

parse-weak : (c : ℕ) (s : Bytes) → parse (b'W' ∷ b'/' ∷ c ∷ s) ≡ unquote (c ∷ s)
unfolding parse has_prefix
parse-weak c s =
    let long : ltb 2 (length (b'W' ∷ b'/' ∷ c ∷ s)) ≡ true = ground arith in rw (long, parse) refl

unquote-quoted : (s : Bytes) → unquote (b'"' ∷ (s ++ b'"' ∷ [])) ≡ s
unfolding unquote
unquote-quoted s = rw (before_quote-append s, unquote) refl

-- `Parse` takes the digits out of a generated tag.
parse-generate : (hash : ℕ) → parse (generate (some hash)) ≡ encode_hex16 hash
unfolding generate
parse-generate hash =
    parse-weak b'"' (encode_hex16 hash ++ b'"' ∷ []) ∙ unquote-quoted (encode_hex16 hash)

trim_with-plain :
    (two : ℕ → ℕ → Bool) (three : ℕ → ℕ → ℕ → Bool) (c : ℕ) (cs : Bytes)
    → is_space c ≡ false
    → ((d : ℕ) → two c d ≡ false)
    → ((d e : ℕ) → three c d e ≡ false)
    → trim_with two three (c ∷ cs) ≡ c ∷ cs
unfolding trim_with
trim_with-plain two three c [] h k l = rw h refl
trim_with-plain two three c (d ∷ []) h k l = rw (h, k d) refl
trim_with-plain two three c (d ∷ e ∷ cs) h k l = rw (h, k d, l d e) refl

-- A text from a W to a quote has no white space at its ends.
abbrev tag_text : Bytes → Bytes
tag_text s = b'W' ∷ (s ++ b'"' ∷ [])

trim_bytes-tag_text : (s : Bytes) → trim_bytes (tag_text s) ≡ tag_text s
unfolding trim_bytes
trim_bytes-tag_text s =
    let start =
      trim_with-plain is_space2 is_space3 b'W' (s ++ b'"' ∷ []) refl (λ d. refl) (λ d e. refl) in
    let backwards : reverse (tag_text s) ≡ b'"' ∷ reverse (b'W' ∷ s) =
      reverse-append (b'W' ∷ s) (b'"' ∷ []) in
    let end =
      trim_with-plain (λ d c. is_space2 c d) (λ e d c. is_space3 c d e) b'"' (reverse (b'W' ∷ s))
        refl (λ d. ground arith) (λ d e. ground arith) in
    rw (start, backwards, end, sym backwards) (reverse-reverse (tag_text s))

abbrev IsPart : Bytes → Type 0
IsPart = All (λ c. (c == b',') ≡ false)

split_commas-part : (s : Bytes) → IsPart s → split_commas s ≡ s ∷ []
unfolding split_commas
split_commas-part [] h = refl
split_commas-part (c ∷ s) (h, k) = rw (h, split_commas-part s k) refl

split_commas-append :
    (s rest : Bytes) → IsPart s → split_commas (s ++ b',' ∷ rest) ≡ s ∷ split_commas rest
unfolding split_commas
split_commas-append [] rest h = refl
split_commas-append (c ∷ s) rest (h, k) = rw (h, split_commas-append s rest k) refl

abbrev pub tag : ℕ → Bytes
tag hash = generate (some hash)

-- The tags of the hashes with a comma and a blank between them.
abbrev pub header_of : ℕ → List ℕ → Bytes
header_of hash [] = tag hash
header_of hash (next ∷ hashes) = tag hash ++ b',' ∷ b' ' ∷ header_of next hashes

digits-IsPart : (cs : Bytes) → All IsHex cs → IsPart (cs ++ b'"' ∷ [])
digits-IsPart [] h = (refl, tt)
digits-IsPart (c ∷ cs) ((lo, hi), h) = (ground (arith, lo, hi), digits-IsPart cs h)

tag-IsPart : (hash : ℕ) → IsPart (tag hash)
unfolding generate
tag-IsPart hash =
    (refl, (refl, (refl, digits-IsPart (encode_hex16 hash) (encode_hex16-IsHex hash))))

split_commas-header_of :
    (hash : ℕ) (hashes : List ℕ)
    → split_commas (header_of hash hashes) ≡ tag hash ∷ map (λ h. b' ' ∷ tag h) hashes
unfolding split_commas
split_commas-header_of hash [] = split_commas-part (tag hash) (tag-IsPart hash)
split_commas-header_of hash (next ∷ hashes) =
    split_commas-append (tag hash) (b' ' ∷ header_of next hashes) (tag-IsPart hash)
    ∙ ap (λ parts. tag hash ∷ in_front b' ' parts) (split_commas-header_of next hashes)

trim_bytes-tag : (hash : ℕ) → trim_bytes (tag hash) ≡ tag hash
unfolding generate
trim_bytes-tag hash = trim_bytes-tag_text (b'/' ∷ b'"' ∷ encode_hex16 hash)

trim_bytes-blank : (hash : ℕ) → trim_bytes (b' ' ∷ tag hash) ≡ tag hash
unfolding generate trim_bytes
trim_bytes-blank hash = trim_bytes-tag hash

split_etags-header_of :
    (hash : ℕ) (hashes : List ℕ) → split_etags (header_of hash hashes) ≡ map tag (hash ∷ hashes)
unfolding split_etags generate
split_etags-header_of hash hashes =
    rw (split_commas-header_of hash hashes, trim_bytes-tag hash)
      (ap (◌∷◌ (tag hash)) (others hashes))
  where
    others :
        (hs : List ℕ) → select is_filled (map trim_bytes (map (λ h. b' ' ∷ tag h) hs)) ≡ map tag hs
    others [] = refl
    others (h ∷ hs) = rw (trim_bytes-blank h) (ap (◌∷◌ (tag h)) (others hs))

-- Two generated tags are the same to `Parse` exactly if the hashes are.
tags_eq : (h k : ℕ) → h < 2 ^ 64 → k < 2 ^ 64 → bytes_eq (parse (tag k)) (parse (tag h)) ≡ (k == h)
tags_eq h k bh bk =
    rw (parse-generate h, parse-generate k)
      (elim (Bool-cases (k == h)) [
        | inl e ↦ rw ((==_iff k h).0 e, ==_refl h) (bytes_eq_refl (encode_hex16 h))
        | inr n ↦ elim (Bool-cases (bytes_eq (encode_hex16 k) (encode_hex16 h))) [
          | inl same ↦ absurd (
              differs
                (encode_hex16-injective k h bk bh
                  ((bytes_eq_iff (encode_hex16 k) (encode_hex16 h)).0 same))
                n)
          | inr other ↦ other ∙ sym n
        ]
      ])
  where
    differs : k ≡ h → (k == h) ≡ false → ⊥
    differs e n = ground (arith, e, n)

any-tags :
    (h : ℕ) (hs : List ℕ)
    → h < 2 ^ 64
    → All (λ k. k < 2 ^ 64) hs
    → any (λ t. bytes_eq (parse t) (parse (tag h))) (map tag hs) ≡ any (λ k. k == h) hs
any-tags h [] b bs = refl
any-tags h (k ∷ hs) b (bk, bs) = rw (tags_eq h k b bk, any-tags h hs b bs) refl

any_matches-header_of :
    (h hash : ℕ) (hashes : List ℕ)
    → h < 2 ^ 64
    → All (λ k. k < 2 ^ 64) (hash ∷ hashes)
    → any_matches (header_of hash hashes) (tag h) ≡ any (λ k. k == h) (hash ∷ hashes)
unfolding any_matches
any_matches-header_of h hash hashes b bs =
    ap (any (λ t. bytes_eq (parse t) (parse (tag h)))) (split_etags-header_of hash hashes)
    ∙ any-tags h (hash ∷ hashes) b bs

-- A header of tags is a text from a W to a quote.
abbrev between_ends : ℕ → List ℕ → Bytes
between_ends hash [] = b'/' ∷ b'"' ∷ encode_hex16 hash
between_ends hash (next ∷ hashes) =
    (b'/' ∷ b'"' ∷ (encode_hex16 hash ++ b'"' ∷ []))
    ++ b',' ∷ b' ' ∷ b'W' ∷ between_ends next hashes

header_of-tag_text :
    (hash : ℕ) (hashes : List ℕ) → header_of hash hashes ≡ tag_text (between_ends hash hashes)
unfolding generate
header_of-tag_text hash [] = refl
header_of-tag_text hash (next ∷ hashes) =
    ap (λ s. tag hash ++ b',' ∷ b' ' ∷ s) (header_of-tag_text next hashes)
    ∙ sym (
        append_assoc (b'W' ∷ b'/' ∷ b'"' ∷ (encode_hex16 hash ++ b'"' ∷ []))
          (b',' ∷ b' ' ∷ b'W' ∷ between_ends next hashes) (b'"' ∷ []))

match-tag_text : (s current : Bytes) → match (tag_text s) current ≡ any_matches (tag_text s) current
unfolding match bytes_eq
match-tag_text s current = rw (trim_bytes-tag_text s, match) refl

-- Hashes fit 64 bits. If-Match with a list of tags that `Generate` made holds for an entity exactly
-- if the hash of its tag is one of those in the list.
pub match-header_of :
    (h hash : ℕ) (hashes : List ℕ)
    → h < 2 ^ 64
    → All (λ k. k < 2 ^ 64) (hash ∷ hashes)
    → match (header_of hash hashes) (tag h) ≡ any (λ k. k == h) (hash ∷ hashes)
match-header_of h hash hashes b bs =
    ap (λ s. match s (tag h)) (header_of-tag_text hash hashes)
    ∙ match-tag_text (between_ends hash hashes) (tag h)
    ∙ ap (λ s. any_matches s (tag h)) (sym (header_of-tag_text hash hashes))
    ∙ any_matches-header_of h hash hashes b bs

opposite :
    (filled star matched current : Bool)
    → (if not filled then true else if star then not current else not matched) ≡ (
        if filled
        then not (if not filled then true else if star then current else matched)
        else true)
opposite true true matched current = refl
opposite true false matched current = refl
opposite false star matched current = refl

-- Without a header both conditions hold; with one, If-None-Match holds exactly if If-Match with
-- the same text does not.
pub none_match-not :
    (header current : Bytes)
    → none_match header current ≡ (if is_filled header then not (match header current) else true)
unfolding none_match match
none_match-not header current =
    opposite (is_filled header) (bytes_eq (trim_bytes header) (codes "*"))
      (any_matches header current) (is_filled current)
