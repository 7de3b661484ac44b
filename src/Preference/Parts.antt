-- ===== src/Preference/Parts.antt =====
-- internal/preference/preference.go: the tokens of `splitPreferTokens` and the parts between all
-- commas.
use go_odata.Prelude.{
  ℕ, Bool, true, false, List, [], ◌∷◌, ◌++◌, Bytes, codes, bytes_eq, bytes_eq_iff, trim_bytes, ◌==◌,
  if◌then◌else◌, Bool-cases, inl, inr, ◌⊎◌, ◌≡◌, refl, sym, ap, ◌∙◌, arith, All, subst,
}
use go_odata.Prelude.Trim.{has, has_quote-trim_bytes}
use go_odata.Preference.{to_lower, emitted, split_loop}

abbrev pub async : Bytes
async = codes "respond-async"

-- The token that the switch of ParsePrefer takes for respond-async.
abbrev pub is_async : Bytes → Bool
is_async t = bytes_eq (to_lower t) async

abbrev pub IsOther : Bytes → Type 0
IsOther part = is_async (trim_bytes part) ≡ false

-- `strings.Split(header, ",")`, with the part that is being read.
abbrev pub split_from : Bytes → Bytes → List Bytes
split_from current [] = current ∷ []
split_from current (c ∷ cs) =
    let next = split_from [] cs in
    let more = split_from (current ++ c ∷ []) cs in if c == b',' then current ∷ next else more

has-to_lower : (s : Bytes) → has b'"' (to_lower s) ≡ has b'"' s
unfolding to_lower
has-to_lower [] = refl
has-to_lower (c ∷ []) = ground arith
has-to_lower (c ∷ d ∷ []) = ground (arith, has-to_lower (d ∷ []))
has-to_lower (c ∷ d ∷ e ∷ cs) =
    ground (arith, has-to_lower (d ∷ e ∷ cs), has-to_lower (e ∷ cs), has-to_lower cs)

-- A token with a quote is another one.
quoted-IsOther : (t : Bytes) → has b'"' t ≡ true → IsOther t
quoted-IsOther t h = elim (Bool-cases (is_async (trim_bytes t))) [
  | inr e ↦ e
  | inl e ↦
      let same : to_lower (trim_bytes t) ≡ async =
        (bytes_eq_iff (to_lower (trim_bytes t)) async).0 e in
      cc (ap (has b'"') same, has-to_lower (trim_bytes t), has_quote-trim_bytes t, h)
]

has-end : (q : ℕ) (s : Bytes) (c : ℕ) → has q (s ++ c ∷ []) ≡ (if has q s then true else c == q)
has-end q [] c = ground arith
has-end q (x ∷ s) c = ground (arith, has-end q s c)

emitted-All : (current : Bytes) → IsOther current → All IsOther (emitted current)
emitted-All [] h = tt
emitted-All (c ∷ cs) h = (h, tt)

has-still : (s : Bytes) (c : ℕ) → has b'"' s ≡ true → has b'"' (s ++ c ∷ []) ≡ true
has-still s c h = has-end b'"' s c ∙ rw h refl

has-quote : (s : Bytes) (c : ℕ) → (c == b'"') ≡ true → has b'"' (s ++ c ∷ []) ≡ true
has-quote s c h = has-end b'"' s c ∙ ground (arith, h)

parts_behind :
    (plain : Bytes) (c : ℕ) (cs : Bytes)
    → (c == b',') ≡ false
    → All IsOther (split_from plain (c ∷ cs))
    → All IsOther (split_from (plain ++ c ∷ []) cs)
parts_behind plain c cs h a = rw (h, split_from) at a

parts_at_comma :
    (plain : Bytes) (c : ℕ) (cs : Bytes)
    → (c == b',') ≡ true
    → All IsOther (split_from plain (c ∷ cs))
    → IsOther plain × All IsOther (split_from [] cs)
parts_at_comma plain c cs h a = rw (h, split_from) at a

token_IsOther :
    (current plain : Bytes)
    → (has b'"' current ≡ true) ⊎ (current ≡ plain)
    → IsOther plain
    → IsOther current
token_IsOther current plain (inl h) a = quoted-IsOther current h
token_IsOther current plain (inr e) a = subst IsOther (sym e) a

reads_on :
    (current plain : Bytes) (c : ℕ)
    → (has b'"' current ≡ true) ⊎ (current ≡ plain)
    → (has b'"' (current ++ c ∷ []) ≡ true) ⊎ (current ++ c ∷ [] ≡ plain ++ c ∷ [])
reads_on current plain c (inl h) = inl (has-still current c h)
reads_on current plain c (inr e) = inr (ap (λ (x : Bytes). x ++ c ∷ []) e)

-- The tokens between the commas that stand in no quotes, where the parts between all commas are
-- others: the part that is being read is that of the plain split, or it has a quote.
pub split_loop-IsOther :
    (in_quote : Bool) (current plain text : Bytes)
    → (in_quote ≡ true → has b'"' current ≡ true)
    → (has b'"' current ≡ true) ⊎ (current ≡ plain)
    → All IsOther (split_from plain text)
    → All IsOther (split_loop in_quote current text)
unfolding split_loop
split_loop-IsOther in_quote current plain [] q s a =
    emitted-All current (token_IsOther current plain s a.0)
split_loop-IsOther true current plain (c ∷ cs) q s a = elim (Bool-cases (c == b'"')) [
  | inl e ↦
      rw (e, split_loop)
        (split_loop-IsOther false (current ++ c ∷ []) (plain ++ c ∷ []) cs
          (λ h. has-quote current c e) (inl (has-quote current c e))
          (parts_behind plain c cs (ground (arith, e)) a))
  | inr e ↦ elim (Bool-cases (c == b',')) [
    | inl k ↦
        rw (e, k, split_loop)
          (split_loop-IsOther true (current ++ c ∷ []) [] cs (λ h. has-still current c (q refl))
            (inl (has-still current c (q refl))) (parts_at_comma plain c cs k a).1)
    | inr k ↦
        rw (e, k, split_loop)
          (split_loop-IsOther true (current ++ c ∷ []) (plain ++ c ∷ []) cs
            (λ h. has-still current c (q refl)) (reads_on current plain c s)
            (parts_behind plain c cs k a))
  ]
]
split_loop-IsOther false current plain (c ∷ cs) q s a = elim (Bool-cases (c == b'"')) [
  | inl e ↦
      rw (e, split_loop)
        (split_loop-IsOther true (current ++ c ∷ []) (plain ++ c ∷ []) cs
          (λ h. has-quote current c e) (inl (has-quote current c e))
          (parts_behind plain c cs (ground (arith, e)) a))
  | inr e ↦ elim (Bool-cases (c == b',')) [
    | inl k ↦
        let (here, behind) = parts_at_comma plain c cs k a in
        rw (e, k, split_loop)
          (
            token_IsOther current plain s here,
            split_loop-IsOther false [] [] cs (λ h. cc) (inr refl) behind,
          )
    | inr k ↦
        rw (e, k, split_loop)
          (split_loop-IsOther false (current ++ c ∷ []) (plain ++ c ∷ []) cs (λ h. cc)
            (reads_on current plain c s) (parts_behind plain c cs k a))
  ]
]
