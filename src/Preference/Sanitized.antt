-- ===== src/Preference/Sanitized.antt =====
-- internal/preference/preference.go: what ParsePrefer reads in a header that
-- SanitizeForAsyncDispatch made.
use go_odata.Prelude.{
  ◌&&◌, ◌≢◌, ℕ, Bool, true, false, ◌||◌, List, [], ◌∷◌, ◌++◌, Option, none, some, Bytes, codes,
  bytes_eq, bytes_eq_iff, trim_bytes, ◌==◌, Bool-cases, inl, inr, ◌≡◌, refl, sym, ap, ◌∙◌, arith,
  All, map, select, append_assoc, append-nil, ◌<◌, subst, Option-cases, has_prefix, parse_int, ℤ,
}
use go_odata.Prelude.Trim.{trim_bytes-trim_bytes, trim_bytes-space, All-trim_bytes}
use go_odata.Etag.{split_commas, in_front}
use go_odata.Preference.{
  Preference, no_preference, to_lower, lower_byte, fold, equal_fold, split_loop,
  split_prefer_tokens, preference_value, read_omit_values, read_prefixed_omit_values,
  read_annotations, read_prefixed_annotations, read_track_changes, read_page_size, read_valued,
  read_switch, read_token, read_tokens, parse_prefer, join_commas, keeps_token,
  sanitize_for_async_dispatch, set_page_size, positive,
}
use go_odata.Preference.Parts.{async, is_async, IsOther, split_from, split_loop-IsOther}

abbrev IsNoComma : ℕ → Type 0
IsNoComma c = (c == b',') ≡ false

-- A token that SanitizeForAsyncDispatch keeps.
record IsKept (t : Bytes) : Type 0 where
  trimmed : trim_bytes t ≡ t
  no_comma : All IsNoComma t
  kept : keeps_token t ≡ true

in_front-IsNoComma :
    (c : ℕ) (parts : List Bytes)
    → IsNoComma c
    → All (All IsNoComma) parts
    → All (All IsNoComma) (in_front c parts)
in_front-IsNoComma c [] h a = ((h, tt), tt)
in_front-IsNoComma c (p ∷ parts) h a = ((h, a.0), a.1)

split_commas-IsNoComma : (s : Bytes) → All (All IsNoComma) (split_commas s)
unfolding split_commas
split_commas-IsNoComma [] = (tt, tt)
split_commas-IsNoComma (c ∷ cs) = elim (Bool-cases (c == b',')) [
  | inl h ↦ rw (h, split_commas) (tt, split_commas-IsNoComma cs)
  | inr h ↦
      rw (h, split_commas) (in_front-IsNoComma c (split_commas cs) h (split_commas-IsNoComma cs))
]

select-IsKept :
    (parts : List Bytes)
    → All (All IsNoComma) parts
    → All IsKept (select keeps_token (map trim_bytes parts))
select-IsKept [] a = tt
select-IsKept (p ∷ parts) a = elim (Bool-cases (keeps_token (trim_bytes p))) [
  | inl h ↦
      rw (h, select)
        (
          record {
            trimmed = trim_bytes-trim_bytes p;
            no_comma = All-trim_bytes IsNoComma p a.0;
            kept = h;
          },
          select-IsKept parts a.1,
        )
  | inr h ↦ rw (h, select) (select-IsKept parts a.1)
]

-- An ASCII byte other than i, which U+0130 has for its lower case and does not fold to.
abbrev IsPlain : ℕ → Type 0
IsPlain c = (c < 128) × (c ≢ b'i')

is_kelvin-other :
    (c d e : ℕ) → (c == 0xe2 && d == 0x84 && e == 0xaa) ≡ true → (c == 0xc5 && d == 0xbf) ≡ false
is_kelvin-other c d e k = ground (arith, k)

long_s-lower_byte : (c d : ℕ) → (c == 0xc5 && d == 0xbf) ≡ true → ¬ (lower_byte c < 128)
long_s-lower_byte c d k = ground (arith, k)

-- A text whose lower case is plain folds to that.
fold-IsPlain : (t : Bytes) → All IsPlain (to_lower t) → fold t ≡ to_lower t
unfolding fold to_lower
fold-IsPlain [] a = refl
fold-IsPlain (c ∷ []) a = refl
fold-IsPlain (c ∷ d ∷ []) a = elim (Bool-cases (c == 0xc4 && d == 0xb0)) [
  | inl i ↦ absurd ((rw i at a).0.1 refl)
  | inr i ↦
      let plain = rw i at a in
      elim (Bool-cases (c == 0xc5 && d == 0xbf)) [
        | inl s ↦ absurd (long_s-lower_byte c d s plain.0.0)
        | inr s ↦ rw (i, s) (ap (λ (t : Bytes). lower_byte c ∷ t) (fold-IsPlain (d ∷ []) plain.1))
      ]
]
fold-IsPlain (c ∷ d ∷ e ∷ cs) a = elim (Bool-cases (c == 0xc4 && d == 0xb0)) [
  | inl i ↦ absurd ((rw i at a).0.1 refl)
  | inr i ↦ elim (Bool-cases (c == 0xe2 && d == 0x84 && e == 0xaa)) [
    | inl k ↦
        let plain = rw (i, k) at a in
        rw (i, k, is_kelvin-other c d e k) (ap (λ (t : Bytes). b'k' ∷ t) (fold-IsPlain cs plain.1))
    | inr k ↦
        let plain = rw (i, k) at a in
        elim (Bool-cases (c == 0xc5 && d == 0xbf)) [
          | inl s ↦ absurd (long_s-lower_byte c d s plain.0.0)
          | inr s ↦
              rw (i, k, s)
                (ap (λ (t : Bytes). lower_byte c ∷ t) (fold-IsPlain (d ∷ e ∷ cs) plain.1))
        ]
  ]
]

async-IsPlain : All IsPlain async
async-IsPlain = omega arith

fold-async : fold async ≡ async
unfolding fold
fold-async = refl

kept-other : (t : Bytes) → keeps_token t ≡ true → is_async t ≡ false
unfolding keeps_token equal_fold
kept-other t h = elim (Bool-cases (is_async t)) [
  | inr e ↦ e
  | inl e ↦
      let same : to_lower t ≡ async = (bytes_eq_iff (to_lower t) async).0 e in
      let folded : fold t ≡ async =
        fold-IsPlain t (subst (All IsPlain) (sym same) async-IsPlain) ∙ same in
      let equal : equal_fold t async ≡ true =
        (bytes_eq_iff (fold t) (fold async)).1 (folded ∙ sym fold-async) in
      ground (arith, h, equal)
]

split_from-append :
    (current t rest : Bytes)
    → All IsNoComma t
    → split_from current (t ++ rest) ≡ split_from (current ++ t) rest
split_from-append current [] rest a = rw append-nil refl
split_from-append current (c ∷ t) rest a =
    rw (a.0, split_from)
      (split_from-append (current ++ c ∷ []) t rest a.1
        ∙ ap (λ (x : Bytes). split_from x rest) (append_assoc current (c ∷ []) t))

part-IsOther :
    (current t : Bytes)
    → ((s : Bytes) → trim_bytes (current ++ s) ≡ trim_bytes s)
    → IsKept t
    → IsOther (current ++ t)
part-IsOther current t space k = ap is_async (space t ∙ k.trimmed) ∙ kept-other t k.kept

join_commas-IsOther :
    (current : Bytes) (t : Bytes) (ts : List Bytes)
    → ((s : Bytes) → trim_bytes (current ++ s) ≡ trim_bytes s)
    → All IsKept (t ∷ ts)
    → All IsOther (split_from current (join_commas (t ∷ ts)))
unfolding join_commas
join_commas-IsOther current t [] space a =
    subst (All IsOther)
      (sym (
        ap (split_from current) (sym (append-nil t)) ∙ split_from-append current t [] a.0.no_comma))
      (part-IsOther current t space a.0, tt)
join_commas-IsOther current t (next ∷ ts) space a =
    rw (split_from-append current t (b',' ∷ b' ' ∷ join_commas (next ∷ ts)) a.0.no_comma) (
      part-IsOther current t space a.0,
      join_commas-IsOther (b' ' ∷ []) next ts trim_bytes-space a.1,
    )

set_page_size-respond_async :
    (n : Option ℤ) (pref : Preference)
    → (set_page_size n pref).respond_async_requested ≡ pref.respond_async_requested
set_page_size-respond_async none pref = refl
set_page_size-respond_async (some n) pref = refl

read_omit_values-respond_async :
    (p lower : Bytes) (pref : Preference)
    → (read_omit_values p lower pref).respond_async_requested ≡ pref.respond_async_requested
unfolding read_omit_values
read_omit_values-respond_async p lower pref =
    elim (Option-cases (preference_value p lower (codes "omit-values"))) [
      | inl e ↦ rw (e, read_omit_values) refl
      | inr (value, e) ↦ rw (e, read_omit_values) refl
    ]

read_prefixed_omit_values-respond_async :
    (p lower : Bytes) (pref : Preference)
    → (read_prefixed_omit_values p lower pref).respond_async_requested
      ≡ pref.respond_async_requested
unfolding read_prefixed_omit_values
read_prefixed_omit_values-respond_async p lower pref =
    elim (Option-cases (preference_value p lower (codes "odata.omit-values"))) [
      | inl e ↦ rw (e, read_prefixed_omit_values) (read_omit_values-respond_async p lower pref)
      | inr (value, e) ↦ rw (e, read_prefixed_omit_values) refl
    ]

read_annotations-respond_async :
    (p lower : Bytes) (pref : Preference)
    → (read_annotations p lower pref).respond_async_requested ≡ pref.respond_async_requested
unfolding read_annotations
read_annotations-respond_async p lower pref =
    elim (Option-cases (preference_value p lower (codes "include-annotations"))) [
      | inl e ↦ rw (e, read_annotations) (read_prefixed_omit_values-respond_async p lower pref)
      | inr (value, e) ↦ rw (e, read_annotations) refl
    ]

read_prefixed_annotations-respond_async :
    (p lower : Bytes) (pref : Preference)
    → (read_prefixed_annotations p lower pref).respond_async_requested
      ≡ pref.respond_async_requested
unfolding read_prefixed_annotations
read_prefixed_annotations-respond_async p lower pref =
    elim (Option-cases (preference_value p lower (codes "odata.include-annotations"))) [
      | inl e ↦ rw (e, read_prefixed_annotations) (read_annotations-respond_async p lower pref)
      | inr (value, e) ↦ rw (e, read_prefixed_annotations) refl
    ]

read_track_changes-respond_async :
    (p lower : Bytes) (pref : Preference)
    → (read_track_changes p lower pref).respond_async_requested ≡ pref.respond_async_requested
unfolding read_track_changes
read_track_changes-respond_async p lower pref =
    elim (Bool-cases (
      has_prefix lower (codes "odata.track-changes") || has_prefix lower (codes "track-changes"))) [
        | inl e ↦ rw (e, read_track_changes) refl
        | inr e ↦ rw (e, read_track_changes) (read_prefixed_annotations-respond_async p lower pref)
      ]

read_page_size-respond_async :
    (p lower : Bytes) (pref : Preference)
    → (read_page_size p lower pref).respond_async_requested ≡ pref.respond_async_requested
unfolding read_page_size
read_page_size-respond_async p lower pref =
    elim (Option-cases (preference_value p lower (codes "maxpagesize"))) [
      | inl e ↦ rw (e, read_page_size) (read_track_changes-respond_async p lower pref)
      | inr (value, e) ↦
          rw (e, read_page_size) (set_page_size-respond_async (positive (parse_int value)) pref)
    ]

read_valued-respond_async :
    (p lower : Bytes) (pref : Preference)
    → (read_valued p lower pref).respond_async_requested ≡ pref.respond_async_requested
unfolding read_valued
read_valued-respond_async p lower pref =
    elim (Option-cases (preference_value p lower (codes "odata.maxpagesize"))) [
      | inl e ↦ rw (e, read_valued) (read_page_size-respond_async p lower pref)
      | inr (value, e) ↦
          rw (e, read_valued) (set_page_size-respond_async (positive (parse_int value)) pref)
    ]

read_switch-respond_async :
    (representation minimal references : Bool) (p lower : Bytes) (pref : Preference)
    → (read_switch representation minimal false references p lower pref).respond_async_requested
      ≡ pref.respond_async_requested
unfolding read_switch
read_switch-respond_async true b c p lower pref = refl
read_switch-respond_async false true c p lower pref = refl
read_switch-respond_async false false true p lower pref = refl
read_switch-respond_async false false false p lower pref = read_valued-respond_async p lower pref

read_token-respond_async :
    (p : Bytes) (pref : Preference)
    → is_async p ≡ false
    → (read_token p pref).respond_async_requested ≡ pref.respond_async_requested
unfolding read_token
read_token-respond_async p pref h =
    rw (h, read_token) (read_switch-respond_async _ _ _ p (to_lower p) pref)

read_tokens-respond_async :
    (ts : List Bytes) (pref : Preference)
    → All IsOther ts
    → (read_tokens ts pref).respond_async_requested ≡ pref.respond_async_requested
unfolding read_tokens
read_tokens-respond_async [] pref a = refl
read_tokens-respond_async (t ∷ ts) pref a =
    read_tokens-respond_async ts (read_token (trim_bytes t) pref) a.1
    ∙ read_token-respond_async (trim_bytes t) pref a.0

parts_of_kept : (ts : List Bytes) → All IsKept ts → All IsOther (split_from [] (join_commas ts))
unfolding join_commas to_lower trim_bytes bytes_eq
parts_of_kept [] a = (refl, tt)
parts_of_kept (t ∷ ts) a = join_commas-IsOther [] t ts (λ s. refl) a

parts_of_sanitized :
    (header : Bytes) → All IsOther (split_from [] (sanitize_for_async_dispatch header))
unfolding sanitize_for_async_dispatch to_lower trim_bytes bytes_eq
parts_of_sanitized [] = (refl, tt)
parts_of_sanitized (c ∷ cs) =
    parts_of_kept (select keeps_token (map trim_bytes (split_commas (c ∷ cs))))
      (select-IsKept (split_commas (c ∷ cs)) (split_commas-IsNoComma (c ∷ cs)))

-- ParsePrefer finds no request for respond-async in a header that SanitizeForAsyncDispatch made,
-- whatever stands in the original, quotes included: a request that was dispatched as a job is not
-- dispatched again.
pub parse_prefer-sanitize_for_async_dispatch :
    (header : Bytes)
    → (parse_prefer (sanitize_for_async_dispatch header)).respond_async_requested ≡ false
unfolding parse_prefer split_prefer_tokens
parse_prefer-sanitize_for_async_dispatch header =
    read_tokens-respond_async (split_loop false [] (sanitize_for_async_dispatch header))
      no_preference
      (split_loop-IsOther false [] [] (sanitize_for_async_dispatch header) (λ h. cc) (inr refl)
        (parts_of_sanitized header))
