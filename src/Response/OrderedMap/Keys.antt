-- ===== src/Response/OrderedMap/Keys.antt =====
-- The keys of an ordered map: positions, membership and uniqueness.
use go_odata.Prelude.{
  ℕ, suc, ◌≡◌, refl, sym, ap, ◌∙◌, Bool, false, not, ◌||◌, List, [], ◌∷◌, ◌++◌, ◌⊎◌, none, some,
  inl, inr, arith, Bytes, bytes_eq, bytes_eq_iff, bytes_eq_refl, bytes_eq_ne, take, drop, select,
  Bool-cases,
}
use go_odata.Response.OrderedMap.{index_of}

abbrev pub has_key : Bytes → List Bytes → Bool
has_key key [] = false
has_key key (k ∷ ks) = bytes_eq k key || has_key key ks

abbrev pub IsUnique : List Bytes → Type 0
IsUnique [] = Unit
IsUnique (k ∷ ks) = (has_key k ks ≡ false) × IsUnique ks

-- The keys but this one.
abbrev pub without : Bytes → List Bytes → List Bytes
without key = select (λ k. not (bytes_eq k key))

pub bytes_eq_sym : (a b : Bytes) → bytes_eq a b ≡ bytes_eq b a
bytes_eq_sym a b = elim (Bool-cases (bytes_eq a b)) [
  | inl h ↦ h ∙ sym ((bytes_eq_iff b a).1 (sym ((bytes_eq_iff a b).0 h)))
  | inr h ↦ elim (Bool-cases (bytes_eq b a)) [
    | inl k ↦ ap (λ x. bytes_eq a x) ((bytes_eq_iff b a).0 k) ∙ bytes_eq_refl a ∙ sym k
    | inr k ↦ h ∙ sym k
  ]
]

-- The key is absent, or stands at the index that is found.
pub index_of-cases :
    (key : Bytes) (ks : List Bytes)
    → ((index_of key ks ≡ none) × (has_key key ks ≡ false))
      ⊎ ((i : ℕ) × (index_of key ks ≡ some i)
          × (ks ≡ take i ks ++ key ∷ drop (suc i) ks)
          × (take (suc i) ks ≡ take i ks ++ key ∷ []))
unfolding index_of
index_of-cases key [] = inl (refl, refl)
index_of-cases key (k ∷ ks) = elim (Bool-cases (bytes_eq k key)) [
  | inl e ↦
      let same = (bytes_eq_iff k key).0 e in
      inr (0, rw e refl, ap (λ x. x ∷ ks) same, ap (λ x. x ∷ []) same)
  | inr e ↦ elim (index_of-cases key ks) [
    | inl (n, a) ↦ inl (rw (e, n) refl, rw e a)
    | inr (i, n, s, f) ↦ inr (suc i, rw (e, n) refl, ap (◌∷◌ k) s, ap (◌∷◌ k) f)
  ]
]

pub without-absent : (key : Bytes) (ks : List Bytes) → has_key key ks ≡ false → without key ks ≡ ks
without-absent key [] h = refl
without-absent key (k ∷ ks) h = ground (arith, without-absent key ks)

pub has_key-append :
    (key : Bytes) (ks ls : List Bytes) → has_key key (ks ++ ls) ≡ (has_key key ks || has_key key ls)
has_key-append key [] ls = refl
has_key-append key (k ∷ ks) ls = ground (arith, has_key-append key ks ls)

pub has_key-without_same : (key : Bytes) (ks : List Bytes) → has_key key (without key ks) ≡ false
has_key-without_same key [] = refl
has_key-without_same key (k ∷ ks) = ground (arith, has_key-without_same key ks)

pub has_key-without :
    (key other : Bytes) (ks : List Bytes)
    → bytes_eq key other ≡ false
    → has_key other (without key ks) ≡ has_key other ks
has_key-without key other [] h = refl
has_key-without key other (k ∷ ks) h =
    ground (arith, has_key-without key other ks h, bytes_eq_ne k key other)

-- Where the keys are unique, all but the one at the key's index are all but the key.
pub without-split :
    (key : Bytes) (ks ls : List Bytes)
    → IsUnique (ks ++ key ∷ ls)
    → without key (ks ++ key ∷ ls) ≡ ks ++ ls
without-split key [] ls (h, u) = rw (bytes_eq_refl key) (without-absent key ls h)
without-split key (k ∷ ks) ls (h, u) =
    let other : bytes_eq k key ≡ false =
      ground (arith, h, has_key-append k ks (key ∷ ls), bytes_eq_sym k key) in
    rw other (ap (◌∷◌ k) (without-split key ks ls u))

pub IsUnique-without : (key : Bytes) (ks : List Bytes) → IsUnique ks → IsUnique (without key ks)
IsUnique-without key [] u = u
IsUnique-without key (k ∷ ks) (h, u) = elim (Bool-cases (bytes_eq k key)) [
  | inl e ↦ rw e (IsUnique-without key ks u)
  | inr e ↦
      rw e ((has_key-without key k ks (bytes_eq_sym key k ∙ e) ∙ h, IsUnique-without key ks u))
]

-- A new key at any place.
pub IsUnique-insert :
    (key : Bytes) (ks ls : List Bytes)
    → IsUnique (ks ++ ls)
    → has_key key (ks ++ ls) ≡ false
    → IsUnique (ks ++ key ∷ ls)
IsUnique-insert key [] ls u h = (h, u)
IsUnique-insert key (k ∷ ks) ls (a, u) h =
    let other : bytes_eq k key ≡ false = ground (arith, h) in
    let rest : has_key key (ks ++ ls) ≡ false = ground (arith, h) in
    (
      has_key-append k ks (key ∷ ls)
          ∙ rw (bytes_eq_sym key k, other) (sym (has_key-append k ks ls) ∙ a),
      IsUnique-insert key ks ls u rest,
    )

pub has_key-insert :
    (key other : Bytes) (ks ls : List Bytes)
    → has_key other (ks ++ key ∷ ls) ≡ (bytes_eq key other || has_key other (ks ++ ls))
has_key-insert key other [] ls = refl
has_key-insert key other (k ∷ ks) ls = ground (arith, has_key-insert key other ks ls)
