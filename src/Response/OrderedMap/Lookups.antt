-- ===== src/Response/OrderedMap/Lookups.antt =====
-- ordered_map.go: well-formed maps, and what `Set` and `Delete` leave of them.
use go_odata.Prelude.{
  suc, ◌≡◌, refl, sym, ap, ◌∙◌, Bool, true, false, ◌||◌, List, [], ◌∷◌, ◌++◌, append-nil, Option,
  none, some, inl, inr, Bytes, bytes_eq, bytes_eq_iff, if◌then◌else◌, take, drop, Bool-cases,
  Option-cases, find, put, remove, find-put_any, find-remove_any,
}
use go_odata.Response.OrderedMap.{OrderedMap, index_of, set, delete}
use go_odata.Response.OrderedMap.Keys.{
  has_key, IsUnique, without, index_of-cases, without-absent, without-split, has_key-without_same,
  has_key-without, has_key-insert, IsUnique-without, IsUnique-insert,
}

abbrev pub is_some {ℓ} : {A : Type ℓ} → Option A → Bool
is_some none = false
is_some (some _) = true

-- No key twice, and the keys are those that have a value.
pub record IsWellFormed {ℓ} {V : Type ℓ} (om : OrderedMap V) : Type ℓ where
  pub unique : IsUnique om.keys
  pub in_step : (key : Bytes) → is_some (find key om.values) ≡ has_key key om.keys

cut_out :
    (key : Bytes) (ks : List Bytes)
    → IsUnique ks
    → elim (index_of key ks) [ none ↦ ks | some i ↦ take i ks ++ drop (suc i) ks ] ≡ without key ks
cut_out key ks u = elim (index_of-cases key ks) [
  | inl (n, a) ↦ rw n (sym (without-absent key ks a))
  | inr (i, n, s, _) ↦
      rw n (sym (ap (without key) s ∙ without-split key (take i ks) (drop (suc i) ks) (rw s at u)))
]

module _ {ℓ} {V : Type ℓ} where
  pub is_some-if :
      (b : Bool) (v : V) (o : Option V) → is_some (if b then some v else o) ≡ (b || is_some o)
  is_some-if true v o = refl
  is_some-if false v o = refl

  set-absent :
      (key : Bytes) (value : V) (om : OrderedMap V)
      → find key om.values ≡ none
      → set key value om ≡ record { keys = om.keys ++ key ∷ []; values = put key value om.values }
  unfolding set
  set-absent key value om h = rw (h, set) refl

  set-present :
      (key : Bytes) (value v : V) (om : OrderedMap V)
      → find key om.values ≡ some v
      → set key value om ≡ record { keys = om.keys; values = put key value om.values }
  unfolding set
  set-present key value v om h = rw (h, set) refl

  delete-absent : (key : Bytes) (om : OrderedMap V) → find key om.values ≡ none → delete key om ≡ om
  unfolding delete
  delete-absent key om h = rw (h, delete) refl

  delete-present :
      (key : Bytes) (v : V) (om : OrderedMap V)
      → find key om.values ≡ some v
      → delete key om ≡ record {
        keys = elim (index_of key om.keys) [
          | none ↦ om.keys
          | some i ↦ take i om.keys ++ drop (suc i) om.keys
        ];
        values = remove key om.values;
      }
  unfolding delete
  delete-present key v om h = rw (h, delete) refl

  -- `Delete` takes the key from the keys and nothing else, and leaves their order.
  pub delete-keys :
      (key : Bytes) (om : OrderedMap V)
      → IsWellFormed om
      → (delete key om).keys ≡ without key om.keys
  delete-keys key om w = elim (Option-cases (find key om.values)) [
    | inl n ↦
        ap (λ m. m.keys) (delete-absent key om n)
        ∙ sym (without-absent key om.keys (sym (w.in_step key) ∙ ap is_some n))
    | inr (v, f) ↦ ap (λ m. m.keys) (delete-present key v om f) ∙ cut_out key om.keys w.unique
  ]

  pub delete-find :
      (key other : Bytes) (om : OrderedMap V)
      → find other (delete key om).values
        ≡ (if bytes_eq key other then none else find other om.values)
  delete-find key other om = elim (Option-cases (find key om.values)) [
    | inl n ↦ ap (λ m. find other m.values) (delete-absent key om n) ∙ absent n
    | inr (v, f) ↦
        ap (λ m. find other m.values) (delete-present key v om f)
        ∙ find-remove_any key other om.values
  ]
    where
      absent :
          find key om.values ≡ none
          → find other om.values ≡ (if bytes_eq key other then none else find other om.values)
      absent n = elim (Bool-cases (bytes_eq key other)) [
        | inl h ↦ rw (h, sym ((bytes_eq_iff key other).0 h)) n
        | inr h ↦ rw h refl
      ]

  pub delete-IsWellFormed :
      (key : Bytes) (om : OrderedMap V) → IsWellFormed om → IsWellFormed (delete key om)
  delete-IsWellFormed key om w = record {
    unique = rw (delete-keys key om w) (IsUnique-without key om.keys w.unique);
    in_step = λ other. elim (Bool-cases (bytes_eq key other)) [
      | inl h ↦
          rw (delete-find key other om, h, delete-keys key om w, sym ((bytes_eq_iff key other).0 h))
            (sym (has_key-without_same key om.keys))
      | inr h ↦
          rw
            (delete-find key other om, h, delete-keys key om w, has_key-without key other om.keys h)
            (w.in_step other)
    ];
  }

  set-keys :
      (key : Bytes) (value : V) (om : OrderedMap V)
      → IsWellFormed om
      → (set key value om).keys ≡ (if has_key key om.keys then om.keys else om.keys ++ key ∷ [])
  set-keys key value om w = elim (Option-cases (find key om.values)) [
    | inl n ↦ ap (λ m. m.keys) (set-absent key value om n) ∙ rw (sym (w.in_step key), n) refl
    | inr (v, f) ↦
        ap (λ m. m.keys) (set-present key value v om f) ∙ rw (sym (w.in_step key), f) refl
  ]

  set-values :
      (key : Bytes) (value : V) (om : OrderedMap V)
      → (set key value om).values ≡ put key value om.values
  unfolding set
  set-values key value om = refl

  set-IsWellFormed :
      (key : Bytes) (value : V) (om : OrderedMap V)
      → IsWellFormed om
      → IsWellFormed (set key value om)
  set-IsWellFormed key value om w = elim (Bool-cases (has_key key om.keys)) [
    | inl h ↦ made om.keys (set-keys key value om w ∙ rw h refl) w.unique (λ other.
        elim (Bool-cases (bytes_eq key other)) [
          | inl same ↦ rw (same, sym ((bytes_eq_iff key other).0 same)) h
          | inr differs ↦ rw differs refl
        ])
    | inr h ↦
        made (om.keys ++ key ∷ []) (set-keys key value om w ∙ rw h refl)
          (IsUnique-insert key om.keys [] (rw (append-nil om.keys) w.unique)
            (rw (append-nil om.keys) h))
          (λ other. has_key-insert key other om.keys [] ∙ rw (append-nil om.keys) refl)
  ]
    where
      made :
          (ks : List Bytes)
          → (set key value om).keys ≡ ks
          → IsUnique ks
          → ((other : Bytes) → has_key other ks ≡ (bytes_eq key other || has_key other om.keys))
          → IsWellFormed (set key value om)
      made ks e u h = record {
        unique = rw e u;
        in_step = λ other.
            rw
              (
                e,
                set-values key value om,
                find-put_any key other value om.values,
                h other,
                sym (w.in_step other),
              )
              (is_some-if (bytes_eq key other) value (find other om.values));
      }

  -- On a well-formed map `Set` leaves a well-formed map, whose keys are those before, with the new
  -- key behind them where it was not one of them, and in which the key has the value and every other
  -- key what it had.
  pub set_lem :
      (key : Bytes) (value : V) (om : OrderedMap V)
      → IsWellFormed om
      → IsWellFormed (set key value om)
        × ((set key value om).keys ≡ (if has_key key om.keys then om.keys else om.keys ++ key ∷ []))
        × ((other : Bytes)
            → find other (set key value om).values
              ≡ (if bytes_eq key other then some value else find other om.values))
  set_lem key value om w = (
    set-IsWellFormed key value om w,
    set-keys key value om w,
    λ other. ap (find other) (set-values key value om) ∙ find-put_any key other value om.values,
  )

  -- On a well-formed map `Delete` leaves a well-formed map, whose keys are those before without the
  -- key, in their order, and in which the key has no value and every other key what it had.
  pub delete_lem :
      (key : Bytes) (om : OrderedMap V)
      → IsWellFormed om
      → IsWellFormed (delete key om)
        × ((delete key om).keys ≡ without key om.keys)
        × ((other : Bytes)
            → find other (delete key om).values
              ≡ (if bytes_eq key other then none else find other om.values))
  delete_lem key om w =
      (delete-IsWellFormed key om w, delete-keys key om w, λ other. delete-find key other om)
