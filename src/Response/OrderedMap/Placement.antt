-- ===== src/Response/OrderedMap/Placement.antt =====
-- ordered_map.go: where `InsertAfter` puts a key, and what it leaves of the map.
use go_odata.Prelude.{
  suc, ◌≡◌, refl, sym, ap, ◌∙◌, false, ◌||◌, List, [], ◌∷◌, ◌++◌, append-nil, append_assoc, some,
  inl, inr, Bytes, bytes_eq, if◌then◌else◌, take, drop, Bool-cases, find, put, find-put_any,
}
use go_odata.Response.OrderedMap.{OrderedMap, delete, insert_after}
use go_odata.Response.OrderedMap.Keys.{
  has_key, IsUnique, without, index_of-cases, has_key-without_same, has_key-insert, IsUnique-insert,
}
use go_odata.Response.OrderedMap.Lookups.{
  IsWellFormed, is_some, is_some-if, delete-keys, delete-find, delete-IsWellFormed,
}

-- The key stands right behind `after_key` among the others, or behind them all if that is not one
-- of them.
pub data Placed (after_key key : Bytes) (others result : List Bytes) : Type 0 where
  behind_key :
      (before behind : List Bytes)
      → others ≡ before ++ after_key ∷ behind
      → result ≡ before ++ after_key ∷ key ∷ behind
      → Placed after_key key others result
  at_end :
      has_key after_key others ≡ false
      → result ≡ others ++ key ∷ []
      → Placed after_key key others result

Placed-IsUnique :
    (after_key key : Bytes) (others result : List Bytes)
    → Placed after_key key others result
    → IsUnique others
    → has_key key others ≡ false
    → IsUnique result
      × ((other : Bytes) → has_key other result ≡ (bytes_eq key other || has_key other others))
Placed-IsUnique after_key key others result (behind_key before behind s r) u h =
    let parts = s ∙ sym (append_assoc before (after_key ∷ []) behind) in
    rw (r, sym (append_assoc before (after_key ∷ []) (key ∷ behind)), parts)
      (
        IsUnique-insert key (before ++ after_key ∷ []) behind (rw parts at u) (rw parts at h),
        λ other. has_key-insert key other (before ++ after_key ∷ []) behind,
      )
Placed-IsUnique after_key key others result (at_end a r) u h = rw r (
  IsUnique-insert key others [] (rw (append-nil others) u) (rw (append-nil others) h),
  λ other. has_key-insert key other others [] ∙ rw (append-nil others) refl,
)

module _ {ℓ} {V : Type ℓ} where
  insert_after-Placed :
      (after_key key : Bytes) (value : V) (om : OrderedMap V)
      → Placed after_key key (delete key om).keys (insert_after after_key key value om).keys
  unfolding insert_after
  insert_after-Placed after_key key value om =
      elim (index_of-cases after_key (delete key om).keys) [
        | inl (n, a) ↦ at_end a (rw (n, insert_after) refl)
        | inr (i, n, s, f) ↦
            behind_key (take i (delete key om).keys) (drop (suc i) (delete key om).keys) s (
              rw (n, insert_after)
                (ap (λ ks. ks ++ key ∷ drop (suc i) (delete key om).keys) f
                  ∙ append_assoc (take i (delete key om).keys) (after_key ∷ [])
                      (key ∷ drop (suc i) (delete key om).keys)))
      ]

  insert_after-values :
      (after_key key : Bytes) (value : V) (om : OrderedMap V)
      → (insert_after after_key key value om).values ≡ put key value (delete key om).values
  unfolding insert_after
  insert_after-values after_key key value om = refl

  insert_after-find :
      (after_key key other : Bytes) (value : V) (om : OrderedMap V)
      → find other (insert_after after_key key value om).values
        ≡ (if bytes_eq key other then some value else find other om.values)
  insert_after-find after_key key other value om =
      ap (find other) (insert_after-values after_key key value om)
      ∙ find-put_any key other value (delete key om).values
      ∙ elim (Bool-cases (bytes_eq key other)) [
        | inl h ↦ rw h refl
        | inr h ↦ rw h (delete-find key other om ∙ rw h refl)
      ]

  insert_after-IsWellFormed :
      (after_key key : Bytes) (value : V) (om : OrderedMap V)
      → IsWellFormed om
      → IsWellFormed (insert_after after_key key value om)
  insert_after-IsWellFormed after_key key value om w =
      let deleted = delete-IsWellFormed key om w in
      let gone : has_key key (delete key om).keys ≡ false =
        rw (delete-keys key om w) (has_key-without_same key om.keys) in
      let (u, h) =
        Placed-IsUnique after_key key (delete key om).keys _
          (insert_after-Placed after_key key value om) deleted.unique gone in
      record {
        unique = u;
        in_step = λ other.
            ap is_some (
              ap (find other) (insert_after-values after_key key value om)
              ∙ find-put_any key other value (delete key om).values)
            ∙ is_some-if (bytes_eq key other) value (find other (delete key om).values)
            ∙ ap (λ b. bytes_eq key other || b) (deleted.in_step other)
            ∙ sym (h other);
      }

  -- On a well-formed map `InsertAfter` leaves a well-formed map, in which the key stands right
  -- behind `after_key`, or behind all the others where that is not one of them, the others keep
  -- their order, and the key has the value and every other key what it had. An `after_key` that is
  -- empty is no exception: the key stands behind an empty key that the map has.
  pub insert_after_lem :
      (after_key key : Bytes) (value : V) (om : OrderedMap V)
      → IsWellFormed om
      → IsWellFormed (insert_after after_key key value om)
        × Placed after_key key (without key om.keys) (insert_after after_key key value om).keys
        × ((other : Bytes)
            → find other (insert_after after_key key value om).values
              ≡ (if bytes_eq key other then some value else find other om.values))
  insert_after_lem after_key key value om w = (
    insert_after-IsWellFormed after_key key value om w,
    rw (delete-keys key om w) at (insert_after-Placed after_key key value om),
    λ other. insert_after-find after_key key other value om,
  )
