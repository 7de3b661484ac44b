-- ===== src/Prelude/Assoc.antt =====
-- Go maps with string keys, as association lists.
use mathlib.Core.Path.{◌≡◌, refl, sym}
use mathlib.Core.Bool.{true, false}
use mathlib.Core.Option.{Option, none, some}
use mathlib.Core.List.{List, [], ◌∷◌}
use native.Mathlib.Omega.{arith}
use go_odata.Prelude.Tests.{if◌then◌else◌, Bool-cases}
use mathlib.Core.Logic.{inl, inr}
use go_odata.Prelude.Text.{Bytes, bytes_eq, bytes_eq_iff}

module _ {ℓ} {V : Type ℓ} where
  unfoldable pub find : Bytes → List (Bytes × V) → Option V
  unfolding bytes_eq
  find key [] = none
  find key ((k, v) ∷ m) = if bytes_eq k key then some v else find key m

  -- `m[key] = v`
  unfoldable pub put : Bytes → V → List (Bytes × V) → List (Bytes × V)
  unfolding bytes_eq
  put key v [] = (key, v) ∷ []
  put key v ((k, w) ∷ m) = if bytes_eq k key then (k, v) ∷ m else (k, w) ∷ put key v m

pub bytes_eq_refl : (a : Bytes) → bytes_eq a a ≡ true
bytes_eq_refl a = (bytes_eq_iff a a).1 refl

pub bytes_eq_ne :
    (a b c : Bytes) → bytes_eq a b ≡ true → bytes_eq b c ≡ false → bytes_eq a c ≡ false
bytes_eq_ne a b c h k = rw ((bytes_eq_iff a b).0 h) k

module _ {ℓ} {V : Type ℓ} where
  pub find-put : (key : Bytes) (v : V) (m : List (Bytes × V)) → find key (put key v m) ≡ some v
  unfolding find put
  find-put key v [] = rw (bytes_eq_refl key)
  find-put key v ((k, w) ∷ m) = ground (arith, find-put key v m)

  pub find-put_other :
      (key other : Bytes) (v : V) (m : List (Bytes × V))
      → bytes_eq key other ≡ false
      → find other (put key v m) ≡ find other m
  unfolding find put
  find-put_other key other v [] h = rw h
  find-put_other key other v ((k, w) ∷ m) h =
      ground (arith, find-put_other key other v m h, bytes_eq_ne k key other)

module _ {ℓ} {V : Type ℓ} where
  -- `delete(m, key)`
  unfoldable pub remove : Bytes → List (Bytes × V) → List (Bytes × V)
  unfolding bytes_eq
  remove key [] = []
  remove key ((k, v) ∷ m) = if bytes_eq k key then remove key m else (k, v) ∷ remove key m

  pub find-remove : (key : Bytes) (m : List (Bytes × V)) → find key (remove key m) ≡ none
  unfolding find remove
  find-remove key [] = refl
  find-remove key ((k, v) ∷ m) = ground (arith, find-remove key m)

  pub find-remove_other :
      (key other : Bytes) (m : List (Bytes × V))
      → bytes_eq key other ≡ false
      → find other (remove key m) ≡ find other m
  unfolding find remove
  find-remove_other key other [] h = refl
  find-remove_other key other ((k, v) ∷ m) h =
      ground (arith, find-remove_other key other m h, bytes_eq_ne k key other)

module _ {ℓ} {V : Type ℓ} where
  pub find-put_any :
      (key other : Bytes) (v : V) (m : List (Bytes × V))
      → find other (put key v m) ≡ (if bytes_eq key other then some v else find other m)
  find-put_any key other v m = elim (Bool-cases (bytes_eq key other)) [
    | inl h ↦ rw (h, sym ((bytes_eq_iff key other).0 h)) (find-put key v m)
    | inr h ↦ rw h (find-put_other key other v m h)
  ]

  pub find-remove_any :
      (key other : Bytes) (m : List (Bytes × V))
      → find other (remove key m) ≡ (if bytes_eq key other then none else find other m)
  find-remove_any key other m = elim (Bool-cases (bytes_eq key other)) [
    | inl h ↦ rw (h, sym ((bytes_eq_iff key other).0 h)) (find-remove key m)
    | inr h ↦ rw h (find-remove_other key other m h)
  ]
