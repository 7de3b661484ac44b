-- ===== src/TrackChanges/Histories.antt =====
-- The tracker's map of histories under `RecordChange`, as seen from one entity set.
use go_odata.Prelude.{
  ℕ, ◌^◌, ◌<◌, ◌≡◌, refl, ap, sym, true, false, List, [], ◌∷◌, ◌++◌, some, arith, Bytes, bytes_eq,
  bytes_eq_iff, increment, decrement, find, find-put, find-put_other,
}
use go_odata.TrackChanges.{
  EntityHistory, ChangeEvent, Change, Tracker, history_of, event_of, push, pop, drop_last,
  begin_change, roll_back,
}

pub decrement-increment : (v : ℕ) → v < 2 ^ 64 → decrement (increment v) ≡ v
decrement-increment v h = omega arith

module _ {Value : Type 0} where
  abbrev pub IsFor : Bytes → Change Value → Type 0
  IsFor entity_set c = bytes_eq c.entity_set entity_set ≡ true

  pub begin_change-same :
      (entity_set : Bytes) (c : Change Value) (t : Tracker Value)
      → IsFor entity_set c
      → find entity_set (begin_change c t) ≡ some (push c (history_of entity_set t))
  unfolding begin_change
  begin_change-same entity_set c t h =
      let same = (bytes_eq_iff c.entity_set entity_set).0 h in
      rw (sym same) (find-put c.entity_set _ t)

  pub begin_change-other :
      (entity_set : Bytes) (c : Change Value) (t : Tracker Value)
      → bytes_eq c.entity_set entity_set ≡ false
      → find entity_set (begin_change c t) ≡ find entity_set t
  unfolding begin_change
  begin_change-other entity_set c t h = find-put_other c.entity_set entity_set _ t h

  pub roll_back-same :
      (entity_set : Bytes) (t : Tracker Value)
      → find entity_set (roll_back entity_set t) ≡ some (pop (history_of entity_set t))
  unfolding roll_back
  roll_back-same entity_set t = find-put entity_set _ t

  pub drop_last-append :
      (events : List (ChangeEvent Value)) (e : ChangeEvent Value)
      → drop_last (events ++ e ∷ []) ≡ events
  unfolding drop_last
  drop_last-append [] e = refl
  drop_last-append (a ∷ []) e = refl
  drop_last-append (a ∷ b ∷ events) e = ap (◌∷◌ a) (drop_last-append (b ∷ events) e)

  -- What is pushed first is what `pop` leaves.
  pub pop-push :
      (c : Change Value) (h : EntityHistory Value) → h.version < 2 ^ 64 → pop (push c h) ≡ h
  unfolding pop
  pop-push c h b = rw (
    decrement-increment h.version b,
    drop_last-append h.events (event_of c (increment h.version)),
  )
