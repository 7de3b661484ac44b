-- ===== src/TrackChanges/Failures.antt =====
-- internal/trackchanges/tracker.go: a change that could not be saved, among changes of other entity
-- sets that come between the two sections of `RecordChange` under the lock.
use go_odata.Prelude.{
  ◌^◌, ◌<◌, ◌≡◌, refl, ap, sym, subst, ◌∙◌, Bool, false, List, [], ◌∷◌, some, inl, inr, err, Bytes,
  bytes_eq, bytes_eq_refl, bytes_eq_iff, Bool-cases, Option-cases, increment, find, find-put_any,
  if◌then◌else◌, All,
}
use go_odata.TrackChanges.{
  persist_failed, EntityHistory, ChangeEvent, Change, Tracker, or_no_history, history_of, event_of,
  push, pop, record_change, begin_change, roll_back, register_entity, no_history,
}
use go_odata.TrackChanges.Histories.{
  pop-push, roll_back-same, begin_change-same, begin_change-other,
}

-- What a goroutine does to the tracker in one section under the lock.
pub data Section (Value : Type 0) : Type 0 where
  enters : Change Value → Section Value
  takes_back : Bytes → Section Value
  registers : Bytes → Section Value

module _ {Value : Type 0} where
  abbrev pub entity_set_of : Section Value → Bytes
  entity_set_of (enters c) = c.entity_set
  entity_set_of (takes_back entity_set) = entity_set
  entity_set_of (registers entity_set) = entity_set

  unfoldable pub run_section : Section Value → Tracker Value → Tracker Value
  unfolding begin_change roll_back register_entity
  run_section (enters c) t = begin_change c t
  run_section (takes_back entity_set) t = roll_back entity_set t
  run_section (registers entity_set) t = register_entity entity_set t

  unfoldable pub run_sections : List (Section Value) → Tracker Value → Tracker Value
  unfolding run_section
  run_sections [] t = t
  run_sections (s ∷ ss) t = run_sections ss (run_section s t)

  -- The section is about another entity set.
  abbrev pub IsElsewhere : Bytes → Section Value → Type 0
  IsElsewhere entity_set s = bytes_eq (entity_set_of s) entity_set ≡ false

  -- The entry of the section's entity set behind it, from the history before.
  abbrev changed : Section Value → EntityHistory Value → EntityHistory Value
  changed (enters c) h = push c h
  changed (takes_back entity_set) h = pop h
  changed (registers entity_set) h = h

  find-run_section :
      (s : Section Value) (key : Bytes) (t : Tracker Value)
      → find key (run_section s t) ≡ (
          if bytes_eq (entity_set_of s) key
          then some (changed s (history_of (entity_set_of s) t))
          else find key t)
  unfolding run_section
  find-run_section (enters c) key t = find-put_any c.entity_set key _ t
  find-run_section (takes_back entity_set) key t = find-put_any entity_set key _ t
  find-run_section (registers entity_set) key t = elim (Option-cases (find entity_set t)) [
    | inl e ↦ rw (e, register_entity) (find-put_any entity_set key no_history t)
    | inr (h, e) ↦
        rw (e, register_entity)
          (elim (Bool-cases (bytes_eq entity_set key)) [
            | inl q ↦ rw (q, sym ((bytes_eq_iff entity_set key).0 q)) e
            | inr q ↦ rw q refl
          ])
  ]

  -- What it makes of an entry depends on that entry alone.
  run_section_agrees :
      (s : Section Value) (key : Bytes) (t t' : Tracker Value)
      → find key t ≡ find key t'
      → find key (run_section s t) ≡ find key (run_section s t')
  run_section_agrees s key t t' h =
      find-run_section s key t
      ∙ elim (Bool-cases (bytes_eq (entity_set_of s) key)) [
        | inl q ↦
            let same = (bytes_eq_iff (entity_set_of s) key).0 q in
            rw (q, subst (λ k. find k t ≡ find k t') (sym same) h) refl
        | inr q ↦ rw q h
      ]
      ∙ sym (find-run_section s key t')

  run_sections_agree :
      (ss : List (Section Value)) (key : Bytes) (t t' : Tracker Value)
      → find key t ≡ find key t'
      → find key (run_sections ss t) ≡ find key (run_sections ss t')
  unfolding run_sections
  run_sections_agree [] key t t' h = h
  run_sections_agree (s ∷ ss) key t t' h =
      run_sections_agree ss key (run_section s t) (run_section s t')
        (run_section_agrees s key t t' h)

  run_sections_elsewhere :
      (ss : List (Section Value)) (key : Bytes) (t : Tracker Value)
      → All (IsElsewhere key) ss
      → find key (run_sections ss t) ≡ find key t
  unfolding run_sections
  run_sections_elsewhere [] key t a = refl
  run_sections_elsewhere (s ∷ ss) key t (e, a) =
      run_sections_elsewhere ss key (run_section s t) a ∙ find-run_section s key t ∙ rw e refl

  -- The database does not take a change, and between the two sections of RecordChange under the lock
  -- the others do whatever they do to other entity sets only. Then the entry of the change's entity
  -- set is as it was, or an empty history where the set was not registered, and every other
  -- entry is what the others made of it. Where nothing comes between, RecordChange does just this, and
  -- reports the error.
  pub record_change-failed :
      (saves : ChangeEvent Value → Bool) (c : Change Value) (t : Tracker Value)
      (others : List (Section Value))
      → saves (event_of c (increment (history_of c.entity_set t).version)) ≡ false
      → (history_of c.entity_set t).version < 2 ^ 64
      → All (IsElsewhere c.entity_set) others
      → let end_tracker = roll_back c.entity_set (run_sections others (begin_change c t)) in
        (find c.entity_set end_tracker ≡ some (history_of c.entity_set t))
        × ((other : Bytes)
            → bytes_eq c.entity_set other ≡ false
            → find other end_tracker ≡ find other (run_sections others t))
        × (record_change (some saves) c t
            ≡ (err persist_failed, roll_back c.entity_set (begin_change c t)))
  unfolding record_change run_section
  record_change-failed saves c t others h b a =
      let begun = begin_change c t in
      let middle = run_sections others begun in
      let entered : find c.entity_set middle ≡ some (push c (history_of c.entity_set t)) =
        run_sections_elsewhere others c.entity_set begun a
        ∙ begin_change-same c.entity_set c t (bytes_eq_refl c.entity_set) in
      (
        roll_back-same c.entity_set middle
            ∙ ap (λ o. some (pop (or_no_history o))) entered
            ∙ ap some (pop-push c (history_of c.entity_set t) b),
        λ other e.
            find-run_section (takes_back c.entity_set) other middle
            ∙ rw e (run_sections_agree others other begun t (begin_change-other other c t e)),
        rw h refl,
      )
