-- ===== src/TrackChanges/RollBack.antt =====
-- Changes that could not be saved, alone and among others.
use go_odata.Prelude.{
  ℕ, suc, ◌+◌, ◌^◌, ◌%◌, ◌-◌, ◌≤◌, ◌<◌, ◌≡◌, refl, ap, sym, ◌∙◌, List, [], ◌∷◌, ◌++◌, arith,
  bytes_eq_refl, length, length-append, increment, decrement,
}
use go_odata.TrackChanges.{
  EntityHistory, ChangeEvent, Change, Tracker, no_history, or_no_history, history_of, event_of,
  push, pop, drop_last, begin_change, roll_back,
}
use go_odata.TrackChanges.Histories.{begin_change-same, roll_back-same, pop-push}

decrement_lem : (n : ℕ) → 0 < n → decrement (n % 2 ^ 64) ≡ (n - 1) % 2 ^ 64
decrement_lem n h = omega (arith, h)

module _ {Value : Type 0} where
  -- The last begun change of an entity set is what `roll_back` takes from it.
  pub roll_back-begin_change :
      (c : Change Value) (t : Tracker Value)
      → (history_of c.entity_set t).version < 2 ^ 64
      → history_of c.entity_set (roll_back c.entity_set (begin_change c t))
        ≡ history_of c.entity_set t
  roll_back-begin_change c t b =
      ap or_no_history (roll_back-same c.entity_set (begin_change c t))
      ∙ ap (λ o. pop (or_no_history o))
          (begin_change-same c.entity_set c t (bytes_eq_refl c.entity_set))
      ∙ pop-push c (history_of c.entity_set t) b

  -- Two goroutines record a change of the same entity set, `a` the first; both have entered their
  -- event, and the database takes that of `b` but not that of `a`. The history then holds the
  -- event of `a`, which failed, and not that of `b`, and its version is the one of `a` alone.
  pub roll_back-interleaved :
      (a b : Change Value) (t : Tracker Value)
      → a.entity_set ≡ b.entity_set
      → history_of b.entity_set (roll_back a.entity_set (begin_change b (begin_change a t)))
        ≡ push a (history_of a.entity_set t)
  roll_back-interleaved a b t same =
      let entered : history_of b.entity_set (begin_change a t)
          ≡ push a (history_of a.entity_set t) =
        ap (λ s. history_of s (begin_change a t)) (sym same)
        ∙ ap or_no_history (begin_change-same a.entity_set a t (bytes_eq_refl a.entity_set)) in
      let version : (history_of b.entity_set (begin_change a t)).version
          ≡ increment (history_of a.entity_set t).version =
        ap (λ h. h.version) entered in
      ap (λ s. history_of b.entity_set (roll_back s (begin_change b (begin_change a t)))) same
      ∙ roll_back-begin_change b (begin_change a t) (omega (arith, version))
      ∙ entered

  -- A history with the number of the changes that were entered and not yet saved or taken back, by
  -- any number of goroutines in any order, from a first history on.
  pub data Steps (first : EntityHistory Value) : EntityHistory Value → ℕ → Type 0 where
    start : Steps first first 0
    entered :
        {h : EntityHistory Value} {n : ℕ} (c : Change Value)
        → Steps first h n
        → Steps first (push c h) (suc n)
    saved : {h : EntityHistory Value} {n : ℕ} → Steps first h (suc n) → Steps first h n
    taken_back : {h : EntityHistory Value} {n : ℕ} → Steps first h (suc n) → Steps first (pop h) n

  -- The events have the versions behind `from`, one after the other.
  abbrev pub IsNumbered : ℕ → List (ChangeEvent Value) → Type 0
  IsNumbered from [] = Unit
  IsNumbered from (e ∷ events) = (e.version ≡ (from + 1) % 2 ^ 64) × IsNumbered (from + 1) events

  IsNumbered-append :
      (from : ℕ) (events : List (ChangeEvent Value)) (e : ChangeEvent Value)
      → IsNumbered from events
      → e.version ≡ (from + length events + 1) % 2 ^ 64
      → IsNumbered from (events ++ e ∷ [])
  IsNumbered-append from [] e h k = (k ∙ ap (λ n. (n + 1) % 2 ^ 64) (omega arith), tt)
  IsNumbered-append from (a ∷ events) e h k =
      (h.0, IsNumbered-append (from + 1) events e h.1 (k ∙ ap (λ n. n % 2 ^ 64) (omega arith)))

  IsNumbered-drop_last :
      (from : ℕ) (events : List (ChangeEvent Value))
      → IsNumbered from events
      → IsNumbered from (drop_last events)
  unfolding drop_last
  IsNumbered-drop_last from [] h = h
  IsNumbered-drop_last from (a ∷ []) h = tt
  IsNumbered-drop_last from (a ∷ b ∷ events) h =
      (h.0, IsNumbered-drop_last (from + 1) (b ∷ events) h.1)

  length-drop_last :
      (events : List (ChangeEvent Value)) → length (drop_last events) ≡ length events - 1
  unfolding drop_last
  length-drop_last [] = refl
  length-drop_last (a ∷ []) = omega arith
  length-drop_last (a ∷ b ∷ events) = omega (arith, length-drop_last (b ∷ events))

  -- In whatever order goroutines enter changes, save them and take them back, the events of an
  -- entity set that was empty at first have the versions 1, 2, 3 and so on without a gap, as
  -- int64 values, the version of the history is that of the last of them, and each change in
  -- progress has an event to take back.
  pub Steps-IsNumbered :
      {h : EntityHistory Value} {n : ℕ}
      → Steps no_history h n
      → (h.version ≡ length h.events % 2 ^ 64) × IsNumbered 0 h.events × (n ≤ length h.events)
  unfolding pop
  Steps-IsNumbered start = (refl, tt, omega arith)
  Steps-IsNumbered (entered {h} c s) =
      let (v, k, m) = Steps-IsNumbered s in
      let next : increment h.version ≡ (length h.events + 1) % 2 ^ 64 = omega (arith, v) in
      let longer = length-append h.events (event_of c (increment h.version) ∷ []) in
      let behind : increment h.version ≡ (0 + length h.events + 1) % 2 ^ 64 = omega (arith, v) in
      (
        next ∙ ap (λ n. n % 2 ^ 64) (sym longer),
        IsNumbered-append 0 h.events (event_of c (increment h.version)) k behind,
        omega (arith, m, longer),
      )
  Steps-IsNumbered (saved s) = let (v, k, m) = Steps-IsNumbered s in (v, k, omega (arith, m))
  Steps-IsNumbered (taken_back {h} s) =
      let (v, k, m) = Steps-IsNumbered s in
      let dropped = length-drop_last h.events in
      (
        ap decrement v
            ∙ decrement_lem (length h.events) (omega (arith, m))
            ∙ ap (λ n. n % 2 ^ 64) (sym dropped),
        IsNumbered-drop_last 0 h.events k,
        omega (arith, m, dropped),
      )
