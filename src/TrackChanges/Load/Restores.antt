-- ===== src/TrackChanges/Load/Restores.antt =====
-- tracker.go: the tracker that is loaded from the records of another.
use go_odata.Prelude.{
  ◌≡◌, refl, sym, ap, ◌∙◌, Bool, true, false, List, [], ◌∷◌, ◌++◌, append_assoc, append-nil, none,
  some, inl, inr, Result, ok, err, out_of_fuel, ◌>>=◌, Bytes, bytes_eq, bytes_eq_iff, if◌then◌else◌,
  Bool-cases, Option-cases, select, Int64, less, find, put, find-put_any,
}
use go_odata.TrackChanges.{
  ValueMap, ChangeEvent, EntityHistory, Tracker, no_history, or_no_history, history_of,
}
use go_odata.TrackChanges.Load.{
  MapCodec, ChangeRecord, RecordError, record_of, add_event, encode_data, new_change_record,
  decode_data, decode_event, load_records,
}

abbrev is_filled : Bytes → Bool
is_filled [] = false
is_filled (_ ∷ _) = true

refused : {A : Type 0} {x : RecordError} {a : A} → err x ≡ ok a → ⊥
refused h = cc

module _ {Value : Type 0} where
  -- A map whose text gives it back; the text is not empty.
  abbrev pub Trips : MapCodec Value → ValueMap Value → Type 0
  Trips codec m =
      (text : Bytes)
      → codec.marshal_map m ≡ some text
      → (codec.unmarshal_map text ≡ some m) × (is_filled text ≡ true)

  -- The record of the event, which the database took.
  pub record IsSaved (codec : MapCodec Value) (e : ChangeEvent Value) (r : ChangeRecord)
      : Type 0 where
    pub made : new_change_record codec e ≡ ok r
    pub keys : Trips codec e.key_values
    pub payload : Trips codec e.event_data

  decode_data-filled :
      (codec : MapCodec Value) (text : Bytes)
      → is_filled text ≡ true
      → decode_data codec text ≡ codec.unmarshal_map text
  unfolding decode_data
  decode_data-filled codec [] h = cc
  decode_data-filled codec (c ∷ cs) h = refl

  decode_event-record_of :
      (codec : MapCodec Value) (e : ChangeEvent Value) (text payload : Bytes)
      → codec.unmarshal_map text ≡ some e.key_values
      → decode_data codec payload ≡ some e.event_data
      → decode_event codec (record_of e text payload) ≡ ok e
  unfolding decode_event
  decode_event-record_of codec e text payload h k = rw (h, k, decode_event) refl

  decode_data-encode_data :
      (codec : MapCodec Value) (m : ValueMap Value) (text : Bytes)
      → Trips codec m
      → encode_data codec m ≡ ok text
      → decode_data codec text ≡ some m
  unfolding encode_data decode_data
  decode_data-encode_data codec none text trips h =
      let empty : text ≡ [] = cc h in ap (decode_data codec) empty
  decode_data-encode_data codec (some m) text trips h =
      elim (Option-cases (codec.marshal_map (some m))) [
        | inl n ↦ absurd (refused (rw (n, encode_data) at h))
        | inr (made, k) ↦
            let same : made ≡ text = cc (rw (k, encode_data) at h) in
            let (back, filled) = trips text (k ∙ ap some same) in
            decode_data-filled codec text filled ∙ back
      ]

  -- The event comes back out of its record.
  decode_event-new_change_record :
      (codec : MapCodec Value) (e : ChangeEvent Value) (r : ChangeRecord)
      → IsSaved codec e r
      → (decode_event codec r ≡ ok e) × (r.entity_set ≡ e.entity_set)
  unfolding new_change_record
  decode_event-new_change_record codec e r s =
      elim (Option-cases (codec.marshal_map e.key_values)) [
        | inl n ↦ absurd (refused (rw (n, new_change_record) at s.made))
        | inr (keys, k) ↦
            with_data keys (s.keys keys k).0 (encode_data codec e.event_data) refl
              (rw (k, new_change_record) at s.made)
      ]
    where
      with_data :
          (keys : Bytes)
          → codec.unmarshal_map keys ≡ some e.key_values
          → (text : Result RecordError Bytes) → encode_data codec e.event_data ≡ text
          → (text >>= λ payload. ok (record_of e keys payload)) ≡ ok r
          → (decode_event codec r ≡ ok e) × (r.entity_set ≡ e.entity_set)
      with_data keys back (ok payload) h k =
          let same : record_of e keys payload ≡ r = cc k in
          (
            ap (decode_event codec) (sym same)
                ∙ decode_event-record_of codec e keys payload back
                    (decode_data-encode_data codec e.event_data payload s.payload h),
            sym (ap (λ x. x.entity_set) same),
          )
      with_data keys back (err x) h k = absurd (refused k)
      with_data keys back out_of_fuel h k = cc k

  -- The records are those of the events, one for one.
  pub data AreSaved (codec : MapCodec Value)
      : List (ChangeEvent Value) → List ChangeRecord → Type 0 where
    no_records : AreSaved codec [] []
    one_more :
        {e : ChangeEvent Value} {r : ChangeRecord} {es : List (ChangeEvent Value)}
        {rs : List ChangeRecord}
        → IsSaved codec e r
        → AreSaved codec es rs
        → AreSaved codec (e ∷ es) (r ∷ rs)

  abbrev pub events_of : Bytes → List (ChangeEvent Value) → List (ChangeEvent Value)
  events_of entity_set = select (λ e. bytes_eq e.entity_set entity_set)

  abbrev pub add_events : List (ChangeEvent Value) → EntityHistory Value → EntityHistory Value
  add_events [] h = h
  add_events (e ∷ es) h = add_events es (add_event e h)

  -- The tracker that is loaded, one entity set at a time.
  pub record Loads (codec : MapCodec Value) (es : List (ChangeEvent Value)) (rs : List ChangeRecord)
      (t : Tracker Value) : Type 0 where
    pub loaded : Tracker Value
    pub runs : load_records codec rs t ≡ ok loaded
    pub histories :
        (entity_set : Bytes)
        → history_of entity_set loaded
          ≡ add_events (events_of entity_set es) (history_of entity_set t)

  history_of-put :
      (key entity_set : Bytes) (h : EntityHistory Value) (t : Tracker Value)
      → history_of entity_set (put key h t)
        ≡ (if bytes_eq key entity_set then h else history_of entity_set t)
  history_of-put key entity_set h t = elim (Bool-cases (bytes_eq key entity_set)) [
    | inl same ↦ ap or_no_history (find-put_any key entity_set h t) ∙ rw same refl
    | inr other ↦ ap or_no_history (find-put_any key entity_set h t) ∙ rw other refl
  ]

  add_events-put :
      (e : ChangeEvent Value) (es : List (ChangeEvent Value)) (key entity_set : Bytes)
      (t : Tracker Value)
      → key ≡ e.entity_set
      → add_events
          (events_of entity_set es)
          (history_of entity_set (put key (add_event e (history_of key t)) t))
        ≡ add_events (events_of entity_set (e ∷ es)) (history_of entity_set t)
  add_events-put e es key entity_set t same =
      ap (add_events (events_of entity_set es))
        (history_of-put key entity_set (add_event e (history_of key t)) t)
      ∙ elim (Bool-cases (bytes_eq e.entity_set entity_set)) [
        | inl here ↦
            let this : key ≡ entity_set = same ∙ (bytes_eq_iff e.entity_set entity_set).0 here in
            rw (here, (bytes_eq_iff key entity_set).1 this)
              (ap (λ k. add_events (events_of entity_set es) (add_event e (history_of k t))) this)
        | inr other ↦
            let away : bytes_eq key entity_set ≡ false =
              ap (λ k. bytes_eq k entity_set) same ∙ other in
            rw (other, away) refl
      ]

  load_records-Loads :
      (codec : MapCodec Value) {es : List (ChangeEvent Value)} {rs : List ChangeRecord}
      (t : Tracker Value)
      → AreSaved codec es rs
      → Loads codec es rs t
  unfolding load_records
  load_records-Loads codec t no_records = record { loaded = t; runs = refl; histories = λ s. refl }
  load_records-Loads codec t (one_more {e} {r} {es} {rs} s more) =
      let (decoded, same) = decode_event-new_change_record codec e r s in
      let next =
        load_records-Loads codec (put r.entity_set (add_event e (history_of r.entity_set t)) t)
          more in
      record {
        loaded = next.loaded;
        runs = rw (decoded, load_records) next.runs;
        histories = λ entity_set.
            next.histories entity_set ∙ add_events-put e es r.entity_set entity_set t same;
      }

  -- The versions rise from the first to the last.
  pub data Rises : Int64 → List (ChangeEvent Value) → Int64 → Type 0 where
    at_last : {v : Int64} → Rises v [] v
    rises :
        {v w : Int64} {e : ChangeEvent Value} {es : List (ChangeEvent Value)}
        → less v e.version ≡ true
        → Rises e.version es w
        → Rises v (e ∷ es) w

  add_events-Rises :
      {v w : Int64} {es : List (ChangeEvent Value)} (events : List (ChangeEvent Value))
      → Rises v es w
      → add_events es (record { version = v; events = events })
        ≡ record { version = w; events = events ++ es }
  add_events-Rises {v} events at_last =
      ap (λ es. record { version = v; events = es }) (sym (append-nil events))
  add_events-Rises {w = w} events (rises {v} {e = e} {es = es} h more) =
      rw h (add_events-Rises (events ++ e ∷ []) more)
      ∙ ap (λ es. record { version = w; events = es }) (append_assoc events (e ∷ []) es)

  -- A tracker's events are saved, each in a record whose texts give its maps back, and in every
  -- entity set they stand in the order of their versions, the last of which is the version of the
  -- history. The tracker that `loadFromDatabase` makes of the records has the same history of every
  -- entity set.
  pub load_records-restores :
      {es : List (ChangeEvent Value)} {rs : List ChangeRecord} (codec : MapCodec Value)
      (t : Tracker Value)
      → AreSaved codec es rs
      → ((entity_set : Bytes) → events_of entity_set es ≡ (history_of entity_set t).events)
      → ((entity_set : Bytes)
          → Rises 0 (history_of entity_set t).events (history_of entity_set t).version)
      → (loaded : Tracker Value) × (load_records codec rs [] ≡ ok loaded)
        × ((entity_set : Bytes) → history_of entity_set loaded ≡ history_of entity_set t)
  unfolding find
  load_records-restores codec t saved same_events rising =
      let all = load_records-Loads codec [] saved in
      (
        all.loaded,
        all.runs,
        λ entity_set.
            all.histories entity_set
            ∙ ap (λ es. add_events es no_history) (same_events entity_set)
            ∙ add_events-Rises [] (rising entity_set),
      )
