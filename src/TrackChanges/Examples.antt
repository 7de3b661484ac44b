-- ===== src/TrackChanges/Examples.antt =====
-- The tracker's theorems, applied to two entity sets and a few changes.
use go_odata.Prelude.{
  ℕ, ◌^◌, ◌%◌, ◌≤◌, ◌≡◌, refl, Bool, false, List, [], ◌∷◌, none, some, arith, ok, err, ◌>>=◌, Bytes,
  codes, length, find,
}
use go_odata.TrackChanges.{
  TokenCodec, persist_failed, updated, EntityHistory, ChangeEvent, Change, Tracker, no_history,
  history_of, event_of, push, pop, begin_change, roll_back, record_change, current_token,
  changes_since, decode_token,
}
use go_odata.TrackChanges.Load.{MapCodec, record_of, new_change_record, load_records}
use go_odata.TrackChanges.Load.Restores.{
  IsSaved, no_records, one_more, events_of, Rises, at_last, rises, load_records-restores,
}
use go_odata.Prelude.{Bool-cases, inl, inr, if◌then◌else◌, bytes_eq}
use go_odata.TrackChanges.Deltas.{
  record_all, changes_of, numbered, IsOrdered, changes_since-record_all,
}
use go_odata.TrackChanges.Failures.{
  Section, enters, takes_back, registers, run_sections, record_change-failed,
}
use go_odata.TrackChanges.RollBack.{
  start, entered, saved, taken_back, IsNumbered, roll_back-interleaved, Steps-IsNumbered,
}

abbrev orders : Bytes
orders = codes "Orders"

abbrev change : Bytes → ℕ → Change ℕ
change entity_set key = record {
  entity_set = entity_set;
  key_values = some ((codes "ID", key) ∷ []);
  event_data = none;
  type = updated;
}

-- A codec that writes the version in front of the name.
abbrev plain_codec : TokenCodec
plain_codec = record {
  marshal = λ entity_set version. some (version ∷ entity_set);
  unmarshal =
      λ payload. elim payload [ [] ↦ none | ◌∷◌ version entity_set ↦ some (entity_set, version) ];
  encode_base64 = λ payload. payload;
  decode_base64 = λ token. some token;
}

abbrev one_order : EntityHistory ℕ
one_order = push (change orders 1) no_history

abbrev tracked : Tracker ℕ
tracked = (codes "Products", no_history) ∷ (orders, one_order) ∷ []

abbrev later : List (Change ℕ)
later = change orders 2 ∷ change (codes "Products") 7 ∷ change orders 1 ∷ []

one_order-IsOrdered : IsOrdered one_order
one_order-IsOrdered = record { fits = omega arith; bounded = (omega arith, tt) }

later_run :
    changes_since plain_codec (1 ∷ orders) (record_all later tracked)
    ≡ ok (event_of (change orders 2) 2 ∷ event_of (change orders 1) 3 ∷ [], 3 ∷ orders)
unfolding changes_since record_change
later_run = refl

changes_since-record_all_example :
    (current_token plain_codec orders tracked ≡ ok (1 ∷ orders))
    × (changes_since plain_codec (1 ∷ orders) (record_all later tracked) ≡ (
        current_token plain_codec orders (record_all later tracked) >>= λ new_token.
        ok (numbered 1 (changes_of orders later), new_token)))
unfolding find current_token decode_token
changes_since-record_all_example =
    changes_since-record_all plain_codec orders (1 ∷ orders) tracked one_order later refl
      one_order-IsOrdered (omega arith) (refl, refl)

abbrev refuses : ChangeEvent ℕ → Bool
refuses e = false

-- Between the two sections another set is registered, and changed, and one that is there is, too.
abbrev elsewhere : List (Section ℕ)
elsewhere =
    registers (codes "Customers")
    ∷ enters (change (codes "Products") 4)
    ∷ enters (change (codes "Customers") 5)
    ∷ takes_back (codes "Products")
    ∷ []

record_change-failed_example :
    (find orders
        (roll_back orders (run_sections elsewhere (begin_change (change orders 2) tracked)))
      ≡ some one_order)
    × ((other : Bytes)
        → bytes_eq orders other ≡ false
        → find other
            (roll_back orders (run_sections elsewhere (begin_change (change orders 2) tracked)))
          ≡ find other (run_sections elsewhere tracked))
    × (record_change (some refuses) (change orders 2) tracked
        ≡ (err persist_failed, roll_back orders (begin_change (change orders 2) tracked)))
unfolding find bytes_eq
record_change-failed_example =
    record_change-failed refuses (change orders 2) tracked elsewhere refl (omega arith)
      (refl, (refl, (refl, (refl, tt))))

roll_back-interleaved_example :
    history_of orders
      (roll_back orders (begin_change (change orders 3) (begin_change (change orders 2) tracked)))
    ≡ push (change orders 2) (history_of orders tracked)
roll_back-interleaved_example =
    roll_back-interleaved (change orders 2) (change orders 3) tracked refl

abbrev two_then_back : EntityHistory ℕ
two_then_back = pop (push (change orders 2) (push (change orders 1) no_history))

Steps-IsNumbered_example :
    (two_then_back.version ≡ length two_then_back.events % 2 ^ 64)
    × IsNumbered 0 two_then_back.events
    × (0 ≤ length two_then_back.events)
Steps-IsNumbered_example =
    Steps-IsNumbered
      (saved (taken_back (entered (change orders 2) (entered (change orders 1) start))))

-- Texts of the one map that the example records: its key.
abbrev key_codec : MapCodec ℕ
key_codec = record {
  marshal_map = λ m. elim m [
    | none ↦ some (codes "null")
    | some m ↦ elim m [ [] ↦ none | ◌∷◌ field _ ↦ some (field.1 ∷ []) ]
  ];
  unmarshal_map = λ text. elim text [
    | [] ↦ none
    | ◌∷◌ c cs ↦
        if bytes_eq (c ∷ cs) (codes "null") then some none else some (some ((codes "ID", c) ∷ []))
  ];
}

abbrev first_event : ChangeEvent ℕ
first_event = event_of (change orders 1) 1

abbrev only_orders : Tracker ℕ
only_orders = (orders, one_order) ∷ []

first_event-IsSaved : IsSaved key_codec first_event (record_of first_event (1 ∷ []) [])
unfolding new_change_record bytes_eq
first_event-IsSaved = record {
  made = refl;
  keys = λ text h. let same : text ≡ 1 ∷ [] = cc h in rw same (refl, refl);
  payload = λ text h. let same : text ≡ codes "null" = cc h in rw same (refl, refl);
}

first_event-events :
    (entity_set : Bytes)
    → events_of entity_set (first_event ∷ []) ≡ (history_of entity_set only_orders).events
unfolding find
first_event-events entity_set = elim (Bool-cases (bytes_eq orders entity_set)) [
  | inl h ↦ rw (h, find) refl
  | inr h ↦ rw (h, find) refl
]

first_event-Rises :
    (entity_set : Bytes)
    → Rises 0 (history_of entity_set only_orders).events (history_of entity_set only_orders).version
unfolding find
first_event-Rises entity_set = elim (Bool-cases (bytes_eq orders entity_set)) [
  | inl h ↦ rw (h, find) (rises refl at_last)
  | inr h ↦ rw (h, find) at_last
]

load_records-restores_example :
    (loaded : Tracker ℕ) × (load_records key_codec (record_of first_event (1 ∷ []) [] ∷ []) []
      ≡ ok loaded)
    × ((entity_set : Bytes) → history_of entity_set loaded ≡ history_of entity_set only_orders)
load_records-restores_example =
    load_records-restores key_codec only_orders (one_more first_event-IsSaved no_records)
      first_event-events first_event-Rises
