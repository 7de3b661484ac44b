-- ===== src/TrackChanges.antt =====
-- internal/trackchanges/tracker.go: the history of the changes of each entity set, and the delta
-- tokens. A map with string keys is an association list, a nil map `none`.
pub mod Histories
pub mod Deltas
pub mod RollBack
pub mod Failures
pub mod Load
mod Examples
use go_odata.Prelude.{
  ℕ, ◌+◌, Bool, true, false, List, [], ◌∷◌, ◌++◌, Option, none, some, Result, ok, err, ◌>>=◌, Bytes,
  if◌then◌else◌, select, map, Int64, increment, decrement, less, find, put,
}

pub data ChangeType : Type 0 where
  added updated deleted : ChangeType

pub data TrackError : Type 0 where
  not_registered : Bytes → TrackError
  encode_failed invalid_encoding invalid_payload missing_entity_set persist_failed : TrackError

-- What the tokens take from encoding/json and encoding/base64.
pub record TokenCodec : Type 0 where
  pub marshal : Bytes → Int64 → Option Bytes
  pub unmarshal : Bytes → Option (Bytes × Int64)
  pub encode_base64 : Bytes → Bytes
  pub decode_base64 : Bytes → Option Bytes

unfoldable pub encode_token : TokenCodec → Bytes → Int64 → Result TrackError Bytes
encode_token codec entity_set version = elim (codec.marshal entity_set version) [
  | none ↦ err encode_failed
  | some payload ↦ ok (codec.encode_base64 payload)
]

unfoldable pub decode_token : TokenCodec → Bytes → Result TrackError (Bytes × Int64)
decode_token codec text = elim (codec.decode_base64 text) [
  | none ↦ err invalid_encoding
  | some payload ↦ elim (codec.unmarshal payload) [
    | none ↦ err invalid_payload
    | some token ↦ elim token.0 [ [] ↦ err missing_entity_set | ◌∷◌ _ _ ↦ ok token ]
  ]
]

unfoldable pub entity_set_from_token : TokenCodec → Bytes → Result TrackError Bytes
unfolding decode_token
entity_set_from_token codec token = decode_token codec token >>= λ (entity_set, _). ok entity_set

-- `Value` stands for the `interface{}` of a map.
module _ (Value : Type 0) where
  abbrev pub ValueMap : Type 0
  ValueMap = Option (List (Bytes × Value))

  pub record ChangeEvent : Type 0 where
    pub entity_set : Bytes
    pub key_values : ValueMap
    pub event_data : ValueMap
    pub type : ChangeType
    pub version : Int64

  pub record EntityHistory : Type 0 where
    pub version : Int64
    pub events : List ChangeEvent

  -- `Tracker.entities`
  abbrev pub Tracker : Type 0
  Tracker = List (Bytes × EntityHistory)

  -- The arguments of `RecordChange`.
  pub record Change : Type 0 where
    pub entity_set : Bytes
    pub key_values : ValueMap
    pub event_data : ValueMap
    pub type : ChangeType

module _ {Value : Type 0} where
  abbrev pub copy_map : ValueMap Value → ValueMap Value
  copy_map none = none
  copy_map (some source) = some source

  -- The copy that does not share its maps with the tracker.
  abbrev pub copy_event : ChangeEvent Value → ChangeEvent Value
  copy_event e = record {
    entity_set = e.entity_set;
    key_values = copy_map e.key_values;
    event_data = copy_map e.event_data;
    type = e.type;
    version = e.version;
  }

  abbrev pub no_history : EntityHistory Value
  no_history = record { version = 0; events = [] }

  unfoldable pub register_entity : Bytes → Tracker Value → Tracker Value
  unfolding find put
  register_entity entity_set t = elim (find entity_set t) [
    | none ↦ put entity_set no_history t
    | some _ ↦ t
  ]

  abbrev pub or_no_history : Option (EntityHistory Value) → EntityHistory Value
  or_no_history none = no_history
  or_no_history (some h) = h

  abbrev pub history_of : Bytes → Tracker Value → EntityHistory Value
  history_of entity_set t = or_no_history (find entity_set t)

  abbrev pub event_of : Change Value → Int64 → ChangeEvent Value
  event_of c version = record {
    entity_set = c.entity_set;
    key_values = copy_map c.key_values;
    event_data = copy_map c.event_data;
    type = c.type;
    version = version;
  }

  -- The history with one more event, and without its last.
  abbrev pub push : Change Value → EntityHistory Value → EntityHistory Value
  push c h = record {
    version = increment h.version;
    events = h.events ++ event_of c (increment h.version) ∷ [];
  }

  unfoldable pub drop_last : List (ChangeEvent Value) → List (ChangeEvent Value)
  drop_last [] = []
  drop_last (e ∷ []) = []
  drop_last (e ∷ f ∷ events) = e ∷ drop_last (f ∷ events)

  abbrev pub pop : EntityHistory Value → EntityHistory Value
  unfolding drop_last
  pop h = record { version = decrement h.version; events = drop_last h.events }

  -- The first section of `RecordChange` under the lock: the event that it made is the last.
  unfoldable pub begin_change : Change Value → Tracker Value → Tracker Value
  unfolding find put
  begin_change c t = put c.entity_set (push c (history_of c.entity_set t)) t

  -- The second section under the lock, after the event could not be saved. The pointer to the
  -- history is the one in the map still: no operation replaces it.
  unfoldable pub roll_back : Bytes → Tracker Value → Tracker Value
  unfolding find put drop_last
  roll_back entity_set t = put entity_set (pop (history_of entity_set t)) t

  -- `persist` is `persistEvent` where there is a database: whether the event was saved.
  unfoldable pub record_change :
      Option (ChangeEvent Value → Bool)
      → Change Value
      → Tracker Value
      → Result TrackError Int64 × Tracker Value
  unfolding begin_change roll_back
  record_change persist c t =
      let version = increment (history_of c.entity_set t).version in
      let begun = begin_change c t in
      elim persist [
        | none ↦ (ok version, begun)
        | some saves ↦
            if saves (event_of c version)
            then (ok version, begun)
            else (err persist_failed, roll_back c.entity_set begun)
      ]

  unfoldable pub current_token : TokenCodec → Bytes → Tracker Value → Result TrackError Bytes
  unfolding encode_token find
  current_token codec entity_set t = elim (find entity_set t) [
    | none ↦ err (not_registered entity_set)
    | some h ↦ encode_token codec entity_set h.version
  ]

  -- The part of `ChangesSince` under the lock.
  unfoldable pub changes_behind :
      TokenCodec
      → Tracker Value
      → Bytes × Int64
      → Result TrackError (List (ChangeEvent Value) × Bytes)
  unfolding encode_token find
  changes_behind codec t (entity_set, version) = elim (find entity_set t) [
    | none ↦ err (not_registered entity_set)
    | some h ↦ encode_token codec entity_set h.version >>= λ new_token.
        ok (map copy_event (select (λ e. less version e.version) h.events), new_token)
  ]

  unfoldable pub changes_since :
      TokenCodec → Bytes → Tracker Value → Result TrackError (List (ChangeEvent Value) × Bytes)
  unfolding decode_token changes_behind
  changes_since codec token t = decode_token codec token >>= changes_behind codec t
