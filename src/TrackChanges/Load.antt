-- ===== src/TrackChanges/Load.antt =====
-- tracker.go: `loadFromDatabase` and the records of the change log.
pub mod Restores
use go_odata.Prelude.{
  ℕ, ◌+◌, ◌^◌, ◌≤◌, ◌<◌, ◌≡◌, refl, sym, ap, ◌∙◌, Bool, true, false, List, [], ◌∷◌, ◌++◌,
  append_assoc, append-nil, Option, none, some, inl, inr, arith, Result, ok, err, out_of_fuel,
  ◌>>=◌, Bytes, bytes_eq, bytes_eq_iff, if◌then◌else◌, Bool-cases, select, All, Int64, less, find,
  put, find-put_any,
}
use go_odata.TrackChanges.{
  ChangeType, ValueMap, ChangeEvent, EntityHistory, Tracker, no_history, or_no_history, history_of,
}

-- What the records take from encoding/json: a map as text, and the map of a text.
pub record MapCodec (Value : Type 0) : Type 0 where
  pub marshal_map : ValueMap Value → Option Bytes
  pub unmarshal_map : Bytes → Option (ValueMap Value)

pub record ChangeRecord : Type 0 where
  pub entity_set : Bytes
  pub version : Int64
  pub change_type : ChangeType
  pub key_values : Bytes
  pub data_json : Bytes

pub data RecordError : Type 0 where
  keys_not_encoded data_not_encoded keys_not_decoded data_not_decoded : RecordError

module _ {Value : Type 0} where
  abbrev pub record_of : ChangeEvent Value → Bytes → Bytes → ChangeRecord
  record_of e keys payload = record {
    entity_set = e.entity_set;
    version = e.version;
    change_type = e.type;
    key_values = keys;
    data_json = payload;
  }

  -- The history with the event of a record.
  abbrev pub add_event : ChangeEvent Value → EntityHistory Value → EntityHistory Value
  add_event e h = record {
    version = if less h.version e.version then e.version else h.version;
    events = h.events ++ e ∷ [];
  }

module _ {Value : Type 0} (codec : MapCodec Value) where
  -- The text of the data, which is empty where there is none.
  unfoldable pub encode_data : ValueMap Value → Result RecordError Bytes
  encode_data none = ok []
  encode_data (some m) = elim (codec.marshal_map (some m)) [
    | none ↦ err data_not_encoded
    | some text ↦ ok text
  ]

  unfoldable pub new_change_record : ChangeEvent Value → Result RecordError ChangeRecord
  unfolding encode_data
  new_change_record e = elim (codec.marshal_map e.key_values) [
    | none ↦ err keys_not_encoded
    | some keys ↦ encode_data e.event_data >>= λ payload. ok (record_of e keys payload)
  ]

  unfoldable pub decode_data : Bytes → Option (ValueMap Value)
  decode_data [] = some none
  decode_data (c ∷ cs) = codec.unmarshal_map (c ∷ cs)

  unfoldable pub decode_event : ChangeRecord → Result RecordError (ChangeEvent Value)
  unfolding decode_data
  decode_event r = elim (codec.unmarshal_map r.key_values) [
    | none ↦ err keys_not_decoded
    | some keys ↦ elim (decode_data r.data_json) [
      | none ↦ err data_not_decoded
      | some payload ↦ ok (record {
        entity_set = r.entity_set;
        key_values = keys;
        event_data = payload;
        type = r.change_type;
        version = r.version;
      })
    ]
  ]

  -- The loop of `loadFromDatabase` over the records.
  unfoldable pub load_records :
      List ChangeRecord → Tracker Value → Result RecordError (Tracker Value)
  unfolding decode_event find put
  load_records [] t = ok t
  load_records (r ∷ records) t = decode_event r >>= λ e.
      load_records records (put r.entity_set (add_event e (history_of r.entity_set t)) t)
