-- ===== src/Async/Records.antt =====
-- internal/async: the types of manager.go, job_record.go and serialization.go. A pointer that may be
-- nil is an `Option`, a time or a positive duration a number of nanoseconds. The context of a job is
-- the field `canceled`, and the place of its goroutine the field `phase`.
use go_odata.Prelude.{
  ℕ, ◌*◌, ◌-◌, ◌%◌, ◌^◌, ◌+◌, Bool, true, false, List, [], ◌∷◌, Option, none, some, Bytes, ℤ, pos,
  negsuc, of_int64,
}

abbrev pub Time : Type 0
Time = ℕ

pub data JobStatus : Type 0 where
  pending running completed failed canceled : JobStatus

abbrev pub is_terminal : JobStatus → Bool
is_terminal completed = true
is_terminal failed = true
is_terminal canceled = true
is_terminal _ = false

-- A `http.Header`, by its entries.
abbrev pub Header : Type 0
Header = List (Bytes × List Bytes)

abbrev pub or_no_header : Option Header → Header
or_no_header none = []
or_no_header (some h) = h

pub record StoredResponse : Type 0 where
  pub status_code : ℤ
  pub header : Option Header
  pub body : Bytes

-- What `run` hands to `finish`.
pub record Outcome : Type 0 where
  pub status : JobStatus
  pub response : Option StoredResponse
  pub error_text : Bytes

-- What `finish` writes to the record.
pub record Completion : Type 0 where
  pub outcome : Outcome
  pub at : Time
  pub response_status : Option ℤ
  pub response_headers : Bytes
  pub response_body : Bytes

-- The place of a job's goroutine: before `go m.run`, in front of `updateStatus`, between its two
-- halves, in the handler, in front of `finish`, between its two halves, and behind `close(job.done)`.
pub data Phase : Type 0 where
  created waiting : Phase
  marked : Time → Phase
  handling : Phase
  returned : Outcome → Phase
  unsaved : Completion → Phase
  done : Phase

pub record Job : Type 0 where
  pub id : Bytes
  pub status : JobStatus
  pub created_at : Time
  pub updated_at : Time
  pub completed_at : Option Time
  pub response : Option StoredResponse
  pub error : Bytes
  pub monitor_url : Bytes
  pub retry_after : Option ℤ
  pub canceled : Bool
  pub phase : Phase

pub record JobRecord : Type 0 where
  pub id : Bytes
  pub status : JobStatus
  pub created_at : Time
  pub updated_at : Time
  pub completed_at : Option Time
  pub monitor_url : Bytes
  pub retry_after_seconds : Option ℤ
  pub response_status : Option ℤ
  pub response_headers : Bytes
  pub response_body : Bytes
  pub error_text : Bytes

pub data JobOption : Type 0 where
  with_monitor_url : Bytes → JobOption
  with_retry_after : ℤ → JobOption

-- What `db.First` answers: a row, ErrRecordNotFound, or another error.
pub data Lookup : Type 0 where
  found : JobRecord → Lookup
  missing broken : Lookup

-- What the package takes from gorm, encoding/json and the float64 arithmetic of
-- `math.Ceil(d.Seconds())`. A write gives the database behind it, or `none` for an error, which
-- leaves the database as it was. `rows` is what the table holds.
pub record Environment (S : Type 0) : Type 0 where
  pub rows : S → Bytes → Option JobRecord
  pub create : S → JobRecord → Option S
  pub update : S → Bytes → (JobRecord → JobRecord) → Option S
  pub first : S → Bytes → Lookup
  pub delete_expired : S → Time → ℕ → Option S
  pub marshal_header : Header → Option Bytes
  pub unmarshal_header : Bytes → Option Header
  pub ceil_seconds : ℤ → ℤ

-- `time.Duration(s) * time.Second`
unfoldable pub seconds_to_duration : Option ℤ → Option ℤ
seconds_to_duration none = none
seconds_to_duration (some (pos s)) = some (of_int64 (s * 1000000000 % 2 ^ 64))
seconds_to_duration (some (negsuc s)) =
    some (of_int64 ((2 ^ 64 - (s + 1) * 1000000000 % 2 ^ 64) % 2 ^ 64))

-- A copy, with an empty header in the place of none.
unfoldable pub clone_stored_response : Option StoredResponse → Option StoredResponse
clone_stored_response none = none
clone_stored_response (some r) =
    some
      (record { status_code = r.status_code; header = some (or_no_header r.header); body = r.body })

module _ {S : Type 0} (env : Environment S) where
  unfoldable pub duration_to_seconds : Option ℤ → Option ℤ
  duration_to_seconds none = none
  duration_to_seconds (some d) =
      some (elim (env.ceil_seconds d) [ negsuc s ↦ pos 0 | pos s ↦ pos s ])

  -- No text for an empty header; `none` is an error.
  unfoldable pub serialize_headers : Option Header → Option Bytes
  serialize_headers none = some []
  serialize_headers (some []) = some []
  serialize_headers (some (e ∷ h)) = env.marshal_header (e ∷ h)

  unfoldable pub deserialize_headers : Bytes → Option Header
  deserialize_headers [] = some []
  deserialize_headers (c ∷ text) = env.unmarshal_header (c ∷ text)

  -- Status, headers and body of the record; `none` is an error.
  unfoldable pub stored_response_to_record :
      Option StoredResponse → Option (Option ℤ × Bytes × Bytes)
  unfolding serialize_headers
  stored_response_to_record none = some (none, [], [])
  stored_response_to_record (some r) = elim (serialize_headers r.header) [
    | none ↦ none
    | some headers ↦ some (some r.status_code, headers, r.body)
  ]

  unfoldable pub response_of : Option ℤ → Bytes → Bytes → Option (Option StoredResponse)
  unfolding deserialize_headers
  response_of status headers body = elim (deserialize_headers headers) [
    | none ↦ none
    | some h ↦ some (
        some (record {
          status_code = elim status [ none ↦ pos 0 | some s ↦ s ];
          header = some h;
          body = body;
        }))
  ]

  unfoldable pub stored_response_from_record :
      Option ℤ → Bytes → Bytes → Option (Option StoredResponse)
  unfolding response_of
  stored_response_from_record none [] [] = some none
  stored_response_from_record status headers body = response_of status headers body
