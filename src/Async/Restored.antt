-- ===== src/Async/Restored.antt =====
-- internal/async: the round trip of a response through its record.
use go_odata.Prelude.{
  Bool, true, false, [], ◌∷◌, Option, none, some, Bytes, ℤ, ◌≡◌, refl, ◌∙◌, Option-cases, inl, inr,
}
use go_odata.Async.Records.{
  Time, Header, or_no_header, StoredResponse, JobStatus, completed, failed, JobRecord, Outcome,
  Environment, seconds_to_duration, stored_response_from_record, clone_stored_response,
  stored_response_to_record, serialize_headers, deserialize_headers, response_of,
}
use go_odata.Async.Manager.{completion_of, save_completion}
use go_odata.Async.Monitor.{
  Answer, reply, status_only, write_stored_response, failed_reply, record_to_snapshot, is_empty,
}

-- What the monitor answers a GET with for the outcome of a handler.
abbrev pub replay : JobStatus → Outcome → Header → Answer
replay completed o w = reply (write_stored_response w o.response true)
replay failed o w = failed_reply w o.response o.error_text true
replay _ o w = status_only 204 w

pub write_cloned :
    (w : Header) (r : Option StoredResponse) (b : Bool)
    → write_stored_response w (clone_stored_response r) b ≡ write_stored_response w r b
unfolding clone_stored_response write_stored_response
write_cloned w none b = refl
write_cloned w (some r) b = refl

pub failed_cloned :
    (w : Header) (r : Option StoredResponse) (err : Bytes) (b : Bool)
    → failed_reply w (clone_stored_response r) err b ≡ failed_reply w r err b
unfolding clone_stored_response failed_reply write_stored_response
failed_cloned w none err b = refl
failed_cloned w (some r) err b = refl

module _ {S : Type 0} (env : Environment S) where
  -- encoding/json gives a header back: if it encodes it, then as a text that is not empty and that it
  -- decodes to the header. It does so for a header in valid UTF-8.
  abbrev pub GivesBack : Header → Type 0
  GivesBack h =
      (text : Bytes)
      → env.marshal_header h ≡ some text
      → (is_empty text ≡ false) × (env.unmarshal_header text ≡ some h)

  abbrev pub GivesBackHeader : Option StoredResponse → Type 0
  GivesBackHeader none = Unit
  GivesBackHeader (some r) = GivesBack (or_no_header r.header)

  -- A response whose header can be encoded.
  abbrev pub CanEncode : Option StoredResponse → Type 0
  CanEncode none = Unit
  CanEncode (some r) = (text : Bytes) × (serialize_headers env r.header ≡ some text)

  serialize_headers-or_no_header :
      (h : Option Header) → serialize_headers env (some (or_no_header h)) ≡ serialize_headers env h
  unfolding serialize_headers
  serialize_headers-or_no_header none = refl
  serialize_headers-or_no_header (some h) = refl

  deserialize_headers-serialize_headers :
      (h : Header) (text : Bytes)
      → GivesBack h
      → serialize_headers env (some h) ≡ some text
      → deserialize_headers env text ≡ some h
  unfolding serialize_headers deserialize_headers
  deserialize_headers-serialize_headers [] [] law e = refl
  deserialize_headers-serialize_headers [] (c ∷ t) law e = cc
  deserialize_headers-serialize_headers (x ∷ h) [] law e = cc ((law _ e).0)
  deserialize_headers-serialize_headers (x ∷ h) (c ∷ t) law e = (law _ e).1

  restored :
      (r : StoredResponse) (text : Bytes)
      → GivesBack (or_no_header r.header)
      → serialize_headers env r.header ≡ some text
      → response_of env (some r.status_code) text r.body ≡ some (clone_stored_response (some r))
  unfolding response_of clone_stored_response
  restored r text law e =
      rw
        (
          deserialize_headers-serialize_headers (or_no_header r.header) text law
              (serialize_headers-or_no_header r.header ∙ e),
          response_of,
        )
        refl

  -- Where JSON gives the header of a response back, the columns that a copy of the response is written
  -- to give that copy back.
  pub stored_response_from_record-to_record :
      (r : Option StoredResponse) (t : Option ℤ × Bytes × Bytes)
      → GivesBackHeader r
      → stored_response_to_record env (clone_stored_response r) ≡ some t
      → stored_response_from_record env t.0 t.1 t.2 ≡ some (clone_stored_response r)
  unfolding stored_response_to_record stored_response_from_record clone_stored_response
  stored_response_from_record-to_record none t law e =
      let same : t ≡ (none, [], []) = cc e in rw same refl
  stored_response_from_record-to_record (some r) t law e =
      elim (Option-cases (serialize_headers env r.header)) [
        | inl n ↦ absurd (cc (e, n, serialize_headers-or_no_header r.header))
        | inr (text, f) ↦
            let made : stored_response_to_record env (clone_stored_response (some r))
                ≡ some (some r.status_code, text, r.body) =
              rw (serialize_headers-or_no_header r.header ∙ f, stored_response_to_record) refl in
            let same : t ≡ (some r.status_code, text, r.body) = cc (e, made) in
            rw same (restored r text law f)
      ]

  encodable :
      (r : Option StoredResponse)
      → CanEncode r
      → (t : Option ℤ × Bytes × Bytes) × (stored_response_to_record env (clone_stored_response r)
          ≡ some t)
  unfolding stored_response_to_record clone_stored_response
  encodable none c = ((none, [], []), refl)
  encodable (some r) (text, f) = (
    (some r.status_code, text, r.body),
    rw (serialize_headers-or_no_header r.header ∙ f, stored_response_to_record) refl,
  )

  encoded_completion :
      (now : Time) (o : Outcome) (t : Option ℤ × Bytes × Bytes)
      → stored_response_to_record env (clone_stored_response o.response) ≡ some t
      → completion_of env now o ≡ record {
        outcome = o;
        at = now;
        response_status = t.0;
        response_headers = t.1;
        response_body = t.2;
      }
  unfolding completion_of
  encoded_completion now o t e = rw (e, completion_of) refl

  -- The record of a completion gives its outcome back.
  pub snapshot_of :
      (now : Time) (o : Outcome) (row : JobRecord)
      → GivesBackHeader o.response
      → CanEncode o.response
      → record_to_snapshot env (save_completion (completion_of env now o) row)
        ≡ some (record {
          status = o.status;
          retry_after = seconds_to_duration row.retry_after_seconds;
          response = clone_stored_response o.response;
          err = o.error_text;
          monitor_url = row.monitor_url;
        })
  unfolding record_to_snapshot completion_of
  snapshot_of now o row law c =
      let (t, e) = encodable o.response c in
      rw (encoded_completion now o t e)
        (rw (stored_response_from_record-to_record o.response t law e, record_to_snapshot) refl)
