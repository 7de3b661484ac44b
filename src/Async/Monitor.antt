-- ===== src/Async/Monitor.antt =====
-- internal/async/manager.go: WriteInitialResponse and ServeMonitor. A reply is what the response
-- writer has got; the header that the handler finds in it is an argument, the log is not modelled.
use go_odata.Prelude.{
  ℕ, ◌==◌, Bool, true, false, not, ◌&&◌, [], ◌∷◌, ◌++◌, Option, none, some, Bytes, codes, bytes_eq,
  trim_bytes, ℤ, pos, negsuc, int_eq, itoa, if◌then◌else◌, reverse, remove,
}
use go_odata.Async.Records.{
  Header, or_no_header, StoredResponse, JobStatus, pending, running, completed, failed, canceled,
  JobRecord, Job, Environment, Lookup, found, missing, broken, seconds_to_duration,
  stored_response_from_record,
}
use go_odata.Async.Manager.{Manager, cancel_job}
use go_odata.Async.Headers.{get_header, set_header, copy_header}

pub record Reply : Type 0 where
  pub status : ℤ
  pub header : Header
  pub body : Bytes

-- `http.NotFound` writes its own text.
pub data Answer : Type 0 where
  not_found : Answer
  reply : Reply → Answer

abbrev pub status_only : ℕ → Header → Answer
status_only s h = reply (record { status = pos s; header = h; body = [] })

abbrev pub is_empty : Bytes → Bool
is_empty [] = true
is_empty (_ ∷ _) = false

unfoldable pub should_include_async_result : Header → Bool
unfolding get_header trim_bytes bytes_eq
should_include_async_result h =
    let version = trim_bytes (get_header (codes "OData-Version") h) in
    if is_empty version then true else not (bytes_eq version (codes "4.0"))

-- The header with the status in AsyncResult, where it is wanted.
unfoldable pub with_async_result : ℤ → Header → Header
unfolding should_include_async_result get_header set_header
with_async_result status h =
    if should_include_async_result h && is_empty (get_header (codes "AsyncResult") h)
    then set_header (codes "AsyncResult") (itoa status) h
    else h

-- The status that stands for 0.
abbrev pub effective_status : ℤ → ℤ
effective_status s = if int_eq s (pos 0) then pos 200 else s

unfoldable pub write_stored_response : Header → Option StoredResponse → Bool → Reply
unfolding with_async_result copy_header set_header
write_stored_response w none include_body = record {
  status = pos 200;
  header = set_header (codes "AsyncResult") (codes "200") w;
  body = [];
}
write_stored_response w (some resp) include_body = record {
  status = effective_status resp.status_code;
  header =
      with_async_result (effective_status resp.status_code)
        (copy_header w (or_no_header resp.header));
  body = if include_body then resp.body else [];
}

pub record JobSnapshot : Type 0 where
  pub status : JobStatus
  pub retry_after : Option ℤ
  pub response : Option StoredResponse
  pub err : Bytes
  pub monitor_url : Bytes

-- The bytes behind the last slash.
unfoldable pub last_element : Bytes → Bytes → Bytes
last_element seen [] = seen
last_element seen (c ∷ cs) = last_element (if c == b'/' then [] else seen ++ c ∷ []) cs

-- The text without the slashes at its end, which stand first in its reverse.
unfoldable pub strip_slashes : Bytes → Bytes
strip_slashes [] = []
strip_slashes (c ∷ cs) = if c == b'/' then strip_slashes cs else c ∷ cs

-- `path.Base`
unfoldable pub path_base : Bytes → Bytes
unfolding last_element strip_slashes
path_base [] = codes "."
path_base (c ∷ cs) =
    let base = last_element [] (reverse (strip_slashes (reverse (c ∷ cs)))) in
    if is_empty base then codes "/" else base

-- `strings.TrimSuffix(p, "/")`, on the reverse.
abbrev trim_slash : Bytes → Bytes
trim_slash [] = []
trim_slash (c ∷ cs) = if c == b'/' then cs else c ∷ cs

unfoldable pub extract_job_id : Bytes → Bytes
unfolding path_base bytes_eq
extract_job_id path =
    if is_empty path
    then []
    else if bytes_eq path (codes "/")
    then []
    else path_base (reverse (trim_slash (reverse path)))

unfoldable pub failed_reply : Header → Option StoredResponse → Bytes → Bool → Answer
unfolding write_stored_response
failed_reply w (some resp) err include_body =
    reply (write_stored_response w (some resp) include_body)
failed_reply w none err include_body =
    reply (record { status = pos 500; header = w; body = if include_body then err else [] })

pub data Method : Type 0 where
  get head delete other : Method

abbrev has_result : JobStatus → Bool
has_result completed = true
has_result failed = true
has_result _ = false

module _ {S : Type 0} (env : Environment S) where
  unfoldable pub format_retry_after : ℤ → Bytes
  format_retry_after (negsuc d) = codes "0"
  format_retry_after (pos d) = if d == 0 then codes "0" else itoa (env.ceil_seconds (pos d))

  abbrev with_retry : Option ℤ → Header → Header
  unfolding format_retry_after set_header
  with_retry none h = h
  with_retry (some d) h = set_header (codes "Retry-After") (format_retry_after d) h

  unfoldable pub accepted : Bytes → Bytes → Option ℤ → Header → Answer
  unfolding set_header with_retry
  accepted id url retry w =
      let location = if is_empty url then id else url in
      status_only 202 (
        with_retry retry (
          set_header (codes "Preference-Applied") (codes "respond-async")
            (set_header (codes "Location") location w)))

  unfoldable pub write_initial_response : Option Job → Header → Answer
  unfolding accepted
  write_initial_response none w = status_only 202 w
  write_initial_response (some j) w = accepted j.id j.monitor_url j.retry_after w

  unfoldable pub record_to_snapshot : JobRecord → Option JobSnapshot
  unfolding stored_response_from_record seconds_to_duration
  record_to_snapshot r =
      elim (stored_response_from_record env r.response_status r.response_headers r.response_body) [
        | none ↦ none
        | some resp ↦ some (record {
          status = r.status;
          retry_after = seconds_to_duration r.retry_after_seconds;
          response = resp;
          err = r.error_text;
          monitor_url = r.monitor_url;
        })
      ]

  -- The switch on the status of the record, for GET and HEAD.
  unfoldable pub answer_status : Bytes → JobSnapshot → JobStatus → Bool → Header → Answer
  unfolding accepted write_stored_response failed_reply
  answer_status id s pending include_body w = accepted id s.monitor_url s.retry_after w
  answer_status id s running include_body w = accepted id s.monitor_url s.retry_after w
  answer_status id s completed include_body w =
      reply (write_stored_response w s.response include_body)
  answer_status id s failed include_body w = failed_reply w s.response s.err include_body
  answer_status id s canceled include_body w = status_only 204 w

  -- DELETE: cancellation, or the removal of a job that has ended from the map.
  unfoldable pub delete_monitor : Bytes → JobSnapshot → Header → Manager S → Manager S × Answer
  unfolding cancel_job
  delete_monitor id s w m =
      let (m', canceling) = cancel_job id m in
      if canceling
      then (m', status_only 204 w)
      else if has_result s.status
      then (record m { jobs = remove id m.jobs }, status_only 204 w)
      else (m, status_only 204 w)

  unfoldable pub serve_snapshot :
      Method → Bytes → JobSnapshot → Header → Manager S → Manager S × Answer
  unfolding delete_monitor answer_status set_header
  serve_snapshot delete id s w m = delete_monitor id s w m
  serve_snapshot get id s w m = (m, answer_status id s s.status true w)
  serve_snapshot head id s w m = (m, answer_status id s s.status false w)
  serve_snapshot other id s w m =
      (m, status_only 405 (set_header (codes "Allow") (codes "GET, HEAD, DELETE") w))

  unfoldable pub serve_record : Method → Bytes → Lookup → Header → Manager S → Manager S × Answer
  unfolding record_to_snapshot serve_snapshot
  serve_record method id missing w m = (m, not_found)
  serve_record method id broken w m = (m, status_only 500 w)
  serve_record method id (found r) w m = elim (record_to_snapshot r) [
    | none ↦ (m, status_only 500 w)
    | some s ↦ serve_snapshot method id s w m
  ]

  unfoldable pub serve_monitor : Method → Bytes → Header → Manager S → Manager S × Answer
  unfolding serve_record
  serve_monitor method path w m =
      let id = extract_job_id path in
      if is_empty id then (m, not_found) else serve_record method id (env.first m.db id) w m
