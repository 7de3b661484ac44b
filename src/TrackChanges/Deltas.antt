-- ===== src/TrackChanges/Deltas.antt =====
-- Delta tokens: what `ChangesSince` returns for a token of `CurrentToken`, after more changes.
use go_odata.Prelude.{
  suc, ◌+◌, ◌^◌, ◌≤◌, ◌<◌, ◌≡◌, refl, ap, sym, ◌∙◌, true, false, List, [], ◌∷◌, ◌++◌, append_assoc,
  append-nil, map, Option, none, some, inl, inr, arith, ok, ◌>>=◌, Bytes, bytes_eq, Bool-cases,
  length, select, select-append, All, Int64, increment, less, find,
}
use go_odata.TrackChanges.{
  TokenCodec, EntityHistory, ChangeEvent, Change, Tracker, copy_map, copy_event, event_of,
  encode_token, decode_token, record_change, begin_change, current_token, changes_behind,
  changes_since,
}
use go_odata.TrackChanges.Histories.{begin_change-same, begin_change-other}

-- A token that `encode_token` made is decoded again.
abbrev pub RoundTrips : TokenCodec → Bytes → Int64 → Bytes → Type 0
RoundTrips codec entity_set version token =
    (encode_token codec entity_set version ≡ ok token)
    × (decode_token codec token ≡ ok (entity_set, version))

module _ {Value : Type 0} where
  -- The changes, recorded one after the other without a database.
  abbrev pub record_all : List (Change Value) → Tracker Value → Tracker Value
  unfolding record_change
  record_all [] t = t
  record_all (c ∷ cs) t = record_all cs (record_change none c t).1

  abbrev pub changes_of : Bytes → List (Change Value) → List (Change Value)
  changes_of entity_set = select (λ c. bytes_eq c.entity_set entity_set)

  -- The events of the changes, with the versions from the one behind `version` on.
  abbrev pub numbered : Int64 → List (Change Value) → List (ChangeEvent Value)
  numbered version [] = []
  numbered version (c ∷ cs) = event_of c (version + 1) ∷ numbered (version + 1) cs

  abbrev history_at : Int64 → List (ChangeEvent Value) → EntityHistory Value
  history_at version events = record { version = version; events = events }

  length-changes_of :
      (entity_set : Bytes) (cs : List (Change Value))
      → length (changes_of entity_set cs) ≤ length cs
  length-changes_of entity_set [] = omega arith
  length-changes_of entity_set (c ∷ cs) = ground (arith, length-changes_of entity_set cs)

  record_all-history :
      (entity_set : Bytes) (cs : List (Change Value)) (t : Tracker Value) (v : Int64)
      (events : List (ChangeEvent Value))
      → find entity_set t ≡ some (history_at v events)
      → v + length cs < 2 ^ 63
      → find entity_set (record_all cs t)
        ≡ some (
            history_at
              (v + length (changes_of entity_set cs))
              (events ++ numbered v (changes_of entity_set cs)))
  unfolding record_change
  record_all-history entity_set [] t v events h b =
      let none_more : v + 0 ≡ v = omega arith in rw (append-nil events, none_more) h
  record_all-history entity_set (c ∷ cs) t v events h b =
      let plus : increment v ≡ v + 1 = omega (arith, b) in
      elim (Bool-cases (bytes_eq c.entity_set entity_set)) [
        | inl same ↦
            let mine = changes_of entity_set cs in
            let begun = begin_change-same entity_set c t same in
            let later =
              record_all-history entity_set cs (begin_change c t) (v + 1)
                (events ++ event_of c (v + 1) ∷ []) (rw (h, plus) at begun) (omega (arith, b)) in
            let sum : v + 1 + length mine ≡ v + suc (length mine) = omega arith in
            rw
              (
                same,
                sym sum,
                sym (append_assoc events (event_of c (v + 1) ∷ []) (numbered (v + 1) mine)),
              )
              later
        | inr other ↦ rw other (
            record_all-history entity_set cs (begin_change c t) v events
              (begin_change-other entity_set c t other ∙ h) (omega (arith, b)))
      ]

  -- Every event of the history has at most its version, and the versions are not negative.
  pub record IsOrdered (h : EntityHistory Value) : Type 0 where
    pub fits : h.version < 2 ^ 63
    pub bounded : All (λ e. e.version ≤ h.version) h.events

  select-none :
      (v : Int64) (events : List (ChangeEvent Value))
      → v < 2 ^ 63
      → All (λ e. e.version ≤ v) events
      → select (λ e. less v e.version) events ≡ []
  select-none v [] b h = refl
  select-none v (e ∷ events) b (h, k) =
      let older : less v e.version ≡ false = ground (arith, h, b) in
      rw older (select-none v events b k)

  select-numbered :
      (v w : Int64) (cs : List (Change Value))
      → v ≤ w
      → w + length cs < 2 ^ 63
      → select (λ e. less v e.version) (numbered w cs) ≡ numbered w cs
  select-numbered v w [] h b = refl
  select-numbered v w (c ∷ cs) h b =
      let newer : less v (w + 1) ≡ true = ground (arith, h, b) in
      rw newer
        (ap (◌∷◌ (event_of c (w + 1))) (select-numbered v (w + 1) cs (omega arith) (omega arith)))

  copy_map-id : (m : Option (List (Bytes × Value))) → copy_map m ≡ m
  copy_map-id none = refl
  copy_map-id (some m) = refl

  copies : (events : List (ChangeEvent Value)) → map copy_event events ≡ events
  copies [] = refl
  copies (e ∷ events) =
      rw (copy_map-id e.key_values, copy_map-id e.event_data) (ap (◌∷◌ e) (copies events))

  current_token-found :
      (codec : TokenCodec) (entity_set : Bytes) (t : Tracker Value) (h : EntityHistory Value)
      → find entity_set t ≡ some h
      → current_token codec entity_set t ≡ encode_token codec entity_set h.version
  unfolding current_token
  current_token-found codec entity_set t h f = rw (f, current_token) refl

  changes_behind-found :
      (codec : TokenCodec) (entity_set : Bytes) (v : Int64) (t : Tracker Value)
      (h : EntityHistory Value)
      → find entity_set t ≡ some h
      → changes_behind codec t (entity_set, v) ≡ (
          encode_token codec entity_set h.version >>= λ new_token.
          ok (map copy_event (select (λ e. less v e.version) h.events), new_token))
  unfolding changes_behind
  changes_behind-found codec entity_set v t h f = rw (f, changes_behind) refl

  -- An entity set is known to the tracker with the history `h`, whose versions do not overflow with
  -- `cs`. A token of `CurrentToken` then makes `ChangesSince` return, once `cs` have been recorded,
  -- the changes in `cs` of that entity set and no other, in their order and with consecutive
  -- versions, and as the new token the one that `CurrentToken` then gives.
  pub changes_since-record_all :
      (codec : TokenCodec) (entity_set token : Bytes) (t : Tracker Value) (h : EntityHistory Value)
      (cs : List (Change Value))
      → find entity_set t ≡ some h
      → IsOrdered h
      → h.version + length cs < 2 ^ 63
      → RoundTrips codec entity_set h.version token
      → (current_token codec entity_set t ≡ ok token)
        × (changes_since codec token (record_all cs t) ≡ (
            current_token codec entity_set (record_all cs t) >>= λ new_token.
            ok (numbered h.version (changes_of entity_set cs), new_token)))
  unfolding changes_since
  changes_since-record_all codec entity_set token t h cs f o b (r, d) =
      let mine = changes_of entity_set cs in
      let after = record_all-history entity_set cs t h.version h.events f b in
      let since : select (λ e. less h.version e.version) (h.events ++ numbered h.version mine)
          ≡ numbered h.version mine =
        select-append (λ e. less h.version e.version) h.events (numbered h.version mine)
        ∙ rw (select-none h.version h.events o.fits o.bounded) (
            select-numbered h.version h.version mine (omega arith)
              (omega (arith, b, length-changes_of entity_set cs))) in
      (
        current_token-found codec entity_set t h f ∙ r,
        rw (d, current_token-found codec entity_set (record_all cs t) _ after)
            (changes_behind-found codec entity_set h.version (record_all cs t) _ after
              ∙ rw (since, copies (numbered h.version mine))),
      )
