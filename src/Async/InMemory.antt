-- ===== src/Async/InMemory.antt =====
-- internal/async: a table in memory and a text of headers, as the environment of the examples.
use go_odata.Prelude.{
  ◌+◌, ◌/◌, false, [], ◌∷◌, ◌++◌, Option, none, some, Bytes, ℤ, pos, negsuc, ◌≡◌, ◌≢◌, refl, ap,
  sym, bytes_eq, if◌then◌else◌, length, take, drop, take-length-append,
}
use go_odata.Async.Records.{Header, JobRecord, Environment, Lookup, found, missing, broken}
use go_odata.Async.Events.{IsDatabase, change_row, keep_row}
use go_odata.Async.Monitor.{is_empty}
use go_odata.Async.Restored.{GivesBack}

abbrev pub Table : Type 0
Table = Bytes → Option JobRecord

abbrev pub insert_row : Table → JobRecord → Option JobRecord → Option Table
insert_row t r none = some (λ id. if bytes_eq r.id id then some r else t id)
insert_row t r (some old) = none

abbrev pub lookup_row : Option JobRecord → Lookup
lookup_row none = missing
lookup_row (some r) = found r

-- One header with one value, by the length of its key.
abbrev pub encode_one : Header → Option Bytes
encode_one ((k, v ∷ []) ∷ []) = some (length k ∷ k ++ v)
encode_one _ = none

abbrev pub decode_one : Bytes → Option Header
decode_one [] = none
decode_one (n ∷ rest) = some ((take n rest, drop n rest ∷ []) ∷ [])

abbrev pub ceil_exact : ℤ → ℤ
ceil_exact (pos n) = pos ((n + 999999999) / 1000000000)
ceil_exact (negsuc n) = pos 0

abbrev pub table_environment : Environment Table
table_environment = record {
  rows = λ t id. t id;
  create = λ t r. insert_row t r (t r.id);
  update = λ t id f. some (λ k. if bytes_eq id k then change_row f (t k) else t k);
  first = λ t id. lookup_row (t id);
  delete_expired = λ t now ttl. some (λ k. keep_row now ttl (t k));
  marshal_header = encode_one;
  unmarshal_header = decode_one;
  ceil_seconds = ceil_exact;
}

abbrev table_at : Option Table → Bytes → Option JobRecord
table_at none id = none
table_at (some t) id = t id

lookup_row-found : (o : Option JobRecord) {r : JobRecord} → lookup_row o ≡ found r → o ≡ some r
lookup_row-found none h = cc
lookup_row-found (some r) h = cc

pub lookup_row-readable : (o : Option JobRecord) → lookup_row o ≢ broken
lookup_row-readable none = cc
lookup_row-readable (some r) = cc

lookup_row-missing : (o : Option JobRecord) → lookup_row o ≡ missing → o ≡ none
lookup_row-missing none h = refl
lookup_row-missing (some r) h = cc

insert_row-fresh :
    (t t' : Table) (r : JobRecord) (o : Option JobRecord) → insert_row t r o ≡ some t' → o ≡ none
insert_row-fresh t t' r none h = refl
insert_row-fresh t t' r (some old) h = cc

insert_row-rows :
    (t t' : Table) (r : JobRecord) (o : Option JobRecord) (id : Bytes)
    → insert_row t r o ≡ some t'
    → t' id ≡ (if bytes_eq r.id id then some r else t id)
insert_row-rows t t' r none id h = ap (λ (o : Option Table). table_at o id) (sym h)
insert_row-rows t t' r (some old) id h = cc

pub table-IsDatabase : IsDatabase table_environment
table-IsDatabase = record {
  create_new = λ s r {s'} h. insert_row-fresh s s' r (s r.id) h;
  rows-create = λ s r id {s'} h. insert_row-rows s s' r (s r.id) id h;
  rows-update = λ s id f other h. ap (λ (o : Option Table). table_at o other) (sym h);
  rows-delete_expired = λ s now ttl id h. ap (λ (o : Option Table). table_at o id) (sym h);
  first-found = λ s id h. lookup_row-found (s id) h;
  first-missing = λ s id h. lookup_row-missing (s id) h;
}

drop-length-append : (xs ys : Bytes) → drop (length xs) (xs ++ ys) ≡ ys
drop-length-append [] ys = refl
drop-length-append (x ∷ xs) ys = drop-length-append xs ys

decode_one-encode_one :
    (h : Header) {text : Bytes}
    → encode_one h ≡ some text
    → (is_empty text ≡ false) × (decode_one text ≡ some h)
decode_one-encode_one ((k, v ∷ []) ∷ []) {text} e =
    let this : text ≡ length k ∷ k ++ v = cc e in
    rw this (refl, rw (take-length-append k v, drop-length-append k v) refl)
decode_one-encode_one [] e = absurd (cc e)
decode_one-encode_one ((k, []) ∷ []) e = absurd (cc e)
decode_one-encode_one ((k, v ∷ w ∷ vs) ∷ []) e = absurd (cc e)
decode_one-encode_one ((k, []) ∷ x ∷ h) e = absurd (cc e)
decode_one-encode_one ((k, v ∷ []) ∷ x ∷ h) e = absurd (cc e)
decode_one-encode_one ((k, v ∷ w ∷ vs) ∷ x ∷ h) e = absurd (cc e)

pub table-GivesBack : (h : Header) → GivesBack table_environment h
table-GivesBack h text e = decode_one-encode_one h e
