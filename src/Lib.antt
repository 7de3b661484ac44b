-- ===== src/Lib.antt =====
-- A model of go-odata, a library that serves Go structs over OData v4, in a cubical type theory.
--
-- Text is a list of bytes; a Go error is a value of a `Result`, whose third case `out_of_fuel`
-- stands for a run that the model's loops did not finish. Each file names the source files it is
-- about in its first lines; functions keep the source's names, in snake case.
--
-- Filter: the $filter query option (internal/query).
-- * Filter.Token, Filter.Chars, Filter.Cursor, Filter.Literals, Filter.Keywords and
--   Filter.Tokenizer are tokenizer.go: the state is the input from the current byte on with its
--   position and the mode; each reader returns its text and the state behind it. `rune(input[pos])`
--   is one byte, so package unicode is only asked about code points below 256.
-- * Filter.Ast is ast.go, Filter.Values the literals of ast_parser_arithmetic.go and
--   binary_literal.go, Filter.Parser the recursive descent parser of ast_parser_core.go,
--   ast_parser_boolean.go, ast_parser_arithmetic.go, ast_parser_lambda.go and
--   ast_parser_functions.go. Its state is the list of the tokens from `current` on.
-- * Filter.Grammar is a grammar of filters over tokens, which the parser's theorems refer to.
--
-- Change tracking: TrackChanges is internal/trackchanges/tracker.go. The tracker is an association
-- list from entity sets to histories; versions are int64 values, with their wrap-around. The two
-- sections of `RecordChange` under the lock are `begin_change` and `roll_back`, and the save
-- between them is a function that says whether the database took the event; TrackChanges.RollBack
-- and TrackChanges.Failures put the sections of others between them. JSON and base64 of
-- the tokens are the parameter `TokenCodec`, the JSON of maps the parameter `MapCodec` of
-- TrackChanges.Load, which is `loadFromDatabase`; the records that gorm finds are its argument.
--
-- Responses: Response.OrderedMap is the map of internal/response/ordered_map.go, without its JSON:
-- the keys as a list, the Go map as an association list, positions as the source computes them.
-- Response.Integers is writeInt and writeUint there, with the room of their arrays as fuel.
--
-- Search: Search, Search.Tokens and Search.Queries are internal/query/search_expression.go, with
-- `matchesSearchExpr` of search.go. A text is a list of runes there. The loops of the tokenizer,
-- which advance one after the other over the same runes, are one function of the place between
-- tokens, in a phrase or in a word.
--
-- Entity tags: Etag is internal/etag/etag.go. The hash of an entity is an argument, since it takes
-- reflection and the third-party package xxhash; `encode_hex16` stands for `encodeHex16` and
-- `appendHex16`, whose sixteen lines are one map over the shifts.
--
-- Versions: Version is internal/version/version.go without `String`, the request context and the log.
--
-- Async jobs: Async is internal/async. The state is `Manager` of Async.Manager: the map of the jobs
-- that run, the heap of all jobs, which goroutines and callers share by address, and the database.
-- Async.Records has the records, statuses and options of models.go, with `Environment`, which stands
-- for gorm's reads and writes. A goroutine of a job is a sequence of steps (its `Phase`: waiting,
-- marked as running, in the handler, returned, saved), and Async.Events makes one event of each
-- step and of each call of manager.go, so that a run is a list of events in any order. A call with
-- a section under the lock and a part behind it is two events: SetRetryAfter, SetMonitorURL, and
-- CancelJob, whose section `cancel_target` only looks and whose call of `cancel` is `end_context`.
-- Async.Invariant, Async.Operations, Async.Steps and Async.Reached are about the runs, Async.Local
-- and Async.Lifecycle about one job, Async.Headers, Async.Monitor, Async.Answers and Async.Restored
-- about the stored response and the answers over HTTP, Async.InMemory about a database of records.
--
-- SQL: Sql.Quoting is the quoting of names in internal/query/apply_filter.go and Sql.Patterns is
-- internal/query/like_escape.go; Sql.Quoting.Reading, Sql.Patterns.Matching and Sql.Patterns.Classes
-- say how the databases read a quoted name and a LIKE pattern, by their documentation and not by the
-- source, Sql.Patterns.Literals is about patterns without operators.
--
-- Preferences: Preference and Preference.Parts are internal/preference/preference.go.
-- Preference.Sanitized and Preference.Annotations are about the header of a dispatched request and
-- the filter of annotations.
--
-- Entity cache: Cache is internal/cache/cache.go. A snapshot is a value, and the cache holds at most
-- one. Cache.Snapshots is about what a snapshot answers, Cache.Refreshes about Refresh, in its steps
-- under the lock, among the writes and invalidations of others.
--
-- Expand: Expand is internal/query/expand_levels.go, over Metadata, the searches of
-- internal/metadata/analyzer.go. Expand.Depth and Expand.Nested are about the depth and the number
-- of the options that come of the levels.
--
-- Shared: Prelude passes on the names of the libraries and has the conditional, the outcomes, the
-- association lists, bytes and their decimal numbers (strconv.Atoi and Itoa), and strings.TrimSpace.
--
-- Fuel: `tokenize_all` takes one round more than there are bytes, the loops of the parser one
-- round more than there are tokens, and `parse` one depth of nesting more than there are tokens:
-- a nested call stands behind an opening parenthesis. The search parser has the same two bounds.
-- The other loops are structural recursion.
--
-- Taken as parameters: strconv.ParseFloat (whether it accepts a text) and the decoders of package
-- base64, in `Filter.Values.Codecs`; gorm's reads and writes of job records, the JSON of headers
-- and the rounding of a duration to seconds, in `Async.Records.Environment`; what gorm loads for the
-- cache and the change log; the functions that a caller gives to the cache; the pointers to metadata.
-- Not modelled: the token buffer and the pools of tokens and nodes, which only save allocations,
-- the texts of errors, logs, the ticker of the job manager, the contexts of requests, the analysis of
-- Go types by reflection, the handlers over net/http, the queries built with gorm, and the rest of
-- the repository: the conversion of filters, the other query options and batch requests.
pub mod Prelude
pub mod Filter
pub mod TrackChanges
pub mod Response
pub mod Search
pub mod Etag
pub mod Version
pub mod Async
pub mod Sql
pub mod Preference
pub mod Cache
pub mod Metadata
pub mod Expand
