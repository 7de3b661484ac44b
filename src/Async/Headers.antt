-- ===== src/Async/Headers.antt =====
-- The part of net/http.Header that internal/async/manager.go uses, with its canonical keys, and
-- `copyHeader`.
use go_odata.Prelude.{
  ℕ, ◌+◌, ◌-◌, Bool, true, ◌&&◌, ◌||◌, List, [], ◌∷◌, ◌++◌, Option, none, some, Bytes, codes,
  within, any, ◌==◌, if◌then◌else◌, find, put, remove,
}
use go_odata.Async.Records.{Header}

-- A byte of a token of RFC 7230.
unfoldable pub is_header_byte : ℕ → Bool
is_header_byte c =
    within b'a' b'z' c
    || within b'A' b'Z' c
    || within b'0' b'9' c
    || any (λ d. c == d) (codes "!#$%&'*+-.^_`|~")

abbrev all_header_bytes : Bytes → Bool
unfolding is_header_byte
all_header_bytes [] = true
all_header_bytes (c ∷ cs) = is_header_byte c && all_header_bytes cs

-- Upper case at the start and behind a dash, lower case elsewhere.
unfoldable pub canonical_bytes : Bool → Bytes → Bytes
canonical_bytes upper [] = []
canonical_bytes upper (c ∷ cs) =
    (if upper
      then (if within b'a' b'z' c then c - 32 else c)
      else if within b'A' b'Z' c
      then c + 32
      else c)
    ∷ canonical_bytes (c == b'-') cs

unfoldable pub canonical_key : Bytes → Bytes
unfolding canonical_bytes all_header_bytes
canonical_key key = if all_header_bytes key then canonical_bytes true key else key

abbrev first_value : Option (List Bytes) → Bytes
first_value (some (v ∷ vs)) = v
first_value _ = []

unfoldable pub get_header : Bytes → Header → Bytes
unfolding canonical_key
get_header key h = first_value (find (canonical_key key) h)

unfoldable pub set_header : Bytes → Bytes → Header → Header
unfolding canonical_key
set_header key v h = put (canonical_key key) (v ∷ []) h

abbrev values_of : Option (List Bytes) → List Bytes
values_of none = []
values_of (some vs) = vs

unfoldable pub add_header : Bytes → Bytes → Header → Header
unfolding canonical_key
add_header key v h = put (canonical_key key) (values_of (find (canonical_key key) h) ++ v ∷ []) h

-- `dst.Del(k)` for each key of `dst`.
unfoldable pub delete_all : Header → Header → Header
unfolding canonical_key
delete_all [] dst = dst
delete_all ((k, vs) ∷ rest) dst = delete_all rest (remove (canonical_key k) dst)

unfoldable pub add_values : Bytes → List Bytes → Header → Header
unfolding add_header
add_values k [] dst = dst
add_values k (v ∷ vs) dst = add_values k vs (add_header k v dst)

unfoldable pub add_all : Header → Header → Header
unfolding add_values
add_all [] dst = dst
add_all ((k, vs) ∷ rest) dst = add_all rest (add_values k vs dst)

unfoldable pub copy_header : Header → Header → Header
unfolding delete_all add_all
copy_header dst src = add_all src (delete_all dst dst)
