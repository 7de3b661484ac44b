-- ===== src/Filter/Literals.antt =====
-- internal/query/tokenizer.go: the readers of strings, numbers, dates, times and GUIDs. A reader
-- returns the text that it read and the state behind it.
pub mod Moves
pub mod Recoding
pub mod Strings
use go_odata.Prelude.{
  ℕ, zero, suc, ◌+◌, ◌-◌, ◌*◌, ◌/◌, ◌%◌, ◌^◌, Bool, true, false, not, ◌&&◌, ◌||◌, [], ◌∷◌, ◌++◌,
  Option, none, some, Bytes, leb, ltb, within, ◌==◌, if◌then◌else◌, length, take, drop, get_elem?,
}
use go_odata.Filter.Chars.{is_digit, is_identifier_char, is_hex_digit}
use go_odata.Filter.Cursor.{
  Tokenizer, ch, advance, peek, byte_at_head, tail, skip_while, skip_up_to, slice,
}

-- `strings.Builder.WriteRune` on a rune below 256: its UTF-8 encoding.
unfoldable pub write_rune : ℕ → Bytes
write_rune r = if ltb r 128 then r ∷ [] else (192 + r / 64) ∷ (128 + r % 64) ∷ []

-- The slow path of `readString`, from the bytes at `pos` and the builder's content on.
unfoldable pub read_escaped : ℕ → Bytes → Bool → ℕ → Bytes → Bytes × Tokenizer
unfolding write_rune
read_escaped quote result mode n [] =
    (result, record { rest = []; pos = n; case_insensitive = mode })
read_escaped quote result mode n (c ∷ []) =
    let closed : Tokenizer = record { rest = []; pos = n + 1; case_insensitive = mode } in
    if c == 0
    then (result, record { rest = c ∷ []; pos = n; case_insensitive = mode })
    else if c == quote
    then (result, closed)
    else (result ++ write_rune c, closed)
read_escaped quote result mode n (c ∷ d ∷ cs) =
    let escaped = read_escaped quote (result ++ quote ∷ []) mode (n + 2) cs in
    let more = read_escaped quote (result ++ write_rune c) mode (n + 1) (d ∷ cs) in
    if c == 0
    then (result, record { rest = c ∷ d ∷ cs; pos = n; case_insensitive = mode })
    else if c == quote
    then (if d == quote
        then escaped
        else (result, record { rest = d ∷ cs; pos = n + 1; case_insensitive = mode }))
    else more

abbrev pub in_string : ℕ → ℕ → Bool
in_string quote c = not (c == 0) && not (c == quote)

-- The fast path scans to a quote; a doubled one leads to the slow path.
unfoldable pub read_string : Tokenizer → Bytes × Tokenizer
unfolding advance skip_while read_escaped
read_string t =
    let quote = ch t in
    let start = advance t in
    let here = skip_while (in_string quote) start in
    if ch here == 0
    then (slice start here, here)
    else if peek here == quote
    then read_escaped quote (slice start here) here.case_insensitive here.pos here.rest
    else (slice start here, advance here)

abbrev pub skip_if : (ℕ → Bool) → Tokenizer → Tokenizer
skip_if test t = if test (ch t) then advance t else t

unfoldable pub read_number : Tokenizer → Bytes × Tokenizer
unfolding advance skip_while is_digit
read_number t =
    let signed = skip_if (λ c. c == b'-') t in
    let whole = skip_while is_digit signed in
    let decimal = if ch whole == b'.' then skip_while is_digit (advance whole) else whole in
    let exponent =
      if ch decimal == b'e' || ch decimal == b'E'
      then skip_while is_digit (skip_if (λ c. c == b'+' || c == b'-') (advance decimal))
      else decimal in
    let suffixed = skip_if (λ c. c == b'f' || c == b'F') exponent in (slice t suffixed, suffixed)

-- Byte `i` of a `DDDD-DD-DD` pattern. The source ranges over runes here; a rune that is not ASCII
-- fails its test, and so does the first byte of its encoding.
unfoldable pub date_pattern : ℕ → Bytes → Bool
date_pattern i [] = true
date_pattern i (c ∷ cs) =
    (if i == 4 || i == 7 then c == b'-' else within b'0' b'9' c) && date_pattern (i + 1) cs

unfoldable pub is_date_literal : Tokenizer → Bool
unfolding date_pattern
is_date_literal t = leb 10 (length t.rest) && date_pattern 0 (take 10 t.rest)

unfoldable pub time_pattern : ℕ → Bytes → Bool
time_pattern i [] = true
time_pattern i (c ∷ cs) =
    (if i == 2 || i == 5 then c == b':' else within b'0' b'9' c) && time_pattern (i + 1) cs

unfoldable pub is_time_literal : Tokenizer → Bool
unfolding time_pattern
is_time_literal t = leb 8 (length t.rest) && time_pattern 0 (take 8 t.rest)

abbrev pub not_end : ℕ → Bool
not_end c = not (c == 0)

unfoldable pub read_date_literal : Tokenizer → Bytes × Tokenizer
unfolding skip_up_to
read_date_literal t = let now = skip_up_to not_end 10 t in (slice t now, now)

unfoldable pub read_time_literal : Tokenizer → Bytes × Tokenizer
unfolding skip_up_to skip_while advance is_digit
read_time_literal t =
    let clock = skip_up_to not_end 8 t in
    let now = if ch clock == b'.' then skip_while is_digit (advance clock) else clock in
    (slice t now, now)

-- `datePart`, `T`, `timePart` and the zone, as the builder puts them together.
unfoldable pub read_zone : Bytes → Tokenizer → Bytes × Tokenizer
unfolding advance skip_up_to is_digit
read_zone built t =
    if ch t == b'Z' || ch t == b'z'
    then (built ++ b'Z' ∷ [], advance t)
    else if ch t == b'+' || ch t == b'-'
    then (let signed = advance t in
        let hours = skip_up_to is_digit 2 signed in
        let coloned = skip_if (λ c. c == b':') hours in
        let minutes = skip_up_to is_digit 2 coloned in
        let mark = if ch hours == b':' then b':' ∷ [] else [] in
        (built ++ (ch t ∷ (slice signed hours ++ (mark ++ slice coloned minutes))), minutes))
    else (built, t)

-- `readDateTimeLiteralIfPresent`; where it returns `false` the state is reset to `start`.
unfoldable pub read_date_time_literal_if_present : Tokenizer → Option (Bytes × Tokenizer)
unfolding is_date_literal read_date_literal advance is_time_literal read_time_literal read_zone
read_date_time_literal_if_present t =
    let (date_part, dated) = read_date_literal t in
    let marked = advance dated in
    let (time_part, timed) = read_time_literal marked in
    if not (is_date_literal t)
    then none
    else if not (ch dated == b'T') && not (ch dated == b't')
    then none
    else if not (is_time_literal marked)
    then none
    else some (read_zone (date_part ++ (b'T' ∷ time_part)) timed)

-- The rune at the head of a text, as `range` decodes it, and how many bytes it takes.
abbrev pub continues : ℕ → Bool
continues = within 0x80 0xbf

unfoldable pub decode_rune : Bytes → ℕ × ℕ
decode_rune [] = (0xfffd, 1)
decode_rune (a ∷ cs) =
    let b = byte_at_head cs in
    let c = byte_at_head (tail cs) in
    let d = byte_at_head (tail (tail cs)) in
    if leb a 0x7f
    then (a, 1)
    else if within 0xc2 0xdf a && continues b
    then ((a - 0xc0) * 64 + (b - 0x80), 2)
    else if within 0xe0 0xef a
        && within (if a == 0xe0 then 0xa0 else 0x80) (if a == 0xed then 0x9f else 0xbf) b
        && continues c
    then ((a - 0xe0) * 4096 + (b - 0x80) * 64 + (c - 0x80), 3)
    else if within 0xf0 0xf4 a
        && within (if a == 0xf0 then 0x90 else 0x80) (if a == 0xf4 then 0x8f else 0xbf) b
        && continues c
        && continues d
    then ((a - 0xf0) * 262144 + (b - 0x80) * 4096 + (c - 0x80) * 64 + (d - 0x80), 4)
    else (0xfffd, 1)

-- `for i, ch := range str`: `skip` bytes of the rune before are still to pass. The conversion
-- `byte(ch)` keeps the low eight bits of the rune.
unfoldable pub guid_pattern : ℕ → ℕ → Bytes → Bool
unfolding decode_rune is_hex_digit
guid_pattern i skip [] = true
guid_pattern i (suc skip) (c ∷ cs) = guid_pattern (i + 1) skip cs
guid_pattern i zero (c ∷ cs) =
    let (rune, width) = decode_rune (c ∷ cs) in
    (if i == 8 || i == 13 || i == 18 || i == 23 then rune == b'-' else is_hex_digit (rune % 256))
    && guid_pattern (i + 1) (width - 1) cs

-- `isGUIDLiteral`: the pattern, and no hexadecimal digit or dash behind it.
unfoldable pub is_guid_literal : Tokenizer → Bool
unfolding guid_pattern is_hex_digit
is_guid_literal t =
    let behind = get_elem? t.rest 36 in
    leb 36 (length t.rest)
    && guid_pattern 0 0 (take 36 t.rest)
    && not (elim behind [ none ↦ false | some c ↦ is_hex_digit c || c == b'-' ])

unfoldable pub read_guid_literal : Tokenizer → Bytes × Tokenizer
unfolding skip_up_to
read_guid_literal t = let now = skip_up_to not_end 36 t in (slice t now, now)

-- A leading `$` is part of the identifier.
unfoldable pub read_identifier : Tokenizer → Bytes × Tokenizer
unfolding advance skip_while is_identifier_char
read_identifier t =
    let marked = skip_if (λ c. c == b'$') t in
    let now = skip_while (λ c. not (c == 0) && is_identifier_char c) marked in (slice t now, now)
