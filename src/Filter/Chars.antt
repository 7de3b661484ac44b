-- ===== src/Filter/Chars.antt =====
-- internal/query/tokenizer.go: the classes of characters. A character is one byte of the input,
-- widened to a rune, so package unicode is asked about code points below 256 only.
use go_odata.Prelude.{
  ℕ, ◌+◌, Bool, true, false, ◌&&◌, ◌||◌, [], ◌∷◌, Bytes, leb, ◌==◌, within, if◌then◌else◌,
}

-- `unicode.IsDigit` below 256.
unfoldable pub is_digit : ℕ → Bool
is_digit c = within b'0' b'9' c

-- `unicode.IsLetter` below 256.
unfoldable pub is_letter : ℕ → Bool
is_letter c =
    within b'a' b'z' c
    || within b'A' b'Z' c
    || c == 0xaa
    || c == 0xb5
    || c == 0xba
    || within 0xc0 0xd6 c
    || within 0xd8 0xf6 c
    || within 0xf8 0xff c

unfoldable pub is_identifier_char : ℕ → Bool
unfolding is_letter is_digit
is_identifier_char c =
    if leb c 127
    then within b'a' b'z' c || within b'A' b'Z' c || within b'0' b'9' c || c == b'_' || c == b'.'
    else is_letter c || is_digit c

unfoldable pub is_identifier_start : ℕ → Bool
unfolding is_letter
is_identifier_start c =
    if leb c 127 then within b'a' b'z' c || within b'A' b'Z' c || c == b'$' else is_letter c

unfoldable pub is_hex_digit : ℕ → Bool
is_hex_digit c = within b'0' b'9' c || within b'a' b'f' c || within b'A' b'F' c

-- `ch == ' ' || ch == '\t' || ch == '\n' || ch == '\r'`
unfoldable pub is_blank : ℕ → Bool
is_blank c = c == b' ' || c == b'\t' || c == b'\n' || c == b'\r'

unfoldable pub to_lower_ascii : ℕ → ℕ
to_lower_ascii c = if within b'A' b'Z' c then c + 32 else c

-- The loop compares `toLowerASCII(s[i])` with `target[i]`, after the lengths.
unfoldable pub equals_fold_ascii : Bytes → Bytes → Bool
unfolding to_lower_ascii
equals_fold_ascii [] [] = true
equals_fold_ascii (c ∷ s) (d ∷ target) = to_lower_ascii c == d && equals_fold_ascii s target
equals_fold_ascii _ _ = false
