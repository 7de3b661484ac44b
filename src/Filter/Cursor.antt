-- ===== src/Filter/Cursor.antt =====
-- internal/query/tokenizer.go: the state of the tokenizer and the loops that move it. The state
-- keeps `rest`, the bytes of `input` from `pos` on, in place of `input`; the field `ch` of the
-- source is always the byte at `pos`, or 0 at the end, and is the function `ch` here.
pub mod Moves
use go_odata.Prelude.{ℕ, zero, suc, ◌+◌, ◌-◌, Bool, not, [], ◌∷◌, Bytes, ◌==◌, if◌then◌else◌, take}
use go_odata.Filter.Chars.{is_blank}

pub record Tokenizer : Type 0 where
  pub rest : Bytes
  pub pos : ℕ
  pub case_insensitive : Bool

abbrev pub byte_at_head : Bytes → ℕ
byte_at_head [] = 0
byte_at_head (c ∷ _) = c

abbrev pub tail : Bytes → Bytes
tail [] = []
tail (_ ∷ cs) = cs

-- `NewTokenizerWithMode`; `AcquireTokenizerWithMode` brings a pooled value to the same state.
abbrev pub new_tokenizer : Bytes → Bool → Tokenizer
new_tokenizer input mode = record { rest = input; pos = 0; case_insensitive = mode }

abbrev pub ch : Tokenizer → ℕ
ch t = byte_at_head t.rest

unfoldable pub advance : Tokenizer → Tokenizer
advance t = record t { rest = tail t.rest; pos = t.pos + 1 }

abbrev pub peek : Tokenizer → ℕ
peek t = byte_at_head (tail t.rest)

-- `for test(t.ch) { t.advance() }`; each test that the source writes refuses 0, and so the end.
unfoldable pub skip_from : (ℕ → Bool) → Bool → ℕ → Bytes → Tokenizer
skip_from test mode n [] = record { rest = []; pos = n; case_insensitive = mode }
skip_from test mode n (c ∷ cs) =
    if test c
    then skip_from test mode (n + 1) cs
    else record { rest = c ∷ cs; pos = n; case_insensitive = mode }

unfoldable pub skip_while : (ℕ → Bool) → Tokenizer → Tokenizer
unfolding skip_from
skip_while test t = skip_from test t.case_insensitive t.pos t.rest

-- `for i := 0; i < bound && test(t.ch); i++ { t.advance() }`
unfoldable pub skip_up_to : (ℕ → Bool) → ℕ → Tokenizer → Tokenizer
unfolding advance
skip_up_to test zero t = t
skip_up_to test (suc bound) t =
    let next = skip_up_to test bound (advance t) in if test (ch t) then next else t

-- `t.input[start:t.pos]`, for the state at `start` and the state now.
abbrev pub slice : Tokenizer → Tokenizer → Bytes
slice start now = take (now.pos - start.pos) start.rest

unfoldable pub skip_whitespace : Tokenizer → Tokenizer
unfolding skip_while is_blank
skip_whitespace = skip_while is_blank
