-- ===== src/Filter/Tokenizer/Quoted.antt =====
-- tokenizer.go: string tokens, of a text in quotes with each quote in it doubled.
use go_odata.Prelude.{
  ℕ, ◌+◌, ◌<◌, ◌≡◌, ◌≢◌, ap, ◌∙◌, Bool, false, [], ◌∷◌, ◌++◌, ◌⊎◌, inl, inr, arith, ok, Bytes, ◌==◌,
  length, All,
}
use go_odata.Filter.Token.{Token, TokenType}
use go_odata.Filter.Cursor.{Tokenizer, byte_at_head}
use go_odata.Filter.Literals.{read_string}
use go_odata.Filter.Literals.Strings.{read_string-double_quotes}
use go_odata.Filter.Literals.Recoding.{
  double_quotes, recode_behind, IsNonzero, IsAscii, recode_behind-ascii, gained,
  length-recode_behind,
}
use go_odata.Filter.Tokenizer.{tokenize_string, next_token}

-- The tokenizer stands at a quoted text with `rest` behind it.
abbrev pub at_quoted : ℕ → Bytes → Bytes → Bool → ℕ → Tokenizer
at_quoted quote s rest mode n = record {
  rest = quote ∷ (double_quotes quote s ++ quote ∷ rest);
  pos = n;
  case_insensitive = mode;
}

abbrev pub behind_quoted : ℕ → Bytes → Bytes → Bool → ℕ → Tokenizer
behind_quoted quote s rest mode n = record {
  rest = rest;
  pos = n + length (double_quotes quote s) + 2;
  case_insensitive = mode;
}

abbrev pub IsQuote : ℕ → Type 0
IsQuote quote = (quote ≡ b'\'') ⊎ (quote ≡ b'"')

next_token-read_string :
    (quote : ℕ) (cs : Bytes) (mode : Bool) (n : ℕ)
    → IsQuote quote
    → let t : Tokenizer = record { rest = quote ∷ cs; pos = n; case_insensitive = mode } in
      next_token t
      ≡ ok (
        record { type = TokenType.string; value = (read_string t).0; pos = n },
        (read_string t).1,
      )
unfolding next_token tokenize_string
next_token-read_string quote cs mode n (inl q) = rw q
next_token-read_string quote cs mode n (inr q) = rw q

next_token-recoded :
    (quote : ℕ) (s rest : Bytes) (mode : Bool) (n : ℕ)
    → IsQuote quote
    → (byte_at_head rest == quote) ≡ false
    → All IsNonzero s
    → next_token (at_quoted quote s rest mode n)
      ≡ ok (
        record { type = TokenType.string; value = recode_behind quote s; pos = n },
        behind_quoted quote s rest mode n,
      )
next_token-recoded quote s rest mode n q other h =
    let read = read_string-double_quotes quote s rest mode n (omega arith) (omega arith) other h in
    next_token-read_string quote _ mode n q ∙ rw read

IsAscii-IsNonzero : (s : Bytes) → All IsAscii s → All IsNonzero s
IsAscii-IsNonzero [] h = tt
IsAscii-IsNonzero (c ∷ s) h = (h.0.0, IsAscii-IsNonzero s h.1)

-- A text of ASCII bytes other than 0, in single or double quotes with each such quote in it
-- doubled, and not followed by the quote, is read as one string token of that value, and the
-- tokenizer then stands behind the closing quote.
pub next_token-double_quotes :
    (quote : ℕ) (s rest : Bytes) (mode : Bool) (n : ℕ)
    → IsQuote quote
    → (byte_at_head rest == quote) ≡ false
    → All IsAscii s
    → next_token (at_quoted quote s rest mode n)
      ≡ ok (
        record { type = TokenType.string; value = s; pos = n },
        behind_quoted quote s rest mode n,
      )
next_token-double_quotes quote s rest mode n q other h =
    next_token-recoded quote s rest mode n q other (IsAscii-IsNonzero s h)
    ∙ rw (recode_behind-ascii quote s h)

-- Where a byte that is not ASCII stands behind a doubled quote, the token's value is another text
-- than the one that was quoted: it is longer, by one byte for each such byte.
pub next_token-gained :
    (quote : ℕ) (s rest : Bytes) (mode : Bool) (n : ℕ)
    → IsQuote quote
    → (byte_at_head rest == quote) ≡ false
    → All IsNonzero s
    → 0 < gained quote s
    → (token : Token) × (u : Tokenizer) × (next_token (at_quoted quote s rest mode n)
        ≡ ok (token, u))
      × (length token.value ≡ length s + gained quote s)
      × (token.value ≢ s)
next_token-gained quote s rest mode n q other h g = (
  _,
  _,
  next_token-recoded quote s rest mode n q other h,
  length-recode_behind quote s,
  λ e. omega (arith, ap length e, length-recode_behind quote s),
)
