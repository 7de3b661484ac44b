-- ===== src/Filter/Examples.antt =====
-- The tokenizer's and the parser's theorems, applied to small inputs.
use go_odata.Prelude.{
  arith, All, ◌≡◌, ◌≢◌, refl, true, false, [], ◌∷◌, inl, ok, Ensures, Bytes, codes, length, ℕ, ◌+◌,
}
use go_odata.Filter.Token.{Token, TokenType}
use go_odata.Filter.Cursor.{Tokenizer}
use go_odata.Filter.Literals.Recoding.{IsAscii, IsNonzero, gained}
use go_odata.Filter.Values.{Codecs}
use go_odata.Filter.Tokenizer.{next_token, tokenize_all}
use go_odata.Filter.Tokenizer.Progress.{Stream, tokenize_all-Stream}
use go_odata.Filter.Tokenizer.Quoted.{
  at_quoted, behind_quoted, next_token-double_quotes, next_token-gained,
}
use go_odata.Filter.Parser.{parse}
use go_odata.Filter.Sound.{Whole, parse-Derives, tokenize_all-parse-Derives}

abbrev no_codecs : Codecs
no_codecs = record { float_parses = λ _ _. false; decoders = [] }

abbrev filter : Bytes
filter = codes "a gt 1 and Orders/any(o:o/Total in (1,2))"

tokenize_all-parse-Derives_example :
    Ensures (λ ts. Ensures (Whole no_codecs ts) (parse no_codecs ts)) (tokenize_all filter true)
tokenize_all-parse-Derives_example = tokenize_all-parse-Derives no_codecs filter true

tokenize_all-Stream_example : Ensures (Stream (length filter) 0) (tokenize_all filter true)
tokenize_all-Stream_example = tokenize_all-Stream filter true

abbrev name_token : Bytes → ℕ → Token
name_token value pos = record { type = TokenType.identifier; value = value; pos = pos }

abbrev end_at : ℕ → Token
end_at pos = record { type = TokenType.eof; value = []; pos = pos }

parse-Derives_example :
    Ensures
      (Whole no_codecs (name_token (codes "Active") 0 ∷ end_at 6 ∷ []))
      (parse no_codecs (name_token (codes "Active") 0 ∷ end_at 6 ∷ []))
parse-Derives_example = parse-Derives no_codecs (name_token (codes "Active") 0 ∷ end_at 6 ∷ []) refl

abbrev o_neil : Bytes
o_neil = codes "O'N"

o_neil-IsAscii : All IsAscii o_neil
o_neil-IsAscii =
    ((omega arith, omega arith), ((omega arith, omega arith), ((omega arith, omega arith), tt)))

next_token-double_quotes_example :
    next_token (at_quoted b'\'' o_neil (codes " eq x") true 3)
    ≡ ok (
      record { type = TokenType.string; value = o_neil; pos = 3 },
      behind_quoted b'\'' o_neil (codes " eq x") true 3,
    )
next_token-double_quotes_example =
    next_token-double_quotes b'\'' o_neil (codes " eq x") true 3 (inl refl) refl o_neil-IsAscii

-- O'ü in UTF-8: its last two bytes become four.
abbrev o_umlaut : Bytes
o_umlaut = b'O' ∷ b'\'' ∷ 0xc3 ∷ 0xbc ∷ []

o_umlaut-IsNonzero : All IsNonzero o_umlaut
o_umlaut-IsNonzero = (omega arith, (omega arith, (omega arith, (omega arith, tt))))

next_token-gained_example :
    (token : Token) × (u : Tokenizer) × (next_token (at_quoted b'\'' o_umlaut [] true 0)
      ≡ ok (token, u))
    × (length token.value ≡ length o_umlaut + gained b'\'' o_umlaut)
    × (token.value ≢ o_umlaut)
next_token-gained_example =
    next_token-gained b'\'' o_umlaut [] true 0 (inl refl) refl o_umlaut-IsNonzero (omega arith)
