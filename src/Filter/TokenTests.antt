-- ===== src/Filter/TokenTests.antt =====
-- Runs of the tokenizer on small inputs.
use go_odata.Prelude.{◌≡◌, refl, true, List, [], ◌∷◌, Result, ok, map, Bytes, codes, ◌>>=◌}
use go_odata.Filter.Token.{Token, TokenType}
use go_odata.Filter.Tokenizer.{tokenize_all, TokenError}

abbrev shown : Bytes → Result TokenError (List (TokenType × Bytes))
shown input = tokenize_all input true >>= λ ts. ok (map (λ (t : Token). (t.type, t.value)) ts)

comparison :
    shown (codes "Price GT 10.5f")
    ≡ ok (
        (TokenType.identifier, codes "Price")
        ∷ (TokenType.operator, codes "gt")
        ∷ (TokenType.number, codes "10.5f")
        ∷ (TokenType.eof, [])
        ∷ [])
unfolding tokenize_all
comparison = refl

stamp :
    shown (codes "2024-01-02t10:20:30.5+02:00")
    ≡ ok ((TokenType.date_time, codes "2024-01-02T10:20:30.5+02:00") ∷ (TokenType.eof, []) ∷ [])
unfolding tokenize_all
stamp = refl

quoted :
    shown (codes "'O''Neil',add(1,2)")
    ≡ ok (
        (TokenType.string, codes "O'Neil")
        ∷ (TokenType.comma, codes ",")
        ∷ (TokenType.identifier, codes "add")
        ∷ (TokenType.l_paren, codes "(")
        ∷ (TokenType.number, codes "1")
        ∷ (TokenType.comma, codes ",")
        ∷ (TokenType.number, codes "2")
        ∷ (TokenType.r_paren, codes ")")
        ∷ (TokenType.eof, [])
        ∷ [])
unfolding tokenize_all
quoted = refl

identified :
    shown (codes "abcdef12-3456-7890-abcd-ef1234567890 Ns.Color'Red'")
    ≡ ok (
        (TokenType.guid, codes "abcdef12-3456-7890-abcd-ef1234567890")
        ∷ (TokenType.enum_value, codes "Ns.Color'Red'")
        ∷ (TokenType.eof, [])
        ∷ [])
unfolding tokenize_all
identified = refl
