-- ===== src/Filter/Sound/Tokens.antt =====
-- ast_parser_core.go: passing tokens of a list that ends in the end of the input.
use go_odata.Prelude.{
  ◌≡◌, refl, ◌∙◌, sym, ap, Bool, true, false, not, ◌&&◌, List, [], ◌∷◌, arith, Ensures, holds,
  failed, Ensures-if, ◌==◌,
}
use go_odata.Filter.Token.{Token, TokenType, iota, type_eq}
use go_odata.Filter.Grammar.{Is}
use go_odata.Filter.Parser.Cursor.{current_token, advance, has_type, expect}

-- The last token is the end of the input.
abbrev pub EndsInEof : List Token → Type 0
EndsInEof [] = ⊥
EndsInEof (t ∷ []) = Is TokenType.eof t
EndsInEof (t ∷ u ∷ ts) = EndsInEof (u ∷ ts)

-- The current token is not the end, and `advance` passes it.
pub record Passed (ts : List Token) : Type 0 where
  pub token : Token
  pub rest : List Token
  pub splits : ts ≡ token ∷ rest
  pub current : current_token ts ≡ token
  pub moved : advance ts ≡ rest
  pub ends : EndsInEof rest

pub passed :
    (ts : List Token) → EndsInEof ts → has_type TokenType.eof (current_token ts) ≡ false → Passed ts
unfolding current_token advance
passed [] e h = absurd e
passed (t ∷ []) e h = cc
passed (t ∷ u ∷ ts) e h = record {
  token = t;
  rest = u ∷ ts;
  splits = refl;
  current = refl;
  moved = refl;
  ends = e;
}

pub not_eof :
    (type : TokenType) (t : Token)
    → Is type t
    → (iota type == 0) ≡ false
    → has_type TokenType.eof t ≡ false
not_eof type t h k = ground arith

-- As `passed`, for a current token of another type.
pub passed_of :
    (type : TokenType) (ts : List Token)
    → EndsInEof ts
    → Is type (current_token ts)
    → (iota type == 0) ≡ false
    → Passed ts
passed_of type ts e h k = passed ts e (not_eof type (current_token ts) h k)

pub Passed-Is :
    (type : TokenType) {ts : List Token} (p : Passed ts)
    → Is type (current_token ts)
    → Is type p.token
Passed-Is type p h = rw p.current at h

-- A token of the type stands first, and is passed.
pub record Takes (type : TokenType) (ts rest : List Token) : Type 0 where
  pub token : Token
  pub splits : ts ≡ token ∷ rest
  pub is_type : Is type token
  pub ends : EndsInEof rest

pub expect-Takes :
    (type : TokenType) (ts : List Token)
    → EndsInEof ts
    → (iota type == 0) ≡ false
    → Ensures (Takes type ts) (expect type ts)
unfolding expect
expect-Takes type ts e k =
    Ensures-if (type_eq (current_token ts).type type)
      (λ h.
        let p = passed_of type ts e h k in
        holds (record {
          token = p.token;
          splits = p.splits ∙ ap (◌∷◌ p.token) (sym p.moved);
          is_type = Passed-Is type p h;
          ends = rw p.moved p.ends;
        }))
      (λ _. failed)

pub Takes-current :
    (type : TokenType) (ts rest : List Token)
    → Takes type ts rest
    → has_type type (current_token ts) ≡ true
unfolding current_token
Takes-current type ts rest t = rw t.splits t.is_type

pub unnot : {b : Bool} → not b ≡ false → b ≡ true
unnot {b} h = ground arith

pub left_of : (a b : Bool) → (a && b) ≡ true → a ≡ true
left_of a b h = ground arith

pub right_of : (a b : Bool) → (a && b) ≡ true → b ≡ true
right_of a b h = ground arith
