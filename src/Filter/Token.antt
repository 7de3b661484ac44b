-- ===== src/Filter/Token.antt =====
-- internal/query/tokenizer.go: the token types and tokens.
use go_odata.Prelude.{ℕ, Bool, Bytes, ◌==◌}

pub data TokenType : Type 0 where
  eof identifier string number boolean null operator logical not l_paren r_paren : TokenType
  comma arithmetic colon date time date_time guid enum_value : TokenType

-- The value that iota gives each constant.
abbrev pub iota : TokenType → ℕ
iota eof = 0
iota identifier = 1
iota string = 2
iota number = 3
iota boolean = 4
iota null = 5
iota operator = 6
iota logical = 7
iota not = 8
iota l_paren = 9
iota r_paren = 10
iota comma = 11
iota arithmetic = 12
iota colon = 13
iota date = 14
iota time = 15
iota date_time = 16
iota guid = 17
iota enum_value = 18

-- `typ == other` on token types.
abbrev pub type_eq : TokenType → TokenType → Bool
type_eq a b = iota a == iota b

pub record Token : Type 0 where
  pub type : TokenType
  pub value : Bytes
  pub pos : ℕ
