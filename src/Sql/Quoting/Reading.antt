-- ===== src/Sql/Quoting/Reading.antt =====
-- internal/query/apply_filter.go: quoted names as the databases read them. A delimited name stands
-- between the quotes that its database has for names, and the closing one is doubled within it.
use go_odata.Prelude.{
  ℕ, zero, suc, ◌≤◌, ◌<◌, Bool, true, false, List, [], ◌∷◌, ◌++◌, Option, none, some, Bytes, ◌==◌,
  ==_refl, ==_iff, if◌then◌else◌, map, select, ◌≡◌, ◌≢◌, refl, sym, ap, ◌∙◌, arith, append_assoc,
  Bool-cases, inl, inr, length, All,
}
use go_odata.Etag.{is_filled}
use go_odata.Sql.Quoting.{
  mysql, mariadb, postgres, postgresql, sqlite, sqlite3, sqlserver, mssql, unknown, Dialect, double,
  opening, closing, quote_ident, split_dots, join_dots, quote_parts, quote_table_name, quote_split,
  with_first,
}

-- The name up to its closing quote and the text behind that; `none` where it does not end.
unfoldable pub read_quoted : ℕ → Bytes → Option (Bytes × Bytes)
read_quoted q [] = none
read_quoted q (c ∷ []) = if c == q then some ([], []) else none
read_quoted q (c ∷ d ∷ cs) =
    let doubled = read_quoted q cs in
    let plain = read_quoted q (d ∷ cs) in
    if c == q
    then (if d == q
        then elim doubled [ none ↦ none | some (name, rest) ↦ some (q ∷ name, rest) ]
        else some ([], d ∷ cs))
    else elim plain [ none ↦ none | some (name, rest) ↦ some (c ∷ name, rest) ]

-- What each database documents as the quotes of names: backticks for MySQL and MariaDB, brackets
-- for SQL Server, and those of the SQL standard for PostgreSQL, SQLite and any other.
abbrev pub delimiters : Dialect → ℕ × ℕ
delimiters mysql = (b'`', b'`')
delimiters mariadb = (b'`', b'`')
delimiters sqlserver = (b'[', b']')
delimiters mssql = (b'[', b']')
delimiters postgres = (b'"', b'"')
delimiters postgresql = (b'"', b'"')
delimiters sqlite = (b'"', b'"')
delimiters sqlite3 = (b'"', b'"')
delimiters unknown = (b'"', b'"')

unfoldable pub read_name : Dialect → Bytes → Option (Bytes × Bytes)
unfolding read_quoted
read_name dialect [] = none
read_name dialect (c ∷ cs) =
    let (open_quote, close_quote) = delimiters dialect in
    if c == open_quote then read_quoted close_quote cs else none

abbrev pub is_mariadb : Dialect → Bool
is_mariadb mariadb = true
is_mariadb _ = false

-- The quotes that the source writes are those of the database, but for MariaDB.
opening_lem :
    (dialect : Dialect) → is_mariadb dialect ≡ false → opening dialect ≡ (delimiters dialect).0
unfolding opening
opening_lem mariadb h = cc
opening_lem dialect h = refl

closing_lem :
    (dialect : Dialect) → is_mariadb dialect ≡ false → closing dialect ≡ (delimiters dialect).1
unfolding closing
closing_lem mariadb h = cc
closing_lem dialect h = refl

-- The text does not go on with a quote.
abbrev pub StartsBehind : ℕ → Bytes → Type 0
StartsBehind q [] = Unit
StartsBehind q (c ∷ cs) = (c == q) ≡ false

read_plain :
    (q c : ℕ) (s name rest : Bytes)
    → (c == q) ≡ false
    → read_quoted q s ≡ some (name, rest)
    → read_quoted q (c ∷ s) ≡ some (c ∷ name, rest)
unfolding read_quoted
read_plain q c [] name rest n h = cc
read_plain q c (d ∷ s) name rest n h = rw (n, read_quoted) (rw h refl)

read_doubled :
    (q : ℕ) (s name rest : Bytes)
    → read_quoted q s ≡ some (name, rest)
    → read_quoted q (q ∷ q ∷ s) ≡ some (q ∷ name, rest)
unfolding read_quoted
read_doubled q s name rest h = rw (==_refl q, read_quoted) (rw h refl)

read_quoted-double :
    (q : ℕ) (name rest : Bytes)
    → StartsBehind q rest
    → read_quoted q (double q name ++ q ∷ rest) ≡ some (name, rest)
unfolding read_quoted double
read_quoted-double q [] [] h = rw (==_refl q) refl
read_quoted-double q [] (d ∷ rest) h = ground (arith, h, ==_refl q)
read_quoted-double q (c ∷ name) rest h = elim (Bool-cases (c == q)) [
  | inl e ↦
      rw (e, double)
        (read_doubled q (double q name ++ q ∷ rest) name rest (read_quoted-double q name rest h)
          ∙ ap (λ (d : ℕ). some (d ∷ name, rest)) (sym ((==_iff c q).0 e)))
  | inr e ↦
      rw (e, double)
        (read_plain q c (double q name ++ q ∷ rest) name rest e (read_quoted-double q name rest h))
]

abbrev enclose : ℕ → ℕ → Bytes → Bytes
enclose o q name = o ∷ double q name ++ q ∷ []

quote_ident-enclose :
    (dialect : Dialect) (c : ℕ) (name : Bytes)
    → is_mariadb dialect ≡ false
    → quote_ident dialect (c ∷ name)
      ≡ enclose (delimiters dialect).0 (delimiters dialect).1 (c ∷ name)
unfolding quote_ident
quote_ident-enclose dialect c name q =
    ap (λ (o : ℕ). enclose o (closing dialect) (c ∷ name)) (opening_lem dialect q)
    ∙ ap (λ (k : ℕ). enclose (delimiters dialect).0 k (c ∷ name)) (closing_lem dialect q)

read_quote_ident :
    (dialect : Dialect) (c : ℕ) (name rest : Bytes)
    → is_mariadb dialect ≡ false
    → StartsBehind (delimiters dialect).1 rest
    → read_name dialect (quote_ident dialect (c ∷ name) ++ rest) ≡ some (c ∷ name, rest)
unfolding read_name
read_quote_ident dialect c name rest q h =
    rw (quote_ident-enclose dialect c name q, ==_refl (delimiters dialect).0, append_assoc)
      (read_quoted-double (delimiters dialect).1 (c ∷ name) rest h)

-- A name that is not empty, in whatever bytes, is quoted into text which the database of the
-- dialect, by the quotes that it documents for names, reads as that name and nothing of what stands
-- behind it, as long as that does not start with the closing quote. For the dialect mariadb it does
-- not read it as a name.
pub read_name-quote_ident :
    (dialect : Dialect) (c : ℕ) (name rest : Bytes)
    → StartsBehind (delimiters dialect).1 rest
    → read_name dialect (quote_ident dialect (c ∷ name) ++ rest)
      ≡ (if is_mariadb dialect then none else some (c ∷ name, rest))
unfolding read_name quote_ident opening
read_name-quote_ident mariadb c name rest h = refl
read_name-quote_ident dialect c name rest h = read_quote_ident dialect c name rest refl h

-- A name in parts, with dots between them: the parts, and the text behind them.
unfoldable pub read_parts : ℕ → Dialect → Bytes → Option (List Bytes × Bytes)
unfolding read_name
read_parts zero dialect s = none
read_parts (suc fuel) dialect s = elim (read_name dialect s) [
  | none ↦ none
  | some (name, []) ↦ some (name ∷ [], [])
  | some (name, c ∷ rest) ↦
      let more = read_parts fuel dialect rest in
      if c == b'.'
      then elim more [ none ↦ none | some (names, end) ↦ some (name ∷ names, end) ]
      else some (name ∷ [], c ∷ rest)
]

abbrev pub IsFilled : Bytes → Type 0
IsFilled [] = ⊥
IsFilled (c ∷ cs) = Unit

dot_behind : (dialect : Dialect) → (b'.' == (delimiters dialect).1) ≡ false
dot_behind dialect = ground arith

read_last :
    (fuel : ℕ) (dialect : Dialect) (s name rest : Bytes)
    → read_name dialect s ≡ some (name, rest)
    → StartsBehind b'.' rest
    → read_parts (suc fuel) dialect s ≡ some (name ∷ [], rest)
unfolding read_parts
read_last fuel dialect s name [] e h = rw (e, read_parts) refl
read_last fuel dialect s name (c ∷ rest) e h = rw (e, read_parts) (rw h refl)

read_next :
    (fuel : ℕ) (dialect : Dialect) (s name rest end : Bytes) (names : List Bytes)
    → read_name dialect s ≡ some (name, b'.' ∷ rest)
    → read_parts fuel dialect rest ≡ some (names, end)
    → read_parts (suc fuel) dialect s ≡ some (name ∷ names, end)
unfolding read_parts
read_next fuel dialect s name rest end names e h = rw (e, read_parts) (rw h refl)

read_parts-join_dots :
    (fuel : ℕ) (dialect : Dialect) (part : Bytes) (parts : List Bytes) (rest : Bytes)
    → All IsFilled (part ∷ parts)
    → length parts < fuel
    → is_mariadb dialect ≡ false
    → StartsBehind (delimiters dialect).1 rest
    → StartsBehind b'.' rest
    → read_parts fuel dialect (join_dots (map (quote_ident dialect) (part ∷ parts)) ++ rest)
      ≡ some (part ∷ parts, rest)
unfolding join_dots
read_parts-join_dots zero dialect part parts rest a l q h k = absurd (omega (arith, l))
read_parts-join_dots (suc fuel) dialect [] parts rest a l q h k = elim a.0 [ ]
read_parts-join_dots (suc fuel) dialect (c ∷ part) [] rest a l q h k =
    read_last fuel dialect _ (c ∷ part) rest (read_quote_ident dialect c part rest q h) k
read_parts-join_dots (suc fuel) dialect (c ∷ part) (next ∷ parts) rest a l q h k =
    let behind = join_dots (map (quote_ident dialect) (next ∷ parts)) ++ rest in
    read_next fuel dialect _ (c ∷ part) behind rest (next ∷ parts)
      (rw append_assoc (read_quote_ident dialect c part (b'.' ∷ behind) q (dot_behind dialect)))
      (read_parts-join_dots fuel dialect next parts rest a.1 (omega (arith, l)) q h k)

select-IsFilled : (parts : List Bytes) → All IsFilled (select is_filled parts)
select-IsFilled [] = tt
select-IsFilled ([] ∷ parts) = select-IsFilled parts
select-IsFilled ((c ∷ part) ∷ parts) = (tt, select-IsFilled parts)

read_parts-quote_parts :
    (fuel : ℕ) (dialect : Dialect) (name : Bytes) (parts : List Bytes) (rest : Bytes)
    → All IsFilled parts
    → parts ≢ []
    → length parts ≤ fuel
    → is_mariadb dialect ≡ false
    → StartsBehind (delimiters dialect).1 rest
    → StartsBehind b'.' rest
    → read_parts fuel dialect (quote_parts dialect name parts ++ rest) ≡ some (parts, rest)
unfolding quote_parts
read_parts-quote_parts fuel dialect name [] rest a n l q h k = absurd (n refl)
read_parts-quote_parts fuel dialect name (part ∷ parts) rest a n l q h k =
    read_parts-join_dots fuel dialect part parts rest a (omega (arith, l)) q h k

with_first-one :
    (c : ℕ) (parts : List Bytes) (part name : Bytes)
    → with_first c parts ≡ part ∷ []
    → ((p : Bytes) → parts ≡ p ∷ [] → p ≡ name)
    → parts ≢ []
    → part ≡ c ∷ name
with_first-one c [] part name e ih n = absurd (n refl)
with_first-one c (p ∷ []) part name e ih n = cc (e, ih p refl)
with_first-one c (p ∷ q ∷ parts) part name e ih n = cc

with_first-ne-nil : (c : ℕ) (parts : List Bytes) → with_first c parts ≢ []
with_first-ne-nil c [] = cc
with_first-ne-nil c (p ∷ parts) = cc

split_dots-ne-nil : (name : Bytes) → split_dots name ≢ []
unfolding split_dots
split_dots-ne-nil [] = cc
split_dots-ne-nil (c ∷ cs) = elim (Bool-cases (c == b'.')) [
  | inl e ↦ rw (e, split_dots) (cc)
  | inr e ↦ rw (e, split_dots) (with_first-ne-nil c (split_dots cs))
]

split_dots-one : (name part : Bytes) → split_dots name ≡ part ∷ [] → part ≡ name
unfolding split_dots
split_dots-one [] part e = cc
split_dots-one (c ∷ cs) part e = elim (Bool-cases (c == b'.')) [
  | inl h ↦
      let empty : split_dots cs ≡ [] = cc (rw (h, split_dots) at e) in
      absurd (split_dots-ne-nil cs empty)
  | inr h ↦
      with_first-one c (split_dots cs) part cs (rw (h, split_dots) at e)
        (λ q same. split_dots-one cs q same) (split_dots-ne-nil cs)
]

read_parts-quote_split :
    (fuel : ℕ) (dialect : Dialect) (c : ℕ) (cs : Bytes) (parts : List Bytes) (rest : Bytes)
    → split_dots (c ∷ cs) ≡ parts
    → select is_filled parts ≢ []
    → length (select is_filled parts) ≤ fuel
    → is_mariadb dialect ≡ false
    → StartsBehind (delimiters dialect).1 rest
    → StartsBehind b'.' rest
    → read_parts fuel dialect (quote_split dialect (c ∷ cs) parts ++ rest)
      ≡ some (select is_filled parts, rest)
unfolding quote_split
read_parts-quote_split fuel dialect c cs [] rest e n l q h k = absurd (n refl)
read_parts-quote_split zero dialect c cs (p ∷ []) rest e n l q h k =
    let whole : p ≡ c ∷ cs = split_dots-one (c ∷ cs) p e in absurd (omega (arith, rw whole at l))
read_parts-quote_split (suc fuel) dialect c cs (p ∷ []) rest e n l q h k =
    let whole : p ≡ c ∷ cs = split_dots-one (c ∷ cs) p e in
    rw whole (read_last fuel dialect _ (c ∷ cs) rest (read_quote_ident dialect c cs rest q h) k)
read_parts-quote_split fuel dialect c cs (p ∷ s ∷ parts) rest e n l q h k =
    read_parts-quote_parts fuel dialect (c ∷ cs) (select is_filled (p ∷ s ∷ parts)) rest
      (select-IsFilled (p ∷ s ∷ parts)) n l q h k

-- For any dialect but mariadb, a table name that has a part of some length between its dots is quoted
-- into text which the database, by the quotes that it documents for names, reads as the parts that
-- are not empty, in their order, and nothing of what stands behind it, as long as that does not start
-- with a dot or with the closing quote.
pub read_parts-quote_table_name :
    (fuel : ℕ) (dialect : Dialect) (name rest : Bytes)
    → select is_filled (split_dots name) ≢ []
    → length (select is_filled (split_dots name)) ≤ fuel
    → is_mariadb dialect ≡ false
    → StartsBehind (delimiters dialect).1 rest
    → StartsBehind b'.' rest
    → read_parts fuel dialect (quote_table_name dialect name ++ rest)
      ≡ some (select is_filled (split_dots name), rest)
unfolding quote_table_name split_dots
read_parts-quote_table_name fuel dialect [] rest n l q h k = absurd (n refl)
read_parts-quote_table_name fuel dialect (c ∷ cs) rest n l q h k =
    read_parts-quote_split fuel dialect c cs (split_dots (c ∷ cs)) rest refl n l q h k
