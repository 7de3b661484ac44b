-- ===== src/Filter/Literals/Strings.antt =====
-- Quoted strings: what `readString` makes of a text between quotes in which the quote is doubled.
use go_odata.Prelude.{
  ℕ, ◌+◌, ◌-◌, ◌<◌, ◌≡◌, ◌≢◌, refl, ap, ◌∙◌, Bool, true, false, [], ◌∷◌, ◌++◌, inl, inr,
  append_assoc, append-nil, arith, Bytes, ◌==◌, if◌then◌else◌, Bool-cases, length, length-append,
  take-length-append, All,
}
use go_odata.Filter.Cursor.{Tokenizer, byte_at_head, advance, skip_from, skip_while}
use go_odata.Filter.Literals.{write_rune, read_escaped, in_string, read_string}
use go_odata.Filter.Literals.Recoding.{double_quotes, recode, recode_behind, IsNonzero}

abbrev state : Bytes → Bool → ℕ → Tokenizer
state rest mode n = record { rest = rest; pos = n; case_insensitive = mode }

read_escaped_plain :
    (quote : ℕ) (result : Bytes) (mode : Bool) (n c : ℕ) (rest : Bytes)
    → rest ≢ []
    → 0 < c
    → (c == quote) ≡ false
    → read_escaped quote result mode n (c ∷ rest)
      ≡ read_escaped quote (result ++ write_rune c) mode (n + 1) rest
unfolding read_escaped
read_escaped_plain quote result mode n c [] ne pos other = absurd (ne refl)
read_escaped_plain quote result mode n c (d ∷ cs) ne pos other =
    let e : (c == 0) ≡ false = ground arith in rw (e, other)

read_escaped_double :
    (quote : ℕ) (result : Bytes) (mode : Bool) (n : ℕ) (rest : Bytes)
    → 0 < quote
    → read_escaped quote result mode n (quote ∷ quote ∷ rest)
      ≡ read_escaped quote (result ++ quote ∷ []) mode (n + 2) rest
unfolding read_escaped
read_escaped_double quote result mode n rest h =
    let e : (quote == 0) ≡ false = ground arith in
    let same : (quote == quote) ≡ true = ground arith in rw (e, same)

read_escaped_close :
    (quote : ℕ) (result : Bytes) (mode : Bool) (n : ℕ) (rest : Bytes)
    → 0 < quote
    → (byte_at_head rest == quote) ≡ false
    → read_escaped quote result mode n (quote ∷ rest) ≡ (result, state rest mode (n + 1))
unfolding read_escaped
read_escaped_close quote result mode n [] h other =
    let e : (quote == 0) ≡ false = ground arith in
    let same : (quote == quote) ≡ true = ground arith in rw (e, same)
read_escaped_close quote result mode n (d ∷ cs) h other =
    let e : (quote == 0) ≡ false = ground arith in
    let same : (quote == quote) ≡ true = ground arith in rw (e, same, other)

quoted-ne-nil : (quote : ℕ) (s rest : Bytes) → double_quotes quote s ++ quote ∷ rest ≢ []
quoted-ne-nil quote [] rest e = cc
quoted-ne-nil quote (c ∷ s) rest e = ground arith

read_escaped_lem :
    (quote : ℕ) (s rest result : Bytes) (mode : Bool) (n m : ℕ)
    → 0 < quote
    → quote < 128
    → All IsNonzero s
    → (byte_at_head rest == quote) ≡ false
    → m ≡ n + length (double_quotes quote s) + 1
    → read_escaped quote result mode n (double_quotes quote s ++ quote ∷ rest)
      ≡ (result ++ recode s, state rest mode m)
read_escaped_lem quote [] rest result mode n m q q' h other e =
    let e' : m ≡ n + 1 = omega arith in
    rw (e', append-nil) (read_escaped_close quote result mode n rest q other)
read_escaped_lem quote (c ∷ s) rest result mode n m q q' h other e =
    elim (Bool-cases (c == quote)) [
      | inl same ↦
          let c_is : c ≡ quote = ground arith in
          let ascii : write_rune c ≡ quote ∷ [] = unfold write_rune in ground arith in
          let m_is : m ≡ n + 2 + length (double_quotes quote s) + 1 =
            let two = rw same at e in omega arith in
          rw same (
            read_escaped_double quote result mode n _ q
            ∙ read_escaped_lem quote s rest _ mode (n + 2) m q q' h.1 other m_is
            ∙ rw (ascii, append_assoc))
      | inr plain ↦
          let m_is : m ≡ n + 1 + length (double_quotes quote s) + 1 =
            let one = rw plain at e in omega arith in
          rw plain (
            read_escaped_plain quote result mode n c _ (quoted-ne-nil quote s rest) h.0 plain
            ∙ read_escaped_lem quote s rest _ mode (n + 1) m q q' h.1 other m_is
            ∙ rw append_assoc)
    ]

-- Bytes that the fast path passes.
abbrev IsPlain : ℕ → ℕ → Type 0
IsPlain quote c = in_string quote c ≡ true

skip_plain :
    (quote : ℕ) (mode : Bool) (n m : ℕ) (a rest : Bytes)
    → All (IsPlain quote) a
    → in_string quote (byte_at_head rest) ≡ false
    → m ≡ n + length a
    → skip_from (in_string quote) mode n (a ++ rest) ≡ state rest mode m
unfolding skip_from
skip_plain quote mode n m [] [] h stop e = let e' : m ≡ n = omega arith in rw e'
skip_plain quote mode n m [] (c ∷ rest) h stop e = let e' : m ≡ n = omega arith in rw (e', stop)
skip_plain quote mode n m (c ∷ a) rest h stop e =
    rw h.0 (skip_plain quote mode (n + 1) m a rest h.1 stop (omega arith))

-- A text has no quote, or is split at its first.
data FirstQuote (quote : ℕ) (s : Bytes) : Type 0 where
  absent : All (IsPlain quote) s → FirstQuote quote s
  present :
      (a b : Bytes)
      → All (IsPlain quote) a
      → All IsNonzero b
      → s ≡ a ++ quote ∷ b
      → FirstQuote quote s

FirstQuote-cons :
    (quote c : ℕ) (s : Bytes) → IsPlain quote c → FirstQuote quote s → FirstQuote quote (c ∷ s)
FirstQuote-cons quote c s p (absent h) = absent (p, h)
FirstQuote-cons quote c s p (present a b h k e) = present (c ∷ a) b (p, h) k (ap (◌∷◌ c) e)

first_quote : (quote : ℕ) (s : Bytes) → All IsNonzero s → FirstQuote quote s
first_quote quote [] h = absent tt
first_quote quote (c ∷ s) h = elim (Bool-cases (c == quote)) [
  | inl same ↦ let e : c ≡ quote = ground arith in present [] s tt h.1 (ap (λ x. x ∷ s) e)
  | inr other ↦ FirstQuote-cons quote c s (ground arith) (first_quote quote s h.1)
]

double_quotes-plain :
    (quote : ℕ) (a rest : Bytes)
    → All (IsPlain quote) a
    → double_quotes quote (a ++ rest) ≡ a ++ double_quotes quote rest
double_quotes-plain quote [] rest h = refl
double_quotes-plain quote (c ∷ a) rest h =
    let other : (c == quote) ≡ false = ground arith in
    rw other (ap (◌∷◌ c) (double_quotes-plain quote a rest h.1))

recode_behind-plain :
    (quote : ℕ) (a rest : Bytes)
    → All (IsPlain quote) a
    → recode_behind quote (a ++ rest) ≡ a ++ recode_behind quote rest
recode_behind-plain quote [] rest h = refl
recode_behind-plain quote (c ∷ a) rest h =
    let other : (c == quote) ≡ false = ground arith in
    rw other (ap (◌∷◌ c) (recode_behind-plain quote a rest h.1))

-- `readString` once the fast path is known to stop at `rest`, a quote first.
read_string_at :
    (quote : ℕ) (mode : Bool) (n : ℕ) (a behind : Bytes)
    → 0 < quote
    → All (IsPlain quote) a
    → read_string (state (quote ∷ (a ++ quote ∷ behind)) mode n) ≡ (
        if byte_at_head behind == quote
        then read_escaped quote a mode (n + 1 + length a) (quote ∷ behind)
        else (a, state behind mode (n + 1 + length a + 1)))
unfolding read_string advance skip_while
read_string_at quote mode n a behind q h =
    let stop : in_string quote quote ≡ false = ground arith in
    let some_quote : (quote == 0) ≡ false = ground arith in
    let length_is : n + 1 + length a - (n + 1) ≡ length a = omega arith in
    rw (
      skip_plain quote mode (n + 1) (n + 1 + length a) a (quote ∷ behind) h stop refl,
      some_quote,
      length_is,
      take-length-append a (quote ∷ behind),
    )

read_string_absent :
    (quote : ℕ) (s rest : Bytes) (mode : Bool) (n : ℕ)
    → 0 < quote
    → (byte_at_head rest == quote) ≡ false
    → All (IsPlain quote) s
    → read_string (state (quote ∷ (double_quotes quote s ++ quote ∷ rest)) mode n)
      ≡ (recode_behind quote s, state rest mode (n + length (double_quotes quote s) + 2))
read_string_absent quote s rest mode n q other h =
    let same = double_quotes-plain quote s [] h in
    let kept = recode_behind-plain quote s [] h in
    let m_is : n + 1 + length s + 1 ≡ n + length s + 2 = omega arith in
    rw (rw append-nil at same, rw append-nil at kept)
      (read_string_at quote mode n s rest q h ∙ rw (other, m_is))

read_string_present :
    (quote : ℕ) (a b rest : Bytes) (mode : Bool) (n : ℕ)
    → 0 < quote
    → quote < 128
    → (byte_at_head rest == quote) ≡ false
    → All (IsPlain quote) a
    → All IsNonzero b
    → read_string (state (quote ∷ (double_quotes quote (a ++ quote ∷ b) ++ quote ∷ rest)) mode n)
      ≡ (
        recode_behind quote (a ++ quote ∷ b),
        state rest mode (n + length (double_quotes quote (a ++ quote ∷ b)) + 2),
      )
read_string_present quote a b rest mode n q q' other h k =
    let same : (quote == quote) ≡ true = ground arith in
    let twice = rw same at (double_quotes-plain quote a (quote ∷ b) h) in
    let kept = rw same at (recode_behind-plain quote a (quote ∷ b) h) in
    rw (twice, kept, append_assoc a (quote ∷ quote ∷ double_quotes quote b) (quote ∷ rest))
      (read_string_at quote mode n a (quote ∷ (double_quotes quote b ++ quote ∷ rest)) q h
        ∙ rw same (
            read_escaped_double quote a mode _ _ q
            ∙ read_escaped_lem quote b rest _ mode _
                (n + length (a ++ quote ∷ quote ∷ double_quotes quote b) + 2) q q' k other
                (omega (arith, length-append a (quote ∷ quote ∷ double_quotes quote b)))
            ∙ rw append_assoc))

pub read_string-double_quotes :
    (quote : ℕ) (s rest : Bytes) (mode : Bool) (n : ℕ)
    → 0 < quote
    → quote < 128
    → (byte_at_head rest == quote) ≡ false
    → All IsNonzero s
    → read_string (state (quote ∷ (double_quotes quote s ++ quote ∷ rest)) mode n)
      ≡ (recode_behind quote s, state rest mode (n + length (double_quotes quote s) + 2))
read_string-double_quotes quote s rest mode n q q' other h = elim (first_quote quote s h) [
  | absent p ↦ read_string_absent quote s rest mode n q other p
  | present a b p k e ↦ rw e (read_string_present quote a b rest mode n q q' other p k)
]
