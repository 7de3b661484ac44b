-- ===== src/Filter/Tokenizer/Progress.antt =====
-- tokenizer.go: the progress of `NextToken`, and the tokens of `TokenizeAll`.
use go_odata.Prelude.{
  ℕ, zero, suc, ◌+◌, ◌≤◌, ◌<◌, ◌≡◌, ◌≢◌, refl, Bool, true, false, List, [], ◌∷◌, none, some, arith,
  Result, ok, err, ◌>>=◌, Ensures, holds, failed, Ensures-if, Ensures-bind, Bytes, ◌==◌,
  if◌then◌else◌, length,
}
use go_odata.Filter.Token.{Token}
use go_odata.Filter.Cursor.{Tokenizer, new_tokenizer, ch, skip_whitespace}
use go_odata.Filter.Cursor.Moves.{
  Moves, Takes, then-Takes, Moves-balance, Takes-shorter, Moves-forward, skip_whitespace-Moves,
}
use go_odata.Filter.Tokenizer.{
  Found, token_at, next_token, tokenize_from, tokenize_all, TokenError, unexpected_character,
}
use go_odata.Filter.Tokenizer.Attempts.{
  is_eof, FoundTakes, FoundTakes-or_else, tokenize_string-Takes, tokenize_number-Takes,
  tokenize_special_char-Takes, tokenize_identifier-Takes, nothing, found,
}

-- What `NextToken` promises of a token and the state behind it: the token is the end of the
-- input, or it took a byte; it stands between the two states.
pub data Next (t : Tokenizer) : Token × Tokenizer → Type 0 where
  at_end :
      {token : Token} {u : Tokenizer}
      → Moves t u
      → token.pos ≡ u.pos
      → is_eof token.type ≡ true
      → Next t (token, u)
  taken :
      {token : Token} {u : Tokenizer}
      → Takes t u
      → t.pos ≤ token.pos
      → token.pos < u.pos
      → is_eof token.type ≡ false
      → Next t (token, u)

found-Next :
    {t : Tokenizer} (here : Tokenizer) (o : Found)
    → Moves t here
    → FoundTakes here.pos here o
    → Ensures
        (Next t)
        (elim o [ some f ↦ ok f | none ↦ err (unexpected_character (ch here) here.pos) ])
found-Next here none m nothing = failed
found-Next here (some (token, u)) m (found k p e) =
    holds
      (taken (then-Takes m k) (omega (arith, p, Moves-forward m)) (omega (arith, p, k.further)) e)

token_at-Next :
    {t : Tokenizer} (here : Tokenizer)
    → Moves t here
    → ch here ≢ 0
    → Ensures (Next t) (token_at here)
unfolding token_at
token_at-Next here m h = found-Next here _ m (
    FoundTakes-or_else _ _ (tokenize_string-Takes here) (
      FoundTakes-or_else _ _ (tokenize_number-Takes here) (
        FoundTakes-or_else _ _ (tokenize_special_char-Takes here h)
          (tokenize_identifier-Takes here h))))

pub next_token-Next : (t : Tokenizer) → Ensures (Next t) (next_token t)
unfolding next_token
next_token-Next t =
    let here = skip_whitespace t in
    Ensures-if (ch here == 0) (λ _. holds (at_end (skip_whitespace-Moves t) refl refl))
      (λ h. token_at-Next here (skip_whitespace-Moves t) (ground arith))

-- Tokens in the order of their positions, at or behind `from`; the last is the only one that is
-- the end of the input, and stands within the `size` bytes.
pub data Stream (size : ℕ) : ℕ → List Token → Type 0 where
  last :
      {from : ℕ} {token : Token}
      → from ≤ token.pos
      → token.pos ≤ size
      → is_eof token.type ≡ true
      → Stream size from (token ∷ [])
  more :
      {from next : ℕ} {token : Token} {tokens : List Token}
      → from ≤ token.pos
      → token.pos < next
      → is_eof token.type ≡ false
      → Stream size next tokens
      → Stream size from (token ∷ tokens)

-- One round of the loop, for what the rounds behind it give.
round-Stream :
    (size : ℕ) (t : Tokenizer) (f : Token × Tokenizer) (rest : Result TokenError (List Token))
    → t.pos + length t.rest ≡ size
    → Next t f
    → (Takes t f.1 → Ensures (Stream size f.1.pos) rest)
    → Ensures
        (Stream size t.pos)
        (if is_eof f.0.type then ok (f.0 ∷ []) else rest >>= λ tokens. ok (f.0 ∷ tokens))
round-Stream size t f rest e (at_end {u} m p end) later =
    rw end
      (holds (last (omega (arith, p, Moves-forward m)) (omega (arith, p, Moves-balance m)) end))
round-Stream size t f rest e (taken k lo hi go_on) later =
    rw go_on (Ensures-bind (later k) λ tokens s. holds (more lo hi go_on s))

tokenize_from-Stream :
    (size fuel : ℕ) (t : Tokenizer)
    → length t.rest < fuel
    → t.pos + length t.rest ≡ size
    → Ensures (Stream size t.pos) (tokenize_from fuel t)
unfolding tokenize_from
tokenize_from-Stream size zero t h e = absurd (omega arith)
tokenize_from-Stream size (suc fuel) t h e = Ensures-bind (next_token-Next t) λ f n.
    round-Stream size t f _ e n λ k.
      tokenize_from-Stream size fuel f.1 (omega (arith, Takes-shorter k))
        (omega (arith, Moves-balance k.moves))

-- The tokenizer ends on every input, in either mode: it returns an error, or tokens whose
-- positions strictly increase within the input, of which the last and no other is the end of the
-- input.
pub tokenize_all-Stream :
    (input : Bytes) (mode : Bool) → Ensures (Stream (length input) 0) (tokenize_all input mode)
unfolding tokenize_all
tokenize_all-Stream input mode =
    tokenize_from-Stream (length input) (length input + 1) (new_tokenizer input mode) (omega arith)
      (omega arith)
