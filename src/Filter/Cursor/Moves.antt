-- ===== src/Filter/Cursor/Moves.antt =====
-- tokenizer.go: how far the loops of the cursor move over the input.
use go_odata.Prelude.{
  ℕ, zero, suc, ◌+◌, ◌-◌, ◌≤◌, ◌<◌, ◌≡◌, ◌≢◌, refl, sym, ap, ◌∙◌, Bool, true, false, [], ◌∷◌, ◌++◌,
  append_assoc, arith, Bytes, if◌then◌else◌, length, length-append, take-length-append,
}
use go_odata.Filter.Chars.{is_blank}
use go_odata.Filter.Cursor.{
  Tokenizer, ch, byte_at_head, advance, skip_from, skip_while, skip_up_to, slice, skip_whitespace,
}

-- The bytes from `t` up to `u` were passed.
pub record Moves (t u : Tokenizer) : Type 0 where
  pub passed : Bytes
  pub splits : t.rest ≡ passed ++ u.rest
  pub counts : u.pos ≡ t.pos + length passed
  pub mode : u.case_insensitive ≡ t.case_insensitive

-- At least one byte was passed.
pub record Takes (t u : Tokenizer) : Type 0 where
  pub moves : Moves t u
  pub further : t.pos < u.pos

pub Moves-refl : (t : Tokenizer) → Moves t t
Moves-refl t = record { passed = []; splits = refl; counts = omega arith; mode = refl }

pub Moves-trans : {t u v : Tokenizer} → Moves t u → Moves u v → Moves t v
Moves-trans {t} {u} {v} m n = record {
  passed = m.passed ++ n.passed;
  splits =
      m.splits ∙ ap (λ r. m.passed ++ r) n.splits ∙ sym (append_assoc m.passed n.passed v.rest);
  counts = omega (arith, length-append m.passed n.passed, m.counts, n.counts);
  mode = n.mode ∙ m.mode;
}

pub Moves-if :
    {t x y : Tokenizer} (b : Bool)
    → (b ≡ true → Moves t x)
    → (b ≡ false → Moves t y)
    → Moves t (if b then x else y)
Moves-if true hx hy = hx refl
Moves-if false hx hy = hy refl

pub Moves-forward : {t u : Tokenizer} → Moves t u → t.pos ≤ u.pos
Moves-forward m = omega (arith, m.counts)

pub Moves-balance : {t u : Tokenizer} → Moves t u → u.pos + length u.rest ≡ t.pos + length t.rest
Moves-balance {t} {u} m = omega (arith, ap length m.splits, length-append m.passed u.rest, m.counts)

pub Takes-then : {t u v : Tokenizer} → Takes t u → Moves u v → Takes t v
Takes-then k n = record {
  moves = Moves-trans k.moves n;
  further = omega (arith, k.further, n.counts);
}

pub then-Takes : {t u v : Tokenizer} → Moves t u → Takes u v → Takes t v
then-Takes m k = record {
  moves = Moves-trans m k.moves;
  further = omega (arith, k.further, m.counts);
}

pub Takes-shorter : {t u : Tokenizer} → Takes t u → length u.rest < length t.rest
Takes-shorter k = omega (arith, Moves-balance k.moves, k.further)

-- The text between two states is what was passed.
pub slice-passed : {t u : Tokenizer} (m : Moves t u) → slice t u ≡ m.passed
slice-passed {t} {u} m =
    let e : u.pos - t.pos ≡ length m.passed = omega (arith, m.counts) in
    rw (e, m.splits) (take-length-append m.passed u.rest)

advance_from :
    (t : Tokenizer) (rest : Bytes) → t.rest ≡ rest → byte_at_head rest ≢ 0 → Takes t (advance t)
unfolding advance
advance_from t [] e h = absurd (h refl)
advance_from t (c ∷ cs) e h = record {
  moves = record { passed = c ∷ []; splits = rw e; counts = omega arith; mode = refl };
  further = omega arith;
}

pub advance-Takes : (t : Tokenizer) → ch t ≢ 0 → Takes t (advance t)
advance-Takes t h = advance_from t t.rest refl h

-- A test that 0 fails tells the end of the input from a byte.
pub ne_zero : (test : ℕ → Bool) (c : ℕ) → test 0 ≡ false → test c ≡ true → c ≢ 0
ne_zero test c z h e = cc (ap test e)

skip_from-Moves :
    (test : ℕ → Bool) (mode : Bool) (n : ℕ) (rest : Bytes)
    → Moves (record { rest = rest; pos = n; case_insensitive = mode }) (skip_from test mode n rest)
unfolding skip_from
skip_from-Moves test mode n [] = Moves-refl _
skip_from-Moves test mode n (c ∷ cs) =
    Moves-if (test c)
      (λ _.
        Moves-trans (record { passed = c ∷ []; splits = refl; counts = omega arith; mode = refl })
          (skip_from-Moves test mode (n + 1) cs))
      (λ _. Moves-refl _)

pub skip_while-Moves : (test : ℕ → Bool) (t : Tokenizer) → Moves t (skip_while test t)
unfolding skip_while
skip_while-Moves test t = skip_from-Moves test t.case_insensitive t.pos t.rest

skip_from_takes :
    (test : ℕ → Bool) (mode : Bool) (n : ℕ) (rest : Bytes)
    → test 0 ≡ false
    → test (byte_at_head rest) ≡ true
    → n < (skip_from test mode n rest).pos
unfolding skip_from
skip_from_takes test mode n [] z h = cc
skip_from_takes test mode n (c ∷ cs) z h =
    rw h (omega (arith, Moves-forward (skip_from-Moves test mode (n + 1) cs)))

-- A loop whose test holds at the start passes a byte.
pub skip_while-Takes :
    (test : ℕ → Bool) (t : Tokenizer)
    → test 0 ≡ false
    → test (ch t) ≡ true
    → Takes t (skip_while test t)
unfolding skip_while
skip_while-Takes test t z h = record {
  moves = skip_while-Moves test t;
  further = skip_from_takes test t.case_insensitive t.pos t.rest z h;
}

pub skip_up_to-Moves :
    (test : ℕ → Bool) (bound : ℕ) (t : Tokenizer)
    → test 0 ≡ false
    → Moves t (skip_up_to test bound t)
unfolding skip_up_to
skip_up_to-Moves test zero t z = Moves-refl t
skip_up_to-Moves test (suc bound) t z =
    Moves-if (test (ch t))
      (λ h.
        Moves-trans (advance-Takes t (ne_zero test (ch t) z h)).moves
          (skip_up_to-Moves test bound (advance t) z))
      (λ _. Moves-refl t)

pub skip_up_to-Takes :
    (test : ℕ → Bool) (bound : ℕ) (t : Tokenizer)
    → test 0 ≡ false
    → test (ch t) ≡ true
    → Takes t (skip_up_to test (suc bound) t)
unfolding skip_up_to
skip_up_to-Takes test bound t z h = rw h (
    Takes-then (advance-Takes t (ne_zero test (ch t) z h))
      (skip_up_to-Moves test bound (advance t) z))

pub skip_whitespace-Moves : (t : Tokenizer) → Moves t (skip_whitespace t)
unfolding skip_whitespace
skip_whitespace-Moves t = skip_while-Moves is_blank t
