-- ===== src/Filter/Literals/Recoding.antt =====
-- Texts with their quotes doubled, and bytes that are encoded once more as if they were runes.
use go_odata.Prelude.{
  ℕ, ◌+◌, ◌<◌, ◌≡◌, refl, ap, true, [], ◌∷◌, ◌++◌, inl, inr, arith, Bytes, ltb, ◌==◌, if◌then◌else◌,
  Bool-cases, length, All,
}
use go_odata.Filter.Literals.{write_rune}

-- The text with each quote doubled.
abbrev pub double_quotes : ℕ → Bytes → Bytes
double_quotes quote [] = []
double_quotes quote (c ∷ s) =
    if c == quote then quote ∷ quote ∷ double_quotes quote s else c ∷ double_quotes quote s

-- Each byte, encoded as if it were a code point.
abbrev pub recode : Bytes → Bytes
recode [] = []
recode (c ∷ s) = write_rune c ++ recode s

-- The text whose bytes behind the first quote are encoded once more.
abbrev pub recode_behind : ℕ → Bytes → Bytes
recode_behind quote [] = []
recode_behind quote (c ∷ s) = if c == quote then c ∷ recode s else c ∷ recode_behind quote s

abbrev pub IsNonzero : ℕ → Type 0
IsNonzero c = 0 < c

abbrev pub IsAscii : ℕ → Type 0
IsAscii c = (0 < c) × (c < 128)

pub recode-ascii : (s : Bytes) → All IsAscii s → recode s ≡ s
unfolding write_rune
recode-ascii [] h = refl
recode-ascii (c ∷ s) h =
    let low : ltb c 128 ≡ true = ground arith in rw low (ap (◌∷◌ c) (recode-ascii s h.1))

pub recode_behind-ascii : (quote : ℕ) (s : Bytes) → All IsAscii s → recode_behind quote s ≡ s
recode_behind-ascii quote [] h = refl
recode_behind-ascii quote (c ∷ s) h = elim (Bool-cases (c == quote)) [
  | inl same ↦ rw same (ap (◌∷◌ c) (recode-ascii s h.1))
  | inr other ↦ rw other (ap (◌∷◌ c) (recode_behind-ascii quote s h.1))
]

-- A byte that is not ASCII takes two.
abbrev pub high_bytes : Bytes → ℕ
high_bytes [] = 0
high_bytes (c ∷ s) = (if ltb c 128 then 0 else 1) + high_bytes s

length-recode : (s : Bytes) → length (recode s) ≡ length s + high_bytes s
unfolding write_rune
length-recode [] = omega arith
length-recode (c ∷ s) = ground (arith, length-recode s)

-- The number of bytes that a literal gains: those behind its first quote that are not ASCII.
abbrev pub gained : ℕ → Bytes → ℕ
gained quote [] = 0
gained quote (c ∷ s) = if c == quote then high_bytes s else gained quote s

pub length-recode_behind :
    (quote : ℕ) (s : Bytes) → length (recode_behind quote s) ≡ length s + gained quote s
length-recode_behind quote [] = omega arith
length-recode_behind quote (c ∷ s) = ground (arith, length-recode s, length-recode_behind quote s)
