-- ===== src/Prelude/Text.antt =====
-- Go strings as lists of bytes, and the functions of package strings that the source calls.
use Prim.Native.Char.{code}
use Prim.Native.String.{String}
use Prim.Native.Nat.{ℕ}
use mathlib.Core.Path.{◌≡◌}
use mathlib.Core.Logic.{◌↔◌}
use mathlib.Core.Bool.{Bool, true, false, ◌&&◌, ◌||◌}
use mathlib.Core.List.{List, [], ◌∷◌, reverse}
use native.Mathlib.Omega.{arith}
use go_odata.Prelude.Tests.{leb, ◌==◌, if◌then◌else◌}

abbrev pub Bytes : Type 0
Bytes = List ℕ

-- The bytes of an ASCII literal.
abbrev pub codes : String → Bytes
codes String.[] = []
codes (String.◌∷◌ c s) = code c ∷ codes s

abbrev pub within : ℕ → ℕ → ℕ → Bool
within lo hi c = leb lo c && leb c hi

-- `a == b` on strings.
unfoldable pub bytes_eq : Bytes → Bytes → Bool
bytes_eq [] [] = true
bytes_eq (x ∷ xs) (y ∷ ys) = x == y && bytes_eq xs ys
bytes_eq _ _ = false

pub bytes_eq_iff : (a b : Bytes) → (bytes_eq a b ≡ true) ↔ (a ≡ b)
unfolding bytes_eq
bytes_eq_iff (x ∷ a) (y ∷ b) = ground (arith, bytes_eq_iff a b)
bytes_eq_iff _ _ = ground arith

-- `strings.HasPrefix`.
unfoldable pub has_prefix : Bytes → Bytes → Bool
has_prefix s [] = true
has_prefix [] (_ ∷ _) = false
has_prefix (x ∷ xs) (y ∷ ys) = x == y && has_prefix xs ys

-- The white space of package unicode in UTF-8: by its bytes, of which there are one, two or three.
abbrev pub is_space : ℕ → Bool
is_space c = c == b' ' || within 9 13 c

abbrev pub is_space2 : ℕ → ℕ → Bool
is_space2 c d = c == 0xc2 && (d == 0x85 || d == 0xa0)

abbrev pub is_space3 : ℕ → ℕ → ℕ → Bool
is_space3 c d e =
    c == 0xe1 && d == 0x9a && e == 0x80
    || c == 0xe2 && d == 0x80 && (within 0x80 0x8a e || e == 0xa8 || e == 0xa9 || e == 0xaf)
    || c == 0xe2 && d == 0x81 && e == 0x9f
    || c == 0xe3 && d == 0x80 && e == 0x80

-- The text behind the white space at its front; the tests take the bytes in the order of the text.
unfoldable pub trim_with : (ℕ → ℕ → Bool) → (ℕ → ℕ → ℕ → Bool) → Bytes → Bytes
trim_with two three [] = []
trim_with two three (c ∷ []) = if is_space c then [] else c ∷ []
trim_with two three (c ∷ d ∷ []) =
    let one = trim_with two three (d ∷ []) in
    if is_space c then one else if two c d then [] else c ∷ d ∷ []
trim_with two three (c ∷ d ∷ e ∷ cs) =
    let one = trim_with two three (d ∷ e ∷ cs) in
    let second = trim_with two three (e ∷ cs) in
    let third = trim_with two three cs in
    if is_space c
    then one
    else if two c d
    then second
    else if three c d e
    then third
    else c ∷ d ∷ e ∷ cs

-- `strings.TrimSpace`
unfoldable pub trim_bytes : Bytes → Bytes
unfolding trim_with
trim_bytes s =
    let behind = trim_with is_space2 is_space3 s in
    reverse (trim_with (λ d c. is_space2 c d) (λ e d c. is_space3 c d e) (reverse behind))
