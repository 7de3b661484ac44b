-- ===== src/Etag/Examples.antt =====
-- The theorems on entity tags, applied to a list of two.
use go_odata.Prelude.{◌≡◌, refl, [], ◌∷◌, some, arith, codes, ◌==◌, any}
use go_odata.Etag.{generate, match, parse}
use go_odata.Etag.Headers.{tag, header_of, match-header_of}

generated : generate (some 0x0123456789abcdef) ≡ codes "W/\"0123456789abcdef\""
unfolding generate
generated = refl

strong : parse (codes "\"v1\"") ≡ codes "v1"
unfolding parse
strong = refl

match-header_of_example :
    match (header_of 7 (1000 ∷ [])) (tag 1000) ≡ any (λ k. k == 1000) (7 ∷ 1000 ∷ [])
match-header_of_example =
    match-header_of 1000 7 (1000 ∷ []) (omega arith) (omega arith, (omega arith, tt))
