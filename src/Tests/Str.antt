-- ===== src/Tests/Str.antt =====
-- src/kern/string.c at concrete inputs.
use illinux.Prelude.{ℕ, ◌≡◌, ◌↔◌, List, [], ◌∷◌}
use illinux.Prelude.Int.{pos}
use illinux.Str.{strncmp}
use illinux.Str.Compare.{strncmp_iff, SamePrefix}

abbrev ab : List ℕ
ab = 97 ∷ 98 ∷ []

abbrev a : List ℕ
a = 97 ∷ []

strncmp_iff_example : (strncmp (λ i. i) 1 (λ i. i) 1 3 ≡ pos 0) ↔ SamePrefix (λ i. i) 1 (λ i. i) 1 3
strncmp_iff_example = strncmp_iff (λ i. i) 1 (λ i. i) 1 3
