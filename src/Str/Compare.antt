-- ===== src/Str/Compare.antt =====
-- src/kern/string.c: `strcmp` and `strncmp` on equal and on different strings.
use illinux.Prelude.{
  ℕ, zero, suc, ◌+◌, ◌<◌, ◌≡◌, ◌≢◌, ◌↔◌, refl, List, [], ◌∷◌, some, ◌==◌, arith, inl, inr,
  Bool-cases,
}
use native.Mathlib.Nat.{add-zero}
use illinux.Prelude.Int.{pos}
use illinux.Mem.{Mem}
use illinux.Str.{strcmp_chars, strcmp, strncmp}

-- No character of the string is the NUL.
abbrev pub IsText : List ℕ → Type 0
IsText [] = Unit {0}
IsText (c ∷ cs) = (c ≢ 0) × IsText cs

strcmp_chars_refl : (s : List ℕ) → strcmp_chars s s ≡ pos 0
unfolding strcmp_chars
strcmp_chars_refl [] = refl
strcmp_chars_refl (c ∷ cs) = ground (arith, strcmp_chars_refl cs)

pub strcmp_refl : (s : List ℕ) → strcmp (some s) (some s) ≡ pos 0
unfolding strcmp
strcmp_refl s = strcmp_chars_refl s

eq_of_strcmp_chars : (s t : List ℕ) → IsText s → IsText t → strcmp_chars s t ≡ pos 0 → s ≡ t
unfolding strcmp_chars
eq_of_strcmp_chars [] [] hs ht h = refl
eq_of_strcmp_chars [] (y ∷ ys) hs ht h = ground arith
eq_of_strcmp_chars (x ∷ xs) [] hs ht h = ground arith
eq_of_strcmp_chars (x ∷ xs) (y ∷ ys) hs ht h = ground (arith, eq_of_strcmp_chars xs ys hs.1 ht.1)

-- On strings without a NUL inside, `strcmp` returns 0 exactly when they are equal.
pub strcmp_iff : (s t : List ℕ) → IsText s → IsText t → (strcmp (some s) (some t) ≡ pos 0) ↔ (s ≡ t)
unfolding strcmp
strcmp_iff s t hs ht = (eq_of_strcmp_chars s t hs ht, λ e. subst_chars e)
  where
    subst_chars : s ≡ t → strcmp_chars s t ≡ pos 0
    subst_chars e = rw (← e) (strcmp_chars_refl s)

suc_add_shift : (p k : ℕ) → p + 1 + k ≡ p + suc k
suc_add_shift p k = omega arith

-- The strings agree at each of the first `n` places that no NUL of the first comes before.
abbrev pub SamePrefix : Mem → ℕ → Mem → ℕ → ℕ → Type 0
SamePrefix s p t q n = (k : ℕ) → k < n → ((i : ℕ) → i < k → s (p + i) ≢ 0) → s (p + k) ≡ t (q + k)

-- One round of the loop, read backwards.
strncmp_step :
    (s : Mem) (p : ℕ) (t : Mem) (q n : ℕ)
    → strncmp s p t q (suc n) ≡ pos 0
    → (s p ≡ t q) × (s p ≢ 0 → strncmp s (p + 1) t (q + 1) n ≡ pos 0)
unfolding strncmp
strncmp_step s p t q n h = (ground arith, ground arith)

strncmp-SamePrefix :
    (s : Mem) (p : ℕ) (t : Mem) (q n : ℕ) → strncmp s p t q n ≡ pos 0 → SamePrefix s p t q n
strncmp-SamePrefix s p t q zero h k lt none_before = absurd (omega arith)
strncmp-SamePrefix s p t q (suc n) h zero lt none_before =
    simp add-zero (strncmp_step s p t q n h).0
strncmp-SamePrefix s p t q (suc n) h (suc k) lt none_before =
    let here : s p ≢ 0 = simp add-zero at (none_before 0 (omega arith)) in
    let rest : strncmp s (p + 1) t (q + 1) n ≡ pos 0 = (strncmp_step s p t q n h).1 here in
    simp (← suc_add_shift) (
      strncmp-SamePrefix s (p + 1) t (q + 1) n rest k (omega arith)
        (λ i lt_i. simp suc_add_shift (none_before (suc i) (omega arith))))

SamePrefix-tail :
    (s : Mem) (p : ℕ) (t : Mem) (q n : ℕ)
    → s p ≢ 0
    → SamePrefix s p t q (suc n)
    → SamePrefix s (p + 1) t (q + 1) n
SamePrefix-tail s p t q n here same k lt none_before =
    simp suc_add_shift (same (suc k) (omega arith) shifted)
  where
    shifted : (i : ℕ) → i < suc k → s (p + i) ≢ 0
    shifted zero lt_i = simp add-zero here
    shifted (suc i) lt_i = simp (← suc_add_shift) (none_before i (omega arith))

strncmp_of_SamePrefix :
    (s : Mem) (p : ℕ) (t : Mem) (q n : ℕ) → SamePrefix s p t q n → strncmp s p t q n ≡ pos 0
unfolding strncmp
strncmp_of_SamePrefix s p t q zero same = refl
strncmp_of_SamePrefix s p t q (suc n) same = elim (Bool-cases (s p == 0)) [
  | inl end ↦ ground (arith, first)
  | inr more ↦ ground (
    arith,
    first,
    strncmp_of_SamePrefix s (p + 1) t (q + 1) n (SamePrefix-tail s p t q n (ground arith) same),
  )
]
  where
    first : s p ≡ t q
    first = simp add-zero at (same 0 (omega arith) (λ i lt. absurd (omega arith)))

-- `strncmp` returns 0 exactly when the strings agree up to the NUL, or on `n` characters.
pub strncmp_iff :
    (s : Mem) (p : ℕ) (t : Mem) (q n : ℕ) → (strncmp s p t q n ≡ pos 0) ↔ SamePrefix s p t q n
strncmp_iff s p t q n = (strncmp-SamePrefix s p t q n, strncmp_of_SamePrefix s p t q n)
