-- ===== src/Process/Sum.antt =====
-- Sums over the first places of a table.
use illinux.Prelude.{
  ℕ, zero, suc, ◌+◌, ◌*◌, ◌≤◌, ◌<◌, ◌≡◌, ◌≢◌, refl, ap, arith, ◌==◌, Bool-cases, inl, inr,
}

abbrev pub sum : (ℕ → ℕ) → ℕ → ℕ
sum f zero = 0
sum f (suc n) = sum f n + f n

-- Two tables that differ at one place at most.
pub sum_change :
    (f g : ℕ → ℕ) (i n : ℕ)
    → ((k : ℕ) → k ≢ i → f k ≡ g k)
    → (i < n → sum g n + f i ≡ sum f n + g i) × (n ≤ i → sum g n ≡ sum f n)
sum_change f g i zero same = (λ lt. absurd (omega arith), λ le. refl)
sum_change f g i (suc n) same =
    let before = sum_change f g i n same in
    elim (Bool-cases (n == i)) [
      | inl here ↦
          let same_place : n ≡ i = ground arith in
          let of_f : f n ≡ f i = ap f same_place in
          let of_g : g n ≡ g i = ap g same_place in
          let kept = before.1 (omega arith) in (λ lt. omega arith, λ le. absurd (omega arith))
      | inr other ↦
          let apart : n ≢ i = ground arith in
          let equal = same n apart in
          (λ lt. omega (arith, before.0 (omega arith)), λ le. omega (arith, before.1 (omega arith)))
    ]

-- A place of a table is at most its sum.
pub le-sum : (f : ℕ → ℕ) (i n : ℕ) → i < n → f i ≤ sum f n
le-sum f i zero lt = absurd (omega arith)
le-sum f i (suc n) lt = elim (Bool-cases (n == i)) [
  | inl here ↦ let same : f n ≡ f i = ap f (ground arith) in omega arith
  | inr other ↦ omega (arith, le-sum f i n (ground arith))
]

pub sum-le : (f : ℕ → ℕ) (b n : ℕ) → ((k : ℕ) → f k ≤ b) → sum f n ≤ n * b
sum-le f b zero all = omega arith
sum-le f b (suc n) all = grind (arith, sum-le f b n all, all n)
