-- ===== src/Thread/Queue.antt =====
-- src/kern/thread.c: a list of threads as a queue.
use illinux.Prelude.{
  ℕ, ◌≡◌, ◌≢◌, refl, sym, subst, Bool, true, false, ◌||◌, Option, none, some, List, [], ◌∷◌, ◌++◌,
  ◌==◌, arith,
}
use illinux.Thread.Lists.{Links, ThreadList}

abbrev pub has : ℕ → List ℕ → Bool
has a [] = false
has a (x ∷ xs) = (a == x) || has a xs

abbrev pub last : ℕ → List ℕ → ℕ
last q [] = q
last q (r ∷ rs) = last r rs

abbrev pub end_of : List ℕ → Option ℕ
end_of [] = none
end_of (q ∷ qs) = some (last q qs)

-- The links lead from `h` through the threads to NULL.
abbrev pub Chain : Links → Option ℕ → List ℕ → Type 0
Chain next h [] = h ≡ none
Chain next h (p ∷ ps) = (h ≡ some p) × Chain next (next p) ps

abbrev pub Distinct : List ℕ → Type 0
Distinct [] = Unit {0}
Distinct (p ∷ ps) = (has p ps ≡ false) × Distinct ps

-- The list stands for the queue `qs`, the first to be removed in front.
pub record IsQueue (next : Links) (l : ThreadList) (qs : List ℕ) : Type 0 where
  pub chain : Chain next l.head qs
  pub end : l.tail ≡ end_of qs
  pub distinct : Distinct qs

pub Chain-frame :
    (next next' : Links) (h : Option ℕ) (qs : List ℕ)
    → ((a : ℕ) → has a qs ≡ true → next' a ≡ next a)
    → Chain next h qs
    → Chain next' h qs
Chain-frame next next' h [] same c = c
Chain-frame next next' h (p ∷ ps) same c =
    let here : next' p ≡ next p = same p (ground arith) in
    (
      c.0,
      subst (λ x. Chain next' x ps) (sym here)
          (Chain-frame next next' (next p) ps (λ a i. same a (ground (arith, i))) c.1),
    )

pub has-last : (q : ℕ) (qs : List ℕ) → has (last q qs) (q ∷ qs) ≡ true
has-last q [] = ground arith
has-last q (r ∷ rs) = ground (arith, has-last r rs)

pub not_eq_of_has : (a b : ℕ) (qs : List ℕ) → has a qs ≡ false → has b qs ≡ true → a ≢ b
not_eq_of_has a b qs out in_qs e = ground (arith, subst (λ x. has x qs ≡ false) e out)

pub has-append : (a : ℕ) (xs ys : List ℕ) → has a (xs ++ ys) ≡ (has a xs || has a ys)
has-append a [] ys = refl
has-append a (x ∷ xs) ys = ground (arith, has-append a xs ys)

-- A chain goes on where its last thread is linked to another chain.
pub link :
    (next next' : Links) (h : Option ℕ) (q : ℕ) (qs ys : List ℕ)
    → Chain next h (q ∷ qs)
    → Distinct (q ∷ qs)
    → ((a : ℕ) → has a (q ∷ qs) ≡ true → a ≢ last q qs → next' a ≡ next a)
    → Chain next' (next' (last q qs)) ys
    → Chain next' h ((q ∷ qs) ++ ys)
link next next' h q [] ys c d same rest = (c.0, rest)
link next next' h q (r ∷ rs) ys c d same rest =
    let apart : q ≢ last r rs = not_eq_of_has q (last r rs) (r ∷ rs) d.0 (has-last r rs) in
    let here : next' q ≡ next q = same q (ground arith) apart in
    (
      c.0,
      subst (λ x. Chain next' x ((r ∷ rs) ++ ys)) (sym here)
          (link next next' (next q) r rs ys c.1 d.1 (λ a i ne. same a (ground (arith, i)) ne) rest),
    )

pub last-append : (q r : ℕ) (qs rs : List ℕ) → last q (qs ++ (r ∷ rs)) ≡ last r rs
last-append q r [] rs = refl
last-append q r (x ∷ qs) rs = last-append x r qs rs

pub Distinct-append :
    (xs ys : List ℕ)
    → Distinct xs
    → Distinct ys
    → ((a : ℕ) → has a xs ≡ true → has a ys ≡ false)
    → Distinct (xs ++ ys)
Distinct-append [] ys dx dy apart = dy
Distinct-append (x ∷ xs) ys dx dy apart = (
  rw (has-append x xs ys, dx.0) (apart x (ground arith)),
  Distinct-append xs ys dx.1 dy (λ a i. apart a (ground (arith, i))),
)
