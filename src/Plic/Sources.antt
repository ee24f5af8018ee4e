-- ===== src/Plic/Sources.antt =====
-- src/kern/plic.c: which sources a context takes.
use illinux.Prelude.{
  ℕ, ◌-◌, ◌/◌, ◌%◌, ◌<◌, ◌≡◌, ◌≢◌, refl, sym, ap, ◌∙◌, arith, max, min, Bool, true, false, ◌==◌,
  ◌&&◌, if◌then◌else◌, lt→ltb, Bool-cases, ◌⊎◌, inl, inr,
}
use illinux.Bits.{
  set_bit, bit, bit_and, bit_or, bit_not, one_bit, bit-bit_and, bit-bit_or, bit-bit_not,
  bit-one_bit, bit_bound,
}
use illinux.Mem.{Mem, store, store_same, store_other}
use illinux.Plic.{enable_word, plic_enable_source_for_context, plic_disable_source_for_context}

-- The bit that tells whether the context takes the source.
abbrev pub enabled : Mem → ℕ → ℕ → ℕ
enabled r ctxno srcno = bit (srcno % 32) (r (enable_word ctxno srcno))

abbrev pub same_source : ℕ → ℕ → ℕ → ℕ → Bool
same_source ctxno srcno c s = (ctxno == c) && (srcno == s)

word_cases :
    (ctxno srcno c s : ℕ)
    → srcno < 1024
    → s < 1024
    → (enable_word c s ≢ enable_word ctxno srcno)
      ⊎ ((enable_word c s ≡ enable_word ctxno srcno) × (c ≡ ctxno) × (s / 32 ≡ srcno / 32))
word_cases ctxno srcno c s ls lt = elim (Bool-cases (enable_word c s == enable_word ctxno srcno)) [
  | inl e ↦ inr (
    ground (arith, e),
    omega (arith, ls, lt, word_eq c s ctxno srcno e),
    omega (arith, ls, lt, word_eq c s ctxno srcno e),
  )
  | inr ne ↦ inl (λ e. ground (arith, ne, e))
]
  where
    word_eq :
        (c s ctxno srcno : ℕ)
        → (enable_word c s == enable_word ctxno srcno) ≡ true
        → enable_word c s ≡ enable_word ctxno srcno
    word_eq c s ctxno srcno e = ground (arith, e)

same_bit :
    (ctxno srcno c s : ℕ)
    → c ≡ ctxno
    → s / 32 ≡ srcno / 32
    → (s % 32 == srcno % 32) ≡ same_source ctxno srcno c s
same_bit ctxno srcno c s ec es = ground (arith, ec, es)

other_source :
    (ctxno srcno c s : ℕ)
    → enable_word c s ≢ enable_word ctxno srcno
    → same_source ctxno srcno c s ≡ false
other_source ctxno srcno c s ne = ground (arith, ne)

clear_bit : (x : ℕ) (b : Bool) → x < 2 → min x (1 - (if b then 1 else 0)) ≡ (if b then 0 else x)
clear_bit x b lt = ground (arith, lt)

-- A store of a word that changes one of its bits changes that source's bit of the context, and leaves
-- all others as they are.
store-bit :
    (r : Mem) (ctxno srcno c s word new : ℕ)
    → srcno < 1024
    → s < 1024
    → ((k : ℕ)
        → k < 32
        → bit k word ≡ (if k == srcno % 32 then new else bit k (r (enable_word ctxno srcno))))
    → enabled (store r (enable_word ctxno srcno) word) c s
      ≡ (if same_source ctxno srcno c s then new else enabled r c s)
store-bit r ctxno srcno c s word new ls lt bits =
    let a = enable_word ctxno srcno in
    elim (word_cases ctxno srcno c s ls lt) [
      | inl ne ↦
          ap (bit (s % 32)) (store_other r a word (enable_word c s) ne)
          ∙ rw (other_source ctxno srcno c s ne) refl
      | inr (e, ec, es) ↦
          ap (bit (s % 32)) (store_same r a word (enable_word c s) e)
          ∙ bits (s % 32) (omega arith)
          ∙ ap (λ (b : Bool). if b then new else bit (s % 32) (r a))
              (same_bit ctxno srcno c s ec es)
          ∙ ap (λ (x : ℕ). if same_source ctxno srcno c s then new else bit (s % 32) (r x)) (sym e)
    ]

-- Enabling a source sets its bit for the context, and leaves all other sources and the other context's
-- bits as they are.
pub plic_enable_source_for_context_lem :
    (r : Mem) (ctxno srcno c s : ℕ)
    → ctxno < 2
    → srcno < 1024
    → s < 1024
    → enabled (plic_enable_source_for_context ctxno srcno r) c s
      ≡ (if same_source ctxno srcno c s then 1 else enabled r c s)
unfolding plic_enable_source_for_context
plic_enable_source_for_context_lem r ctxno srcno c s lc ls lt =
    let w = r (enable_word ctxno srcno) in
    rw (lt→ltb ctxno 2 lc, lt→ltb srcno 1024 ls)
      (store-bit r ctxno srcno c s (bit_or 32 w (one_bit (srcno % 32))) 1 ls lt (λ k lk.
        bit-bit_or 32 w (one_bit (srcno % 32)) k lk
        ∙ ap (max (bit k w)) (bit-one_bit k (srcno % 32))
        ∙ set_bit (bit k w) (k == srcno % 32) (bit_bound k w)))

-- Disabling a source clears its bit for the context, and leaves all other sources and the other
-- context's bits as they are.
pub plic_disable_source_for_context_lem :
    (r : Mem) (ctxno srcno c s : ℕ)
    → ctxno < 2
    → srcno < 1024
    → s < 1024
    → enabled (plic_disable_source_for_context ctxno srcno r) c s
      ≡ (if same_source ctxno srcno c s then 0 else enabled r c s)
unfolding plic_disable_source_for_context
plic_disable_source_for_context_lem r ctxno srcno c s lc ls lt =
    let w = r (enable_word ctxno srcno) in
    let one = one_bit (srcno % 32) in
    rw (lt→ltb ctxno 2 lc, lt→ltb srcno 1024 ls)
      (store-bit r ctxno srcno c s (bit_and 32 w (bit_not 32 one)) 0 ls lt (λ k lk.
        bit-bit_and 32 w (bit_not 32 one) k lk
        ∙ ap (min (bit k w)) (bit-bit_not 32 one k lk)
        ∙ ap (λ (x : ℕ). min (bit k w) (1 - x)) (bit-one_bit k (srcno % 32))
        ∙ clear_bit (bit k w) (k == srcno % 32) (bit_bound k w)))
