-- ===== src/Plic/Start.antt =====
-- src/kern/plic.c: the state after `plic_init`.
use illinux.Prelude.{
  ℕ, zero, suc, ◌+◌, ◌%◌, ◌<◌, ◌≡◌, refl, ap, ◌∙◌, arith, Bool, true, ◌==◌, ◌&&◌, ltb, leb,
  if◌then◌else◌, lt→ltb,
}
use illinux.Mem.{Mem, store, store_other}
use illinux.Bits.{bit, bit_or, one_bit}
use illinux.Plic.{
  plic_prio_max, source_prio, enable_word, plic_enable_source_for_context, plic_set_source_priority,
  init_sources, plic_init,
}
use illinux.Plic.Sources.{enabled, same_source, plic_enable_source_for_context_lem}

-- The priority of a source.
abbrev pub priority : Mem → ℕ → ℕ
priority r srcno = r (source_prio srcno)

-- What a context's enable bits are after one pass of the loop.
pass-enabled :
    (r : Mem) (i c s : ℕ)
    → i < 1024
    → s < 1024
    → c < 2
    → enabled (plic_enable_source_for_context 1 i (plic_set_source_priority i 0 r)) c s
      ≡ (if same_source 1 i c s then 1 else enabled r c s)
unfolding plic_set_source_priority
pass-enabled r i c s li ls lc =
    plic_enable_source_for_context_lem (plic_set_source_priority i 0 r) 1 i c s (omega arith) li ls
    ∙ ap (λ (x : ℕ). if same_source 1 i c s then 1 else bit (s % 32) x)
        (rw (lt→ltb i 1024 li)
          (store_other r (source_prio i) 0 (enable_word c s) (λ e. omega (arith, e, li, ls, lc))))

pass-priority :
    (r : Mem) (i s : ℕ)
    → i < 1024
    → s < 1024
    → priority (plic_enable_source_for_context 1 i (plic_set_source_priority i 0 r)) s
      ≡ (if i == s then 0 else priority r s)
unfolding plic_set_source_priority plic_enable_source_for_context
pass-priority r i s li ls =
    let r' : Mem = store r (source_prio i) 0 in
    rw (lt→ltb i 1024 li) (
      store_other r' (enable_word 1 i) (bit_or 32 (r' (enable_word 1 i)) (one_bit (i % 32)))
        (source_prio s) (λ e. omega (arith, e, li, ls))
      ∙ ground arith)

abbrev covers : ℕ → ℕ → ℕ → Bool
covers i n s = leb i s && ltb s (i + n)

init_sources-enabled :
    (i n : ℕ) (r : Mem) (c s : ℕ)
    → i + n ≡ 1024
    → s < 1024
    → c < 2
    → enabled (init_sources i n r) c s ≡ (if (c == 1) && covers i n s then 1 else enabled r c s)
unfolding init_sources
init_sources-enabled i zero r c s sum ls lc = ground arith
init_sources-enabled i (suc n) r c s sum ls lc =
    init_sources-enabled (i + 1) n
      (plic_enable_source_for_context 1 i (plic_set_source_priority i 0 r)) c s (omega (arith, sum))
      ls lc
    ∙ ap (λ (x : ℕ). if (c == 1) && covers (i + 1) n s then 1 else x)
        (pass-enabled r i c s (omega (arith, sum)) ls lc)
    ∙ ground (arith, sum)

init_sources-priority :
    (i n : ℕ) (r : Mem) (s : ℕ)
    → i + n ≡ 1024
    → s < 1024
    → priority (init_sources i n r) s ≡ (if covers i n s then 0 else priority r s)
unfolding init_sources
init_sources-priority i zero r s sum ls = ground arith
init_sources-priority i (suc n) r s sum ls =
    init_sources-priority (i + 1) n
      (plic_enable_source_for_context 1 i (plic_set_source_priority i 0 r)) s (omega (arith, sum))
      ls
    ∙ ap (λ (x : ℕ). if covers (i + 1) n s then 0 else x)
        (pass-priority r i s (omega (arith, sum)) ls)
    ∙ ground (arith, sum)

-- After `plic_init` the priority of every source is 0, so that none interrupts; context 1 takes every
-- source, and which sources context 0 takes is as before.
pub plic_init-IsReset :
    (r : Mem) (s : ℕ)
    → s < 1024
    → (priority (plic_init r) s ≡ 0)
      × (enabled (plic_init r) 1 s ≡ 1)
      × (enabled (plic_init r) 0 s ≡ enabled r 0 s)
unfolding plic_init
plic_init-IsReset r s ls =
    let all : covers 0 1024 s ≡ true = ground (arith, ls) in
    (
      init_sources-priority 0 1024 r s refl ls
          ∙ ap (λ (b : Bool). if b then 0 else priority r s) all,
      init_sources-enabled 0 1024 r 1 s refl ls (omega arith)
          ∙ ap (λ (b : Bool). if b then 1 else enabled r 1 s) all,
      init_sources-enabled 0 1024 r 0 s refl ls (omega arith),
    )

-- A level above 7 is not stored: the source keeps the priority that it has.
pub plic_set_source_priority_range :
    (r : Mem) (srcno level s : ℕ)
    → srcno < 1024
    → s < 1024
    → priority (plic_set_source_priority srcno level r) s
      ≡ (if (srcno == s) && leb level plic_prio_max then level else priority r s)
unfolding plic_set_source_priority
plic_set_source_priority_range r srcno level s l ls =
    rw (plic_set_source_priority, lt→ltb srcno 1024 l) (ground arith)
