-- ===== src/Process/Fork.antt =====
-- src/kern/process.c: `process_fork` and the reference counts.
use illinux.Prelude.{
  ℕ, zero, suc, ◌+◌, ◌^◌, ◌≤◌, ◌<◌, ◌≡◌, refl, ap, ◌∙◌, arith, Option, none, some, ◌==◌, Bool-cases,
  inl, inr, Option-cases,
}
use illinux.Mem.{store}
use illinux.Process.{
  Iotab, Procs, process_iomax, nproc, entries, ioref, ref_all, first_null, process_fork,
}
use illinux.Process.Sum.{sum, sum-le}
use illinux.Process.Refs.{
  one, count, total, IsCounted, total-le, total_table, count-le-total, store_same, one-le,
}

some_inj : {i n : ℕ} → some i ≡ some n → i ≡ n
some_inj e = ground arith

pub first_null_lem :
    {A : Type 0} (t : ℕ → Option A) (i k n : ℕ)
    → first_null t i k ≡ some n
    → (i ≤ n) × (n < i + k) × (t n ≡ none)
unfolding first_null
first_null_lem t i zero n e = ground arith
first_null_lem t i (suc k) n e = elim (Option-cases (t i)) [
  | inl null ↦
      let same : i ≡ n = some_inj (simp (first_null, null) at e) in
      rw (← same) (omega arith, omega arith, null)
  | inr (x, taken) ↦
      let rest : first_null t (i + 1) k ≡ some n = simp (first_null, taken) at e in
      let (lo, hi, null) = first_null_lem t (i + 1) k n rest in (omega arith, omega arith, null)
]

count-sum : (o : ℕ) (t : Iotab) → count o (some t) ≡ sum (λ i. one o (t i)) process_iomax
unfolding count
count-sum o t = refl

count-entries : (o : ℕ) (t : Option Iotab) → count o (some (entries t)) ≡ count o t
unfolding count
count-entries o t = refl

count-none : (o : ℕ) → count o none ≡ 0
unfolding count
count-none o = refl

module _ {D : Type 0} where
  ref_all_null :
      (t : Iotab) (k : ℕ) (s : Procs D) → t k ≡ none → ref_all t (suc k) s ≡ ref_all t k s
  unfolding ref_all
  ref_all_null t k s e = rw (ref_all, e) refl

  ref_all_taken :
      (t : Iotab) (k io : ℕ) (s : Procs D)
      → t k ≡ some io
      → ref_all t (suc k) s ≡ ioref io (ref_all t k s)
  unfolding ref_all
  ref_all_taken t k io s e = rw (ref_all, e) refl

  pub ref_all-proctab : (t : Iotab) (k : ℕ) (s : Procs D) → (ref_all t k s).proctab ≡ s.proctab
  unfolding ref_all ioref
  ref_all-proctab t zero s = refl
  ref_all-proctab t (suc k) s = elim (Option-cases (t k)) [
    | inl null ↦ rw (ref_all_null t k s null) (ref_all-proctab t k s)
    | inr (io, taken) ↦ rw (ref_all_taken t k io s taken) (ref_all-proctab t k s)
  ]

  ioref-refcnt :
      (io o n : ℕ) (s : Procs D)
      → s.refcnt o ≡ n
      → n + 1 < 2 ^ 32
      → (ioref io s).refcnt o ≡ n + one o (some io)
  unfolding ioref
  ioref-refcnt io o n s e small = elim (Bool-cases (io == o)) [
    | inl same ↦
        let same' : io ≡ o = ground arith in
        let held : s.refcnt io ≡ n = ap s.refcnt same' ∙ e in rw (same, held) (omega arith)
    | inr other ↦ rw (other, e) (omega arith)
  ]

  -- The loop adds to each count the number of entries that refer to the object.
  pub ref_all-refcnt :
      (t : Iotab) (k : ℕ) (s : Procs D) (o : ℕ)
      → s.refcnt o + k < 2 ^ 32
      → (ref_all t k s).refcnt o ≡ s.refcnt o + sum (λ i. one o (t i)) k
  unfolding ref_all
  ref_all-refcnt t zero s o small = omega arith
  ref_all-refcnt t (suc k) s o small =
      let before = ref_all-refcnt t k s o (omega arith) in
      let bound = sum-le (λ i. one o (t i)) 1 k (λ i. one-le o (t i)) in
      elim (Option-cases (t k)) [
        | inl null ↦
            let adds : one o (t k) ≡ 0 = ap (one o) null in
            rw (ref_all_null t k s null) (omega (arith, before, adds))
        | inr (io, taken) ↦
            let adds : one o (t k) ≡ one o (some io) = ap (one o) taken in
            rw (ref_all_taken t k io s taken)
              (omega (arith, adds, ioref-refcnt io o _ (ref_all t k s) before (omega arith)))
      ]

  child-IsCounted :
      (pid new : ℕ) (s : Procs D)
      → pid < nproc
      → new < nproc
      → s.proctab new ≡ none
      → IsCounted s
      → let t = entries (s.proctab pid) in
        let s' = ref_all t process_iomax s in
        IsCounted (record s' { proctab = store s'.proctab new (some t) })
  child-IsCounted pid new s pid_in new_in free c o =
      let t : Iotab = entries (s.proctab pid) in
      let same = ref_all-proctab t process_iomax s in
      let table = total_table o s.proctab new (some t) new_in in
      let empty : count o (s.proctab new) ≡ 0 = rw free (count-none o) in
      let copied = count-entries o (s.proctab pid) in
      let part = count-le-total s.proctab pid o pid_in in
      rw same (λ more.
        let some_before : 0 < total o s.proctab = omega arith in
        let counted = c o some_before in
        let added =
          ref_all-refcnt t process_iomax s o (omega (arith, counted, total-le o s.proctab)) in
        let summed = count-sum o t in omega arith)

  -- Where every referenced object's count is the number of table entries that refer to it, this is so
  -- after `process_fork`, whether it succeeds or not, and where it returns a child, that child's slot
  -- was free, and the child's table is the parent's.
  pub process_fork-IsCounted :
      (pid : ℕ) (s : Procs D)
      → pid < nproc
      → IsCounted s
      → let (s', child) = process_fork pid s in
        IsCounted s'
        × ((new : ℕ)
            → child ≡ some new
            → (new < nproc)
              × (s.proctab new ≡ none)
              × (s'.proctab new ≡ some (entries (s.proctab pid))))
  unfolding process_fork
  process_fork-IsCounted pid s pid_in c = elim (Option-cases (first_null s.proctab 0 nproc)) [
    | inl full ↦ rw (process_fork, full) (c, λ new e. ground arith)
    | inr (new, found) ↦
        let (lo, hi, free) = first_null_lem s.proctab 0 nproc new found in
        rw (process_fork, found)
          (
            child-IsCounted pid new s pid_in hi free c,
            λ k e.
                let same : new ≡ k = ground arith in
                rw (← same) (
                  hi,
                  free,
                  store_same (ref_all (entries (s.proctab pid)) process_iomax s).proctab new
                      (some (entries (s.proctab pid))),
                ),
          )
  ]
