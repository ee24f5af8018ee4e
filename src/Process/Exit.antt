-- ===== src/Process/Exit.antt =====
-- src/kern/process.c: `process_exit` and the reference counts.
use illinux.Prelude.{
  ℕ, zero, suc, ◌+◌, ◌<◌, ◌≡◌, ◌≢◌, refl, sym, arith, none, some, inl, inr, Option-cases,
}
use illinux.Mem.{store}
use illinux.Process.{Iotab, Drivers, Procs, process_iomax, nproc, entries, close_all, process_exit}
use illinux.Process.Sum.{sum}
use illinux.Process.Refs.{
  one, count, total, IsCounted, total_table, count_pos, count-le-total, store_other,
}

count-none : (o : ℕ) → count o none ≡ 0
unfolding count
count-none o = refl

module _ {D : Type 0} (ops : Drivers D) (closed : D → ℕ → ℕ)
    (counts : (d : D) (io o : ℕ) → closed (ops.close d io) o ≡ closed d o + one o (some io)) where
  close_all-closed :
      (t : Iotab) (k : ℕ) (d : D) (o : ℕ)
      → closed (close_all ops t k d) o ≡ closed d o + sum (λ i. one o (t i)) k
  unfolding close_all
  close_all-closed t zero d o = omega arith
  close_all-closed t (suc k) d o = elim (Option-cases (t k)) [
    | inl null ↦ rw (close_all, null) (omega (arith, close_all-closed t k d o))
    | inr (io, taken) ↦
        rw (close_all, taken)
          (omega (arith, close_all-closed t k d o, counts (close_all ops t k d) io o))
  ]

  exit_table :
      (pid other j io : ℕ) (s : Procs D)
      → pid ≢ other
      → entries (s.proctab other) j ≡ some io
      → entries ((process_exit ops pid s).proctab other) j ≡ some io
  unfolding process_exit
  exit_table pid other j io s apart e =
      rw (← store_other s.proctab pid none other (λ same. apart (sym same))) e

  exit_refs :
      (pid io : ℕ) (s : Procs D)
      → total io (store s.proctab pid none) < s.refcnt io
      → total io (process_exit ops pid s).proctab < (process_exit ops pid s).refcnt io
  unfolding process_exit
  exit_refs pid io s lt = lt

  closed_at_exit :
      (pid : ℕ) (s : Procs D) (o : ℕ)
      → closed (process_exit ops pid s).drivers o ≡ closed s.drivers o + count o (s.proctab pid)
  unfolding process_exit count
  closed_at_exit pid s o = close_all-closed (entries (s.proctab pid)) process_iomax s.drivers o

  -- Where every referenced object's count is right and two processes refer to the object `io`, the
  -- exit of the first calls the object's close operation although the second still refers to it, and
  -- leaves its count higher than the number of references.
  pub process_exit_shared :
      (pid other i j io : ℕ) (s : Procs D)
      → pid < nproc
      → other < nproc
      → pid ≢ other
      → i < process_iomax
      → j < process_iomax
      → entries (s.proctab pid) i ≡ some io
      → entries (s.proctab other) j ≡ some io
      → IsCounted s
      → let s' = process_exit ops pid s in
        (closed s.drivers io < closed s'.drivers io)
        × (entries (s'.proctab other) j ≡ some io)
        × (total io s'.proctab < s'.refcnt io)
  process_exit_shared pid other i j io s pid_in other_in apart i_in j_in mine theirs c =
      let here = count_pos (s.proctab pid) i io i_in mine in
      let some_refs = count-le-total s.proctab pid io pid_in in
      let counted = c io (omega (arith, here, some_refs)) in
      let table = total_table io s.proctab pid none pid_in in
      let empty = count-none io in
      (
        omega (arith, closed_at_exit pid s io, here),
        exit_table pid other j io s apart theirs,
        exit_refs pid io s (omega (arith, here, counted, table, empty)),
      )
