-- ===== src/Process/Calls.antt =====
-- src/kern/process.c and syscall.c: `sysclose` and the reference counts.
use illinux.Prelude.{
  ℕ, ◌+◌, ◌-◌, ◌%◌, ◌^◌, ◌<◌, ◌≡◌, ap, arith, none, some, leb, ◌==◌, Bool-cases, inl, inr,
  Option-cases,
}
use illinux.Prelude.Int.{ℤ, pos, negsuc}
use illinux.Process.{Drivers, Procs, process_iomax, nproc, entries, set_entry, ioclose, sysclose}
use illinux.Process.Refs.{
  one, total, count_pos, count-le-total, IsCounted, total-le, total-set_entry,
}

module _ {D : Type 0} (ops : Drivers D) (s : Procs D) (pid : ℕ) (p_in : pid < nproc) where
  -- An entry of a process is one of the references.
  pub total_pos :
      (i io : ℕ) → i < process_iomax → entries (s.proctab pid) i ≡ some io → 0 < total io s.proctab
  total_pos i io i_in e =
      omega (arith, count_pos (s.proctab pid) i io i_in e, count-le-total s.proctab pid io p_in)

  close_refcnt :
      (io : ℕ)
      → IsCounted s
      → 0 < total io s.proctab
      → (s.refcnt io + 2 ^ 32 - 1) % 2 ^ 32 ≡ total io s.proctab - 1
  close_refcnt io c more = omega (arith, c io more, total-le io s.proctab)

  close_entry-IsCounted :
      (i io : ℕ)
      → i < process_iomax
      → entries (s.proctab pid) i ≡ some io
      → IsCounted s
      → IsCounted (set_entry pid i none (ioclose ops io s))
  unfolding ioclose set_entry
  close_entry-IsCounted i io i_in e c o more =
      let changed = total-set_entry s o pid i none p_in i_in in
      let entry : one o (entries (s.proctab pid) i) ≡ one o (some io) = ap (one o) e in
      let left = close_refcnt io c (total_pos i io i_in e) in
      elim (Bool-cases (io == o)) [
        | inl same ↦ ground (arith, more, left, changed, entry)
        | inr other ↦ ground (arith, more, c o, changed, entry)
      ]

  -- Where every referenced object's count is the number of table entries that refer to it, this is so
  -- after `sysclose` on any descriptor, open or not.
  pub sysclose-IsCounted : (fd : ℤ) → IsCounted s → IsCounted (sysclose ops pid fd s).0
  unfolding sysclose
  sysclose-IsCounted (negsuc n) c = c
  sysclose-IsCounted (pos n) c = elim (Bool-cases (leb process_iomax n)) [
    | inl out ↦ rw (out, sysclose) c
    | inr in_table ↦ elim (Option-cases (entries (s.proctab pid) n)) [
      | inl null ↦ rw (in_table, null, sysclose) c
      | inr (io, e) ↦ rw (in_table, e, sysclose) (close_entry-IsCounted n io (ground arith) e c)
    ]
  ]
