-- ===== src/Process/Open.antt =====
-- src/kern/syscall.c: the calls that open an object.
use illinux.Prelude.{
  ℕ, ◌<◌, ◌≡◌, ◌⊎◌, refl, sym, ap, ◌∙◌, arith, true, none, some, leb, ◌==◌, Bool-cases, inl, inr,
  Option-cases,
}
use illinux.Prelude.Int.{ℤ, pos, negsuc}
use illinux.Errno.{Errno, Result, ok, err}
use illinux.Mem.{Mem, store}
use illinux.Process.{
  Iotab, Drivers, Procs, process_iomax, nproc, entries, set_entry, install, ioclose, choose_fd,
  first_null, sysdevopen, sysfsopen,
}
use illinux.Process.Refs.{one, total, IsCounted, total-set_entry, store_same}
use illinux.Process.Fork.{first_null_lem}

not_ok : {n : ℕ} {e : Errno} → err e ≡ ok n → ⊥
not_ok h = ground arith

Result-cases : (r : Result ℕ) → ((e : Errno) × (r ≡ err e)) ⊎ ((k : ℕ) × (r ≡ ok k))
Result-cases (ok k) = inr (k, refl)
Result-cases (err e) = inl (e, refl)

eq_of_test : {m n : ℕ} → (m == n) ≡ true → m ≡ n
eq_of_test h = ground arith

ok_inj : {m n : ℕ} → ok m ≡ ok n → m ≡ n
ok_inj h = ground arith

-- The descriptor that is chosen is in range and free, and is the requested one if it is not negative.
pub choose_fd_lem :
    (t : Iotab) (fd : ℤ) (n : ℕ) → choose_fd t fd ≡ ok n → (n < process_iomax) × (t n ≡ none)
unfolding choose_fd
choose_fd_lem t (pos m) n e = elim (Bool-cases (leb process_iomax m)) [
  | inl out ↦ absurd (not_ok (simp (choose_fd, out) at e))
  | inr in_table ↦ elim (Option-cases (t m)) [
    | inl null ↦
        let same : m ≡ n = ok_inj (simp (choose_fd, in_table, null) at e) in
        rw (← same) (ground arith, null)
    | inr (io, taken) ↦ absurd (not_ok (simp (choose_fd, in_table, taken) at e))
  ]
]
choose_fd_lem t (negsuc m) n e = elim (Option-cases (first_null t 0 process_iomax)) [
  | inl full ↦ absurd (not_ok (simp (choose_fd, full) at e))
  | inr (k, found) ↦
      let (lo, hi, null) = first_null_lem t 0 process_iomax k found in
      let same : k ≡ n = ok_inj (simp (choose_fd, found) at e) in rw (← same) (hi, null)
]

module _ {D : Type 0} (s : Procs D) (pid io : ℕ) (p_in : pid < nproc)
    (fresh : total io s.proctab ≡ 0) where
  install-IsCounted :
      (fd : ℕ)
      → fd < process_iomax
      → entries (s.proctab pid) fd ≡ none
      → IsCounted s
      → IsCounted (install pid fd io s)
  unfolding install set_entry
  install-IsCounted fd fd_in null c o more =
      let changed = total-set_entry s o pid fd (some io) p_in fd_in in
      let entry : one o (entries (s.proctab pid) fd) ≡ 0 = ap (one o) null in
      elim (Bool-cases (io == o)) [
        | inl same ↦
            let none_yet : total o s.proctab ≡ 0 =
              ap (λ k. total k s.proctab) (sym (eq_of_test same)) ∙ fresh in
            ground (arith, more, changed, entry, none_yet)
        | inr other ↦ ground (arith, more, c o, changed, entry)
      ]

  drop-IsCounted : (ops : Drivers D) → IsCounted s → IsCounted (ioclose ops io s)
  unfolding ioclose
  drop-IsCounted ops c o more = elim (Bool-cases (io == o)) [
    | inl same ↦
        let none_yet : total o s.proctab ≡ 0 =
          ap (λ k. total k s.proctab) (sym (eq_of_test same)) ∙ fresh in
        absurd (omega (arith, more, none_yet))
    | inr other ↦ rw other (c o more)
  ]

install_entry :
    {D : Type 0} (s : Procs D) (pid fd io : ℕ)
    → entries ((install pid fd io s).proctab pid) fd ≡ some io
unfolding install set_entry
install_entry s pid fd io =
    rw (store_same s.proctab pid (some (store (entries (s.proctab pid)) fd (some io))))
      (store_same (entries (s.proctab pid)) fd (some io))

module _ {D : Type 0} (ops : Drivers D) (pid : ℕ) (p_in : pid < nproc) (s : Procs D)
    (c : IsCounted s) (fd : ℤ) (name : Mem) (io : ℕ) (fresh : total io s.proctab ≡ 0) where
  -- Where every referenced object's count is the number of table entries that refer to it, and the
  -- device manager gives out an object that no table refers to, this is so after `sysdevopen`, whether
  -- it finds a descriptor or not, and a descriptor that it returns is below 16, was free and now refers
  -- to that object.
  pub sysdevopen-IsCounted :
      (instno : ℕ)
      → (ops.device_open s.drivers name instno).1 ≡ ok io
      → let (s', ret) = sysdevopen ops pid fd (some name) instno s in
        IsCounted s'
        × ((n : ℕ)
            → ret ≡ ok n
            → (n < process_iomax)
              × (entries (s.proctab pid) n ≡ none)
              × (entries (s'.proctab pid) n ≡ some io))
  unfolding sysdevopen
  sysdevopen-IsCounted instno opened =
      let s₁ : Procs D = record s { drivers = (ops.device_open s.drivers name instno).0 } in
      elim (Result-cases (choose_fd (entries (s.proctab pid)) fd)) [
        | inl (e, none_free) ↦
            rw (sysdevopen, opened, none_free)
              (drop-IsCounted s₁ pid io p_in fresh ops c, λ n h. absurd (not_ok h))
        | inr (k, chosen) ↦
            let (k_in, null) = choose_fd_lem (entries (s.proctab pid)) fd k chosen in
            rw (sysdevopen, opened, chosen)
              (
                install-IsCounted s₁ pid io p_in fresh k k_in null c,
                λ n h. rw (← ok_inj h) (k_in, null, install_entry s₁ pid k io),
              )
      ]

  -- Where every referenced object's count is the number of table entries that refer to it, and the
  -- file system gives out an object that no table refers to, this is so after `sysfsopen`, whether it
  -- finds a descriptor or not, and a descriptor that it returns is below 16, was free and now refers
  -- to that object.
  pub sysfsopen-IsCounted :
      (ops.fs_open s.drivers name).1 ≡ ok io
      → let (s', ret) = sysfsopen ops pid fd (some name) s in
        IsCounted s'
        × ((n : ℕ)
            → ret ≡ ok n
            → (n < process_iomax)
              × (entries (s.proctab pid) n ≡ none)
              × (entries (s'.proctab pid) n ≡ some io))
  unfolding sysfsopen
  sysfsopen-IsCounted opened =
      let s₁ : Procs D = record s { drivers = (ops.fs_open s.drivers name).0 } in
      elim (Result-cases (choose_fd (entries (s.proctab pid)) fd)) [
        | inl (e, none_free) ↦ rw (sysfsopen, opened, none_free) (c, λ n h. absurd (not_ok h))
        | inr (k, chosen) ↦
            let (k_in, null) = choose_fd_lem (entries (s.proctab pid)) fd k chosen in
            rw (sysfsopen, opened, chosen)
              (
                install-IsCounted s₁ pid io p_in fresh k k_in null c,
                λ n h. rw (← ok_inj h) (k_in, null, install_entry s₁ pid k io),
              )
      ]
