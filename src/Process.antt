-- ===== src/Process.antt =====
-- src/kern/process.c, process.h and syscall.c: processes, their tables of open I/O objects and the
-- system calls on them; `ioref` and `ioclose` of src/kern/io.h.
pub mod Sum
pub mod Refs
pub mod Calls
pub mod Fork
pub mod Open
pub mod Exit
use illinux.Prelude.{
  ℕ, zero, suc, ◌+◌, ◌-◌, ◌%◌, ◌^◌, Bool, true, false, ◌&&◌, Option, none, some, ltb, leb, ◌==◌,
  if◌then◌else◌,
}
use illinux.Prelude.Int.{ℤ, pos, negsuc}
use illinux.Errno.{Result, ok, err, einval, emfile, ebadfd, enotsup}
use illinux.Mem.{Mem, store}

abbrev pub process_iomax : ℕ
process_iomax = 16

abbrev pub nproc : ℕ
nproc = 16

-- An `iotab`: the I/O object, or none for NULL, of each descriptor.
abbrev pub Iotab : Type 0
Iotab = ℕ → Option ℕ

-- What the system calls need of the device manager, the file system and the objects' operations
-- (`struct io_ops`). An object is a number. `can_close` and the others tell that the operation's
-- pointer is not NULL; an opened name comes with the instance number.
pub record Drivers (D : Type 0) : Type 0 where
  pub device_open : D → Mem → ℕ → D × Result ℕ
  pub fs_open : D → Mem → D × Result ℕ
  pub fs_close : D → ℕ → D
  pub can_close : ℕ → Bool
  pub close : D → ℕ → D
  pub can_read : ℕ → Bool
  pub read : D → ℕ → Mem → ℕ → D × Mem × Result ℕ

-- `refcnt` of each object, and the process table with the tables of its processes.
pub record Procs (D : Type 0) : Type 0 where
  pub drivers : D
  pub refcnt : ℕ → ℕ
  pub proctab : ℕ → Option Iotab

abbrev pub entries : Option Iotab → Iotab
entries none i = none
entries (some t) i = t i

-- The search for an entry that is NULL, `k` entries from `i` on.
unfoldable pub first_null : {A : Type 0} → (ℕ → Option A) → ℕ → ℕ → Option ℕ
first_null t i zero = none
first_null t i (suc k) =
    let rest = first_null t (i + 1) k in elim (t i) [ none ↦ some i | some x ↦ rest ]

-- The descriptor that `sysdevopen` and `sysfsopen` use for the requested `fd`.
unfoldable pub choose_fd : Iotab → ℤ → Result ℕ
choose_fd t (pos n) =
    if leb process_iomax n then err emfile else elim (t n) [ none ↦ ok n | some io ↦ err ebadfd ]
choose_fd t (negsuc n) = elim (first_null t 0 process_iomax) [ none ↦ err emfile | some fd ↦ ok fd ]

module _ {D : Type 0} where
  unfoldable pub ioref : ℕ → Procs D → Procs D
  ioref io s = record s { refcnt = store s.refcnt io ((s.refcnt io + 1) % 2 ^ 32) }

  -- `proctab[pid]->iotab[fd] = io`
  unfoldable pub set_entry : ℕ → ℕ → Option ℕ → Procs D → Procs D
  set_entry pid fd io s = record s {
    proctab = store s.proctab pid (some (store (entries (s.proctab pid)) fd io));
  }

  -- The last lines of the two calls that open.
  unfoldable pub install : ℕ → ℕ → ℕ → Procs D → Procs D
  unfolding set_entry
  install pid fd io s = record (set_entry pid fd (some io) s) { refcnt = store s.refcnt io 1 }

  -- The loop of `process_fork` that copies the table and counts the references, over the first
  -- `k` entries.
  unfoldable pub ref_all : Iotab → ℕ → Procs D → Procs D
  unfolding ioref
  ref_all t zero s = s
  ref_all t (suc k) s = let s' = ref_all t k s in elim (t k) [ none ↦ s' | some io ↦ ioref io s' ]

  -- `process_fork`, less the memory space: the child's number, or none where it returns NULL.
  unfoldable pub process_fork : ℕ → Procs D → Procs D × Option ℕ
  unfolding ref_all
  process_fork pid s =
      let t = entries (s.proctab pid) in
      let s' = ref_all t process_iomax s in
      elim (first_null s.proctab 0 nproc) [
        | none ↦ (s, none)
        | some new ↦ (record s' { proctab = store s'.proctab new (some t) }, some new)
      ]

module _ {D : Type 0} (ops : Drivers D) where
  unfoldable pub ioclose : ℕ → Procs D → Procs D
  ioclose io s =
      let left = (s.refcnt io + 2 ^ 32 - 1) % 2 ^ 32 in
      record s {
        refcnt = store s.refcnt io left;
        drivers = if left == 0 && ops.can_close io then ops.close s.drivers io else s.drivers;
      }

  unfoldable pub sysdevopen : ℕ → ℤ → Option Mem → ℕ → Procs D → Procs D × Result ℕ
  unfolding ioclose install choose_fd
  sysdevopen pid fd none instno s = (s, err einval)
  sysdevopen pid fd (some name) instno s =
      let (d, ret) = ops.device_open s.drivers name instno in
      let s' = record s { drivers = d } in
      elim ret [
        | err e ↦ (s', err e)
        | ok io ↦ elim (choose_fd (entries (s.proctab pid)) fd) [
          | err e ↦ (ioclose io s', err e)
          | ok new_fd ↦ (install pid new_fd io s', ok new_fd)
        ]
      ]

  unfoldable pub sysfsopen : ℕ → ℤ → Option Mem → Procs D → Procs D × Result ℕ
  unfolding install choose_fd
  sysfsopen pid fd none s = (s, err einval)
  sysfsopen pid fd (some name) s =
      let (d, ret) = ops.fs_open s.drivers name in
      let s' = record s { drivers = d } in
      elim ret [
        | err e ↦ (s', err e)
        | ok io ↦ elim (choose_fd (entries (s.proctab pid)) fd) [
          | err e ↦ (record s' { drivers = ops.fs_close d io }, err e)
          | ok new_fd ↦ (install pid new_fd io s', ok new_fd)
        ]
      ]

  -- The check of the descriptor that `sysclose`, `sysread`, `syswrite` and `sysioctl` begin with.
  abbrev pub lookup_fd : ℕ → ℤ → Procs D → Option ℕ
  lookup_fd pid (negsuc n) s = none
  lookup_fd pid (pos n) s = if leb process_iomax n then none else entries (s.proctab pid) n

  unfoldable pub sysclose : ℕ → ℤ → Procs D → Procs D × Result ℕ
  unfolding ioclose set_entry
  sysclose pid (negsuc n) s = (s, err ebadfd)
  sysclose pid (pos n) s = elim (lookup_fd pid (pos n) s) [
    | none ↦ (s, err ebadfd)
    | some io ↦ (set_entry pid n none (ioclose io s), ok 0)
  ]

  unfoldable pub sysread : ℕ → ℤ → Option Mem → ℕ → Procs D → Procs D × Option Mem × Result ℕ
  sysread pid fd buf bufsz s = elim (lookup_fd pid fd s) [
    | none ↦ (s, buf, err ebadfd)
    | some io ↦ elim buf [
      | none ↦ (s, none, err einval)
      | some b ↦
          if ops.can_read io
          then (let (d, b', ret) = ops.read s.drivers io b bufsz in
              (record s { drivers = d }, some b', ret))
          else (s, some b, err enotsup)
    ]
  ]

  -- The loop of `process_exit` over the first `k` entries. The call of `close` is not guarded.
  unfoldable pub close_all : Iotab → ℕ → D → D
  close_all t zero d = d
  close_all t (suc k) d =
      let d' = close_all t k d in elim (t k) [ none ↦ d' | some io ↦ ops.close d' io ]

  -- `process_exit`, less the memory space and the thread.
  unfoldable pub process_exit : ℕ → Procs D → Procs D
  unfolding close_all
  process_exit pid s = record s {
    drivers = close_all (entries (s.proctab pid)) process_iomax s.drivers;
    proctab = store s.proctab pid none;
  }
