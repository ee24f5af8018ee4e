-- ===== src/Syscall.antt =====
-- src/kern/syscall.c: the system calls that Process does not have, and the handler that finds the call for
-- a number. What other parts of the kernel do for a call is a parameter (`Calls`).
pub mod Handler
pub mod Errors
use illinux.Prelude.{
  ℕ, zero, suc, ◌+◌, ◌-◌, ◌*◌, ◌/◌, ◌%◌, ◌^◌, Bool, true, false, Option, none, some, List, [], ◌∷◌,
  ltb, leb, ◌==◌, if◌then◌else◌,
}
use illinux.Prelude.Int.{ℤ, pos, negsuc}
use illinux.Cmd.{Cmd, Run, done, panic, blocked, timeout, pure, modify, ◌>>=◌, ◌>>◌}
use illinux.Errno.{Result, ok, err, code, einval, ebadfd, enotsup, ebusy}
use illinux.Mem.{Mem, store}
use illinux.Io.Stream.{Ops, iowrite}
use illinux.Process.{
  Drivers, Procs, lookup_fd, set_entry, process_fork, process_exit, sysclose, sysdevopen, sysfsopen,
  sysread,
}

-- The processes and the memory of the program that calls.
pub record User (D : Type 0) : Type 0 where
  pub procs : Procs D
  pub mem : Mem

-- What the calls need beside `Drivers`. `ctl` is none for NULL; its argument is the memory behind the
-- pointer. `process_exec` returns only where it fails.
pub record Calls (D : Type 0) : Type 0 where
  pub io_ops : ℕ → Ops D
  pub ctl : ℕ → Option (D → ℕ → Option Mem → D × Option Mem × Result ℕ)
  pub process_exec : ℕ → Cmd (User D) (Result ℕ)
  pub thread_fork_to_user : ℕ → Cmd (User D) (Result ℕ)
  pub thread_join_any : Cmd (User D) (Result ℕ)
  pub thread_join : ℤ → Cmd (User D) (Result ℕ)
  pub alarm_sleep : ℕ → Cmd (User D) (Unit {0})

-- The first `n` bytes.
unfoldable pub bytes_of : Mem → ℕ → List ℕ
bytes_of m zero = []
bytes_of m (suc n) = m 0 ∷ bytes_of (λ j. m (suc j)) n

-- The ticks that `sysusleep` sleeps: the product is a 64-bit number.
unfoldable pub usleep_ticks : ℕ → ℕ
usleep_ticks us = us * 10000000 % 2 ^ 64 / 1000000

module _ {D : Type 0} where
  abbrev pub with_drivers : User D → D → User D
  with_drivers s d = record s { procs = record (s.procs) { drivers = d } }

module _ {D : Type 0} (ops : Drivers D) (calls : Calls D) where
  -- One fuel more than bytes is given to the loop of `iowrite`.
  unfoldable pub syswrite : ℕ → ℤ → Option Mem → ℕ → Cmd (User D) (Result ℕ)
  syswrite pid fd buf len s = elim (lookup_fd ops pid fd s.procs) [
    | none ↦ done (err ebadfd) s
    | some io ↦ elim buf [
      | none ↦ done (err einval) s
      | some b ↦ elim (iowrite (calls.io_ops io) (suc len) (bytes_of b len) s.procs.drivers) [
        | none ↦ timeout
        | some r ↦ done r.1 (with_drivers s r.0)
      ]
    ]
  ]

  -- The call returns 0 for any result of the control operation that is no error.
  abbrev pub zero_or_error : Result ℕ → Result ℕ
  zero_or_error (ok n) = ok 0
  zero_or_error (err e) = err e

  unfoldable pub sysioctl : ℕ → ℤ → ℕ → Option Mem → User D → User D × Option Mem × Result ℕ
  sysioctl pid fd cmd arg s = elim (lookup_fd ops pid fd s.procs) [
    | none ↦ (s, arg, err ebadfd)
    | some io ↦ elim (calls.ctl io) [
      | none ↦ (s, arg, err enotsup)
      | some ctl ↦
          let (d, arg', ret) = ctl s.procs.drivers cmd arg in
          (with_drivers s d, arg', zero_or_error ret)
    ]
  ]

  abbrev pub clear_entry : ℕ → ℤ → Cmd (User D) (Unit {0})
  clear_entry pid (pos n) = modify λ s. record s { procs = set_entry pid n none s.procs }
  clear_entry pid (negsuc n) = modify λ s. s

  unfoldable pub sysexec : ℕ → ℤ → Cmd (User D) (Result ℕ)
  sysexec pid fd s = elim (lookup_fd ops pid fd s.procs) [
    | none ↦ done (err ebadfd) s
    | some io ↦ (clear_entry pid fd >> calls.process_exec io) s
  ]

  unfoldable pub sysfork : ℕ → Cmd (User D) (Result ℕ)
  sysfork pid s =
      let r = process_fork pid s.procs in
      elim r.1 [
        | none ↦ done (err ebusy) (record s { procs = r.0 })
        | some child ↦ calls.thread_fork_to_user child (record s { procs = r.0 })
      ]

  unfoldable pub syswait : ℤ → Cmd (User D) (Result ℕ)
  syswait (pos zero) = calls.thread_join_any
  syswait (pos (suc n)) = calls.thread_join (pos (suc n))
  syswait (negsuc n) = calls.thread_join (negsuc n)

  unfoldable pub sysusleep : ℕ → Cmd (User D) (Result ℕ)
  sysusleep us = calls.alarm_sleep (usleep_ticks us) >> pure (ok 0)

  -- What the two calls print is left out.
  unfoldable pub sysmsgout : Cmd (User D) (Result ℕ)
  sysmsgout = pure (ok 0)

  unfoldable pub syspioref : Cmd (User D) (Result ℕ)
  syspioref = pure (ok 0)
