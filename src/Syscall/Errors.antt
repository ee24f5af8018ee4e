-- ===== src/Syscall/Errors.antt =====
-- src/kern/syscall.c and excp.c: calls on descriptors, from the exception to the device and back.
use illinux.Prelude.{
  ℕ, zero, suc, ◌+◌, ◌-◌, ◌*◌, ◌%◌, ◌^◌, ◌≤◌, ◌<◌, ◌≡◌, ◌≢◌, refl, ap, ◌∙◌, fun_ext, arith, false,
  Option, none, some, List, ◌++◌, length, leb, ◌==◌, inl, inr, Bool-cases,
}
use illinux.Prelude.Int.{ℤ, pos, negsuc}
use illinux.Cmd.{Cmd, Run, done, then_done, pure}
use illinux.Errno.{Errno, Result, ok, err, ebadfd}
use illinux.Mem.{Mem, store, store_same}
use illinux.Intr.{TrapFrame}
use illinux.Io.Stream.{iowrite}
use illinux.Io.StreamLaws.{IsDevice, iowrite_lem}
use illinux.Process.{
  Drivers, Procs, Iotab, lookup_fd, entries, set_entry, process_iomax, nproc, sysclose, sysread,
}
use illinux.Process.Refs.{IsCounted, total, total-set_entry, one}
use illinux.Process.Calls.{total_pos}
use illinux.Syscall.{User, Calls, bytes_of, usleep_ticks, syswrite, sysioctl, sysexec, with_drivers}
use illinux.Syscall.Handler.{
  int_arg, pointer_arg, put_back, set_a0, dispatch, syscall_handler, umode_excp_handler,
}

put_back-pointer_arg : (a : ℕ) (m : Mem) → put_back a (pointer_arg a m) m ≡ m
put_back-pointer_arg a m = elim (Bool-cases (a == 0)) [
  | inl null ↦ rw null refl
  | inr ptr ↦ rw ptr (
      fun_ext (λ j. elim (Bool-cases (leb a j)) [
        | inl le ↦ let same : a + (j - a) ≡ j = ground (arith, le) in rw le (ap m same)
        | inr gt ↦ rw gt refl
      ]))
]

-- The numbers of the calls on a descriptor: close, read, write, ioctl, exec.
pub data OnDescriptor : ℕ → Type 0 where
  on_close : OnDescriptor 20
  on_read : OnDescriptor 21
  on_write : OnDescriptor 22
  on_ioctl : OnDescriptor 23
  on_exec : OnDescriptor 30

-- The registers after a system call.
abbrev pub returned : Result ℕ → TrapFrame → TrapFrame
returned ret tfr = set_a0 ret (record tfr { sepc = (tfr.sepc + 4) % 2 ^ 64 })

module _ {D : Type 0} (ops : Drivers D) (calls : Calls D) (pid : ℕ) where
  sysclose_bad :
      (fd : ℤ) (p : Procs D)
      → lookup_fd ops pid fd p ≡ none
      → sysclose ops pid fd p ≡ (p, err ebadfd)
  unfolding sysclose
  sysclose_bad (negsuc n) p e = refl
  sysclose_bad (pos n) p e = rw (sysclose, e) refl

  sysread_bad :
      (fd : ℤ) (buf : Option Mem) (n : ℕ) (p : Procs D)
      → lookup_fd ops pid fd p ≡ none
      → sysread ops pid fd buf n p ≡ (p, buf, err ebadfd)
  unfolding sysread
  sysread_bad fd buf n p e = rw (sysread, e) refl

  sysioctl_bad :
      (fd : ℤ) (cmd : ℕ) (arg : Option Mem) (s : User D)
      → lookup_fd ops pid fd s.procs ≡ none
      → sysioctl ops calls pid fd cmd arg s ≡ (s, arg, err ebadfd)
  unfolding sysioctl
  sysioctl_bad fd cmd arg s e = rw (sysioctl, e) refl

  unchanged :
      (a : ℕ) (s : User D)
      → ◌≡◌ {A = Run (User D) (Result ℕ)}
          (done (err ebadfd) (record s { mem = put_back a (pointer_arg a s.mem) s.mem }))
          (done (err ebadfd) s)
  unchanged a s =
      ap (λ (m : Mem). done (err ebadfd) (record s { mem = m })) (put_back-pointer_arg a s.mem)

  dispatch_bad :
      (num : ℕ) (a0 a1 a2 : ℕ) (s : User D)
      → OnDescriptor num
      → lookup_fd ops pid (int_arg a0) s.procs ≡ none
      → dispatch ops calls pid num a0 a1 a2 s ≡ done (err ebadfd) s
  unfolding dispatch syswrite sysioctl sysexec
  dispatch_bad _ a0 a1 a2 s on_close e =
      ap (λ (r : Procs D × Result ℕ). done r.1 (record s { procs = r.0 }))
        (sysclose_bad (int_arg a0) s.procs e)
  dispatch_bad _ a0 a1 a2 s on_read e =
      ap
        (λ (r : Procs D × Option Mem × Result ℕ).
          done r.2 (record { procs = r.0; mem = put_back a1 r.1 s.mem }))
        (sysread_bad (int_arg a0) (pointer_arg a1 s.mem) a2 s.procs e)
      ∙ unchanged a1 s
  dispatch_bad _ a0 a1 a2 s on_write e = rw (dispatch, syswrite, e) refl
  dispatch_bad _ a0 a1 a2 s on_ioctl e =
      ap
        (λ (r : User D × Option Mem × Result ℕ).
          done r.2 (record (r.0) { mem = put_back a2 r.1 s.mem }))
        (sysioctl_bad (int_arg a0) (a1 % 2 ^ 32) (pointer_arg a2 s.mem) s e)
      ∙ unchanged a2 s
  dispatch_bad _ a0 a1 a2 s on_exec e = rw (dispatch, sysexec, e) refl

  -- An environment call of user mode whose number is not 0.
  umode_ecall :
      (fault : ℕ → Cmd (User D) (Unit {0})) (tfr : TrapFrame) (s s' : User D) (ret : Result ℕ)
      → tfr.x 17 ≢ 0
      → dispatch ops calls pid (tfr.x 17) (tfr.x 10) (tfr.x 11) (tfr.x 12) s ≡ done ret s'
      → umode_excp_handler ops calls pid fault 8 tfr s ≡ done (some (returned ret tfr)) s'
  unfolding umode_excp_handler syscall_handler
  umode_ecall fault tfr s s' ret nonzero e =
      let goes_on : (tfr.x 17 == 0) ≡ false = ground (arith, nonzero) in
      rw goes_on (
        then_done (dispatch ops calls pid (tfr.x 17) (tfr.x 10) (tfr.x 11) (tfr.x 12))
          (λ r. pure (some (returned r tfr))) e)

  OnDescriptor-nonzero : (num : ℕ) → OnDescriptor num → num ≢ 0
  OnDescriptor-nonzero _ on_close e = omega (arith, e)
  OnDescriptor-nonzero _ on_read e = omega (arith, e)
  OnDescriptor-nonzero _ on_write e = omega (arith, e)
  OnDescriptor-nonzero _ on_ioctl e = omega (arith, e)
  OnDescriptor-nonzero _ on_exec e = omega (arith, e)

  -- A program that closes, reads, writes, controls or executes a descriptor that is not open goes on behind its
  -- `ecall` with -EBADFD in a0 and all other registers as before; its memory, the tables of
  -- descriptors, the reference counts and the devices are as before.
  pub umode_excp_handler_bad_fd :
      (fault : ℕ → Cmd (User D) (Unit {0})) (tfr : TrapFrame) (s : User D)
      → OnDescriptor (tfr.x 17)
      → lookup_fd ops pid (int_arg (tfr.x 10)) s.procs ≡ none
      → umode_excp_handler ops calls pid fault 8 tfr s ≡ done (some (returned (err ebadfd) tfr)) s
  umode_excp_handler_bad_fd fault tfr s call bad =
      umode_ecall fault tfr s s (err ebadfd) (OnDescriptor-nonzero (tfr.x 17) call)
        (dispatch_bad (tfr.x 17) (tfr.x 10) (tfr.x 11) (tfr.x 12) s call bad)

  length-bytes_of : (m : Mem) (n : ℕ) → length (bytes_of m n) ≡ n
  unfolding bytes_of
  length-bytes_of m zero = refl
  length-bytes_of m (suc n) = ap suc (length-bytes_of (λ j. m (suc j)) n)

  syswrite_lem :
      (fd : ℤ) (a len k io : ℕ) (s : User D) (d : D)
      → lookup_fd ops pid fd s.procs ≡ some io
      → (a == 0) ≡ false
      → iowrite (calls.io_ops io) (suc len) (bytes_of (λ j. s.mem (a + j)) len) s.procs.drivers
        ≡ some (d, ok k)
      → syswrite ops calls pid fd (pointer_arg a s.mem) len s ≡ done (ok k) (with_drivers s d)
  unfolding syswrite
  syswrite_lem fd a len k io s d e ptr ran = rw (syswrite, e, ptr, ran) refl

  -- A program that writes `n` bytes from a pointer that is not NULL to an open descriptor, whose device takes
  -- at least one byte at a time, goes on behind its `ecall` with `n` in a0 and all other registers
  -- as before. The device has then stored exactly these bytes of the program's memory, in order;
  -- memory, descriptors and reference counts are as before.
  pub umode_excp_handler_write :
      (fault : ℕ → Cmd (User D) (Unit {0})) (tfr : TrapFrame) (s : User D) (io : ℕ)
      (write : D → List ℕ → D × Result ℕ) (log : D → List ℕ)
      → tfr.x 17 ≡ 22
      → lookup_fd ops pid (int_arg (tfr.x 10)) s.procs ≡ some io
      → tfr.x 11 ≢ 0
      → (calls.io_ops io).write ≡ some write
      → IsDevice write log
      → (d : D) × (umode_excp_handler ops calls pid fault 8 tfr s
          ≡ done (some (returned (ok (tfr.x 12)) tfr)) (with_drivers s d))
        × (log d ≡ log s.procs.drivers ++ bytes_of (λ j. s.mem (tfr.x 11 + j)) (tfr.x 12))
  unfolding dispatch
  umode_excp_handler_write fault tfr s io write log num open_fd ptr writes device =
      let bs = bytes_of (λ j. s.mem (tfr.x 11 + j)) (tfr.x 12) in
      let len : length bs ≡ tfr.x 12 = length-bytes_of (λ j. s.mem (tfr.x 11 + j)) (tfr.x 12) in
      let (d, ran, logged) =
        iowrite_lem write log device (suc (tfr.x 12)) bs s.procs.drivers (calls.io_ops io).read
          (omega (arith, len)) in
      let not_null : (tfr.x 11 == 0) ≡ false = ground (arith, ptr) in
      (
        d,
        umode_ecall fault tfr s (with_drivers s d) (ok (tfr.x 12)) (omega (arith, num)) (
            ap (λ (k : ℕ). dispatch ops calls pid k (tfr.x 10) (tfr.x 11) (tfr.x 12) s) num
            ∙ syswrite_lem (int_arg (tfr.x 10)) (tfr.x 11) (tfr.x 12) (tfr.x 12) io s d open_fd
                not_null
                (ap
                    (λ (w : Option (D → List ℕ → D × Result ℕ)).
                      iowrite (record { write = w; read = (calls.io_ops io).read }) (suc (tfr.x 12))
                        bs s.procs.drivers)
                    writes
                  ∙ ran
                  ∙ ap (λ (k : ℕ). some (d, ok k)) len)),
        logged,
      )

  -- Where every referenced object's count is right and `process_exec` fails and changes nothing, `sysexec` of an
  -- open descriptor returns that error with the descriptor gone and the object's count one higher
  -- than the number of references that are left, so that it is never closed.
  pub sysexec_leaks :
      (n io : ℕ) (e : Errno) (s : User D)
      → pid < nproc
      → n < process_iomax
      → entries (s.procs.proctab pid) n ≡ some io
      → IsCounted s.procs
      → ((u : User D) → calls.process_exec io u ≡ done (err e) u)
      → (s' : User D) × (sysexec ops calls pid (pos n) s ≡ done (err e) s')
        × (entries (s'.procs.proctab pid) n ≡ none)
        × (s'.procs.refcnt io ≡ total io s'.procs.proctab + 1)
  unfolding sysexec set_entry
  sysexec_leaks n io e s p_in n_in open_fd counted fails =
      let s' : User D = record s { procs = set_entry pid n none s.procs } in
      let in_table : leb process_iomax n ≡ false = ground (arith, n_in) in
      let changed = total-set_entry s.procs io pid n none p_in n_in in
      let here : one io (entries (s.procs.proctab pid) n) ≡ 1 = rw open_fd (ground arith) in
      (
        s',
        rw (sysexec, in_table, open_fd) (fails s'),
        ap (λ (t : Option Iotab). entries t n)
              (store_same s.procs.proctab pid (some (store (entries (s.procs.proctab pid)) n none))
                pid refl)
            ∙ store_same (entries (s.procs.proctab pid)) n none n refl,
        omega (arith, changed, here, counted io (total_pos ops s.procs pid p_in n io n_in open_fd)),
      )

-- `sysusleep` sleeps ten ticks, which the timer takes for each microsecond, for every microsecond exactly
-- where the time is at most 1844674407370 microseconds, about 21 days; above, the 64-bit product
-- wraps around and it sleeps less.
pub usleep_ticks_bound :
    (us : ℕ)
    → (us ≤ 1844674407370 → usleep_ticks us ≡ us * 10)
      × (1844674407370 < us → usleep_ticks us < us * 10)
unfolding usleep_ticks
usleep_ticks_bound us = (λ le. omega (arith, le), λ gt. omega (arith, gt))
