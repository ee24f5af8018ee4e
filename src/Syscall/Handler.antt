-- ===== src/Syscall/Handler.antt =====
-- src/kern/syscall.c: `syscall_handler`, with the conversions of the registers to arguments; the
-- handler of exceptions in user mode of src/kern/excp.c.
use illinux.Prelude.{ℕ, ◌+◌, ◌-◌, ◌%◌, ◌^◌, Option, none, some, ltb, leb, ◌==◌, if◌then◌else◌}
use illinux.Prelude.Int.{ℤ, pos, negsuc}
use illinux.Cmd.{Cmd, done, panic, pure, ◌>>=◌, ◌>>◌}
use illinux.Errno.{Result, ok, err, code, enotsup}
use illinux.Mem.{Mem, store}
use illinux.Intr.{TrapFrame}
use illinux.Process.{Drivers, Procs, process_exit, sysclose, sysdevopen, sysfsopen, sysread}
use illinux.Syscall.{
  User, Calls, syswrite, sysioctl, sysexec, sysfork, syswait, sysusleep, sysmsgout, syspioref,
}

-- (int)a
abbrev pub int_arg : ℕ → ℤ
int_arg a = let w = a % 2 ^ 32 in if ltb w 2147483648 then pos w else negsuc (4294967295 - w)

-- The memory behind a pointer, none for NULL.
abbrev pub pointer_arg : ℕ → Mem → Option Mem
pointer_arg a m = if a == 0 then none else some (λ j. m (a + j))

-- Memory after a call that changed what is behind the pointer.
abbrev pub put_back : ℕ → Option Mem → Mem → Mem
put_back a none m = m
put_back a (some b) m = λ j. if leb a j then b (j - a) else m j

-- An int64_t in a register.
abbrev pub register_value : Result ℕ → ℕ
register_value (ok n) = n % 2 ^ 64
register_value (err e) = 2 ^ 64 - code e

abbrev pub set_a0 : Result ℕ → TrapFrame → TrapFrame
set_a0 ret tfr = record tfr { x = store tfr.x 10 (register_value ret) }

module _ {D : Type 0} (ops : Drivers D) (calls : Calls D) (pid : ℕ) where
  -- A call of Process, as a command on the caller.
  abbrev pub on_procs : (Procs D → Procs D × Result ℕ) → Cmd (User D) (Result ℕ)
  on_procs f s = let r = f s.procs in done r.1 (record s { procs = r.0 })

  abbrev pub read_call : ℤ → ℕ → ℕ → Cmd (User D) (Result ℕ)
  read_call fd a n s =
      let r = sysread ops pid fd (pointer_arg a s.mem) n s.procs in
      done r.2 (record { procs = r.0; mem = put_back a r.1 s.mem })

  abbrev pub ioctl_call : ℤ → ℕ → ℕ → Cmd (User D) (Result ℕ)
  ioctl_call fd cmd a s =
      let r = sysioctl ops calls pid fd cmd (pointer_arg a s.mem) s in
      done r.2 (record (r.0) { mem = put_back a r.1 s.mem })

  -- The `switch` statement without `sysexit`, on the number and the registers a0 to a2.
  unfoldable pub dispatch : ℕ → ℕ → ℕ → ℕ → Cmd (User D) (Result ℕ)
  dispatch num a0 a1 a2 s =
      if num == 1
      then sysmsgout ops calls s
      else if num == 10
      then on_procs (sysdevopen ops pid (int_arg a0) (pointer_arg a1 s.mem) (a2 % 2 ^ 32)) s
      else if num == 11
      then on_procs (sysfsopen ops pid (int_arg a0) (pointer_arg a1 s.mem)) s
      else if num == 20
      then on_procs (sysclose ops pid (int_arg a0)) s
      else if num == 21
      then read_call (int_arg a0) a1 a2 s
      else if num == 22
      then syswrite ops calls pid (int_arg a0) (pointer_arg a1 s.mem) a2 s
      else if num == 23
      then ioctl_call (int_arg a0) (a1 % 2 ^ 32) a2 s
      else if num == 30
      then sysexec ops calls pid (int_arg a0) s
      else if num == 31
      then sysfork ops calls pid s
      else if num == 41
      then syswait ops calls (int_arg a0) s
      else if num == 40
      then sysusleep ops calls a0 s
      else if num == 42
      then syspioref ops calls s
      else done (err enotsup) s

  -- None where the call does not return to the program, which has exited.
  unfoldable pub syscall_handler : TrapFrame → Cmd (User D) (Option TrapFrame)
  syscall_handler tfr s =
      if tfr.x 17 == 0
      then done none (record s { procs = process_exit ops pid s.procs })
      else (dispatch (tfr.x 17) (tfr.x 10) (tfr.x 11) (tfr.x 12) >>= λ ret.
            pure (some (set_a0 ret tfr)))
          s

  -- `default_excp_handler` prints and panics.
  unfoldable pub umode_excp_handler :
      (ℕ → Cmd (User D) (Unit {0})) → ℕ → TrapFrame → Cmd (User D) (Option TrapFrame)
  umode_excp_handler memory_handle_page_fault excode tfr =
      if excode == 8
      then syscall_handler (record tfr { sepc = (tfr.sepc + 4) % 2 ^ 64 })
      else if (excode == 13)
      then memory_handle_page_fault (tfr.x 2) >> pure (some tfr)
      else if (excode == 15)
      then memory_handle_page_fault (tfr.x 2) >> pure (some tfr)
      else (λ s. panic)
