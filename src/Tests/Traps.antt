-- ===== src/Tests/Traps.antt =====
-- src/kern/plic.c, intr.c, syscall.c and excp.c at concrete inputs.
use illinux.Prelude.{ℕ, ◌+◌, ◌≡◌, refl, true, false, none, some, List, [], ◌∷◌, ◌++◌, take, arith}
use illinux.Cmd.{Cmd, done, modify, pure, ◌>>◌}
use illinux.Errno.{Result, ok, err, ebadfd, eio}
use illinux.Mem.{store}
use illinux.Plic.{Claims, plic_init}
use illinux.Plic.Sources.{enabled}
use illinux.Plic.Start.{priority, plic_init-IsReset}
use illinux.Intr.{Intr, TrapFrame, intr_register_isr, intr_enable_irq}
use illinux.Intr.Serve.{Serves, intr_handler-Serves}
use illinux.Io.StreamLaws.{IsDevice}
use illinux.Process.{Drivers}
use illinux.Syscall.{User, Calls, bytes_of, with_drivers}
use illinux.Syscall.Handler.{umode_excp_handler}
use illinux.Syscall.Errors.{on_read, returned, umode_excp_handler_bad_fd, umode_excp_handler_write}

plic_init-IsReset_example :
    (priority (plic_init (λ a. 7)) 10 ≡ 0)
    × (enabled (plic_init (λ a. 7)) 1 10 ≡ 1)
    × (enabled (plic_init (λ a. 7)) 0 10 ≡ enabled (λ a. 7) 0 10)
plic_init-IsReset_example = plic_init-IsReset (λ a. 7) 10 (omega arith)

-- A controller that always says that source 10 interrupts, and a routine that adds up its arguments.
abbrev always_ten : Claims
always_ten = record { claim = λ r a. (10, r); complete = λ r a n. store r a n }

abbrev add_up : ℕ → ℕ → ℕ → Cmd (Intr ℕ ℕ ℕ) (Unit {0})
add_up isr irqno aux = modify λ s. record s { devices = s.devices + aux }

abbrev no_action : Cmd (Intr ℕ ℕ ℕ) (Unit {0})
no_action = modify λ s. s

abbrev no_isrs : Intr ℕ ℕ ℕ
no_isrs = record {
  regs = λ a. 0;
  isrtab = λ i. record { isr = none; isr_aux = 0; prio = 0 };
  intr_initialized = true;
  devices = 0;
}

intr_handler-Serves_example :
    (s' : Intr ℕ ℕ ℕ) × ((intr_register_isr 10 3 8 4 >> intr_enable_irq 10) no_isrs ≡ done tt s')
    × Serves 10 3 8 4 always_ten add_up no_action no_action no_isrs s'
intr_handler-Serves_example =
    intr_handler-Serves 10 3 8 4 always_ten add_up no_action no_action no_isrs (omega arith)
      (omega arith) (omega arith)

-- Devices that keep the bytes that are written, one at a time.
abbrev keep_one : List ℕ → List ℕ → List ℕ × Result ℕ
keep_one d bs = (d ++ take 1 bs, ok 1)

keep_one-IsDevice : IsDevice keep_one (λ d. d)
keep_one-IsDevice = record {
  count = λ d bs. 1;
  some_bytes = λ d bs lt. (omega arith, omega arith);
  returns = λ d bs lt. refl;
  stores = λ d bs lt. refl;
}

abbrev no_drivers : Drivers (List ℕ)
no_drivers = record {
  device_open = λ d name n. (d, err eio);
  fs_open = λ d name. (d, err eio);
  fs_close = λ d io. d;
  can_close = λ io. false;
  close = λ d io. d;
  can_read = λ io. false;
  read = λ d io buf n. (d, buf, err eio);
}

abbrev fails : Cmd (User (List ℕ)) (Result ℕ)
fails = pure (err eio)

abbrev writing : Calls (List ℕ)
writing = record {
  io_ops = λ io. record { write = some keep_one; read = none };
  ctl = λ io. none;
  process_exec = λ io. fails;
  thread_fork_to_user = λ child. fails;
  thread_join_any = fails;
  thread_join = λ tid. fails;
  alarm_sleep = λ ticks. modify λ s. s;
}

-- Process 1 has object 3 as its descriptor 2.
abbrev caller : User (List ℕ)
caller = record {
  procs = record {
    drivers = 65 ∷ [];
    refcnt = λ io. 1;
    proctab = store (λ p. none) 1 (some (store (λ i. none) 2 (some 3)));
  };
  mem = λ a. a;
}

abbrev frame : ℕ → ℕ → TrapFrame
frame num fd = record {
  x = store (store (store (store (λ i. 0) 10 fd) 11 100) 12 2) 17 num;
  sstatus = 0;
  sepc = 1000;
}

abbrev no_fault : ℕ → Cmd (User (List ℕ)) (Unit {0})
no_fault a = modify λ s. s

umode_excp_handler_bad_fd_example :
    umode_excp_handler no_drivers writing 1 no_fault 8 (frame 21 5) caller
    ≡ done (some (returned (err ebadfd) (frame 21 5))) caller
umode_excp_handler_bad_fd_example =
    umode_excp_handler_bad_fd no_drivers writing 1 no_fault (frame 21 5) caller on_read refl

umode_excp_handler_write_example :
    (d : List ℕ) × (umode_excp_handler no_drivers writing 1 no_fault 8 (frame 22 2) caller
      ≡ done (some (returned (ok 2) (frame 22 2))) (with_drivers caller d))
    × (d ≡ (65 ∷ []) ++ bytes_of (λ j. 100 + j) 2)
umode_excp_handler_write_example =
    umode_excp_handler_write no_drivers writing 1 no_fault (frame 22 2) caller 3 keep_one (λ d. d)
      refl refl (omega arith) refl keep_one-IsDevice
