-- ===== src/Tests/Process.antt =====
-- src/kern/process.c and syscall.c at concrete inputs: drivers that count how often each object is
-- closed, and two processes that share object 3.
use illinux.Prelude.{ℕ, ◌+◌, ◌<◌, ◌≡◌, refl, arith, true, none, some, ◌==◌, if◌then◌else◌}
use illinux.Prelude.Int.{pos, negsuc}
use illinux.Errno.{ok}
use illinux.Mem.{store}
use illinux.Process.{
  Iotab, Drivers, Procs, entries, process_iomax, sysclose, sysdevopen, process_fork,
}
use illinux.Process.Refs.{IsCounted, count, total}
use illinux.Process.Calls.{sysclose-IsCounted}
use illinux.Process.Fork.{process_fork-IsCounted}
use illinux.Process.Open.{sysdevopen-IsCounted}

abbrev drivers : Drivers (ℕ → ℕ)
drivers = record {
  device_open = λ d f n. (d, ok 5);
  fs_open = λ d f. (d, ok 5);
  fs_close = λ d io. d;
  can_close = λ io. true;
  close = λ d io. store d io (d io + 1);
  can_read = λ io. true;
  read = λ d io b n. (d, b, ok 0);
}

abbrev table : Iotab
table i = if i == 2 then some 3 else none

abbrev procs : Procs (ℕ → ℕ)
procs = record {
  drivers = λ io. 0;
  refcnt = λ io. 2;
  proctab = λ p. if p == 0 then some table else if p == 1 then some table else none;
}

procs-IsCounted : IsCounted procs
unfolding total count
procs-IsCounted o more = ground arith

no_five : total 5 procs.proctab ≡ 0
unfolding total count
no_five = refl

sysclose-IsCounted_example : IsCounted (sysclose drivers 1 (pos 2) procs).0
sysclose-IsCounted_example =
    sysclose-IsCounted drivers procs 1 (omega arith) (pos 2) procs-IsCounted

process_fork-IsCounted_example :
    let (s', child) = process_fork 1 procs in
    IsCounted s'
    × ((new : ℕ)
        → child ≡ some new
        → (new < 16) × (procs.proctab new ≡ none) × (s'.proctab new ≡ some table))
process_fork-IsCounted_example = process_fork-IsCounted 1 procs (omega arith) procs-IsCounted

sysdevopen-IsCounted_example :
    let (s', ret) = sysdevopen drivers 1 (negsuc 0) (some (λ i. 0)) 0 procs in
    IsCounted s'
    × ((n : ℕ)
        → ret ≡ ok n
        → (n < process_iomax) × (table n ≡ none) × (entries (s'.proctab 1) n ≡ some 5))
sysdevopen-IsCounted_example =
    sysdevopen-IsCounted drivers 1 (omega arith) procs procs-IsCounted (negsuc 0) (λ i. 0) 5 no_five
      0 refl
