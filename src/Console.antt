-- ===== src/Console.antt =====
-- src/kern/console.c: the console on the polled serial port of src/kern/uart.c. `com0_getc` waits for a byte and
-- `com0_putc` for room; the bytes that will come are a list, and a read behind its end waits for ever.
-- The build leaves CONSOLE_RAW undefined.
pub mod Shown
use illinux.Prelude.{
  ℕ, zero, suc, ◌+◌, ◌-◌, ◌||◌, ◌&&◌, not, Bool, true, false, Option, none, some, List, [], ◌∷◌,
  ◌++◌, length, ltb, ◌==◌, if◌then◌else◌,
}
use illinux.Cmd.{Cmd, Run, done, panic, blocked, timeout, pure, modify, ◌>>=◌, ◌>>◌}
use illinux.Mem.{Mem, store}
use illinux.Str.Format.{vgprintf}

-- The bytes that will come and those that were sent, and the two static variables `cprev`.
pub record Console : Type 0 where
  pub typed : List ℕ
  pub shown : List ℕ
  pub cprev_put : ℕ
  pub cprev_get : ℕ

unfoldable pub com0_putc : ℕ → Console → Console
com0_putc c s = record s { shown = s.shown ++ (c ∷ []) }

abbrev pub set_cprev_put : ℕ → Console → Console
set_cprev_put c s = record s { cprev_put = c }

unfoldable pub console_putchar : ℕ → Console → Console
console_putchar c s = set_cprev_put c (
    if c == 13
    then com0_putc 10 (com0_putc 13 s)
    else if (c == 10) && not (s.cprev_put == 13)
    then com0_putc 10 (com0_putc 13 s)
    else com0_putc c s)

-- The loop of `console_getchar` over the bytes that come: the byte that it ends with, if any, and those
-- that are left.
unfoldable pub skip_newlines : Bool → List ℕ → Option (ℕ × List ℕ)
skip_newlines after_cr [] = none
skip_newlines after_cr (c ∷ cs) = elim ((c == 10) && after_cr) [
  | true ↦ skip_newlines after_cr cs
  | false ↦ some (c, cs)
]

unfoldable pub console_getchar : Cmd Console ℕ
console_getchar s = elim (skip_newlines (s.cprev_get == 13) s.typed) [
  | none ↦ blocked
  | some r ↦ done (if r.0 == 13 then 10 else r.0) (record s { typed = r.1; cprev_get = r.0 })
]

unfoldable pub console_puts : List ℕ → Console → Console
console_puts [] s = console_putchar 10 s
console_puts (c ∷ str) s = console_puts str (console_putchar c s)

-- The console and the caller's buffer.
abbrev pub lift_get : Cmd (Console × Mem) ℕ
lift_get s = elim (console_getchar s.0) [
  | done c t ↦ done c (t, s.1)
  | blocked ↦ blocked
  | panic ↦ panic
  | timeout ↦ timeout
]

-- The loop on fuel; `p` is the number of characters in the buffer and `n` the room that is left.
unfoldable pub console_getsn : ℕ → ℕ → ℕ → Cmd (Console × Mem) (Unit {0})
console_getsn zero p n = λ s. timeout
console_getsn (suc fuel) p n = lift_get >>= λ c. elim (c == 13) [
  | true ↦ console_getsn fuel p n
  | false ↦ elim (c == 10) [
    | true ↦ modify (λ s. (s.0, store s.1 p 0))
    | false ↦ elim ((c == 8) || (c == 127)) [
      | true ↦ elim (p == 0) [
        | true ↦ console_getsn fuel p n
        | false ↦ console_getsn fuel (p - 1) (n + 1)
      ]
      | false ↦ elim (ltb 1 n) [
        | true ↦ modify (λ s. (s.0, store s.1 p c)) >> console_getsn fuel (p + 1) (n - 1)
        | false ↦ console_getsn fuel p n
      ]
    ]
  ]
]

unfoldable pub vprintf_putc : ℕ → Console → Console
vprintf_putc c s = console_putchar c s

-- Interrupts are off while it prints.
unfoldable pub console_vprintf :
    (ℕ → Option (List ℕ)) → List ℕ → List ℕ → Console → Option (Console × ℕ)
console_vprintf str_at fmt va s = vgprintf vprintf_putc str_at (length fmt + 1) fmt va s 0
