-- ===== src/Io/Line.antt =====
-- src/kern/io.c: the line editing of `ioterm_getsn`.
use illinux.Prelude.{
  ℕ, zero, suc, ◌+◌, ◌-◌, ◌||◌, Bool, true, false, none, some, List, [], ◌∷◌, ltb, ◌==◌,
  if◌then◌else◌,
}
use illinux.Cmd.{Cmd, done, timeout, pure, modify, ◌>>=◌, ◌>>◌}
use illinux.Errno.{eio, code, Result, ok, err}
use illinux.Io.Stream.{Writer, put_result}
use illinux.Io.Term.{Term, ioterm_read}
use illinux.Mem.{Mem, store}

-- The cases of the `switch` statement. The escape that is named there is octal 133, the character "[".
pub data Key : Type 0 where
  escape enter rubout plain : Key

abbrev pub key : ℕ → Key
key c =
    if c == 91
    then escape
    else if (c == 13) || (c == 10)
    then enter
    else if (c == 8) || (c == 127)
    then rubout
    else plain

-- The terminal, and the memory from the buffer on.
pub record Line (D : Type 0) : Type 0 where
  pub term : Term D
  pub buf : Mem

abbrev pub is_ok : Result ℕ → Bool
is_ok (ok k) = true
is_ok (err e) = false

-- An int as a char: an error is the low byte of its negative code.
abbrev pub to_char : Result ℕ → ℕ
to_char (ok c) = c
to_char (err e) = 256 - code e

abbrev pub first_byte : Result (List ℕ) → Result ℕ
first_byte (err e) = err e
first_byte (ok []) = err eio
first_byte (ok (c ∷ cs)) = ok c

module _ {D : Type 0} (read : D → ℕ → D × Result (List ℕ)) (iowrite : Writer D) where
  -- `iogetc` on the terminal; `rounds` is the fuel of `ioterm_read`.
  unfoldable pub iogetc : ℕ → Cmd (Line D) (Result ℕ)
  iogetc rounds s = elim (ioterm_read read rounds 1 s.term) [
    | none ↦ timeout
    | some r ↦ done (first_byte r.1) (record s { term = r.0 })
  ]

  -- `ioputc` on `rawio`: whether it has been written.
  unfoldable pub ioputc : ℕ → Cmd (Line D) Bool
  ioputc c s = elim (iowrite s.term.rawio (c ∷ [])) [
    | none ↦ timeout
    | some r ↦ done (is_ok (put_result r.1 c)) (record s { term = record (s.term) { rawio = r.0 } })
  ]

  -- Several of them, up to the first that fails.
  unfoldable pub put_all_chars : List ℕ → Cmd (Line D) Bool
  put_all_chars [] = pure true
  put_all_chars (c ∷ cs) = do
    sent ← ioputc c
    elim sent [ true ↦ put_all_chars cs | false ↦ pure false ]

  abbrev pub write_byte : ℕ → ℕ → Cmd (Line D) (Unit {0})
  write_byte p c = modify λ s. record s { buf = store s.buf p c }

  abbrev pub clear_cr : Cmd (Line D) (Unit {0})
  clear_cr = modify λ s. record s { term = record (s.term) { cr_in = false } }

  abbrev pub unless_failed : Bool → Cmd (Line D) Bool → Cmd (Line D) Bool
  unless_failed sent rest = elim sent [ true ↦ rest | false ↦ pure false ]

  -- The `switch` statement, with what the loop does next. `p` is the number of characters in the buffer
  -- and `n` the room that is left.
  unfoldable pub getsn_key : (ℕ → ℕ → Cmd (Line D) Bool) → ℕ → ℕ → ℕ → Cmd (Line D) Bool
  getsn_key next p n c = elim (key c) [
    | escape ↦ clear_cr >> next p n
    | enter ↦
        put_all_chars (13 ∷ 10 ∷ []) >>= λ sent. unless_failed sent (write_byte p 0 >> pure true)
    | rubout ↦ elim (p == 0) [
      | true ↦ put_all_chars (7 ∷ []) >>= λ sent. unless_failed sent (next p n)
      | false ↦
          put_all_chars (8 ∷ 32 ∷ 8 ∷ []) >>= λ sent. unless_failed sent (next (p - 1) (n + 1))
    ]
    | plain ↦ elim (ltb 1 n) [
      | true ↦ put_all_chars (c ∷ []) >>= λ sent.
          write_byte p c >> unless_failed sent (next (p + 1) (n - 1))
      | false ↦ put_all_chars (7 ∷ []) >>= λ sent. unless_failed sent (next p n)
    ]
  ]

  -- The loop on fuel; the result tells whether it is the buffer or NULL.
  unfoldable pub ioterm_getsn : ℕ → ℕ → ℕ → ℕ → Cmd (Line D) Bool
  ioterm_getsn rounds zero p n = λ s. timeout
  ioterm_getsn rounds (suc fuel) p n = do
    result ← iogetc rounds
    getsn_key (ioterm_getsn rounds fuel) p n (to_char result)
