-- ===== src/Io/LineLaws.antt =====
-- src/kern/io.c: what `ioterm_getsn` makes of the keys that are typed.
use illinux.Prelude.{
  ℕ, suc, ◌+◌, ◌-◌, ◌≤◌, ◌≡◌, ◌≢◌, refl, ap, ◌∙◌, Bool, true, false, Option, some, List, [], ◌∷◌,
  ◌++◌, arith, ltb, ◌==◌, if◌then◌else◌, length, drop,
}
use illinux.Cmd.{Cmd, done, pure, then_done, ◌>>◌}
use illinux.Errno.{Result, ok, err}
use illinux.Io.Stream.{Writer, put_result}
use illinux.Io.Term.{Term, fix_input, ioterm_read}
use illinux.Io.Line.{
  Line, escape, enter, rubout, plain, key, iogetc, ioputc, put_all_chars, getsn_key, write_byte,
  unless_failed,
}
use illinux.Mem.{Mem, store, store_other}

-- A device with a keyboard and a screen: `input` is what will be read from it, `output` what has been
-- written.
pub record IsConsole {D : Type 0} (read : D → ℕ → D × Result (List ℕ)) (iowrite : Writer D)
    (input output : D → List ℕ) : Type 0 where
  pub reads :
      (d : D) (c : ℕ) (cs : List ℕ)
      → input d ≡ c ∷ cs
      → (d' : D) × (read d 1 ≡ (d', ok (c ∷ []))) × (input d' ≡ cs) × (output d' ≡ output d)
  pub writes :
      (d : D) (c : ℕ)
      → (d' : D) × (iowrite d (c ∷ []) ≡ some (d', ok 1))
        × (input d' ≡ input d)
        × (output d' ≡ output d ++ (c ∷ []))

-- The line as a stack of characters, the last one first, in a buffer of `size` bytes.
abbrev pub edit_key : ℕ → List ℕ → ℕ → List ℕ
edit_key size line c = elim (key c) [
  | escape ↦ line
  | enter ↦ line
  | rubout ↦ drop 1 line
  | plain ↦ if ltb (suc (length line)) size then c ∷ line else line
]

abbrev pub echo_key : ℕ → List ℕ → ℕ → List ℕ
echo_key size line c = elim (key c) [
  | escape ↦ []
  | enter ↦ []
  | rubout ↦ if length line == 0 then 7 ∷ [] else 8 ∷ 32 ∷ 8 ∷ []
  | plain ↦ if ltb (suc (length line)) size then c ∷ [] else 7 ∷ []
]

unfoldable pub edit : ℕ → List ℕ → List ℕ → List ℕ
edit size line [] = line
edit size line (c ∷ cs) = edit size (edit_key size line c) cs

unfoldable pub echo : ℕ → List ℕ → List ℕ → List ℕ
echo size line [] = []
echo size line (c ∷ cs) = echo_key size line c ++ echo size (edit_key size line c) cs

-- The buffer holds the line.
unfoldable pub Holds : Mem → List ℕ → Type 0
Holds m [] = Unit {0}
Holds m (c ∷ line) = (m (length line) ≡ c) × Holds m line

pub Holds-store :
    (m : Mem) (line : List ℕ) (p a : ℕ) → length line ≤ p → Holds m line → Holds (store m p a) line
unfolding Holds
Holds-store m [] p a le h = tt
Holds-store m (c ∷ line) p a le (at, h) = (
  store_other m p a (length line) (omega (arith, le)) ∙ at,
  Holds-store m line p a (omega (arith, le)) h,
)

-- No character of the list ends a line.
abbrev pub NoBreak : List ℕ → Type 0
NoBreak [] = Unit {0}
NoBreak (c ∷ cs) = (c ≢ 10) × (c ≢ 13) × NoBreak cs

module _ {D : Type 0} (read : D → ℕ → D × Result (List ℕ)) (rounds : ℕ) (t : Term D) where
  abbrev Answer : Type 0
  Answer = Option (Term D × Result (List ℕ))

  abbrev kept : D → List ℕ × Bool → Answer
  kept d r = elim r.0 [
    | [] ↦ ioterm_read read rounds 1 (record t { rawio = d; cr_in = r.1 })
    | c ∷ cs ↦ some (record t { rawio = d; cr_in = r.1 }, ok (c ∷ cs))
  ]

  abbrev answered : D × Result (List ℕ) → Answer
  answered q = elim q.1 [
    | err e ↦ some (record t { rawio = q.0 }, err e)
    | ok bs ↦ kept q.0 (fix_input t.cr_in bs)
  ]

  -- One call of the device's read is enough where its character is kept.
  ioterm_read_one :
      (d : D) (c x : ℕ) (cr : Bool)
      → read t.rawio 1 ≡ (d, ok (c ∷ []))
      → fix_input t.cr_in (c ∷ []) ≡ (x ∷ [], cr)
      → ioterm_read read (suc rounds) 1 t ≡ some (record t { rawio = d; cr_in = cr }, ok (x ∷ []))
  unfolding ioterm_read
  ioterm_read_one d c x cr e f = ap answered e ∙ ap (kept d) f

module _ {D : Type 0} (read : D → ℕ → D × Result (List ℕ)) (iowrite : Writer D) (rounds : ℕ) where
  -- A typed character as `iogetc` returns it.
  pub iogetc_lem :
      (s : Line D) (d : D) (c x : ℕ) (cr : Bool)
      → read s.term.rawio 1 ≡ (d, ok (c ∷ []))
      → fix_input s.term.cr_in (c ∷ []) ≡ (x ∷ [], cr)
      → iogetc read iowrite (suc rounds) s
        ≡ done (ok x) (record s { term = record (s.term) { rawio = d; cr_in = cr } })
  unfolding iogetc
  iogetc_lem s d c x cr e f = rw (iogetc, ioterm_read_one read rounds s.term d c x cr e f) refl

  pub ioputc_lem :
      (s : Line D) (d : D) (c : ℕ)
      → iowrite s.term.rawio (c ∷ []) ≡ some (d, ok 1)
      → ioputc read iowrite c s ≡ done true (record s { term = record (s.term) { rawio = d } })
  unfolding ioputc put_result
  ioputc_lem s d c e = rw (ioputc, e) refl

module _ {D : Type 0} (read : D → ℕ → D × Result (List ℕ)) (iowrite : Writer D)
    (next : ℕ → ℕ → Cmd (Line D) Bool) (p n : ℕ) (s t : Line D) (c : ℕ) where
  pub getsn_key-plain :
      key c ≡ plain
      → ltb 1 n ≡ true
      → put_all_chars read iowrite (c ∷ []) s ≡ done true t
      → getsn_key read iowrite next p n c s
        ≡ next (p + 1) (n - 1) (record t { buf = store t.buf p c })
  unfolding getsn_key
  getsn_key-plain k room e =
      rw (getsn_key, k, room)
        (then_done (put_all_chars read iowrite (c ∷ []))
          (λ sent.
            write_byte read iowrite p c >> unless_failed read iowrite sent (next (p + 1) (n - 1)))
          e)

  pub getsn_key-full :
      key c ≡ plain
      → ltb 1 n ≡ false
      → put_all_chars read iowrite (7 ∷ []) s ≡ done true t
      → getsn_key read iowrite next p n c s ≡ next p n t
  unfolding getsn_key
  getsn_key-full k room e =
      rw (getsn_key, k, room)
        (then_done (put_all_chars read iowrite (7 ∷ []))
          (λ sent. unless_failed read iowrite sent (next p n)) e)

  pub getsn_key-rubout :
      key c ≡ rubout
      → (p == 0) ≡ false
      → put_all_chars read iowrite (8 ∷ 32 ∷ 8 ∷ []) s ≡ done true t
      → getsn_key read iowrite next p n c s ≡ next (p - 1) (n + 1) t
  unfolding getsn_key
  getsn_key-rubout k room e =
      rw (getsn_key, k, room)
        (then_done (put_all_chars read iowrite (8 ∷ 32 ∷ 8 ∷ []))
          (λ sent. unless_failed read iowrite sent (next (p - 1) (n + 1))) e)

  pub getsn_key-beep :
      key c ≡ rubout
      → (p == 0) ≡ true
      → put_all_chars read iowrite (7 ∷ []) s ≡ done true t
      → getsn_key read iowrite next p n c s ≡ next p n t
  unfolding getsn_key
  getsn_key-beep k room e =
      rw (getsn_key, k, room)
        (then_done (put_all_chars read iowrite (7 ∷ []))
          (λ sent. unless_failed read iowrite sent (next p n)) e)

  pub getsn_key-escape :
      key c ≡ escape
      → getsn_key read iowrite next p n c s
        ≡ next p n (record s { term = record (s.term) { cr_in = false } })
  unfolding getsn_key
  getsn_key-escape k = rw (getsn_key, k) refl

  pub getsn_key-enter :
      key c ≡ enter
      → put_all_chars read iowrite (13 ∷ 10 ∷ []) s ≡ done true t
      → getsn_key read iowrite next p n c s ≡ done true (record t { buf = store t.buf p 0 })
  unfolding getsn_key
  getsn_key-enter k e =
      rw (getsn_key, k)
        (then_done (put_all_chars read iowrite (13 ∷ 10 ∷ []))
          (λ sent. unless_failed read iowrite sent (write_byte read iowrite p 0 >> pure true)) e)
