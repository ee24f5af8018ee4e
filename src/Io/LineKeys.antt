-- ===== src/Io/LineKeys.antt =====
-- src/kern/io.c: a key typed into `ioterm_getsn`, in the middle of a line.
use illinux.Prelude.{
  ℕ, suc, ◌+◌, ◌-◌, ◌≤◌, ◌<◌, ◌≡◌, ◌≢◌, refl, sym, ap, ◌∙◌, subst, Bool, true, false, List, [], ◌∷◌,
  ◌++◌, append-nil, append_assoc, inl, inr, ◌⊎◌, arith, ltb, ◌==◌, length, drop, Bool-cases, ltb→lt,
  length-drop,
}
use illinux.Cmd.{Cmd, Run, done, panic, blocked, timeout, pure, Returns, then_done}
use illinux.Errno.{Result}
use illinux.Io.Stream.{Writer}
use illinux.Io.Term.{fix_input, kind, is_other}
use illinux.Io.Line.{
  Line, Key, escape, enter, rubout, plain, key, to_char, iogetc, ioputc, put_all_chars, getsn_key,
  ioterm_getsn,
}
use illinux.Io.LineLaws.{
  IsConsole, edit_key, echo_key, edit, echo, Holds, Holds-store, iogetc_lem, ioputc_lem,
  getsn_key-plain, getsn_key-full, getsn_key-rubout, getsn_key-beep, getsn_key-escape,
}
use illinux.Mem.{Mem, store, store_same, store_other}

fix_input-plain : (cr : Bool) (c : ℕ) → c ≢ 10 → c ≢ 13 → fix_input cr (c ∷ []) ≡ (c ∷ [], false)
unfolding fix_input
fix_input-plain true c not_nl not_cr =
    let k : kind c ≡ is_other = ground (arith, not_nl, not_cr) in rw (fix_input, k) refl
fix_input-plain false c not_nl not_cr =
    let k : kind c ≡ is_other = ground (arith, not_nl, not_cr) in rw (fix_input, k) refl

-- The character ends a line: it is CR, or LF that does not follow a CR.
abbrev pub IsBreak : Bool → ℕ → Type 0
IsBreak cr c = (c ≡ 13) ⊎ ((c ≡ 10) × (cr ≡ false))

pub fix_input-break :
    (cr : Bool) (c : ℕ) → IsBreak cr c → fix_input cr (c ∷ []) ≡ (10 ∷ [], c == 13)
unfolding fix_input
fix_input-break true c (inl e) = rw e refl
fix_input-break false c (inl e) = rw e refl
fix_input-break cr c (inr (e, f)) = rw (e, f) refl

Key-cases : (k : Key) → k ≢ enter → (k ≡ escape) ⊎ ((k ≡ rubout) ⊎ (k ≡ plain))
Key-cases escape ne = inl refl
Key-cases enter ne = absurd (ne refl)
Key-cases rubout ne = inr (inl refl)
Key-cases plain ne = inr (inr refl)

key-not_enter : (c : ℕ) → c ≢ 10 → c ≢ 13 → key c ≢ enter
key-not_enter c not_nl not_cr e = ground (arith, not_nl, not_cr, e)

drop_none : (line : List ℕ) → (length line == 0) ≡ true → drop 1 line ≡ line
drop_none [] e = refl
drop_none (c ∷ line) e = absurd (ground (arith, e))

Holds-drop : (m : Mem) (line : List ℕ) → Holds m line → Holds m (drop 1 line)
unfolding Holds
Holds-drop m [] held = tt
Holds-drop m (c ∷ line) (at, held) = held

Returns-weaken :
    {S A : Type 0} (P Q : A → S → Type 0) (r : Run S A)
    → ((a : A) (s : S) → P a s → Q a s)
    → Returns P r
    → Returns Q r
Returns-weaken P Q (done a s) f h = f a s h
Returns-weaken P Q blocked f h = h
Returns-weaken P Q panic f h = h
Returns-weaken P Q timeout f h = h

module _ {D : Type 0} (read : D → ℕ → D × Result (List ℕ)) (iowrite : Writer D)
    (input output : D → List ℕ) (console : IsConsole read iowrite input output) where
  -- The terminal after characters were written.
  abbrev pub Sent : List ℕ → Line D → Line D → Type 0
  Sent cs s t =
      (input t.term.rawio ≡ input s.term.rawio)
      × (output t.term.rawio ≡ output s.term.rawio ++ cs)
      × (t.buf ≡ s.buf)
      × (t.term.cr_in ≡ s.term.cr_in)

  pub put_all_chars_lem :
      (cs : List ℕ) (s : Line D)
      → (t : Line D) × (put_all_chars read iowrite cs s ≡ done true t) × Sent cs s t
  unfolding put_all_chars
  put_all_chars_lem [] s = (s, refl, (refl, sym (append-nil (output s.term.rawio)), refl, refl))
  put_all_chars_lem (c ∷ cs) s =
      let (d, written, i, o) = console.writes s.term.rawio c in
      let s' : Line D = record s { term = record (s.term) { rawio = d } } in
      let (t, e, (i', o', b, r)) = put_all_chars_lem cs s' in
      (
        t,
        then_done (ioputc read iowrite c)
              (λ sent. elim sent [ true ↦ put_all_chars read iowrite cs | false ↦ pure false ])
              (ioputc_lem read iowrite 0 s d c written)
            ∙ e,
        (
          i' ∙ i,
          o' ∙ ap (λ (l : List ℕ). l ++ cs) o ∙ append_assoc (output s.term.rawio) (c ∷ []) cs,
          b,
          r,
        ),
      )

  -- What `ioterm_getsn` leaves: the line with its NUL in a buffer of `size` bytes, the rest of the
  -- input, and the echo.
  abbrev pub IsEdited : ℕ → List ℕ → List ℕ → List ℕ → Line D → Bool → Line D → Type 0
  IsEdited size line out rest s result t =
      (result ≡ true)
      × Holds t.buf line
      × (t.buf (length line) ≡ 0)
      × (length line < size)
      × ((j : ℕ) → size ≤ j → t.buf j ≡ s.buf j)
      × (input t.term.rawio ≡ rest)
      × (output t.term.rawio ≡ output s.term.rawio ++ out)

  abbrev pub line_end : List ℕ
  line_end = 13 ∷ 10 ∷ []

  -- A key that makes `line` into `line'`, and the rest of the line typed after it.
  edit_then :
      (size : ℕ) (line cs rest out line' : List ℕ) (c : ℕ) (s t : Line D)
      (run run' : Run (Line D) Bool)
      → edit_key size line c ≡ line'
      → echo_key size line c ≡ out
      → output t.term.rawio ≡ output s.term.rawio ++ out
      → ((j : ℕ) → size ≤ j → t.buf j ≡ s.buf j)
      → run ≡ run'
      → Returns (IsEdited size (edit size line' cs) (echo size line' cs ++ line_end) rest t) run'
      → Returns
          (IsEdited size (edit size line (c ∷ cs)) (echo size line (c ∷ cs) ++ line_end) rest s)
          run
  unfolding edit echo
  edit_then size line cs rest out line' c s t run run' el eo o above e h =
      subst
        (λ (r : Run (Line D) Bool).
          Returns
            (IsEdited size (edit size line (c ∷ cs)) (echo size line (c ∷ cs) ++ line_end) rest s)
            r)
        (sym e)
        (Returns-weaken (IsEdited size (edit size line' cs) (echo size line' cs ++ line_end) rest t)
          (IsEdited size (edit size line (c ∷ cs)) (echo size line (c ∷ cs) ++ line_end) rest s)
          run'
          (λ a u. λ (r, held, nul, short, above', i, o').
            rw (el, eo)
              (
                r,
                held,
                nul,
                short,
                (λ j le. above' j le ∙ above j le),
                i,
                o'
                    ∙ ap (λ (l : List ℕ). l ++ (echo size line' cs ++ line_end)) o
                    ∙ append_assoc (output s.term.rawio) out (echo size line' cs ++ line_end)
                    ∙ ap (λ (l : List ℕ). output s.term.rawio ++ l)
                        (sym (append_assoc out (echo size line' cs) line_end)),
              ))
          h)

  -- The state after a character was read.
  abbrev pub after_getc : D → Bool → Line D → Line D
  after_getc d cr s = record s { term = record (s.term) { rawio = d; cr_in = cr } }

  -- `ioterm_getsn` goes right on the input from here on, whatever the line is so far.
  abbrev pub Continues : ℕ → ℕ → ℕ → List ℕ → List ℕ → List ℕ → Type 0
  Continues rounds fuel size left cs rest =
      (p n : ℕ) (line : List ℕ) (t : Line D)
      → input t.term.rawio ≡ left
      → t.term.cr_in ≡ false
      → length line ≡ p
      → n + p ≡ size
      → 1 ≤ n
      → Holds t.buf line
      → Returns (IsEdited size (edit size line cs) (echo size line cs ++ line_end) rest t)
          (ioterm_getsn read iowrite (suc rounds) fuel p n t)

  -- A key that has an echo and stores nothing; `s'` is the state after the key was read.
  quiet_step :
      (rounds fuel size c : ℕ) (line cs left rest : List ℕ) (s s' : Line D)
      (run : Run (Line D) Bool)
      → Continues rounds fuel size left cs rest
      → input s'.term.rawio ≡ left
      → s'.term.cr_in ≡ false
      → output s'.term.rawio ≡ output s.term.rawio
      → s'.buf ≡ s.buf
      → (out line' : List ℕ) (p n : ℕ) → edit_key size line c ≡ line'
      → echo_key size line c ≡ out
      → ((t : Line D)
          → put_all_chars read iowrite out s' ≡ done true t
          → run ≡ ioterm_getsn read iowrite (suc rounds) fuel p n t)
      → length line' ≡ p
      → n + p ≡ size
      → 1 ≤ n
      → Holds s.buf line'
      → Returns
          (IsEdited size (edit size line (c ∷ cs)) (echo size line (c ∷ cs) ++ line_end) rest s)
          run
  quiet_step rounds fuel size c line cs left rest s s' run ih i cr o b out line' p n el eo step len
        room pos held =
      let (t, e, (it, ot, bt, rt)) = put_all_chars_lem out s' in
      edit_then size line cs rest out line' c s t run
        (ioterm_getsn read iowrite (suc rounds) fuel p n t) el eo
        (ot ∙ ap (λ (l : List ℕ). l ++ out) o) (λ j le. ap (λ (m : Mem). m j) (bt ∙ b)) (step t e)
        (ih p n line' t (it ∙ i) (rt ∙ cr) len room pos
          (subst (λ (m : Mem). Holds m line') (sym (bt ∙ b)) held))

  -- `ioterm_getsn` on a key that is a character of the line, where the rest of the line goes right.
  pub edit_key_step :
      (rounds fuel p n size c nl : ℕ) (line cs rest : List ℕ) (s : Line D)
      → input s.term.rawio ≡ c ∷ (cs ++ (nl ∷ rest))
      → c ≢ 10
      → c ≢ 13
      → length line ≡ p
      → n + p ≡ size
      → 1 ≤ n
      → Holds s.buf line
      → Continues rounds fuel size (cs ++ (nl ∷ rest)) cs rest
      → Returns
          (IsEdited size (edit size line (c ∷ cs)) (echo size line (c ∷ cs) ++ line_end) rest s)
          (ioterm_getsn read iowrite (suc rounds) (suc fuel) p n s)
  unfolding ioterm_getsn Holds
  edit_key_step rounds fuel p n size c nl line cs rest s i not_nl not_cr len room pos held ih =
      let (d, r, i', o') = console.reads s.term.rawio c (cs ++ (nl ∷ rest)) i in
      let s' : Line D = after_getc d false s in
      let next : ℕ → ℕ → Cmd (Line D) Bool = ioterm_getsn read iowrite (suc rounds) fuel in
      let got : ioterm_getsn read iowrite (suc rounds) (suc fuel) p n s
          ≡ getsn_key read iowrite next p n c s' =
        then_done (iogetc read iowrite (suc rounds))
          (λ result. getsn_key read iowrite next p n (to_char result))
          (iogetc_lem read iowrite rounds s d c c false r
            (fix_input-plain s.term.cr_in c not_nl not_cr)) in
      let quiet =
        λ (out line' : List ℕ) (p' n' : ℕ) (el : edit_key size line c ≡ line')
            (eo : echo_key size line c ≡ out)
            (step : (t : Line D)
              → put_all_chars read iowrite out s' ≡ done true t
              → getsn_key read iowrite next p n c s' ≡ next p' n' t).
          quiet_step rounds fuel size c line cs (cs ++ (nl ∷ rest)) rest s s'
            (ioterm_getsn read iowrite (suc rounds) (suc fuel) p n s) ih i' refl o' refl out line'
            p' n' el eo (λ t e. got ∙ step t e) in
      elim (Key-cases (key c) (key-not_enter c not_nl not_cr)) [
        | inl k ↦
            edit_then size line cs rest [] line c s s'
              (ioterm_getsn read iowrite (suc rounds) (suc fuel) p n s)
              (ioterm_getsn read iowrite (suc rounds) fuel p n s') (rw (edit_key, k) refl)
              (rw (echo_key, k) refl) (o' ∙ sym (append-nil (output s.term.rawio))) (λ j le. refl)
              (got ∙ getsn_key-escape read iowrite next p n s' s' c k)
              (ih p n line s' i' refl len room pos held)
        | inr (inl k) ↦ elim (Bool-cases (p == 0)) [
          | inl empty ↦
              let none_left : (length line == 0) ≡ true = ground (arith, len, empty) in
              quiet (7 ∷ []) line p n (rw (edit_key, k) (drop_none line none_left))
                (rw (echo_key, k, none_left) refl)
                (λ t e. getsn_key-beep read iowrite next p n s' t c k empty e) len room pos held
          | inr some_left ↦
              let left : (length line == 0) ≡ false = ground (arith, len, some_left) in
              quiet (8 ∷ 32 ∷ 8 ∷ []) (drop 1 line) (p - 1) (n + 1) (rw (edit_key, k) refl)
                (rw (echo_key, k, left) refl)
                (λ t e. getsn_key-rubout read iowrite next p n s' t c k some_left e)
                (omega (arith, len, length-drop 1 line)) (ground (arith, room, some_left))
                (omega arith) (Holds-drop s.buf line held)
        ]
        | inr (inr k) ↦ elim (Bool-cases (ltb 1 n)) [
          | inl more ↦
              let (t, e, (it, ot, bt, rt)) = put_all_chars_lem (c ∷ []) s' in
              let u : Line D = record t { buf = store t.buf p c } in
              let fits : ltb (suc (length line)) size ≡ true = ground (arith, len, room, more) in
              edit_then size line cs rest (c ∷ []) (c ∷ line) c s u
                (ioterm_getsn read iowrite (suc rounds) (suc fuel) p n s)
                (ioterm_getsn read iowrite (suc rounds) fuel (p + 1) (n - 1) u)
                (rw (edit_key, k, fits) refl) (rw (echo_key, k, fits) refl)
                (ot ∙ ap (λ (l : List ℕ). l ++ (c ∷ [])) o')
                (λ j le.
                  store_other t.buf p c j (omega (arith, len, room, pos, le, ltb→lt 1 n more))
                  ∙ ap (λ (m : Mem). m j) bt)
                (got ∙ getsn_key-plain read iowrite next p n s' t c k more e)
                (ih (p + 1) (n - 1) (c ∷ line) u (it ∙ i') rt (omega (arith, len))
                  (omega (arith, room, ltb→lt 1 n more)) (omega (arith, ltb→lt 1 n more))
                  (
                    store_same t.buf p c (length line) len,
                    Holds-store t.buf line p c (omega (arith, len))
                        (subst (λ (m : Mem). Holds m line) (sym bt) held),
                  ))
          | inr full ↦
              let fits : ltb (suc (length line)) size ≡ false = ground (arith, len, room, full) in
              quiet (7 ∷ []) line p n (rw (edit_key, k, fits) refl) (rw (echo_key, k, fits) refl)
                (λ t e. getsn_key-full read iowrite next p n s' t c k full e) len room pos held
        ]
      ]
