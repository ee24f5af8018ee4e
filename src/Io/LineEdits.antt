-- ===== src/Io/LineEdits.antt =====
-- src/kern/io.c: a whole line typed into `ioterm_getsn`.
use illinux.Prelude.{
  ℕ, zero, suc, ◌+◌, ◌≤◌, ◌<◌, ◌≡◌, refl, sym, ap, ◌∙◌, subst, Bool, false, List, [], ◌∷◌, ◌++◌,
  arith, ◌==◌, length,
}
use illinux.Cmd.{Run, Returns, then_done}
use illinux.Errno.{Result}
use illinux.Io.Stream.{Writer}
use illinux.Io.Line.{Line, to_char, iogetc, getsn_key, ioterm_getsn}
use illinux.Io.LineLaws.{
  IsConsole, edit, echo, Holds, Holds-store, NoBreak, iogetc_lem, getsn_key-enter,
}
use illinux.Mem.{Mem, store_same, store_other}
use illinux.Io.LineKeys.{
  IsBreak, fix_input-break, put_all_chars_lem, IsEdited, line_end, edit_key_step,
}

module _ {D : Type 0} (read : D → ℕ → D × Result (List ℕ)) (iowrite : Writer D)
    (input output : D → List ℕ) (console : IsConsole read iowrite input output) where
  -- What the next character finds: a LF alone ends no line where a CR came just before it.
  abbrev pub Ends : Bool → List ℕ → ℕ → Type 0
  Ends cr [] nl = IsBreak cr nl
  Ends cr (c ∷ cs) nl = IsBreak false nl

  Ends-plain : (cs : List ℕ) (nl : ℕ) (cr : Bool) → cr ≡ false → IsBreak false nl → Ends cr cs nl
  Ends-plain [] nl cr e b = subst (λ (x : Bool). IsBreak x nl) (sym e) b
  Ends-plain (c ∷ cs) nl cr e b = b

  -- On a console where the keys `cs` are typed, none of them CR or LF, and then CR, or LF that does not
  -- come just behind a CR, `ioterm_getsn` returns the buffer and takes exactly these keys. Where `line` was in the buffer,
  -- which has `size` bytes with at least one left, it then holds the line that the keys edit, shorter
  -- than the buffer, with a NUL behind it; the bytes behind the buffer are as before; and the echo of
  -- the keys is written, followed by CR and LF. More fuel than keys and a round of `ioterm_read` are given.
  pub ioterm_getsn-IsEdited :
      (cs : List ℕ) (rounds fuel p n size nl : ℕ) (line rest : List ℕ) (s : Line D)
      → input s.term.rawio ≡ cs ++ (nl ∷ rest)
      → NoBreak cs
      → Ends s.term.cr_in cs nl
      → length line ≡ p
      → n + p ≡ size
      → 1 ≤ n
      → Holds s.buf line
      → length cs < fuel
      → Returns
          (IsEdited read iowrite input output console size
            (edit size line cs)
            (echo size line cs ++ line_end read iowrite input output console)
            rest
            s)
          (ioterm_getsn read iowrite (suc rounds) fuel p n s)
  unfolding ioterm_getsn edit echo
  ioterm_getsn-IsEdited cs rounds zero p n size nl line rest s i nb ends len room pos held lt =
      absurd (omega (arith, lt))
  ioterm_getsn-IsEdited [] rounds (suc fuel) p n size nl line rest s i nb ends len room pos held
        lt =
      let (d, r, i', o') = console.reads s.term.rawio nl rest i in
      let s' : Line D = record s { term = record (s.term) { rawio = d; cr_in = nl == 13 } } in
      let (t, e, (it, ot, bt, rt)) =
        put_all_chars_lem read iowrite input output console
          (line_end read iowrite input output console) s' in
      subst
        (λ (run : Run (Line D) Bool).
          Returns
            (IsEdited read iowrite input output console size line
              (line_end read iowrite input output console) rest s)
            run)
        (sym (
          then_done (iogetc read iowrite (suc rounds))
            (λ result.
              getsn_key read iowrite (ioterm_getsn read iowrite (suc rounds) fuel) p n
                (to_char result))
            (iogetc_lem read iowrite rounds s d nl 10 (nl == 13) r
              (fix_input-break s.term.cr_in nl ends))
          ∙ getsn_key-enter read iowrite (ioterm_getsn read iowrite (suc rounds) fuel) p n s' t 10
              refl e))
        (
          refl,
          Holds-store t.buf line p 0 (omega (arith, len))
              (subst (λ (m : Mem). Holds m line) (sym bt) held),
          store_same t.buf p 0 (length line) len,
          omega (arith, len, room, pos),
          (λ j le.
              store_other t.buf p 0 j (omega (arith, len, room, pos, le))
              ∙ ap (λ (m : Mem). m j) bt),
          it ∙ i',
          ot ∙ ap (λ (l : List ℕ). l ++ line_end read iowrite input output console) o',
        )
  ioterm_getsn-IsEdited (c ∷ cs) rounds (suc fuel) p n size nl line rest s i (not_nl, not_cr, nb)
        ends len room pos held lt =
      edit_key_step read iowrite input output console rounds fuel p n size c nl line cs rest s i
        not_nl not_cr len room pos held
        (λ p' n' line' t i' cr len' room' pos' held'.
          ioterm_getsn-IsEdited cs rounds fuel p' n' size nl line' rest t i' nb
            (Ends-plain cs nl t.term.cr_in cr ends) len' room' pos' held' (omega (arith, lt)))
