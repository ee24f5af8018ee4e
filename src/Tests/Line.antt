-- ===== src/Tests/Line.antt =====
-- src/kern/io.c: a line typed into `ioterm_getsn` on a console that keeps lists of characters.
use illinux.Prelude.{
  ℕ, ◌≡◌, refl, true, false, Option, some, List, [], ◌∷◌, ◌++◌, length, arith, inl,
}
use illinux.Cmd.{Returns}
use illinux.Errno.{Result, ok}
use illinux.Io.Line.{Line, ioterm_getsn}
use illinux.Io.LineLaws.{IsConsole, edit, echo, Holds}
use illinux.Io.LineKeys.{IsEdited, line_end}
use illinux.Io.LineEdits.{ioterm_getsn-IsEdited}

-- What will be typed, and what has been written.
abbrev Screen : Type 0
Screen = List ℕ × List ℕ

abbrev type_key : Screen → ℕ → Screen × Result (List ℕ)
type_key ([], shown) n = (([], shown), ok [])
type_key (c ∷ cs, shown) n = ((cs, shown), ok (c ∷ []))

abbrev show : Screen → List ℕ → Option (Screen × Result ℕ)
show d bs = some ((d.0, d.1 ++ bs), ok (length bs))

abbrev keyboard : Screen → List ℕ
keyboard d = d.0

abbrev shown : Screen → List ℕ
shown d = d.1

type_key_lem :
    (d : Screen) (c : ℕ) (cs : List ℕ)
    → keyboard d ≡ c ∷ cs
    → (d' : Screen) × (type_key d 1 ≡ (d', ok (c ∷ []))) × (keyboard d' ≡ cs) × (shown d' ≡ shown d)
type_key_lem (keys, out) c cs e = ((cs, out), rw e refl, refl, refl)

console : IsConsole type_key show keyboard shown
console = record {
  reads = type_key_lem;
  writes = λ d c. ((d.0, d.1 ++ (c ∷ [])), refl, refl, refl);
}

-- Two characters, a delete, another character, CR.
abbrev typed : List ℕ
typed = 97 ∷ 98 ∷ 127 ∷ 99 ∷ []

abbrev fresh_line : Line Screen
fresh_line = record {
  term = record { rawio = (typed ++ (13 ∷ 120 ∷ []), []); cr_out = false; cr_in = true };
  buf = λ j. 0;
}

ioterm_getsn-IsEdited_example :
    Returns
      (IsEdited type_key show keyboard shown console 4
        (edit 4 [] typed)
        (echo 4 [] typed ++ line_end type_key show keyboard shown console)
        (120 ∷ [])
        fresh_line)
      (ioterm_getsn type_key show 1 5 0 4 fresh_line)
unfolding edit echo Holds
ioterm_getsn-IsEdited_example =
    ioterm_getsn-IsEdited type_key show keyboard shown console typed 0 5 0 4 4 13 [] (120 ∷ [])
      fresh_line refl
      (
        omega arith,
        omega arith,
        (omega arith, omega arith, (omega arith, omega arith, (omega arith, omega arith, tt))),
      )
      (inl refl) refl refl (omega arith) tt (omega arith)
