-- ===== src/Console/Shown.antt =====
-- src/kern/console.c: what a text looks like on the console.
use illinux.Prelude.{
  ℕ, ◌+◌, ◌≡◌, ◌≢◌, refl, sym, ap, ◌∙◌, Bool, false, Option, some, List, [], ◌∷◌, ◌++◌, append-nil,
  append_assoc, length, ◌==◌, ◌&&◌, not, if◌then◌else◌, arith, inl, inr, Bool-cases,
}
use illinux.Io.Term.{kind, is_nl, is_other}
use illinux.Io.TermLaws.{normalise}
use illinux.Str.Text.{put_all, text_of}
use illinux.Str.Printed.{handed, vgprintf-text_of}
use illinux.Console.{
  Console, com0_putc, console_putchar, console_puts, vprintf_putc, console_vprintf,
}

-- No character of the text is a CR.
abbrev pub NoReturn : List ℕ → Type 0
NoReturn [] = Unit {0}
NoReturn (c ∷ cs) = (c ≢ 13) × NoReturn cs

-- The characters on the screen for one character that is no CR.
abbrev shown_for : Bool → ℕ → List ℕ
shown_for after_cr c = if (c == 10) && not after_cr then 13 ∷ 10 ∷ [] else c ∷ []

putchar_lem :
    (c : ℕ) (s : Console)
    → c ≢ 13
    → ((console_putchar c s).shown ≡ s.shown ++ shown_for (s.cprev_put == 13) c)
      × ((console_putchar c s).cprev_put ≡ c)
      × ((console_putchar c s).typed ≡ s.typed)
unfolding console_putchar com0_putc
putchar_lem c s no_cr =
    let other : (c == 13) ≡ false = ground (arith, no_cr) in
    elim (Bool-cases ((c == 10) && not (s.cprev_put == 13))) [
      | inl e ↦ rw (other, e) (append_assoc s.shown (13 ∷ []) (10 ∷ []), refl, refl)
      | inr e ↦ rw (other, e) (refl, refl, refl)
    ]

normalise-shown_for :
    (c : ℕ) (cs : List ℕ)
    → c ≢ 13
    → normalise false (c ∷ cs) ≡ shown_for false c ++ normalise false cs
unfolding normalise
normalise-shown_for c cs no_cr = elim (Bool-cases (c == 10)) [
  | inl e ↦ let k : kind c ≡ is_nl = ground (arith, e) in rw (normalise, k, e) refl
  | inr e ↦ let k : kind c ≡ is_other = ground (arith, e, no_cr) in rw (normalise, k, e) refl
]

-- A text without CR, put behind a character that is no CR, appears with CR in front of each LF.
put_all-normalise :
    (cs : List ℕ) (s : Console)
    → NoReturn cs
    → s.cprev_put ≢ 13
    → ((put_all vprintf_putc cs s).shown ≡ s.shown ++ normalise false cs)
      × ((put_all vprintf_putc cs s).typed ≡ s.typed)
unfolding vprintf_putc normalise
put_all-normalise [] s plain prev = (sym (append-nil s.shown), refl)
put_all-normalise (c ∷ cs) s (no_cr, plain) prev =
    let (out, last, kept) = putchar_lem c s no_cr in
    let after : (s.cprev_put == 13) ≡ false = ground (arith, prev) in
    let (out', kept') =
      put_all-normalise cs (console_putchar c s) plain (λ e. no_cr (sym last ∙ e)) in
    (
      out'
          ∙ ap (λ (l : List ℕ). l ++ normalise false cs)
              (out ∙ ap (λ (b : Bool). s.shown ++ shown_for b c) after)
          ∙ append_assoc s.shown (shown_for false c) (normalise false cs)
          ∙ ap (λ (l : List ℕ). s.shown ++ l) (sym (normalise-shown_for c cs no_cr)),
      kept' ∙ kept,
    )

-- Where the format and its arguments stand for a text without CR and the last
-- character on the console was no CR, `console_vprintf`, which is `kprintf`, returns the length of
-- the text. The text appears behind what was there, normalised as `ioterm_write` does it, with CR in front of
-- each LF, and no input is lost.
pub console_vprintf-normalise :
    (str_at : ℕ → Option (List ℕ)) (fmt va text : List ℕ) (s : Console)
    → text_of str_at (length fmt + 1) fmt va ≡ some text
    → NoReturn text
    → s.cprev_put ≢ 13
    → (s' : Console) × (console_vprintf str_at fmt va s ≡ some (s', length text))
      × (s'.shown ≡ s.shown ++ normalise false text)
      × (s'.typed ≡ s.typed)
unfolding console_vprintf
console_vprintf-normalise str_at fmt va text s run plain prev =
    let (out, kept) = put_all-normalise text s plain prev in
    (
      put_all vprintf_putc text s,
      vgprintf-text_of vprintf_putc str_at (length fmt + 1) fmt va s 0
          ∙ ap (λ (t : Option (List ℕ)). handed vprintf_putc t s 0) run
          ∙ ap (λ (n : ℕ). some (put_all vprintf_putc text s, n)) (omega arith),
      out,
      kept,
    )

NoReturn-end : (cs : List ℕ) → NoReturn cs → NoReturn (cs ++ (10 ∷ []))
NoReturn-end [] plain = (omega arith, tt)
NoReturn-end (c ∷ cs) (no_cr, plain) = (no_cr, NoReturn-end cs plain)

console_puts-put_all :
    (cs : List ℕ) (s : Console) → console_puts cs s ≡ put_all vprintf_putc (cs ++ (10 ∷ [])) s
unfolding console_puts vprintf_putc
console_puts-put_all [] s = refl
console_puts-put_all (c ∷ cs) s = console_puts-put_all cs (console_putchar c s)

-- `console_puts` shows the string and a newline, normalised in the same way.
pub console_puts-normalise :
    (cs : List ℕ) (s : Console)
    → NoReturn cs
    → s.cprev_put ≢ 13
    → ((console_puts cs s).shown ≡ s.shown ++ normalise false (cs ++ (10 ∷ [])))
      × ((console_puts cs s).typed ≡ s.typed)
console_puts-normalise cs s plain prev =
    let (out, kept) = put_all-normalise (cs ++ (10 ∷ [])) s (NoReturn-end cs plain) prev in
    (
      ap (λ (t : Console). t.shown) (console_puts-put_all cs s) ∙ out,
      ap (λ (t : Console). t.typed) (console_puts-put_all cs s) ∙ kept,
    )

-- CR and LF appear as CR, LF and a second LF.
pub console_putchar_crlf :
    (s : Console)
    → (console_putchar 10 (console_putchar 13 s)).shown ≡ s.shown ++ (13 ∷ 10 ∷ 10 ∷ [])
unfolding console_putchar com0_putc
console_putchar_crlf s =
    append_assoc (s.shown ++ (13 ∷ [])) (10 ∷ []) (10 ∷ [])
    ∙ append_assoc s.shown (13 ∷ []) (10 ∷ 10 ∷ [])
