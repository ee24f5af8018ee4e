-- ===== src/Tests/Console.antt =====
-- src/kern/console.c at concrete inputs.
use illinux.Prelude.{ℕ, ◌≡◌, refl, false, none, some, List, [], ◌∷◌, arith}
use illinux.Io.TermLaws.{normalise}
use illinux.Str.Format.{
  int_digits, parse_conversion, parse_prefix, parse_ls, parse_width, va_negative, va_magnitude,
}
use illinux.Str.Text.{text_of, round_text, digits_of}
use illinux.Console.{Console, console_vprintf}
use illinux.Console.Shown.{console_vprintf-normalise}

abbrev console : Console
console = record { typed = 97 ∷ []; shown = 65 ∷ []; cprev_put = 65; cprev_get = 0 }

-- "n%d\n"
abbrev format : List ℕ
format = 110 ∷ 37 ∷ 100 ∷ 10 ∷ []

format-text : text_of (λ p. none) 5 format (7 ∷ []) ≡ some (110 ∷ 55 ∷ 10 ∷ [])
unfolding text_of round_text parse_conversion parse_prefix parse_ls parse_width va_negative
    digits_of int_digits va_magnitude
format-text = refl

console_vprintf-normalise_example :
    (s' : Console) × (console_vprintf (λ p. none) format (7 ∷ []) console ≡ some (s', 3))
    × (s'.shown ≡ 65 ∷ normalise false (110 ∷ 55 ∷ 10 ∷ []))
    × (s'.typed ≡ 97 ∷ [])
console_vprintf-normalise_example =
    console_vprintf-normalise (λ p. none) format (7 ∷ []) (110 ∷ 55 ∷ 10 ∷ []) console format-text
      (omega arith, (omega arith, (omega arith, tt))) (omega arith)
