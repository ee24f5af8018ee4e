-- ===== src/Tests/Format.antt =====
-- src/kern/string.c: formatted output at concrete inputs.
use illinux.Prelude.{ℕ, ◌≡◌, refl, Option, none, some, List, [], ◌∷◌, length, arith}
use illinux.Mem.{Mem}
use illinux.Str.Format.{
  int_digits, parse_conversion, parse_prefix, parse_ls, parse_width, va_negative, va_magnitude,
  vgprintf, vsnprintf, vsnprintf_putc, VsnprintfState,
}
use illinux.Str.Text.{text_of, round_text, digits_of}
use illinux.Str.Printed.{handed, vgprintf-text_of}
use illinux.Str.Bounded.{IsPrinted, vsnprintf-IsPrinted}

abbrev no_string : ℕ → Option (List ℕ)
no_string p = none

-- "a%3d" and its arguments, of which one is used.
abbrev format : List ℕ
format = 97 ∷ 37 ∷ 51 ∷ 100 ∷ []

abbrev args : List ℕ
args = 42 ∷ 0 ∷ 0 ∷ 0 ∷ []

abbrev zeros : Mem
zeros i = 0

abbrev small_buffer : VsnprintfState
small_buffer = record { buf = zeros; pos = 10; rem = 4 }

text_of-format : text_of no_string 5 format args ≡ some (97 ∷ 32 ∷ 52 ∷ 50 ∷ [])
unfolding text_of round_text parse_conversion parse_prefix parse_ls parse_width va_negative
    digits_of int_digits va_magnitude
text_of-format = refl

vgprintf-text_of_example :
    vgprintf vsnprintf_putc no_string 5 format args small_buffer 0
    ≡ handed vsnprintf_putc (text_of no_string 5 format args) small_buffer 0
vgprintf-text_of_example = vgprintf-text_of vsnprintf_putc no_string 5 format args small_buffer 0

vsnprintf-IsPrinted_example :
    (text : List ℕ) × (buf' : Mem) × (text_of no_string 5 format args ≡ some text)
    × (vsnprintf no_string zeros 10 4 format args ≡ some (buf', length text))
    × IsPrinted zeros 10 3 text buf'
vsnprintf-IsPrinted_example = vsnprintf-IsPrinted no_string zeros 10 3 format args (omega arith)
