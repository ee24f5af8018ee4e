-- ===== src/Str/Text.antt =====
-- src/kern/string.c: the text that a format stands for with its arguments.
use illinux.Prelude.{
  ℕ, zero, suc, ◌-◌, ◌^◌, ◌<◌, ◌≡◌, refl, ap, Bool, true, false, List, [], ◌∷◌, ◌++◌, Option, none,
  some, ◌==◌, if◌then◌else◌, length, arith, inl, inr,
}
use illinux.Str.Digits.{IsBase}
use illinux.Str.Format.{
  Conversion, parse_conversion, int_digits, va_uint, va_magnitude, va_negative, str_chars,
  sign_chars, sign_len, takes_arg, shown,
}

abbrev pub replicate : ℕ → ℕ → List ℕ
replicate zero c = []
replicate (suc n) c = c ∷ replicate n c

abbrev pub put_all : {S : Type 0} → (ℕ → S → S) → List ℕ → S → S
put_all putcfn [] s = s
put_all putcfn (c ∷ p) s = put_all putcfn p (putcfn c s)

pub length-replicate : (n c : ℕ) → length (replicate n c) ≡ n
length-replicate zero c = refl
length-replicate (suc n) c = ap suc (length-replicate n c)

-- The texts that the conversions stand for.
unfoldable pub digits_of : ℕ → ℕ → List ℕ
digits_of val base = elim (int_digits 40 val base []) [ none ↦ [] | some digits ↦ digits ]

abbrev pub int_text : ℕ → ℕ → Bool → ℕ → List ℕ
int_text val base zpad len =
    let digits = digits_of val base in
    replicate (len - length digits) (if zpad then 48 else 32) ++ digits

abbrev pub signed_text : Conversion → ℕ → List ℕ
signed_text cv word =
    let negative = va_negative cv.lcnt word in
    sign_chars negative
    ++ int_text (va_magnitude cv.lcnt word) 10 cv.zpad (sign_len negative cv.len)

abbrev pub pointer_text : Conversion → ℕ → List ℕ
pointer_text cv word = 48 ∷ 120 ∷ int_text (va_uint 1 word) 16 cv.zpad cv.len

abbrev pub str_text : Option (List ℕ) → ℕ → List ℕ
str_text str len = str_chars str ++ replicate (len - length (str_chars str)) 32

abbrev pub arg_text : (ℕ → Option (List ℕ)) → Conversion → ℕ → ℕ → List ℕ
arg_text str_at cv c word =
    if c == 100
    then signed_text cv word
    else if c == 115
    then str_text (str_at word) cv.len
    else if c == 112
    then pointer_text cv word
    else int_text (va_uint cv.lcnt word) (if c == 120 then 16 else 10) cv.zpad cv.len

-- A text, and the arguments and format that are left.
abbrev pub Text : Type 0
Text = List ℕ × List ℕ × List ℕ

abbrev pub conversion_text : (ℕ → Option (List ℕ)) → Conversion → List ℕ → List ℕ → Option Text
conversion_text str_at cv p va = elim cv.letter [
  | none ↦ some (37 ∷ 63 ∷ [], va, p)
  | some c ↦
      if takes_arg c
      then (elim va [ [] ↦ none | word ∷ rest ↦ some (arg_text str_at cv c word, rest, p) ])
      else some (37 ∷ shown c ∷ [], va, p)
]

unfoldable pub round_text : (ℕ → Option (List ℕ)) → ℕ → List ℕ → List ℕ → Option Text
round_text str_at c p va =
    let conversion = parse_conversion p in
    if c == 37 then conversion_text str_at conversion.0 conversion.1 va else some (c ∷ [], va, p)

-- The whole text of a format with its arguments; none where an argument is missing or the fuel is used up.
unfoldable pub text_of : (ℕ → Option (List ℕ)) → ℕ → List ℕ → List ℕ → Option (List ℕ)
text_of str_at zero fmt va = none
text_of str_at (suc fuel) [] va = some []
text_of str_at (suc fuel) (c ∷ p) va = elim (round_text str_at c p va) [
  | none ↦ none
  | some t ↦ elim (text_of str_at fuel t.2 t.1) [ none ↦ none | some rest ↦ some (t.0 ++ rest) ]
]

pub number-IsBase : (b : Bool) → IsBase (if b then 16 else 10)
number-IsBase true = inr refl
number-IsBase false = inl refl

pub va_uint_lt : (lcnt word : ℕ) → va_uint lcnt word < 2 ^ 64
va_uint_lt zero word = ground arith
va_uint_lt (suc lcnt) word = ground arith

pub va_magnitude_lt : (lcnt word : ℕ) → va_magnitude lcnt word < 2 ^ 64
unfolding va_magnitude va_negative
va_magnitude_lt zero word = ground arith
va_magnitude_lt (suc lcnt) word = ground arith

pub digits_of_lem :
    (val base : ℕ) (digits : List ℕ)
    → int_digits 40 val base [] ≡ some digits
    → digits_of val base ≡ digits
unfolding digits_of
digits_of_lem val base digits e = rw (digits_of, e) refl
