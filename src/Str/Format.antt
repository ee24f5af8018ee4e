-- ===== src/Str/Format.antt =====
-- src/kern/string.c: formatted output. The function that takes the characters is a parameter, with its own
-- state. The variable arguments are the words of 64 bits that hold them.
use illinux.Mem.{Mem, store}
use illinux.Prelude.{
  ℕ, zero, suc, ◌+◌, ◌-◌, ◌*◌, ◌/◌, ◌%◌, ◌^◌, Bool, false, ◌&&◌, ◌||◌, List, [], ◌∷◌, Option, none,
  some, ltb, leb, ◌==◌, if◌then◌else◌, length,
}

abbrev pub digit_char : ℕ → ℕ
digit_char d = if ltb d 10 then 48 + d else 97 + d - 10

-- The loop of `format_int` that fills its buffer from the end, with the room that is left there; none
-- where the buffer is too small.
unfoldable pub int_digits : ℕ → ℕ → ℕ → List ℕ → Option (List ℕ)
int_digits zero val base p = none
int_digits (suc room) val base p =
    let next = digit_char (val % base) ∷ p in
    let rest = int_digits room (val / base) base next in if val / base == 0 then some next else rest

-- A conversion: its letter, its flag for zeros, its width and the number of its `l`s.
pub record Conversion : Type 0 where
  pub letter : Option ℕ
  pub zpad : Bool
  pub len : ℕ
  pub lcnt : ℕ

abbrev pub is_digit : ℕ → Bool
is_digit c = leb 48 c && leb c 57

-- The width, an unsigned int, and the rest of the format.
unfoldable pub parse_width : List ℕ → ℕ → ℕ × List ℕ
parse_width [] len = (len, [])
parse_width (c ∷ p) len =
    let rest = parse_width p ((10 * len + (c - 48)) % 2 ^ 32) in
    if is_digit c then rest else (len, c ∷ p)

unfoldable pub parse_ls : List ℕ → ℕ → ℕ × List ℕ
parse_ls [] lcnt = (lcnt, [])
parse_ls (c ∷ p) lcnt = let rest = parse_ls p (lcnt + 1) in if c == 108 then rest else (lcnt, c ∷ p)

-- `z` and `j` stand for one `l`: size_t and intmax_t are long on the target.
unfoldable pub parse_prefix : List ℕ → ℕ → ℕ × List ℕ
parse_prefix [] lcnt = (lcnt, [])
parse_prefix (c ∷ p) lcnt = if (c == 122) || (c == 106) then (1, p) else (lcnt, c ∷ p)

abbrev pub first_is : List ℕ → ℕ → Bool
first_is [] c = false
first_is (x ∷ p) c = x == c

abbrev pub first_char : List ℕ → Option ℕ
first_char [] = none
first_char (c ∷ p) = some c

abbrev pub rest_chars : List ℕ → List ℕ
rest_chars [] = []
rest_chars (c ∷ p) = p

-- The format after a percent sign. At the end of the string the letter is the NUL, which is read again.
unfoldable pub parse_conversion : List ℕ → Conversion × List ℕ
parse_conversion p =
    let width = parse_width p 0 in
    let ls = parse_ls width.1 0 in
    let prefix = parse_prefix ls.1 ls.0 in
    (
      record { letter = first_char prefix.1; zpad = first_is p 48; len = width.0; lcnt = prefix.0 },
      rest_chars prefix.1,
    )

abbrev pub va_bits : ℕ → ℕ
va_bits lcnt = if ltb 0 lcnt then 64 else 32

-- `va_arg` of an integer: its low bits.
abbrev pub va_uint : ℕ → ℕ → ℕ
va_uint lcnt word = word % 2 ^ va_bits lcnt

unfoldable pub va_negative : ℕ → ℕ → Bool
va_negative lcnt word = leb (2 ^ (va_bits lcnt - 1)) (va_uint lcnt word)

-- -ival where the argument is negative; that of the least long is its own.
unfoldable pub va_magnitude : ℕ → ℕ → ℕ
va_magnitude lcnt word =
    if va_negative lcnt word then 2 ^ va_bits lcnt - va_uint lcnt word else va_uint lcnt word

-- The text of a null pointer is "(null)".
abbrev pub str_chars : Option (List ℕ) → List ℕ
str_chars none = 40 ∷ 110 ∷ 117 ∷ 108 ∷ 108 ∷ 41 ∷ []
str_chars (some s) = s

abbrev pub takes_arg : ℕ → Bool
takes_arg c = (c == 100) || (c == 117) || (c == 120) || (c == 115) || (c == 112)

abbrev pub shown : ℕ → ℕ
shown c = if ltb c 32 || leb 127 c then 63 else c

abbrev pub sign_chars : Bool → List ℕ
sign_chars negative = if negative then 45 ∷ [] else []

-- The sign takes one place of the width.
abbrev pub sign_len : Bool → ℕ → ℕ
sign_len negative len = if negative then len - 1 else len

module _ {S : Type 0} (putcfn : ℕ → S → S) where
  -- Each run gives the state and the number of characters.
  unfoldable pub put_pad : ℕ → ℕ → ℕ → S → S × ℕ
  put_pad zero n c s = (s, 0)
  put_pad (suc len) n c s =
      let rest = put_pad len n c (putcfn c s) in
      if ltb n (suc len) then (rest.0, rest.1 + 1) else (s, 0)

  unfoldable pub put_chars : List ℕ → S → S × ℕ
  put_chars [] s = (s, 0)
  put_chars (c ∷ p) s = let rest = put_chars p (putcfn c s) in (rest.0, rest.1 + 1)

  unfoldable pub format_int : ℕ → ℕ → Bool → ℕ → S → Option (S × ℕ)
  format_int val base zpad len s = elim (int_digits 40 val base []) [
    | none ↦ none
    | some digits ↦
        let padded = put_pad len (length digits) (if zpad then 48 else 32) s in
        let written = put_chars digits padded.0 in some (written.0, padded.1 + written.1)
  ]

  unfoldable pub format_str : Option (List ℕ) → ℕ → S → S × ℕ
  format_str str len s =
      let written = put_chars (str_chars str) s in
      let padded = put_pad (len - written.1) 0 32 written.0 in (padded.0, written.1 + padded.1)

  -- One round of the loop: the state, the number of characters, and the arguments and format that are left.
  pub record Round : Type 0 where
    pub state : S
    pub count : ℕ
    pub args : List ℕ
    pub fmt : List ℕ

  abbrev pub round : S × ℕ → List ℕ → List ℕ → Round
  round r va p = record { state = r.0; count = r.1; args = va; fmt = p }

  -- A second piece of output after a first one.
  abbrev pub put_then : S × ℕ → (S → Option (S × ℕ)) → Option (S × ℕ)
  put_then first second = elim (second first.0) [ none ↦ none | some r ↦ some (r.0, first.1 + r.1) ]

  -- `%d`
  unfoldable pub put_signed : Conversion → ℕ → S → Option (S × ℕ)
  put_signed cv word s =
      let negative = va_negative cv.lcnt word in
      put_then (put_chars (sign_chars negative) s)
        (format_int (va_magnitude cv.lcnt word) 10 cv.zpad (sign_len negative cv.len))

  unfoldable pub put_pointer : Conversion → ℕ → S → Option (S × ℕ)
  put_pointer cv word s =
      put_then (format_str (some (48 ∷ 120 ∷ [])) 2 s)
        (format_int (va_uint 1 word) 16 cv.zpad cv.len)

  -- What the conversion makes of an argument. `str_at` reads the string at an address.
  unfoldable pub put_arg : (ℕ → Option (List ℕ)) → Conversion → ℕ → ℕ → S → Option (S × ℕ)
  put_arg str_at cv c word s =
      if c == 100
      then put_signed cv word s
      else if c == 115
      then some (format_str (str_at word) cv.len s)
      else if c == 112
      then put_pointer cv word s
      else format_int (va_uint cv.lcnt word) (if c == 120 then 16 else 10) cv.zpad cv.len s

  -- None where no argument is left.
  unfoldable pub convert : (ℕ → Option (List ℕ)) → Conversion → List ℕ → List ℕ → S → Option Round
  convert str_at cv p va s = elim cv.letter [
    | none ↦ some (round (put_chars (37 ∷ 63 ∷ []) s) va p)
    | some c ↦
        if takes_arg c
        then (elim va [
          | [] ↦ none
          | word ∷ rest ↦ elim (put_arg str_at cv c word s) [
            | none ↦ none
            | some r ↦ some (round r rest p)
          ]
        ])
        else some (round (put_chars (37 ∷ shown c ∷ []) s) va p)
  ]

  unfoldable pub vgprintf_round : (ℕ → Option (List ℕ)) → ℕ → List ℕ → List ℕ → S → Option Round
  vgprintf_round str_at c p va s =
      let conversion = parse_conversion p in
      if c == 37
      then convert str_at conversion.0 conversion.1 va s
      else some (round (put_chars (c ∷ []) s) va p)

  -- The loop on fuel; a round takes at least one character of the format.
  unfoldable pub vgprintf : (ℕ → Option (List ℕ)) → ℕ → List ℕ → List ℕ → S → ℕ → Option (S × ℕ)
  vgprintf str_at zero fmt va s nout = none
  vgprintf str_at (suc fuel) [] va s nout = some (s, nout)
  vgprintf str_at (suc fuel) (c ∷ p) va s nout = elim (vgprintf_round str_at c p va s) [
    | none ↦ none
    | some r ↦ vgprintf str_at fuel r.fmt r.args r.state (nout + r.count)
  ]

-- `struct vsnprintf_state`, with the memory that `pos` points into.
pub record VsnprintfState : Type 0 where
  pub buf : Mem
  pub pos : ℕ
  pub rem : ℕ

unfoldable pub vsnprintf_putc : ℕ → VsnprintfState → VsnprintfState
vsnprintf_putc c state =
    if leb state.rem 1
    then state
    else record { buf = store state.buf state.pos c; pos = state.pos + 1; rem = state.rem - 1 }

unfoldable pub vsnprintf : (ℕ → Option (List ℕ)) → Mem → ℕ → ℕ → List ℕ → List ℕ → Option (Mem × ℕ)
vsnprintf str_at buf p bufsz fmt va =
    elim (vgprintf vsnprintf_putc str_at (length fmt + 1) fmt va
      (record { buf = buf; pos = p; rem = bufsz }) 0) [
        | none ↦ none
        | some r ↦ some (if r.0.rem == 0 then r.0.buf else store r.0.buf r.0.pos 0, r.1)
      ]
