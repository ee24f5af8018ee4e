-- ===== src/Str/Printed.antt =====
-- src/kern/string.c: the text that the formatted output hands to its function, whatever that is.
use illinux.Prelude.{
  ℕ, zero, suc, ◌+◌, ◌-◌, ◌^◌, ◌<◌, ◌≡◌, refl, ap, ◌∙◌, sym, Bool, List, [], ◌∷◌, ◌++◌, Option,
  none, some, ltb, ◌==◌, if◌then◌else◌, length, length-append, arith, inl, inr, Bool-cases,
  Option-cases,
}
use illinux.Str.Digits.{IsBase, int_digits-text_value}
use illinux.Str.Format.{
  Conversion, parse_conversion, va_uint, va_magnitude, va_negative, str_chars, sign_chars, sign_len,
  put_then, takes_arg, shown, put_pad, put_chars, format_int, format_str, put_signed, put_pointer,
  put_arg, convert, Round, round, vgprintf_round, vgprintf,
}
use illinux.Str.Text.{
  replicate, put_all, int_text, signed_text, pointer_text, arg_text, Text, conversion_text,
  round_text, text_of, number-IsBase, va_uint_lt, va_magnitude_lt, digits_of_lem,
}

module _ {S : Type 0} (putcfn : ℕ → S → S) where
  put_all-append :
      (a b : List ℕ) (s : S) → put_all putcfn (a ++ b) s ≡ put_all putcfn b (put_all putcfn a s)
  put_all-append [] b s = refl
  put_all-append (c ∷ a) b s = put_all-append a b (putcfn c s)

  -- What has been written, and its length.
  abbrev pub wrote : List ℕ → S → S × ℕ
  wrote p s = (put_all putcfn p s, length p)

  put_chars_lem : (p : List ℕ) (s : S) → put_chars putcfn p s ≡ wrote p s
  unfolding put_chars
  put_chars_lem [] s = refl
  put_chars_lem (c ∷ p) s =
      rw (put_chars_lem p (putcfn c s)) (ap (λ n. (put_all putcfn p (putcfn c s), n)) (omega arith))

  wrote_both :
      (a b : List ℕ) (s : S)
      → (put_all putcfn b (put_all putcfn a s), length a + length b) ≡ wrote (a ++ b) s
  wrote_both a b s =
      ap (λ x. (x, length a + length b)) (sym (put_all-append a b s))
      ∙ ap (λ n. (put_all putcfn (a ++ b) s, n)) (sym (length-append a b))

  put_pad_lem : (len n c : ℕ) (s : S) → put_pad putcfn len n c s ≡ wrote (replicate (len - n) c) s
  unfolding put_pad
  put_pad_lem zero n c s =
      let e : zero - n ≡ zero = omega arith in ap (λ k. wrote (replicate k c) s) (sym e)
  put_pad_lem (suc len) n c s = elim (Bool-cases (ltb n (suc len))) [
    | inl lt ↦
        let e : suc len - n ≡ suc (len - n) = ground (arith, lt) in
        let r = replicate (len - n) c in
        rw (lt, put_pad_lem len n c (putcfn c s))
          (ap (λ k. (put_all putcfn r (putcfn c s), k)) (omega arith)
            ∙ ap (λ k. wrote (replicate k c) s) (sym e))
    | inr ge ↦
        let e : suc len - n ≡ zero = ground (arith, ge) in
        rw ge (ap (λ k. wrote (replicate k c) s) (sym e))
  ]

  format_str_lem :
      (str : Option (List ℕ)) (len : ℕ) (s : S)
      → format_str putcfn str len s
        ≡ wrote (str_chars str ++ replicate (len - length (str_chars str)) 32) s
  unfolding format_str
  format_str_lem str len s =
      let p = str_chars str in
      rw (put_chars_lem p s, put_pad_lem (len - length p) 0 32 (put_all putcfn p s))
        (wrote_both p (replicate (len - length p - 0) 32) s
          ∙ ap (λ k. wrote (p ++ replicate k 32) s) (omega arith))

  format_int_lem :
      (val base : ℕ) (zpad : Bool) (len : ℕ) (s : S)
      → IsBase base
      → val < 2 ^ 64
      → format_int putcfn val base zpad len s ≡ some (wrote (int_text val base zpad len) s)
  unfolding format_int
  format_int_lem val base zpad len s is lt =
      let (digits, e, value) = int_digits-text_value val base is lt in
      let pad = replicate (len - length digits) (if zpad then 48 else 32) in
      let is_text : pad ++ digits ≡ int_text val base zpad len =
        ap (λ ds. replicate (len - length ds) (if zpad then 48 else 32) ++ ds)
          (sym (digits_of_lem val base digits e)) in
      rw
        (
          format_int,
          e,
          put_pad_lem len (length digits) (if zpad then 48 else 32) s,
          put_chars_lem digits (put_all putcfn pad s),
        )
        (ap some (wrote_both pad digits s ∙ ap (λ x. wrote x s) is_text))

  put_then_lem :
      (first : S × ℕ) (second : S → Option (S × ℕ)) (a b : List ℕ) (s : S)
      → first ≡ wrote a s
      → second (put_all putcfn a s) ≡ some (wrote b (put_all putcfn a s))
      → put_then putcfn first second ≡ some (wrote (a ++ b) s)
  put_then_lem first second a b s e1 e2 =
      ap (λ x. put_then putcfn x second) e1 ∙ rw (put_then, e2) (ap some (wrote_both a b s))

  put_signed_lem :
      (cv : Conversion) (word : ℕ) (s : S)
      → put_signed putcfn cv word s ≡ some (wrote (signed_text cv word) s)
  unfolding put_signed
  put_signed_lem cv word s =
      let negative = va_negative cv.lcnt word in
      let sign = sign_chars negative in
      let val = va_magnitude cv.lcnt word in
      let len = sign_len negative cv.len in
      put_then_lem (put_chars putcfn sign s) (format_int putcfn val 10 cv.zpad len) sign
        (int_text val 10 cv.zpad len) s (put_chars_lem sign s)
        (format_int_lem val 10 cv.zpad len (put_all putcfn sign s) (inl refl)
          (va_magnitude_lt cv.lcnt word))

  put_pointer_lem :
      (cv : Conversion) (word : ℕ) (s : S)
      → put_pointer putcfn cv word s ≡ some (wrote (pointer_text cv word) s)
  unfolding put_pointer
  put_pointer_lem cv word s =
      let start = 48 ∷ 120 ∷ [] in
      put_then_lem (format_str putcfn (some start) 2 s)
        (format_int putcfn (va_uint 1 word) 16 cv.zpad cv.len) start
        (int_text (va_uint 1 word) 16 cv.zpad cv.len) s (format_str_lem (some start) 2 s)
        (format_int_lem (va_uint 1 word) 16 cv.zpad cv.len (put_all putcfn start s) (inr refl)
          (va_uint_lt 1 word))

  put_arg_lem :
      (str_at : ℕ → Option (List ℕ)) (cv : Conversion) (c word : ℕ) (s : S)
      → put_arg putcfn str_at cv c word s ≡ some (wrote (arg_text str_at cv c word) s)
  unfolding put_arg
  put_arg_lem str_at cv c word s = elim (Bool-cases (c == 100)) [
    | inl e1 ↦ rw e1 (put_signed_lem cv word s)
    | inr e1 ↦ elim (Bool-cases (c == 115)) [
      | inl e2 ↦ rw (e1, e2) (ap some (format_str_lem (str_at word) cv.len s))
      | inr e2 ↦ elim (Bool-cases (c == 112)) [
        | inl e3 ↦ rw (e1, e2, e3) (put_pointer_lem cv word s)
        | inr e3 ↦
            rw (e1, e2, e3)
              (format_int_lem (va_uint cv.lcnt word) (if c == 120 then 16 else 10) cv.zpad cv.len s
                (number-IsBase (c == 120)) (va_uint_lt cv.lcnt word))
      ]
    ]
  ]

  -- A round that writes a text.
  abbrev pub written : Option Text → S → Option (Round putcfn)
  written none s = none
  written (some t) s = some (round putcfn (wrote t.0 s) t.1 t.2)

  abbrev pub took :
      (ℕ → Option (List ℕ)) → Conversion → ℕ → List ℕ → List ℕ → S → Option (Round putcfn)
  took str_at cv c p va s = elim va [
    | [] ↦ none
    | word ∷ rest ↦ elim (put_arg putcfn str_at cv c word s) [
      | none ↦ none
      | some r ↦ some (round putcfn r rest p)
    ]
  ]

  abbrev pub text_taken : (ℕ → Option (List ℕ)) → Conversion → ℕ → List ℕ → List ℕ → Option Text
  text_taken str_at cv c p va = elim va [
    | [] ↦ none
    | word ∷ rest ↦ some (arg_text str_at cv c word, rest, p)
  ]

  taken_lem :
      (str_at : ℕ → Option (List ℕ)) (cv : Conversion) (c : ℕ) (p va : List ℕ) (s : S)
      → took str_at cv c p va s ≡ written (text_taken str_at cv c p va) s
  taken_lem str_at cv c p [] s = refl
  taken_lem str_at cv c p (word ∷ rest) s = rw (took, put_arg_lem str_at cv c word s) refl

  convert_lem :
      (str_at : ℕ → Option (List ℕ)) (cv : Conversion) (p va : List ℕ) (s : S)
      → convert putcfn str_at cv p va s ≡ written (conversion_text str_at cv p va) s
  unfolding convert
  convert_lem str_at cv p va s = elim (Option-cases cv.letter) [
    | inl e ↦
        rw (convert, e) (ap (λ r. some (round putcfn r va p)) (put_chars_lem (37 ∷ 63 ∷ []) s))
    | inr (c, e) ↦ elim (Bool-cases (takes_arg c)) [
      | inl t ↦ rw (convert, e, t) (taken_lem str_at cv c p va s)
      | inr t ↦
          rw (convert, e, t)
            (ap (λ r. some (round putcfn r va p)) (put_chars_lem (37 ∷ shown c ∷ []) s))
    ]
  ]

  vgprintf_round_lem :
      (str_at : ℕ → Option (List ℕ)) (c : ℕ) (p va : List ℕ) (s : S)
      → vgprintf_round putcfn str_at c p va s ≡ written (round_text str_at c p va) s
  unfolding vgprintf_round round_text
  vgprintf_round_lem str_at c p va s = elim (Bool-cases (c == 37)) [
    | inl e ↦
        let cv = parse_conversion p in
        rw (vgprintf_round, round_text, e) (convert_lem str_at cv.0 cv.1 va s)
    | inr e ↦
        rw (vgprintf_round, round_text, e)
          (ap (λ r. some (round putcfn r va p)) (put_chars_lem (c ∷ []) s))
  ]

  -- What `vgprintf` gives for a text.
  abbrev pub handed : Option (List ℕ) → S → ℕ → Option (S × ℕ)
  handed none s nout = none
  handed (some text) s nout = some (put_all putcfn text s, nout + length text)

  abbrev pub after : (ℕ → Option (List ℕ)) → ℕ → Option Text → S → ℕ → Option (S × ℕ)
  after str_at fuel none s nout = none
  after str_at fuel (some t) s nout =
      vgprintf putcfn str_at fuel t.2 t.1 (put_all putcfn t.0 s) (nout + length t.0)

  vgprintf_next :
      (str_at : ℕ → Option (List ℕ)) (fuel c : ℕ) (p va : List ℕ) (s : S) (nout : ℕ)
      (o : Option Text)
      → round_text str_at c p va ≡ o
      → vgprintf putcfn str_at (suc fuel) (c ∷ p) va s nout ≡ after str_at fuel o s nout
  unfolding vgprintf
  vgprintf_next str_at fuel c p va s nout none e =
      rw (vgprintf, vgprintf_round_lem str_at c p va s, e) refl
  vgprintf_next str_at fuel c p va s nout (some t) e =
      rw (vgprintf, vgprintf_round_lem str_at c p va s, e) refl

  handed-append :
      (a b : List ℕ) (s : S) (nout : ℕ)
      → handed (some b) (put_all putcfn a s) (nout + length a) ≡ handed (some (a ++ b)) s nout
  handed-append a b s nout =
      ap (λ x. some (x, nout + length a + length b)) (sym (put_all-append a b s))
      ∙ ap (λ n. some (put_all putcfn (a ++ b) s, n)) (omega (arith, length-append a b))

  joined :
      (str_at : ℕ → Option (List ℕ)) (fuel c : ℕ) (p va : List ℕ) (s : S) (nout : ℕ) (t : Text)
      → round_text str_at c p va ≡ some t
      → handed (text_of str_at fuel t.2 t.1) (put_all putcfn t.0 s) (nout + length t.0)
        ≡ handed (text_of str_at (suc fuel) (c ∷ p) va) s nout
  unfolding text_of
  joined str_at fuel c p va s nout t e = elim (Option-cases (text_of str_at fuel t.2 t.1)) [
    | inl e2 ↦ rw (text_of, e, e2) refl
    | inr (rest, e2) ↦ rw (text_of, e, e2) (handed-append t.0 rest s nout)
  ]

  -- `vgprintf` hands the characters of one text, which depends on the format and the arguments only,
  -- to its function in their order, whatever the function is, and returns how many they are.
  pub vgprintf-text_of :
      (str_at : ℕ → Option (List ℕ)) (fuel : ℕ) (fmt va : List ℕ) (s : S) (nout : ℕ)
      → vgprintf putcfn str_at fuel fmt va s nout ≡ handed (text_of str_at fuel fmt va) s nout
  unfolding vgprintf text_of
  vgprintf-text_of str_at zero fmt va s nout = refl
  vgprintf-text_of str_at (suc fuel) [] va s nout = ap (λ n. some (s, n)) (omega arith)
  vgprintf-text_of str_at (suc fuel) (c ∷ p) va s nout =
      elim (Option-cases (round_text str_at c p va)) [
        | inl e ↦ vgprintf_next str_at fuel c p va s nout none e ∙ rw (text_of, e) refl
        | inr (t, e) ↦
            vgprintf_next str_at fuel c p va s nout (some t) e
            ∙ vgprintf-text_of str_at fuel t.2 t.1 (put_all putcfn t.0 s) (nout + length t.0)
            ∙ joined str_at fuel c p va s nout t e
      ]
