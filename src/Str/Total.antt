-- ===== src/Str/Total.antt =====
-- src/kern/string.c: the formatted output ends, with a text.
use illinux.Prelude.{
  ℕ, zero, suc, ◌+◌, ◌-◌, ◌*◌, ◌%◌, ◌^◌, ◌≤◌, ◌<◌, ◌≡◌, refl, ◌||◌, List, [], ◌∷◌, ◌++◌, Option,
  some, ◌==◌, length, arith, inl, inr, Bool-cases, Option-cases,
}
use illinux.Str.Format.{
  Conversion, is_digit, parse_width, parse_ls, parse_prefix, parse_conversion, rest_chars,
  takes_arg, shown,
}
use illinux.Str.Text.{Text, conversion_text, arg_text, round_text, text_of}

parse_width-length : (p : List ℕ) (len : ℕ) → length (parse_width p len).1 ≤ length p
unfolding parse_width
parse_width-length [] len = omega arith
parse_width-length (c ∷ p) len = elim (Bool-cases (is_digit c)) [
  | inl e ↦ rw e (omega (arith, parse_width-length p ((10 * len + (c - 48)) % 2 ^ 32)))
  | inr e ↦ rw e (omega arith)
]

parse_ls-length : (p : List ℕ) (lcnt : ℕ) → length (parse_ls p lcnt).1 ≤ length p
unfolding parse_ls
parse_ls-length [] lcnt = omega arith
parse_ls-length (c ∷ p) lcnt = elim (Bool-cases (c == 108)) [
  | inl e ↦ rw e (omega (arith, parse_ls-length p (lcnt + 1)))
  | inr e ↦ rw e (omega arith)
]

parse_prefix-length : (p : List ℕ) (lcnt : ℕ) → length (parse_prefix p lcnt).1 ≤ length p
unfolding parse_prefix
parse_prefix-length [] lcnt = omega arith
parse_prefix-length (c ∷ p) lcnt = elim (Bool-cases ((c == 122) || (c == 106))) [
  | inl e ↦ rw e (omega arith)
  | inr e ↦ rw e (omega arith)
]

rest_chars-length : (p : List ℕ) → length (rest_chars p) ≤ length p
rest_chars-length [] = omega arith
rest_chars-length (c ∷ p) = omega arith

parse_conversion-length : (p : List ℕ) → length (parse_conversion p).1 ≤ length p
unfolding parse_conversion
parse_conversion-length p =
    let w = parse_width p 0 in
    let l = parse_ls w.1 0 in
    let x = parse_prefix l.1 l.0 in
    omega (
      arith,
      parse_width-length p 0,
      parse_ls-length w.1 0,
      parse_prefix-length l.1 l.0,
      rest_chars-length x.1,
    )

-- A round leaves no more of the format than it was given, and takes at most one argument.
record Leaves (p va : List ℕ) (t : Text) : Type 0 where
  pub fmt : length t.2 ≤ length p
  pub args : length va ≤ length t.1 + 1

conversion_text-Leaves :
    (str_at : ℕ → Option (List ℕ)) (cv : Conversion) (p va : List ℕ)
    → 1 ≤ length va
    → (t : Text) × (conversion_text str_at cv p va ≡ some t) × Leaves p va t
conversion_text-Leaves str_at cv p [] more = absurd (omega (arith, more))
conversion_text-Leaves str_at cv p (word ∷ va) more = elim (Option-cases cv.letter) [
  | inl e ↦ (
    (37 ∷ 63 ∷ [], word ∷ va, p),
    rw (conversion_text, e) refl,
    record { fmt = omega arith; args = omega arith },
  )
  | inr (c, e) ↦ elim (Bool-cases (takes_arg c)) [
    | inl k ↦ (
      (arg_text str_at cv c word, va, p),
      rw (conversion_text, e, k) refl,
      record { fmt = omega arith; args = omega arith },
    )
    | inr k ↦ (
      (37 ∷ shown c ∷ [], word ∷ va, p),
      rw (conversion_text, e, k) refl,
      record { fmt = omega arith; args = omega arith },
    )
  ]
]

round_text-Leaves :
    (str_at : ℕ → Option (List ℕ)) (c : ℕ) (p va : List ℕ)
    → 1 ≤ length va
    → (t : Text) × (round_text str_at c p va ≡ some t) × Leaves p va t
unfolding round_text
round_text-Leaves str_at c p va more = elim (Bool-cases (c == 37)) [
  | inl e ↦
      let cv = parse_conversion p in
      let (t, run, left) = conversion_text-Leaves str_at cv.0 cv.1 va more in
      (
        t,
        rw (round_text, e) run,
        record { fmt = omega (arith, left.fmt, parse_conversion-length p); args = left.args },
      )
  | inr e ↦
      ((c ∷ [], va, p), rw (round_text, e) refl, record { fmt = omega arith; args = omega arith })
]

-- With more fuel than characters in the format and an argument for each of them there is a text.
pub text_of_total :
    (str_at : ℕ → Option (List ℕ)) (fuel : ℕ) (fmt va : List ℕ)
    → length fmt < fuel
    → length fmt ≤ length va
    → (text : List ℕ) × (text_of str_at fuel fmt va ≡ some text)
unfolding text_of
text_of_total str_at zero fmt va lt le = absurd (omega (arith, lt))
text_of_total str_at (suc fuel) [] va lt le = ([], refl)
text_of_total str_at (suc fuel) (c ∷ p) va lt le =
    let (t, run, left) = round_text-Leaves str_at c p va (omega (arith, le)) in
    let (rest, run2) =
      text_of_total str_at fuel t.2 t.1 (omega (arith, lt, left.fmt))
        (omega (arith, le, left.fmt, left.args)) in
    (t.0 ++ rest, rw (text_of, run, run2) refl)
