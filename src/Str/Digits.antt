-- ===== src/Str/Digits.antt =====
-- src/kern/string.c: the digits that `format_int` writes.
use illinux.Prelude.{
  ℕ, zero, suc, ◌+◌, ◌-◌, ◌*◌, ◌/◌, ◌%◌, ◌^◌, ◌<◌, ◌≡◌, refl, ap, ◌⊎◌, ◌∙◌, sym, true, List, [],
  ◌∷◌, some, leb, ◌==◌, if◌then◌else◌, arith, inl, inr, Bool-cases,
}
use illinux.Str.Format.{digit_char, int_digits}

-- The digit that a character stands for, and the number that a text stands for.
abbrev pub digit_value : ℕ → ℕ
digit_value c = if leb c 57 then c - 48 else c - 87

abbrev pub text_value : ℕ → ℕ → List ℕ → ℕ
text_value base n [] = n
text_value base n (c ∷ p) = text_value base (n * base + digit_value c) p

digit_value-digit_char : (d : ℕ) → d < 16 → digit_value (digit_char d) ≡ d
digit_value-digit_char d lt = ground arith

-- The bases that the conversions use.
abbrev pub IsBase : ℕ → Type 0
IsBase base = (base ≡ 10) ⊎ (base ≡ 16)

abbrev pub ten_to : ℕ → ℕ
ten_to zero = 1
ten_to (suc n) = 10 * ten_to n

div_lt : (val base b : ℕ) → IsBase base → val < 10 * b → val / base < b
div_lt val base b (inl e) lt = rw e (omega (arith, lt))
div_lt val base b (inr e) lt = rw e (omega (arith, lt))

mod_lt : (val base : ℕ) → IsBase base → val % base < 16
mod_lt val base (inl e) = rw e (omega arith)
mod_lt val base (inr e) = rw e (omega arith)

div_mod : (val base : ℕ) → IsBase base → val / base * base + val % base ≡ val
div_mod val base (inl e) = rw e (omega arith)
div_mod val base (inr e) = rw e (omega arith)

-- A digit in front of a text.
text_value_digit :
    (val base : ℕ) (p : List ℕ)
    → IsBase base
    → text_value base (val / base) (digit_char (val % base) ∷ p) ≡ text_value base val p
text_value_digit val base p is =
    let d = digit_value-digit_char (val % base) (mod_lt val base is) in
    ap (λ x. text_value base (val / base * base + x) p) d
    ∙ ap (λ x. text_value base x p) (div_mod val base is)

last_digit :
    (room val base : ℕ) (p : List ℕ)
    → IsBase base
    → val / base ≡ 0
    → (ds : List ℕ) × (int_digits (suc room) val base p ≡ some ds)
      × (text_value base 0 ds ≡ text_value base val p)
unfolding int_digits
last_digit room val base p is z =
    let e : (val / base == 0) ≡ true = ground (arith, z) in
    (
      digit_char (val % base) ∷ p,
      rw e refl,
      ap (λ x. text_value base x (digit_char (val % base) ∷ p)) (sym z)
          ∙ text_value_digit val base p is,
    )

-- Where the room holds the digits, the loop ends and leaves a text that stands for the value.
pub int_digits_lem :
    (room val base : ℕ) (p : List ℕ)
    → IsBase base
    → val < ten_to (suc room)
    → (ds : List ℕ) × (int_digits (suc room) val base p ≡ some ds)
      × (text_value base 0 ds ≡ text_value base val p)
unfolding int_digits
int_digits_lem zero val base p is lt =
    last_digit zero val base p is (omega (arith, div_lt val base 1 is lt))
int_digits_lem (suc room) val base p is lt = elim (Bool-cases (val / base == 0)) [
  | inl e ↦ last_digit (suc room) val base p is (ground (arith, e))
  | inr e ↦
      let (ds, run, value) =
        int_digits_lem room (val / base) base (digit_char (val % base) ∷ p) is
          (div_lt val base (ten_to (suc room)) is lt) in
      (ds, rw e run, value ∙ text_value_digit val base p is)
]

-- `format_int` finds room in its buffer for each number of 64 bits, and in base 10 and 16 the digits that it
-- writes stand for that number.
pub int_digits-text_value :
    (val base : ℕ)
    → IsBase base
    → val < 2 ^ 64
    → (ds : List ℕ) × (int_digits 40 val base [] ≡ some ds) × (text_value base 0 ds ≡ val)
int_digits-text_value val base is lt = int_digits_lem 39 val base [] is (omega (arith, lt))
