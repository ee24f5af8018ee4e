-- ===== src/Str.antt =====
-- src/kern/string.c: comparison and copying of strings.
pub mod Compare
pub mod Format
pub mod Digits
pub mod Text
pub mod Printed
pub mod Total
pub mod Bounded
use illinux.Prelude.{
  ℕ, zero, suc, ◌+◌, ◌-◌, ◌/◌, ◌%◌, ◌≡◌, Bool, true, false, not, ◌&&◌, List, [], ◌∷◌, Option, none,
  some, ltb, leb, ◌==◌, if◌then◌else◌, length,
}
use illinux.Prelude.Int.{ℤ, pos, negsuc, sub_ℕ}
use illinux.Mem.{Mem, store}

-- The three results of `strcmp` on two characters.
abbrev pub cmp_char : ℕ → ℕ → ℤ
cmp_char a b = if ltb a b then negsuc 0 else if ltb b a then pos 1 else pos 0

-- The loop of `strcmp`. A string is the list of its characters before the NUL, so the end of the
-- list is a read of the NUL; `char` is unsigned on the target.
unfoldable pub strcmp_chars : List ℕ → List ℕ → ℤ
strcmp_chars [] [] = cmp_char 0 0
strcmp_chars [] (y ∷ ys) = cmp_char 0 y
strcmp_chars (x ∷ xs) [] = cmp_char x 0
strcmp_chars (x ∷ xs) (y ∷ ys) =
    let rest = strcmp_chars xs ys in if x == y && not (x == 0) then rest else cmp_char x y

-- A null pointer is `none`.
unfoldable pub strcmp : Option (List ℕ) → Option (List ℕ) → ℤ
unfolding strcmp_chars
strcmp none none = pos 0
strcmp none (some t) = negsuc 0
strcmp (some s) none = pos 1
strcmp (some s) (some t) = strcmp_chars s t

-- The characters of two strings in memory, `n` at most.
unfoldable pub strncmp : Mem → ℕ → Mem → ℕ → ℕ → ℤ
strncmp s p t q zero = pos 0
strncmp s p t q (suc n) =
    let rest = strncmp s (p + 1) t (q + 1) n in
    if not (s p == 0) && s p == t q then rest else sub_ℕ (s p) (t q)

-- The loop of `strlen` on fuel, `n` places into the string; `none` means that the fuel ran out.
unfoldable pub strlen : ℕ → Mem → ℕ → ℕ → Option ℕ
strlen zero s p n = none
strlen (suc f) s p n = let rest = strlen f s p (n + 1) in if s (p + n) == 0 then some n else rest

unfoldable pub strncpy : Mem → ℕ → Mem → ℕ → ℕ → Mem
strncpy d p s q zero = d
strncpy d p s q (suc n) =
    let rest = strncpy (store d p (s q)) (p + 1) s (q + 1) n in
    if s q == 0 then store d p 0 else rest

-- The first difference, as `uint8_t`.
unfoldable pub memcmp : Mem → ℕ → Mem → ℕ → ℕ → ℤ
memcmp s p t q zero = pos 0
memcmp s p t q (suc n) =
    let rest = memcmp s (p + 1) t (q + 1) n in if s p == t q then rest else sub_ℕ (s p) (t q)
