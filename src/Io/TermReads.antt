-- ===== src/Io/TermReads.antt =====
-- src/kern/io.c: the input normalisation of `ioterm_read`.
use illinux.Prelude.{
  ℕ, zero, suc, ◌≡◌, refl, ap, Bool, true, false, none, List, [], ◌∷◌, ◌++◌, inl, inr,
}
use illinux.Errno.{Result, ok}
use illinux.Io.Term.{Term, fix_input, ioterm_read}
use illinux.Io.TermLaws.{kind_cases}

-- Puts a character in front of what is kept.
abbrev keep : ℕ → List ℕ × Bool → List ℕ × Bool
keep c r = (c ∷ r.0, r.1)

abbrev prefix : List ℕ → List ℕ × Bool → List ℕ × Bool
prefix l r = (l ++ r.0, r.1)

-- Normalising the input in one read or in two makes no difference: the kept characters of two
-- consecutive reads, the second with the `cr_in` that the first left, are those of the joined input,
-- and so is `cr_in` at the end.
pub fix_input-append :
    (cr : Bool) (xs ys : List ℕ)
    → let (out, cr') = fix_input cr xs in fix_input cr (xs ++ ys) ≡ prefix out (fix_input cr' ys)
unfolding fix_input
fix_input-append cr [] ys = refl
fix_input-append true (c ∷ xs) ys = elim (kind_cases c) [
  | inl e ↦ rw (fix_input, e) (ap (keep 10) (fix_input-append true xs ys))
  | inr (inl e) ↦ rw (fix_input, e) (fix_input-append false xs ys)
  | inr (inr e) ↦ rw (fix_input, e) (ap (keep c) (fix_input-append false xs ys))
]
fix_input-append false (c ∷ xs) ys = elim (kind_cases c) [
  | inl e ↦ rw (fix_input, e) (ap (keep 10) (fix_input-append true xs ys))
  | inr (inl e) ↦ rw (fix_input, e) (ap (keep c) (fix_input-append false xs ys))
  | inr (inr e) ↦ rw (fix_input, e) (ap (keep c) (fix_input-append false xs ys))
]

-- On a device that is at its end of file, where every read stores nothing, `ioterm_read` runs out of
-- any fuel: it never returns.
pub ioterm_read_eof :
    {D : Type 0} (read : D → ℕ → D × Result (List ℕ)) (fuel len : ℕ) (t : Term D)
    → ((d : D) (n : ℕ) → (read d n).1 ≡ ok [])
    → ioterm_read read fuel len t ≡ none
unfolding ioterm_read fix_input
ioterm_read_eof read zero len t eof = refl
ioterm_read_eof read (suc fuel) len t eof =
    rw (ioterm_read, eof t.rawio len)
      (ioterm_read_eof read fuel len (record t { rawio = (read t.rawio len).0 }) eof)
