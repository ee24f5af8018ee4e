-- ===== src/Tests/Io.antt =====
-- src/kern/io.c at concrete inputs: an object of 8 bytes.
use illinux.Prelude.{
  none, false, refl, ℕ, ◌+◌, ◌≡◌, true, some, arith, ltb, if◌then◌else◌, ◌≤◌, List, [], ◌∷◌, ◌++◌,
  length, take,
}
use illinux.Errno.{Result, ok}
use illinux.Io.Stream.{Writer, iowrite}
use illinux.Io.StreamLaws.{IsDevice, iowrite_lem}
use illinux.Io.Term.{Term, ioterm_write}
use illinux.Io.TermLaws.{IsSink, normalise, ends_cr}
use illinux.Io.Print.{iovprintf, iovprintf-text_of}
use illinux.Str.Text.{text_of}
use illinux.Io.TermSends.{ioterm_write-normalise}
use illinux.Mem.{Mem}
use illinux.Io.Lit.{Lit, iolit_read}
use illinux.Io.LitLaws.{iolit_read_lem}

abbrev object : Lit
object = record { ops = true; buf = true; mem = λ i. i; size = 8; pos = 5 }

iolit_read_lem_example :
    (b' : Mem) × (iolit_read object (some (λ i. 9)) 4 ≡ (record object { pos = 8 }, some b', ok 3))
    × ((i : ℕ) → b' i ≡ (if ltb i 3 then 5 + i else 9))
    × (8 ≤ 8)
iolit_read_lem_example = iolit_read_lem object (λ i. 9) 4 (omega arith) (omega arith) (omega arith)

-- A device that keeps a list of all bytes.
abbrev keep_all : Writer (List ℕ)
keep_all d bs = some (d ++ bs, ok (length bs))

keep_all-IsSink : IsSink keep_all (λ d. d)
keep_all-IsSink = record { after = λ d bs. d ++ bs; takes = λ d bs. refl; logs = λ d bs. refl }

abbrev terminal : Term (List ℕ)
terminal = record { rawio = 65 ∷ 13 ∷ 10 ∷ []; cr_out = true; cr_in = false }

-- The newline of "\r\n", when the return was the last character of the call before.
ioterm_write-normalise_example :
    (t' : Term (List ℕ)) × (ioterm_write keep_all (10 ∷ 66 ∷ []) terminal ≡ some (t', ok 1))
    × (t'.rawio ≡ 65 ∷ 13 ∷ 10 ∷ normalise true (10 ∷ 66 ∷ []))
    × (t'.cr_out ≡ ends_cr true (10 ∷ 66 ∷ []))
    × (t'.cr_in ≡ terminal.cr_in)
ioterm_write-normalise_example =
    ioterm_write-normalise keep_all (λ d. d) keep_all-IsSink (10 ∷ 66 ∷ []) terminal

-- A device that takes one byte at a time.
abbrev take_one : List ℕ → List ℕ → List ℕ × Result ℕ
take_one d bs = (d ++ take 1 bs, ok 1)

take_one-IsDevice : IsDevice take_one (λ d. d)
take_one-IsDevice = record {
  count = λ d bs. 1;
  some_bytes = λ d bs lt. (omega arith, omega arith);
  returns = λ d bs lt. refl;
  stores = λ d bs lt. refl;
}

iowrite_lem_example :
    (d' : List ℕ) × (iowrite (record { write = some take_one; read = none }) 3 (7 ∷ 8 ∷ []) (6 ∷ [])
      ≡ some (d', ok 2))
    × (d' ≡ 6 ∷ 7 ∷ 8 ∷ [])
iowrite_lem_example =
    iowrite_lem take_one (λ d. d) take_one-IsDevice 3 (7 ∷ 8 ∷ []) (6 ∷ []) none (omega arith)

abbrev hi_cr : List ℕ
hi_cr = 72 ∷ 13 ∷ []

abbrev nl_cr : List ℕ
nl_cr = 10 ∷ 13 ∷ []

-- "a%3d" on a device that has a byte already.
iovprintf-text_of_example :
    (text : List ℕ) × (d' : List ℕ) × (text_of
        (λ p. none)
        5
        (97 ∷ 37 ∷ 51 ∷ 100 ∷ [])
        (42 ∷ 0 ∷ 0 ∷ 0 ∷ [])
      ≡ some text)
    × (iovprintf keep_all (λ p. none) (97 ∷ 37 ∷ 51 ∷ 100 ∷ []) (42 ∷ 0 ∷ 0 ∷ 0 ∷ []) (65 ∷ [])
        ≡ some (d', ok (length text)))
    × (d' ≡ (65 ∷ []) ++ text)
iovprintf-text_of_example =
    iovprintf-text_of keep_all (λ d. d) keep_all-IsSink (λ p. none) (97 ∷ 37 ∷ 51 ∷ 100 ∷ [])
      (42 ∷ 0 ∷ 0 ∷ 0 ∷ []) (65 ∷ []) (omega arith)
