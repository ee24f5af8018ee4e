-- ===== src/Io/TermLaws.antt =====
-- src/kern/io.c: the output's CRLF normalisation, as the file's comments define it, and the steps of
-- `ioterm_write`.
use illinux.Prelude.{
  ℕ, suc, ◌+◌, ◌≡◌, refl, Bool, true, false, some, List, [], ◌∷◌, ◌++◌, ◌==◌, if◌then◌else◌, length,
  drop, length-append, arith, ◌⊎◌, inl, inr, Bool-cases,
}
use illinux.Errno.{ok}
use illinux.Io.Stream.{Writer, put_result}
use illinux.Io.Term.{
  Term, is_cr, is_nl, is_other, kind, starts_nl, write_then, putc_then, term_loop, Outcome,
}

-- The comment's rules for the output: what is written for the characters, given `cr_out`.
abbrev pub newline : Bool → List ℕ → List ℕ
newline true out = out
newline false out = 13 ∷ 10 ∷ out

unfoldable pub normalise : Bool → List ℕ → List ℕ
normalise cr [] = []
normalise cr (c ∷ cs) = elim (kind c) [
  | is_cr ↦ 13 ∷ 10 ∷ normalise true cs
  | is_nl ↦ newline cr (normalise false cs)
  | is_other ↦ c ∷ normalise false cs
]

-- `cr_out` afterwards.
unfoldable pub ends_cr : Bool → List ℕ → Bool
ends_cr cr [] = cr
ends_cr cr (c ∷ cs) = elim (kind c) [
  | is_cr ↦ ends_cr true cs
  | is_nl ↦ ends_cr false cs
  | is_other ↦ ends_cr false cs
]

-- The characters that the returned count leaves out: a `\n` that is skipped at the start.
abbrev pub skipped : Bool → List ℕ → ℕ
skipped true cs = if starts_nl cs then 1 else 0
skipped false cs = 0

-- A device that takes every byte that `iowrite` is given.
pub record IsSink {D : Type 0} (iowrite : Writer D) (log : D → List ℕ) : Type 0 where
  pub after : D → List ℕ → D
  pub takes : (d : D) (bs : List ℕ) → iowrite d bs ≡ some (after d bs, ok (length bs))
  pub logs : (d : D) (bs : List ℕ) → log (after d bs) ≡ log d ++ bs

drop_all : (bs : List ℕ) → drop (length bs) bs ≡ []
drop_all [] = refl
drop_all (b ∷ bs) = drop_all bs

pub kind_cases : (c : ℕ) → (kind c ≡ is_cr) ⊎ ((kind c ≡ is_nl) ⊎ (kind c ≡ is_other))
kind_cases c = elim (Bool-cases (c == 13)) [
  | inl cr ↦ inl (rw cr refl)
  | inr no_cr ↦ elim (Bool-cases (c == 10)) [
    | inl nl ↦ inr (inl (rw (no_cr, nl) refl))
    | inr no_nl ↦ inr (inr (rw (no_cr, no_nl) refl))
  ]
]

module _ {D : Type 0} (iowrite : Writer D) (log : D → List ℕ) (sink : IsSink iowrite log) where
  open sink use {after, takes, logs}

  -- The terminal behind a write of `bs`.
  abbrev pub sent : Term D → List ℕ → Term D
  sent t bs = record t { rawio = after t.rawio bs }

  pub write_then_lem :
      (bs : List ℕ)
      → (length bs == 0) ≡ false
      → (t : Term D) (acc : ℕ) (next : Term D → ℕ → Outcome iowrite)
      → write_then iowrite t acc bs next ≡ next (sent t bs) (length bs)
  unfolding write_then
  write_then_lem bs some_bytes t acc next = rw (write_then, takes t.rawio bs, some_bytes) refl

  putc_then_lem :
      (t : Term D) (c : ℕ) (next : Term D → Outcome iowrite)
      → putc_then iowrite t c next ≡ next (sent t (c ∷ []))
  unfolding putc_then put_result
  putc_then_lem t c next = rw (putc_then, takes t.rawio (c ∷ [])) refl

  pub step_other :
      (k acc c : ℕ) (t : Term D) (cs p : List ℕ)
      → kind c ≡ is_other
      → term_loop iowrite (suc k) t acc (c ∷ cs) p
        ≡ term_loop iowrite k (record t { cr_out = false }) acc cs (p ++ (c ∷ []))
  unfolding term_loop
  step_other k acc c t cs p e = rw (term_loop, e) refl

  pub step_pair :
      (k acc c : ℕ) (t : Term D) (cs p : List ℕ)
      → kind c ≡ is_cr
      → starts_nl cs ≡ true
      → term_loop iowrite (suc k) t acc (c ∷ cs) p
        ≡ term_loop iowrite k (record t { cr_out = false }) acc (drop 1 cs) (p ++ (13 ∷ 10 ∷ []))
  unfolding term_loop
  step_pair k acc c t cs p e nl = rw (term_loop, e, nl) refl

  -- What is written so far, and then a character.
  unfoldable pub put_after : List ℕ → ℕ → Term D → Term D
  put_after bs c t = sent (sent t bs) (c ∷ [])

  pub step_cr :
      (k acc c : ℕ) (t : Term D) (cs p : List ℕ)
      → kind c ≡ is_cr
      → starts_nl cs ≡ false
      → term_loop iowrite (suc k) t acc (c ∷ cs) p
        ≡ term_loop iowrite k
            (record (put_after (p ++ (13 ∷ [])) 10 t) { cr_out = true })
            (acc + length (p ++ (13 ∷ [])))
            cs
            []
  unfolding term_loop put_after
  step_cr k acc c t cs p e nl =
      let some_bytes : (length (p ++ (13 ∷ [])) == 0) ≡ false =
        rw (length-append p (13 ∷ [])) (ground arith) in
      rw (term_loop, e, nl, write_then_lem (p ++ (13 ∷ [])) some_bytes, putc_then_lem, drop_all)
        refl

  pub step_skip :
      (k acc c : ℕ) (t : Term D) (cs : List ℕ)
      → kind c ≡ is_nl
      → t.cr_out ≡ true
      → term_loop iowrite (suc k) t acc (c ∷ cs) []
        ≡ term_loop iowrite k (record t { cr_out = false }) acc cs []
  unfolding term_loop
  step_skip k acc c t cs e cr = rw (term_loop, e, cr) refl

  pub step_nl_first :
      (k acc c : ℕ) (t : Term D) (cs : List ℕ)
      → kind c ≡ is_nl
      → t.cr_out ≡ false
      → term_loop iowrite (suc k) t acc (c ∷ cs) []
        ≡ term_loop iowrite k (record (sent t (13 ∷ [])) { cr_out = false }) acc cs (10 ∷ [])
  unfolding term_loop
  step_nl_first k acc c t cs e cr = rw (term_loop, e, cr, putc_then_lem) refl

  pub step_nl :
      (k acc c b : ℕ) (t : Term D) (cs p : List ℕ)
      → kind c ≡ is_nl
      → t.cr_out ≡ false
      → term_loop iowrite (suc k) t acc (c ∷ cs) (b ∷ p)
        ≡ term_loop iowrite k
            (record (put_after (b ∷ p) 13 t) { cr_out = false })
            (acc + length (b ∷ p))
            cs
            (10 ∷ [])
  unfolding term_loop put_after
  step_nl k acc c b t cs p e cr =
      let some_bytes : (length (b ∷ p) == 0) ≡ false = ground arith in
      rw (term_loop, e, cr, write_then_lem (b ∷ p) some_bytes, putc_then_lem, drop_all) refl
