-- ===== src/Io/Term.antt =====
-- src/kern/io.c: the terminal object (`struct io_term`) with its CRLF normalisation.
use illinux.Prelude.{
  ℕ, zero, suc, ◌+◌, Bool, true, false, Option, none, some, List, [], ◌∷◌, ◌++◌, ◌==◌,
  if◌then◌else◌, length, drop,
}
use illinux.Errno.{Result, ok, err}
use illinux.Io.Stream.{Writer, put_result}

pub record Term (D : Type 0) : Type 0 where
  pub rawio : D
  pub cr_out : Bool
  pub cr_in : Bool

unfoldable pub ioterm_init : {D : Type 0} → D → Term D
ioterm_init rawio = record { rawio = rawio; cr_out = false; cr_in = false }

-- The cases of the two `switch` statements.
pub data Kind : Type 0 where
  is_cr is_nl is_other : Kind

abbrev pub kind : ℕ → Kind
kind c = if c == 13 then is_cr else if c == 10 then is_nl else is_other

-- One pass of the loop of `ioterm_read` over the bytes that were read: what stays in the buffer, and
-- `cr_in` afterwards.
unfoldable pub fix_input : Bool → List ℕ → List ℕ × Bool
fix_input cr [] = ([], cr)
fix_input true (c ∷ cs) = elim (kind c) [
  | is_cr ↦ let (out, cr') = fix_input true cs in (10 ∷ out, cr')
  | is_nl ↦ fix_input false cs
  | is_other ↦ let (out, cr') = fix_input false cs in (c ∷ out, cr')
]
fix_input false (c ∷ cs) = elim (kind c) [
  | is_cr ↦ let (out, cr') = fix_input true cs in (10 ∷ out, cr')
  | is_nl ↦ let (out, cr') = fix_input false cs in (c ∷ out, cr')
  | is_other ↦ let (out, cr') = fix_input false cs in (c ∷ out, cr')
]

-- `ioterm_read` on fuel, which counts the calls of `ioread`; none where the fuel ran out.
unfoldable pub ioterm_read :
    {D : Type 0}
    → (D → ℕ → D × Result (List ℕ))
    → ℕ
    → ℕ
    → Term D
    → Option (Term D × Result (List ℕ))
unfolding fix_input
ioterm_read read zero len t = none
ioterm_read read (suc fuel) len t =
    let (d, ret) = read t.rawio len in
    elim ret [
      | err e ↦ some (record t { rawio = d }, err e)
      | ok bs ↦
          let (out, cr) = fix_input t.cr_in bs in
          let t' = record t { rawio = d; cr_in = cr } in
          elim out [ [] ↦ ioterm_read read fuel len t' | c ∷ cs ↦ some (t', ok (c ∷ cs)) ]
    ]

abbrev pub starts_nl : List ℕ → Bool
starts_nl [] = false
starts_nl (c ∷ cs) = c == 10

module _ {D : Type 0} (iowrite : Writer D) where
  abbrev pub Outcome : Type 0
  Outcome = Option (Term D × Result ℕ)

  -- The calls of `iowrite` on `rawio` with what `ioterm_write` does on a result that ends it; else it
  -- goes on with the count.
  unfoldable pub write_then : Term D → ℕ → List ℕ → (Term D → ℕ → Outcome) → Outcome
  write_then t acc bs next = elim (iowrite t.rawio bs) [
    | none ↦ none
    | some r ↦ elim r.1 [
      | err e ↦ some (record t { rawio = r.0 }, err e)
      | ok cnt ↦ elim (cnt == 0) [
        | true ↦ some (record t { rawio = r.0 }, ok acc)
        | false ↦ next (record t { rawio = r.0 }) cnt
      ]
    ]
  ]

  unfoldable pub putc_then : Term D → ℕ → (Term D → Outcome) → Outcome
  unfolding put_result
  putc_then t c next = elim (iowrite t.rawio (c ∷ [])) [
    | none ↦ none
    | some r ↦ elim (put_result r.1 c) [
      | err e ↦ some (record t { rawio = r.0 }, err e)
      | ok k ↦ next (record t { rawio = r.0 })
    ]
  ]

  -- The loop of `ioterm_write` with what follows it: `p` are the bytes from `wp` to `rp`, and the
  -- list before it holds those from `rp` on. The first argument is fuel.
  unfoldable pub term_loop : ℕ → Term D → ℕ → List ℕ → List ℕ → Outcome
  unfolding write_then putc_then
  term_loop zero t acc cs p = none
  term_loop (suc k) t acc [] [] = some (t, ok acc)
  term_loop (suc k) t acc [] (b ∷ p) =
      write_then t acc (b ∷ p) (λ t' cnt. some (t', ok (acc + cnt)))
  term_loop (suc k) t acc (c ∷ cs) p = elim (kind c) [
    | is_cr ↦ elim (starts_nl cs) [
      | true ↦ term_loop k (record t { cr_out = false }) acc (drop 1 cs) (p ++ (13 ∷ 10 ∷ []))
      | false ↦ write_then t acc (p ++ (13 ∷ [])) (λ t₁ cnt. putc_then t₁ 10 (λ t₂.
          term_loop k (record t₂ { cr_out = true }) (acc + cnt) cs (drop cnt (p ++ (13 ∷ [])))))
    ]
    | is_nl ↦ elim t.cr_out [
      | true ↦ term_loop k (record t { cr_out = false }) acc cs (drop 1 (p ++ (10 ∷ [])))
      | false ↦ elim p [
        | [] ↦ putc_then t 13 (λ t₂. term_loop k (record t₂ { cr_out = false }) acc cs (10 ∷ []))
        | b ∷ q ↦ write_then t acc (b ∷ q) (λ t₁ cnt. putc_then t₁ 13 (λ t₂.
            term_loop k (record t₂ { cr_out = false }) (acc + cnt) cs
              (drop cnt (b ∷ q) ++ (10 ∷ []))))
      ]
    ]
    | is_other ↦ term_loop k (record t { cr_out = false }) acc cs (p ++ (c ∷ []))
  ]

  unfoldable pub ioterm_write : List ℕ → Term D → Outcome
  unfolding term_loop
  ioterm_write bs t = term_loop (suc (length bs)) t 0 bs []
