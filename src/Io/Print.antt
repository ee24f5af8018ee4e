-- ===== src/Io/Print.antt =====
-- src/kern/io.c: `ioputs`, `iovprintf`, and the terminal's remaining operations.
use illinux.Prelude.{
  ℕ, ◌+◌, ◌≤◌, ◌≡◌, refl, sym, ap, ◌∙◌, Option, none, some, List, [], ◌∷◌, ◌++◌, append-nil,
  append_assoc, length, ◌==◌, if◌then◌else◌, arith,
}
use illinux.Errno.{Errno, enotsup, Result, ok, err}
use illinux.Io.{ioctl_setpos}
use illinux.Io.Stream.{Writer, put_result}
use illinux.Io.Term.{Term}
use illinux.Io.TermLaws.{IsSink}
use illinux.Str.Format.{vgprintf}
use illinux.Str.Text.{text_of, put_all}
use illinux.Str.Printed.{handed, vgprintf-text_of}
use illinux.Str.Total.{text_of_total}

-- `struct iovprintf_state`, less the object's address; `errno` is none for 0.
pub record IovprintfState (D : Type 0) : Type 0 where
  pub io : D
  pub errno : Option Errno

module _ {D : Type 0} (iowrite : Writer D) where
  -- A string is the list of its characters.
  unfoldable pub ioputs : List ℕ → D → Option (D × Result ℕ)
  ioputs s d = elim (iowrite d s) [
    | none ↦ none
    | some r ↦ elim r.1 [
      | err e ↦ some (r.0, err e)
      | ok n ↦ elim (iowrite r.0 (10 ∷ [])) [
        | none ↦ none
        | some q ↦ elim q.1 [ err e ↦ some (q.0, err e) | ok k ↦ some (q.0, ok 0) ]
      ]
    ]
  ]

  abbrev pub error_of : Result ℕ → Option Errno
  error_of (ok n) = none
  error_of (err e) = some e

  -- None where the fuel of `iowrite` was used up.
  unfoldable pub iovprintf_putc : ℕ → Option (IovprintfState D) → Option (IovprintfState D)
  iovprintf_putc c none = none
  iovprintf_putc c (some state) = elim state.errno [
    | some e ↦ some state
    | none ↦ elim (iowrite state.io (c ∷ [])) [
      | none ↦ none
      | some r ↦ some (record { io = r.0; errno = error_of (put_result r.1 c) })
    ]
  ]

  abbrev pub printed : Option (Option (IovprintfState D) × ℕ) → Option (D × Result ℕ)
  printed none = none
  printed (some (none, nout)) = none
  printed (some (some state, nout)) = elim state.errno [
    | some e ↦ some (state.io, err e)
    | none ↦ some (state.io, ok nout)
  ]

  unfoldable pub iovprintf : (ℕ → Option (List ℕ)) → List ℕ → List ℕ → D → Option (D × Result ℕ)
  iovprintf str_at fmt va d = printed (
      vgprintf iovprintf_putc str_at (length fmt + 1) fmt va
        (some (record { io = d; errno = none })) 0)

-- `ioterm_close` and `ioterm_ioctl`, with the operations of the object below.
unfoldable pub ioterm_close : {D : Type 0} → (D → D) → Term D → Term D
ioterm_close ioclose t = record t { rawio = ioclose t.rawio }

unfoldable pub ioterm_ioctl :
    {D A : Type 0} → (D → ℕ → A → D × A × Result ℕ) → ℕ → A → Term D → Term D × A × Result ℕ
ioterm_ioctl ioctl cmd arg t =
    if cmd == ioctl_setpos
    then (t, arg, err enotsup)
    else (let (d, arg', ret) = ioctl t.rawio cmd arg in (record t { rawio = d }, arg', ret))

module _ {D : Type 0} (iowrite : Writer D) (log : D → List ℕ) (sink : IsSink iowrite log) where
  abbrev going : D → Option (IovprintfState D)
  going d = some (record { io = d; errno = none })

  iovprintf_putc_lem :
      (c : ℕ) (d : D) → iovprintf_putc iowrite c (going d) ≡ going (sink.after d (c ∷ []))
  unfolding iovprintf_putc put_result
  iovprintf_putc_lem c d = rw (iovprintf_putc, sink.takes d (c ∷ [])) refl

  put_all-going :
      (cs : List ℕ) (d : D)
      → (d' : D) × (put_all (iovprintf_putc iowrite) cs (going d) ≡ going d')
        × (log d' ≡ log d ++ cs)
  put_all-going [] d = (d, refl, sym (append-nil (log d)))
  put_all-going (c ∷ cs) d =
      let (d', ran, logged) = put_all-going cs (sink.after d (c ∷ [])) in
      (
        d',
        ap (put_all (iovprintf_putc iowrite) cs) (iovprintf_putc_lem c d) ∙ ran,
        logged
            ∙ ap (λ (l : List ℕ). l ++ cs) (sink.logs d (c ∷ []))
            ∙ append_assoc (log d) (c ∷ []) cs,
      )

  -- With an argument for each character of the format, on an object that takes all that it is given,
  -- `iovprintf` writes the text that the format and the arguments stand for, behind what was there, and
  -- returns its length.
  pub iovprintf-text_of :
      (str_at : ℕ → Option (List ℕ)) (fmt va : List ℕ) (d : D)
      → length fmt ≤ length va
      → (text : List ℕ) × (d' : D) × (text_of str_at (length fmt + 1) fmt va ≡ some text)
        × (iovprintf iowrite str_at fmt va d ≡ some (d', ok (length text)))
        × (log d' ≡ log d ++ text)
  unfolding iovprintf
  iovprintf-text_of str_at fmt va d le =
      let (text, run) = text_of_total str_at (length fmt + 1) fmt va (omega arith) le in
      let (d', ran, logged) = put_all-going text d in
      (
        text,
        d',
        run,
        ap (printed iowrite) (
            vgprintf-text_of (iovprintf_putc iowrite) str_at (length fmt + 1) fmt va (going d) 0
            ∙ ap (λ (t : Option (List ℕ)). handed (iovprintf_putc iowrite) t (going d) 0) run
            ∙ ap (λ (n : ℕ). some (put_all (iovprintf_putc iowrite) text (going d), n))
                (omega arith)
            ∙ ap (λ (s : Option (IovprintfState D)). some (s, length text)) ran),
        logged,
      )

  -- `ioputs` writes the string and a newline, and returns 0.
  pub ioputs_lem :
      (s : List ℕ) (d : D)
      → (d' : D) × (ioputs iowrite s d ≡ some (d', ok 0)) × (log d' ≡ log d ++ (s ++ (10 ∷ [])))
  unfolding ioputs
  ioputs_lem s d = (
    sink.after (sink.after d s) (10 ∷ []),
    rw (ioputs, sink.takes d s, sink.takes (sink.after d s) (10 ∷ [])) refl,
    sink.logs (sink.after d s) (10 ∷ [])
        ∙ ap (λ (l : List ℕ). l ++ (10 ∷ [])) (sink.logs d s)
        ∙ append_assoc (log d) s (10 ∷ []),
  )
