-- ===== src/Str/Bounded.antt =====
-- src/kern/string.c: `vsnprintf` and its buffer.
use illinux.Prelude.{
  ℕ, zero, suc, ◌+◌, ◌-◌, ◌≤◌, ◌<◌, ◌≡◌, refl, ap, ◌∙◌, false, List, [], ◌∷◌, Option, some, leb,
  ◌==◌, if◌then◌else◌, length, take, get_elem?, length-take, min, arith,
}
use illinux.Mem.{
  Mem, store, store_same, store_other, put_text, put_text_before, put_text_after, put_text_at,
  get_elem-lt,
}
use illinux.Str.Format.{VsnprintfState, vsnprintf_putc, vsnprintf}
use illinux.Str.Text.{put_all, text_of}
use illinux.Str.Printed.{handed, vgprintf-text_of}
use illinux.Str.Total.{text_of_total}

abbrev at_pos : Mem → ℕ → ℕ → VsnprintfState
at_pos m p rem = record { buf = m; pos = p; rem = rem }

at_pos_cong : (m : Mem) (p p' r r' : ℕ) → p ≡ p' → r ≡ r' → at_pos m p r ≡ at_pos m p' r'
at_pos_cong m p p' r r' e1 e2 = ap (λ x. at_pos m x r) e1 ∙ ap (at_pos m p') e2

putc_full : (c : ℕ) (m : Mem) (p : ℕ) → vsnprintf_putc c (at_pos m p 1) ≡ at_pos m p 1
unfolding vsnprintf_putc
putc_full c m p = refl

putc_room :
    (c : ℕ) (m : Mem) (p k : ℕ)
    → vsnprintf_putc c (at_pos m p (suc (suc k))) ≡ at_pos (store m p c) (p + 1) (suc k)
unfolding vsnprintf_putc
putc_room c m p k =
    let room : leb (suc (suc k)) 1 ≡ false = ground arith in
    rw room (ap (at_pos (store m p c) (p + 1)) (omega arith))

-- The characters that fit in front of the NUL are stored, the others are dropped.
putc_all :
    (cs : List ℕ) (m : Mem) (p k : ℕ)
    → put_all vsnprintf_putc cs (at_pos m p (suc k))
      ≡ at_pos (put_text m p (take k cs)) (p + length (take k cs)) (suc k - length (take k cs))
putc_all [] m p zero = at_pos_cong m p (p + 0) 1 1 (omega arith) refl
putc_all [] m p (suc k) =
    at_pos_cong m p (p + 0) (suc (suc k)) (suc (suc k) - 0) (omega arith) (omega arith)
putc_all (c ∷ cs) m p zero = ap (put_all vsnprintf_putc cs) (putc_full c m p) ∙ putc_all cs m p zero
putc_all (c ∷ cs) m p (suc k) =
    ap (put_all vsnprintf_putc cs) (putc_room c m p k)
    ∙ putc_all cs (store m p c) (p + 1) k
    ∙ at_pos_cong (put_text (store m p c) (p + 1) (take k cs)) (p + 1 + length (take k cs))
        (p + suc (length (take k cs))) (suc k - length (take k cs))
        (suc (suc k) - suc (length (take k cs))) (omega arith) (omega arith)

abbrev ended : VsnprintfState → Mem
ended state = if state.rem == 0 then state.buf else store state.buf state.pos 0

ended-store : (m : Mem) (q r : ℕ) → 0 < r → ended (at_pos m q r) ≡ store m q 0
ended-store m q r pos = let e : (r == 0) ≡ false = ground arith in rw e refl

vsnprintf_ended :
    (str_at : ℕ → Option (List ℕ)) (buf : Mem) (p bufsz : ℕ) (fmt va text : List ℕ)
    → text_of str_at (length fmt + 1) fmt va ≡ some text
    → vsnprintf str_at buf p bufsz fmt va
      ≡ some (ended (put_all vsnprintf_putc text (at_pos buf p bufsz)), length text)
unfolding vsnprintf
vsnprintf_ended str_at buf p bufsz fmt va text e =
    let run =
      vgprintf-text_of vsnprintf_putc str_at (length fmt + 1) fmt va (at_pos buf p bufsz) 0
      ∙ ap (λ o. handed vsnprintf_putc o (at_pos buf p bufsz) 0) e in
    rw (vsnprintf, run)
      (ap (λ n. some (ended (put_all vsnprintf_putc text (at_pos buf p bufsz)), n)) (omega arith))

-- What `vsnprintf` leaves in a buffer of `k + 1` bytes at `p`.
pub record IsPrinted (buf : Mem) (p k : ℕ) (text : List ℕ) (buf' : Mem) : Type 0 where
  pub chars : (i c : ℕ) → get_elem? (take k text) i ≡ some c → buf' (p + i) ≡ c
  pub nul : buf' (p + min k (length text)) ≡ 0
  pub before : (j : ℕ) → j < p → buf' j ≡ buf j
  pub after : (j : ℕ) → p + suc k ≤ j → buf' j ≡ buf j

-- With an argument for each character of the format, and a buffer of at least one byte, `vsnprintf`
-- returns the length of the whole text; the buffer holds the characters of it that fit and a NUL behind
-- them, and no byte outside is changed.
pub vsnprintf-IsPrinted :
    (str_at : ℕ → Option (List ℕ)) (buf : Mem) (p k : ℕ) (fmt va : List ℕ)
    → length fmt ≤ length va
    → (text : List ℕ) × (buf' : Mem) × (text_of str_at (length fmt + 1) fmt va ≡ some text)
      × (vsnprintf str_at buf p (suc k) fmt va ≡ some (buf', length text))
      × IsPrinted buf p k text buf'
vsnprintf-IsPrinted str_at buf p k fmt va le =
    let (text, run) = text_of_total str_at (length fmt + 1) fmt va (omega arith) le in
    let kept = take k text in
    let size : length kept ≡ min k (length text) = length-take k text in
    let fits : length kept ≤ k = omega (arith, size) in
    let m = put_text buf p kept in
    let last : ended (at_pos m (p + length kept) (suc k - length kept))
        ≡ store m (p + length kept) 0 =
      ended-store m (p + length kept) (suc k - length kept) (omega (arith, fits)) in
    (
      text,
      store m (p + length kept) 0,
      run,
      vsnprintf_ended str_at buf p (suc k) fmt va text run
          ∙ ap (λ st. some (ended st, length text)) (putc_all text buf p k)
          ∙ ap (λ x. some (x, length text)) last,
      record {
        chars = λ i c e.
            let lt = get_elem-lt kept i c e in
            store_other m (p + length kept) 0 (p + i) (λ h. omega (arith, lt, h))
            ∙ put_text_at buf p kept i c e;
        nul = store_same m (p + length kept) 0 (p + min k (length text)) (omega (arith, size));
        before = λ j lt.
            store_other m (p + length kept) 0 j (λ h. omega (arith, lt, h))
            ∙ put_text_before buf p kept j lt;
        after = λ j ge.
            store_other m (p + length kept) 0 j (λ h. omega (arith, ge, fits, h))
            ∙ put_text_after buf p kept j (omega (arith, ge, fits));
      },
    )
