-- ===== src/Io/TermSends.antt =====
-- src/kern/io.c: a call of `ioterm_write` on a device that takes every byte.
use illinux.Prelude.{
  ℕ, zero, suc, ◌+◌, ◌-◌, ◌<◌, ◌≡◌, refl, sym, ap, ◌∙◌, subst, Bool, true, false, some, List, [],
  ◌∷◌, ◌++◌, ◌==◌, length, drop, length-append, append_assoc, append-nil, arith, inl, inr,
  Bool-cases,
}
use illinux.Errno.{ok}
use illinux.Io.Term.{Term, is_cr, is_nl, is_other, kind, starts_nl, term_loop, ioterm_write}
use illinux.Io.TermLaws.{
  newline, normalise, ends_cr, skipped, IsSink, kind_cases, sent, put_after, write_then_lem,
  step_other, step_pair, step_cr, step_skip, step_nl_first, step_nl,
}

normalise_cr :
    (cr : Bool) (c : ℕ) (cs : List ℕ)
    → kind c ≡ is_cr
    → (normalise cr (c ∷ cs) ≡ 13 ∷ 10 ∷ normalise true cs)
      × (ends_cr cr (c ∷ cs) ≡ ends_cr true cs)
unfolding normalise ends_cr
normalise_cr cr c cs e = (rw (normalise, e) refl, rw (ends_cr, e) refl)

normalise_nl :
    (cr : Bool) (c : ℕ) (cs : List ℕ)
    → kind c ≡ is_nl
    → (normalise cr (c ∷ cs) ≡ newline cr (normalise false cs))
      × (ends_cr cr (c ∷ cs) ≡ ends_cr false cs)
unfolding normalise ends_cr
normalise_nl cr c cs e = (rw (normalise, e) refl, rw (ends_cr, e) refl)

-- A `\n` behind a `\r` is written with it.
pair_rest :
    (cs : List ℕ)
    → starts_nl cs ≡ true
    → (normalise true cs ≡ normalise false (drop 1 cs))
      × (ends_cr true cs ≡ ends_cr false (drop 1 cs))
      × (length cs ≡ suc (length (drop 1 cs)))
pair_rest [] nl = absurd (ground arith)
pair_rest (d ∷ cs) nl =
    let is_newline : kind d ≡ is_nl = ground arith in
    ((normalise_nl true d cs is_newline).0, (normalise_nl true d cs is_newline).1, refl)

normalise_other :
    (cr : Bool) (c : ℕ) (cs : List ℕ)
    → kind c ≡ is_other
    → (normalise cr (c ∷ cs) ≡ c ∷ normalise false cs) × (ends_cr cr (c ∷ cs) ≡ ends_cr false cs)
unfolding normalise ends_cr
normalise_other cr c cs e = (rw (normalise, e) refl, rw (ends_cr, e) refl)

skipped_none : (cr : Bool) (c : ℕ) (cs : List ℕ) → (c == 10) ≡ false → skipped cr (c ∷ cs) ≡ 0
skipped_none true c cs e = rw e refl
skipped_none false c cs e = refl

module _ {D : Type 0} (iowrite : _) (log : D → List ℕ) (sink : IsSink {D = D} iowrite log) where
  open sink use {after, takes, logs}

  -- The loop from `t` on, with the bytes `p` pending and the bytes `cs` to come, ended in `t'`.
  pub record IsSent (t t' : Term D) (p cs : List ℕ) : Type 0 where
    pub logged : log t'.rawio ≡ log t.rawio ++ (p ++ normalise t.cr_out cs)
    pub ended : t'.cr_out ≡ ends_cr t.cr_out cs
    pub input_kept : t'.cr_in ≡ t.cr_in

  -- The loop from `t` on ends, with the count `n`.
  Ends : ℕ → Term D → ℕ → List ℕ → List ℕ → ℕ → Type 0
  Ends k t acc cs p n =
      (t' : Term D) × (term_loop iowrite k t acc cs p ≡ some (t', ok n)) × IsSent t t' p cs

  case_end : (k acc : ℕ) (t : Term D) (p : List ℕ) → Ends (suc k) t acc [] p (acc + length p)
  unfolding Ends term_loop normalise ends_cr
  case_end k acc t [] = (
    t,
    ap (λ n. some (t, ok n)) (omega arith),
    record { logged = sym (append-nil (log t.rawio)); ended = refl; input_kept = refl },
  )
  case_end k acc t (b ∷ p) = (
    sent iowrite log sink t (b ∷ p),
    write_then_lem iowrite log sink (b ∷ p) (ground arith) t acc
        (λ t' cnt. some (t', ok (acc + cnt))),
    record {
      logged = rw (logs t.rawio (b ∷ p), append-nil p) refl;
      ended = refl;
      input_kept = refl;
    },
  )

  case_other :
      (k acc c n : ℕ) (t : Term D) (cs p : List ℕ)
      → kind c ≡ is_other
      → Ends k (record t { cr_out = false }) acc cs (p ++ (c ∷ [])) n
      → Ends (suc k) t acc (c ∷ cs) p n
  unfolding Ends
  case_other k acc c n t cs p e (t', ran, s) = (
    t',
    step_other iowrite log sink k acc c t cs p e ∙ ran,
    record {
      logged =
          rw
            (
              s.logged,
              (normalise_other t.cr_out c cs e).0,
              append_assoc p (c ∷ []) (normalise false cs),
            )
            refl;
      ended = s.ended ∙ sym (normalise_other t.cr_out c cs e).1;
      input_kept = s.input_kept;
    },
  )

  case_pair :
      (k acc c n : ℕ) (t : Term D) (cs p : List ℕ)
      → kind c ≡ is_cr
      → starts_nl cs ≡ true
      → Ends k (record t { cr_out = false }) acc (drop 1 cs) (p ++ (13 ∷ 10 ∷ [])) n
      → Ends (suc k) t acc (c ∷ cs) p n
  unfolding Ends
  case_pair k acc c n t cs p e nl (t', ran, s) = (
    t',
    step_pair iowrite log sink k acc c t cs p e nl ∙ ran,
    record {
      logged =
          rw
            (
              s.logged,
              (normalise_cr t.cr_out c cs e).0,
              (pair_rest cs nl).0,
              append_assoc p (13 ∷ 10 ∷ []) (normalise false (drop 1 cs)),
            )
            refl;
      ended = s.ended ∙ sym ((normalise_cr t.cr_out c cs e).1 ∙ (pair_rest cs nl).1);
      input_kept = s.input_kept;
    },
  )

  log_put :
      (t : Term D) (bs : List ℕ) (c : ℕ)
      → log (put_after iowrite log sink bs c t).rawio ≡ log t.rawio ++ (bs ++ (c ∷ []))
  unfolding put_after
  log_put t bs c =
      logs (after t.rawio bs) (c ∷ [])
      ∙ rw (logs t.rawio bs) (append_assoc (log t.rawio) bs (c ∷ []))

  put_cr_in :
      (t : Term D) (bs : List ℕ) (c : ℕ) → (put_after iowrite log sink bs c t).cr_in ≡ t.cr_in
  unfolding put_after
  put_cr_in t bs c = refl

  case_cr :
      (k acc c n : ℕ) (t : Term D) (cs p : List ℕ)
      → kind c ≡ is_cr
      → starts_nl cs ≡ false
      → Ends k
          (record (put_after iowrite log sink (p ++ (13 ∷ [])) 10 t) { cr_out = true })
          (acc + length (p ++ (13 ∷ [])))
          cs
          []
          n
      → Ends (suc k) t acc (c ∷ cs) p n
  unfolding Ends
  case_cr k acc c n t cs p e nl (t', ran, s) = (
    t',
    step_cr iowrite log sink k acc c t cs p e nl ∙ ran,
    record {
      logged =
          rw (s.logged, (normalise_cr t.cr_out c cs e).0, log_put t (p ++ (13 ∷ [])) 10)
            (simp append_assoc);
      ended = s.ended ∙ sym (normalise_cr t.cr_out c cs e).1;
      input_kept = s.input_kept ∙ put_cr_in t (p ++ (13 ∷ [])) 10;
    },
  )

  case_skip :
      (k acc c n : ℕ) (t : Term D) (cs : List ℕ)
      → kind c ≡ is_nl
      → t.cr_out ≡ true
      → Ends k (record t { cr_out = false }) acc cs [] n
      → Ends (suc k) t acc (c ∷ cs) [] n
  unfolding Ends
  case_skip k acc c n t cs e cr (t', ran, s) = (
    t',
    step_skip iowrite log sink k acc c t cs e cr ∙ ran,
    record {
      logged = rw (s.logged, (normalise_nl t.cr_out c cs e).0, cr) refl;
      ended = s.ended ∙ sym (normalise_nl t.cr_out c cs e).1;
      input_kept = s.input_kept;
    },
  )

  case_nl_first :
      (k acc c n : ℕ) (t : Term D) (cs : List ℕ)
      → kind c ≡ is_nl
      → t.cr_out ≡ false
      → Ends k (record (sent iowrite log sink t (13 ∷ [])) { cr_out = false }) acc cs (10 ∷ []) n
      → Ends (suc k) t acc (c ∷ cs) [] n
  unfolding Ends
  case_nl_first k acc c n t cs e cr (t', ran, s) = (
    t',
    step_nl_first iowrite log sink k acc c t cs e cr ∙ ran,
    record {
      logged =
          rw (s.logged, (normalise_nl t.cr_out c cs e).0, cr, logs t.rawio (13 ∷ []))
            (append_assoc (log t.rawio) (13 ∷ []) (10 ∷ normalise false cs));
      ended = s.ended ∙ sym (normalise_nl t.cr_out c cs e).1;
      input_kept = s.input_kept;
    },
  )

  case_nl :
      (k acc c b n : ℕ) (t : Term D) (cs p : List ℕ)
      → kind c ≡ is_nl
      → t.cr_out ≡ false
      → Ends k
          (record (put_after iowrite log sink (b ∷ p) 13 t) { cr_out = false })
          (acc + length (b ∷ p))
          cs
          (10 ∷ [])
          n
      → Ends (suc k) t acc (c ∷ cs) (b ∷ p) n
  unfolding Ends
  case_nl k acc c b n t cs p e cr (t', ran, s) = (
    t',
    step_nl iowrite log sink k acc c b t cs p e cr ∙ ran,
    record {
      logged =
          rw (s.logged, log_put t (b ∷ p) 13, (normalise_nl t.cr_out c cs e).0, cr)
            (simp append_assoc);
      ended = s.ended ∙ sym (normalise_nl t.cr_out c cs e).1;
      input_kept = s.input_kept ∙ put_cr_in t (b ∷ p) 13;
    },
  )

  counted :
      (k acc m n : ℕ) (t : Term D) (cs p : List ℕ)
      → m ≡ n
      → Ends k t acc cs p m
      → Ends k t acc cs p n
  counted k acc m n t cs p e s = subst (λ x. Ends k t acc cs p x) e s

  sends_nl :
      (k acc c : ℕ) (t : Term D) (cs p : List ℕ)
      → kind c ≡ is_nl
      → (t.cr_out ≡ true → p ≡ [])
      → ((acc : ℕ) (t : Term D) (q : List ℕ)
          → t.cr_out ≡ false
          → Ends k t acc cs q (acc + length q + length cs))
      → Ends
          (suc k)
          t
          acc
          (c ∷ cs)
          p
          (acc + length p + (length (c ∷ cs) - skipped t.cr_out (c ∷ cs)))
  sends_nl k acc c t cs p nl start rest = elim (Bool-cases t.cr_out) [
    | inl cr ↦
        let one_skipped : skipped t.cr_out (c ∷ cs) ≡ 1 = rw cr (ground arith) in
        rw (start cr) (
          counted (suc k) acc _ _ t (c ∷ cs) [] (omega (arith, one_skipped))
            (case_skip k acc c _ t cs nl cr (rest acc (record t { cr_out = false }) [] refl)))
    | inr no_cr ↦
        let none_skipped : skipped t.cr_out (c ∷ cs) ≡ 0 = rw no_cr refl in
        rw (none_skipped) (first p no_cr)
  ]
    where
      first :
          (p : List ℕ)
          → t.cr_out ≡ false
          → Ends (suc k) t acc (c ∷ cs) p (acc + length p + (length (c ∷ cs) - 0))
      first [] no_cr = counted (suc k) acc _ _ t (c ∷ cs) [] (omega arith) (
          case_nl_first k acc c _ t cs nl no_cr (
            rest acc (record (sent iowrite log sink t (13 ∷ [])) { cr_out = false }) (10 ∷ [])
              refl))
      first (b ∷ q) no_cr = counted (suc k) acc _ _ t (c ∷ cs) (b ∷ q) (omega arith) (
          case_nl k acc c b _ t cs q nl no_cr (
            rest (acc + length (b ∷ q))
              (record (put_after iowrite log sink (b ∷ q) 13 t) { cr_out = false }) (10 ∷ []) refl))

  -- The loop ends, if it has more fuel than bytes are left and `cr_out` is set at the start only.
  sends :
      (k acc : ℕ) (t : Term D) (cs p : List ℕ)
      → length cs < k
      → (t.cr_out ≡ true → p ≡ [])
      → Ends k t acc cs p (acc + length p + (length cs - skipped t.cr_out cs))
  sends zero acc t cs p lt start = absurd (omega arith)
  sends (suc k) acc t [] p lt start =
      counted (suc k) acc _ _ t [] p (omega arith) (case_end k acc t p)
  sends (suc k) acc t (c ∷ cs) p lt start = elim (kind_cases c) [
    | inl cr ↦
        let none_skipped : skipped t.cr_out (c ∷ cs) ≡ 0 =
          skipped_none t.cr_out c cs (ground arith) in
        elim (Bool-cases (starts_nl cs)) [
          | inl pair ↦
              counted (suc k) acc _ _ t (c ∷ cs) p
                (omega (arith, none_skipped, (pair_rest cs pair).2, length-append p (13 ∷ 10 ∷ [])))
                (case_pair k acc c _ t cs p cr pair (
                  sends k acc (record t { cr_out = false }) (drop 1 cs) (p ++ (13 ∷ 10 ∷ []))
                    (omega (arith, (pair_rest cs pair).2)) (λ e. absurd (ground arith))))
          | inr lone ↦
              let rest_counted : skipped true cs ≡ 0 = rw lone refl in
              counted (suc k) acc _ _ t (c ∷ cs) p
                (omega (arith, none_skipped, rest_counted, length-append p (13 ∷ [])))
                (case_cr k acc c _ t cs p cr lone (
                  sends k (acc + length (p ++ (13 ∷ [])))
                    (record (put_after iowrite log sink (p ++ (13 ∷ [])) 10 t) { cr_out = true }) cs
                    [] (omega arith) (λ e. refl)))
        ]
    | inr (inl nl) ↦ sends_nl k acc c t cs p nl start (λ acc' t' q no_cr.
        let none_skipped : skipped t'.cr_out cs ≡ 0 = rw no_cr refl in
        counted k acc' _ _ t' cs q (omega (arith, none_skipped))
          (sends k acc' t' cs q (omega arith) (λ e. absurd (ground arith))))
    | inr (inr other) ↦
        let none_skipped : skipped t.cr_out (c ∷ cs) ≡ 0 =
          skipped_none t.cr_out c cs (ground arith) in
        counted (suc k) acc _ _ t (c ∷ cs) p (omega (arith, none_skipped, length-append p (c ∷ [])))
          (case_other k acc c _ t cs p other (
            sends k acc (record t { cr_out = false }) cs (p ++ (c ∷ [])) (omega arith)
              (λ e. absurd (ground arith))))
  ]

  -- On a device that takes every byte, `ioterm_write` ends, writes exactly the normalised characters
  -- of the buffer, given `cr_out`, sets `cr_out` for the next call and leaves `cr_in` alone. The count
  -- it returns is the buffer's length, less 1 where the buffer begins with the newline of a return that
  -- the call before has written.
  pub ioterm_write-normalise :
      (bs : List ℕ) (t : Term D)
      → (t' : Term D) × (ioterm_write iowrite bs t
          ≡ some (t', ok (length bs - skipped t.cr_out bs)))
        × (log t'.rawio ≡ log t.rawio ++ normalise t.cr_out bs)
        × (t'.cr_out ≡ ends_cr t.cr_out bs)
        × (t'.cr_in ≡ t.cr_in)
  unfolding ioterm_write Ends
  ioterm_write-normalise bs t =
      let (t', ran, s) =
        counted (suc (length bs)) 0 _ (length bs - skipped t.cr_out bs) t bs [] (omega arith)
          (sends (suc (length bs)) 0 t bs [] (omega arith) (λ e. refl)) in
      (t', ran, s.logged, s.ended, s.input_kept)
