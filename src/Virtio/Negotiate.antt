-- ===== src/Virtio/Negotiate.antt =====
-- src/kern/virtio.c: which features a driver ends up with.
use illinux.Prelude.{
  ℕ, zero, suc, ◌+◌, ◌^◌, ◌≤◌, ◌<◌, ◌≡◌, ◌≢◌, refl, sym, ap, ◌∙◌, arith, Bool, true, false, ◌==◌,
  ◌&&◌, not, leb, ltb, if◌then◌else◌, Bool-cases, inl, inr, max, min,
}
use illinux.Bits.{
  bit, bit_and, bit_or, bit_and-subset, bit-bit_or, bit-bit_and, bit-one_bit, bit_bound, bit-zero,
}
use illinux.Cmd.{Run, done, panic}
use illinux.Errno.{Result, ok, err, enotsup}
use illinux.Mem.{store, store_same}
use illinux.Virtio.{
  Featset, Mmio, Negotiation, select_device, check_needed, has_needed, request_word, request_wanted,
  features_ok, add_status, virtio_negotiate_features,
}

-- Every needed feature is offered.
abbrev pub Offers : Featset → Featset → Type 0
Offers offered needed = (i k : ℕ) → i < 4 → k < 32 → bit k (needed i) ≡ 1 → bit k (offered i) ≡ 1

abbrev pub IsFeatset : Featset → Type 0
IsFeatset fts = (i : ℕ) → i < 4 → fts i < 2 ^ 32

-- The device keeps FEATURES_OK when it is written.
abbrev pub Accepts : (Mmio → ℕ → ℕ) → Type 0
Accepts settles = (r : Mmio) (v : ℕ) → bit 3 v ≡ 1 → bit 3 (settles r v) ≡ 1

missing : (o n k : ℕ) → k < 32 → bit k n ≡ 1 → bit k o ≡ 0 → bit_and 32 o n ≢ n
missing o n k lt has lacks e =
    let b : bit k n ≡ min (bit k o) (bit k n) = ap (bit k) (sym e) ∙ bit-bit_and 32 o n k lt in
    omega (arith, b, has, lacks)

no_bit : (n k : ℕ) → (n == 0) ≡ true → bit k n ≢ 1
no_bit n k e has =
    let z : n ≡ 0 = ground (arith, e) in
    let b : bit k n ≡ 0 = ap (bit k) z ∙ bit-zero k in omega (arith, b, has)

later : (i j : ℕ) → i ≤ j → i ≢ j → i + 1 ≤ j
later i j le ne = omega (arith, le, ne)

module _ (offered : Featset) (settles : Mmio → ℕ → ℕ) where
  check_needed_ok :
      (needed : Featset) (i n : ℕ) (s : Negotiation)
      → i + n ≡ 4
      → IsFeatset needed
      → Offers offered needed
      → (sel : ℕ) × (check_needed offered settles needed i n s ≡ (select_device sel s, true))
  unfolding check_needed
  check_needed_ok needed i zero s sum words offers = (s.regs.device_features_sel, refl)
  check_needed_ok needed i (suc n) s sum words offers = elim (Bool-cases (needed i == 0)) [
    | inl e ↦
        let (sel, ih) = check_needed_ok needed (i + 1) n s (omega (arith, sum)) words offers in
        (sel, rw (check_needed, e) ih)
    | inr e ↦
        let lt : i < 4 = omega (arith, sum) in
        let all : bit_and 32 (offered i) (needed i) ≡ needed i =
          bit_and-subset 32 (offered i) (needed i) (words i lt) (λ k l. offers i k lt l) in
        let pass : has_needed offered settles needed i (select_device i s) ≡ true =
          ground (arith, all) in
        let (sel, ih) =
          check_needed_ok needed (i + 1) n (select_device i s) (omega (arith, sum)) words offers in
        (sel, rw (check_needed, e, pass) ih)
  ]

  check_needed_refuses :
      (needed : Featset) (i n : ℕ) (s : Negotiation) (j k : ℕ)
      → i ≤ j
      → j < i + n
      → k < 32
      → bit k (needed j) ≡ 1
      → bit k (offered j) ≡ 0
      → (sel : ℕ) × (check_needed offered settles needed i n s ≡ (select_device sel s, false))
  unfolding check_needed
  check_needed_refuses needed i zero s j k le lt lk has lacks = absurd (omega (arith, le, lt))
  check_needed_refuses needed i (suc n) s j k le lt lk has lacks =
      elim (Bool-cases (needed i == 0)) [
        | inl e ↦
            let next : i + 1 ≤ j =
              later i j le
                (λ same. no_bit (needed i) k e (ap (λ (x : ℕ). bit k (needed x)) same ∙ has)) in
            let (sel, ih) =
              check_needed_refuses needed (i + 1) n s j k next (omega (arith, lt)) lk has lacks in
            (sel, rw (check_needed, e) ih)
        | inr e ↦ elim (Bool-cases (has_needed offered settles needed i (select_device i s))) [
          | inl pass ↦
              let next : i + 1 ≤ j = later i j le (λ same.
                missing (offered i) (needed i) k lk (ap (λ (x : ℕ). bit k (needed x)) same ∙ has)
                  (ap (λ (x : ℕ). bit k (offered x)) same ∙ lacks) (ground (arith, pass))) in
              let (sel, ih) =
                check_needed_refuses needed (i + 1) n (select_device i s) j k next
                  (omega (arith, lt)) lk has lacks in
              (sel, rw (check_needed, e, pass) ih)
          | inr fail ↦ (i, rw (check_needed, e, fail) refl)
        ]
      ]

  -- The words that the loop over the wanted features asks for, from word `i` on.
  abbrev asked : Featset → ℕ → ℕ → ℕ → Bool
  asked wanted i n j = (leb i j && ltb j (i + n)) && not (wanted j == 0)

  -- What the loop makes of a word of `enabled` or of the driver's features.
  abbrev result : Featset → ℕ → ℕ → ℕ → ℕ → ℕ
  result wanted i n j old = if asked wanted i n j then bit_and 32 (offered j) (wanted j) else old

  combine :
      (wanted : Featset) (i n j old : ℕ)
      → result wanted (i + 1) n j (result wanted i 1 j old) ≡ result wanted i (suc n) j old
  combine wanted i n j old = ground arith

  one_word :
      (f : ℕ → ℕ) (wanted : Featset) (i j : ℕ)
      → (wanted i == 0) ≡ false
      → store f i (bit_and 32 (offered i) (wanted i)) j ≡ result wanted i 1 j (f j)
  one_word f wanted i j e = elim (Bool-cases (i == j)) [
    | inl hit ↦
        let same : i ≡ j = ground (arith, hit) in
        let some_bits : (wanted j == 0) ≡ false = ap (λ (x : ℕ). wanted x == 0) (sym same) ∙ e in
        store_same f i (bit_and 32 (offered i) (wanted i)) j (sym same)
        ∙ ap (λ (x : ℕ). bit_and 32 (offered x) (wanted x)) same
        ∙ ground (arith, same, some_bits)
    | inr ne ↦ rw ne (ground (arith, ne))
  ]

  no_word :
      (wanted : Featset) (i j old : ℕ) → (wanted i == 0) ≡ true → old ≡ result wanted i 1 j old
  no_word wanted i j old e = elim (Bool-cases (i == j)) [
    | inl hit ↦
        let same : i ≡ j = ground (arith, hit) in
        let no_bits : (wanted j == 0) ≡ true = ap (λ (x : ℕ). wanted x == 0) (sym same) ∙ e in
        ground (arith, no_bits)
    | inr ne ↦ ground (arith, ne)
  ]

  Requested : Featset → ℕ → ℕ → ℕ → Negotiation → Negotiation → Type 0
  Requested wanted i n j s t =
      (t.enabled j ≡ result wanted i n j (s.enabled j))
      × (t.regs.driver_features j ≡ result wanted i n j (s.regs.driver_features j))
      × (t.regs.status ≡ s.regs.status)

  next_word :
      (wanted : Featset) (i n j : ℕ) (s t u : Negotiation)
      → Requested wanted i 1 j s t
      → Requested wanted (i + 1) n j t u
      → Requested wanted i (suc n) j s u
  unfolding Requested
  next_word wanted i n j s t u (e, d, st) (e', d', st') = (
    e' ∙ ap (result wanted (i + 1) n j) e ∙ combine wanted i n j (s.enabled j),
    d' ∙ ap (result wanted (i + 1) n j) d ∙ combine wanted i n j (s.regs.driver_features j),
    st' ∙ st,
  )

  request_wanted_lem :
      (wanted : Featset) (i n j : ℕ) (s : Negotiation)
      → Requested wanted i n j s (request_wanted offered settles wanted i n s)
  unfolding request_wanted Requested request_word
  request_wanted_lem wanted i zero j s = (ground arith, ground arith, refl)
  request_wanted_lem wanted i (suc n) j s = elim (Bool-cases (wanted i == 0)) [
    | inl e ↦
        rw (request_wanted, e)
          (next_word wanted i n j s s (request_wanted offered settles wanted (i + 1) n s)
            (
              no_word wanted i j (s.enabled j) e,
              no_word wanted i j (s.regs.driver_features j) e,
              refl,
            )
            (request_wanted_lem wanted (i + 1) n j s))
    | inr e ↦
        rw (request_wanted, e)
          (next_word wanted i n j s (request_word offered settles wanted i s)
            (request_wanted offered settles wanted (i + 1) n
              (request_word offered settles wanted i s))
            (one_word s.enabled wanted i j e, one_word s.regs.driver_features wanted i j e, refl)
            (request_wanted_lem wanted (i + 1) n j (request_word offered settles wanted i s)))
  ]

  -- A word of features after a negotiation: what is offered of the wanted ones, or as before where none
  -- is wanted.
  abbrev pub agreed : Featset → ℕ → ℕ → ℕ
  agreed wanted j old = if wanted j == 0 then old else bit_and 32 (offered j) (wanted j)

  result-agreed :
      (wanted : Featset) (j old : ℕ) → j < 4 → result wanted 0 4 j old ≡ agreed wanted j old
  result-agreed wanted j old lt = ground (arith, lt)

  after_check : Featset → Negotiation × Bool → Run Negotiation (Result ℕ)
  after_check wanted r = elim r.1 [
    | false ↦ done (err enotsup) r.0
    | true ↦ features_ok offered settles (request_wanted offered settles wanted 0 4 r.0)
  ]

  has_bit3 : (st : ℕ) → bit 3 (bit_or 32 st 8) ≡ 1
  has_bit3 st =
      let eight : bit 3 8 ≡ 1 = bit-one_bit 3 3 in
      let either : bit 3 (bit_or 32 st 8) ≡ max (bit 3 st) (bit 3 8) =
        bit-bit_or 32 st 8 3 (omega arith) in
      omega (arith, either, eight, bit_bound 3 st)

  features_ok_lem :
      (u : Negotiation)
      → Accepts settles
      → features_ok offered settles u
        ≡ done (ok 0) (record u { regs = add_status offered settles 3 u.regs })
  unfolding features_ok
  features_ok_lem u accepts =
      let kept : (bit 3 (settles u.regs (bit_or 32 u.regs.status 8)) == 1) ≡ true =
        ap (λ (x : ℕ). x == 1)
          (accepts u.regs (bit_or 32 u.regs.status 8) (has_bit3 u.regs.status)) in
      ap
        (λ (b : Bool).
          if b
          then done (ok 0) (record u { regs = add_status offered settles 3 u.regs })
          else panic)
        kept

  -- Where a device offers every needed feature and keeps FEATURES_OK, the negotiation succeeds. In each
  -- word in which features are wanted the caller's set and the features that the device was told are
  -- then those of them that it offers; the other words are as before.
  pub virtio_negotiate_features_ok :
      (wanted needed : Featset) (s : Negotiation)
      → IsFeatset needed
      → Offers offered needed
      → Accepts settles
      → (t : Negotiation) × (virtio_negotiate_features offered settles wanted needed s
          ≡ done (ok 0) t)
        × (bit 3 t.regs.status ≡ 1)
        × ((j : ℕ)
            → j < 4
            → (t.enabled j ≡ agreed wanted j (s.enabled j))
              × (t.regs.driver_features j ≡ agreed wanted j (s.regs.driver_features j)))
  unfolding virtio_negotiate_features after_check Requested
  virtio_negotiate_features_ok wanted needed s words offers accepts =
      let (sel, e) = check_needed_ok needed 0 4 s refl words offers in
      let u : Negotiation = request_wanted offered settles wanted 0 4 (select_device sel s) in
      let r : Mmio = add_status offered settles 3 u.regs in
      (
        record u { regs = r },
        ap (after_check wanted) e ∙ features_ok_lem u accepts,
        accepts u.regs (bit_or 32 u.regs.status 8) (has_bit3 u.regs.status),
        (λ j lt.
            let (en, dr, st) = request_wanted_lem wanted 0 4 j (select_device sel s) in
            (
              en ∙ result-agreed wanted j (s.enabled j) lt,
              dr ∙ result-agreed wanted j (s.regs.driver_features j) lt,
            )),
      )

  -- Where a device lacks a needed feature, the negotiation fails with ENOTSUP; the caller's set, the
  -- features that the device was told and its status are as before.
  pub virtio_negotiate_features_refuses :
      (wanted needed : Featset) (s : Negotiation) (j k : ℕ)
      → j < 4
      → k < 32
      → bit k (needed j) ≡ 1
      → bit k (offered j) ≡ 0
      → (t : Negotiation) × (virtio_negotiate_features offered settles wanted needed s
          ≡ done (err enotsup) t)
        × (t.enabled ≡ s.enabled)
        × (t.regs.driver_features ≡ s.regs.driver_features)
        × (t.regs.status ≡ s.regs.status)
  unfolding virtio_negotiate_features after_check
  virtio_negotiate_features_refuses wanted needed s j k lt lk has lacks =
      let (sel, e) = check_needed_refuses needed 0 4 s j k (omega arith) lt lk has lacks in
      (select_device sel s, ap (after_check wanted) e, refl, refl, refl)
