-- ===== src/Virtio/Features.antt =====
-- src/kern/virtio.h: feature sets as sets.
use illinux.Prelude.{
  ℕ, ◌/◌, ◌%◌, ◌<◌, ◌≡◌, refl, sym, ap, ◌∙◌, arith, max, Bool, false, ◌==◌, if◌then◌else◌,
  Bool-cases, inl, inr,
}
use illinux.Bits.{set_bit, bit, bit_or, one_bit, bit-bit_or, bit-one_bit, bit_bound, bit-zero}
use illinux.Mem.{store_same, store_other}
use illinux.Virtio.{Featset, virtio_featset_init, virtio_featset_add, virtio_featset_test}

same_feature : (j k : ℕ) → j / 32 ≡ k / 32 → (j % 32 == k % 32) ≡ (j == k)
same_feature j k e = ground (arith, e)

-- Adding a feature adds it and no other.
pub virtio_featset_test-virtio_featset_add :
    (fts : Featset) (k j : ℕ)
    → virtio_featset_test (virtio_featset_add fts k) j
      ≡ (if j == k then 1 else virtio_featset_test fts j)
unfolding virtio_featset_test virtio_featset_add
virtio_featset_test-virtio_featset_add fts k j =
    let word = bit_or 32 (fts (k / 32)) (one_bit (k % 32)) in
    elim (Bool-cases (j / 32 == k / 32)) [
      | inl e ↦
          let eq : j / 32 ≡ k / 32 = ground (arith, e) in
          ap (bit (j % 32)) (store_same fts (k / 32) word (j / 32) eq)
          ∙ bit-bit_or 32 (fts (k / 32)) (one_bit (k % 32)) (j % 32) (omega arith)
          ∙ ap (max (bit (j % 32) (fts (k / 32)))) (bit-one_bit (j % 32) (k % 32))
          ∙ set_bit (bit (j % 32) (fts (k / 32))) (j % 32 == k % 32)
              (bit_bound (j % 32) (fts (k / 32)))
          ∙ ap (λ (b : Bool). if b then 1 else bit (j % 32) (fts (k / 32))) (same_feature j k eq)
          ∙ ap (λ (i : ℕ). if j == k then 1 else bit (j % 32) (fts i)) (sym eq)
      | inr ne ↦
          let differ : (j == k) ≡ false = ground (arith, ne) in
          ap (bit (j % 32)) (store_other fts (k / 32) word (j / 32) (λ e. ground (arith, e, ne)))
          ∙ rw differ refl
    ]

-- The empty set has no feature.
pub virtio_featset_test-virtio_featset_init :
    (fts : Featset) (j : ℕ) → j < 128 → virtio_featset_test (virtio_featset_init fts) j ≡ 0
unfolding virtio_featset_test virtio_featset_init
virtio_featset_test-virtio_featset_init fts j lt =
    let word : virtio_featset_init fts (j / 32) ≡ 0 = ground (arith, lt) in
    ap (bit (j % 32)) word ∙ bit-zero (j % 32)
