-- ===== src/Io/StreamLaws.antt =====
-- src/kern/io.c: `iowrite` on devices with short writes.
use illinux.Prelude.{
  ℕ, zero, suc, ◌+◌, ◌-◌, ◌≤◌, ◌<◌, ◌≡◌, refl, sym, ap, ◌∙◌, true, false, some, List, [], ◌∷◌, ◌++◌,
  ltb, ◌==◌, length, take, drop, length-drop, append_assoc, append-nil, arith, inl, inr, Bool-cases,
}
use illinux.Errno.{Result, ok}
use illinux.Io.Stream.{write_all, iowrite}

take-drop : (k : ℕ) (bs : List ℕ) → take k bs ++ drop k bs ≡ bs
take-drop zero bs = refl
take-drop (suc k) [] = refl
take-drop (suc k) (b ∷ bs) = ap (λ l. b ∷ l) (take-drop k bs)

drop_nil : (n : ℕ) → drop {A = ℕ} n [] ≡ []
drop_nil zero = refl
drop_nil (suc n) = refl

drop-drop : (a k : ℕ) (bs : List ℕ) → drop k (drop a bs) ≡ drop (a + k) bs
drop-drop zero k bs = ap (λ n. drop n bs) (omega arith)
drop-drop (suc a) zero [] = sym (drop_nil (suc a + 0))
drop-drop (suc a) (suc k) [] = sym (drop_nil (suc a + suc k))
drop-drop (suc a) k (b ∷ bs) = drop-drop a k bs ∙ ap (λ n. drop n (b ∷ bs)) shift
  where
    shift : suc (a + k) ≡ suc a + k
    shift = omega arith

drop_end : (bs : List ℕ) (n : ℕ) → length bs ≤ n → drop n bs ≡ []
drop_end [] zero le = refl
drop_end [] (suc n) le = refl
drop_end (b ∷ bs) zero le = absurd (omega arith)
drop_end (b ∷ bs) (suc n) le = drop_end bs n (omega arith)

-- A device that takes at least one byte of each write, and stores those that it takes in order.
pub record IsDevice {D : Type 0} (write : D → List ℕ → D × Result ℕ) (log : D → List ℕ)
    : Type 0 where
  pub count : D → List ℕ → ℕ
  pub some_bytes :
      (d : D) (bs : List ℕ) → 0 < length bs → (1 ≤ count d bs) × (count d bs ≤ length bs)
  pub returns : (d : D) (bs : List ℕ) → 0 < length bs → (write d bs).1 ≡ ok (count d bs)
  pub stores :
      (d : D) (bs : List ℕ) → 0 < length bs → log (write d bs).0 ≡ log d ++ take (count d bs) bs

module _ {D : Type 0} (write : D → List ℕ → D × Result ℕ) (log : D → List ℕ)
    (dev : IsDevice write log) where
  open dev use {count, some_bytes, returns, stores}

  write_all_step :
      (fuel acc : ℕ) (bs : List ℕ) (d : D)
      → acc < length bs
      → let cnt = count d (drop acc bs) in
        write_all write (suc fuel) bs acc d
        ≡ write_all write fuel bs (acc + cnt) (write d (drop acc bs)).0
  unfolding write_all
  write_all_step fuel acc bs d lt =
      let more : ltb acc (length bs) ≡ true = ground arith in
      let left : 0 < length (drop acc bs) = omega (arith, length-drop acc bs) in
      let cnt : ℕ = count d (drop acc bs) in
      let nonzero : (cnt == 0) ≡ false = ground (arith, some_bytes d (drop acc bs) left) in
      rw (write_all, more, returns d (drop acc bs) left, nonzero) refl

  write_all_end :
      (fuel acc : ℕ) (bs : List ℕ) (d : D)
      → acc ≡ length bs
      → write_all write (suc fuel) bs acc d ≡ some (d, ok (length bs))
  unfolding write_all
  write_all_end fuel acc bs d e =
      let over : ltb acc (length bs) ≡ false = ground arith in rw (write_all, over, e) refl

  write_all_lem :
      (fuel acc : ℕ) (bs : List ℕ) (d : D)
      → acc ≤ length bs
      → length bs - acc < fuel
      → (d' : D) × (write_all write fuel bs acc d ≡ some (d', ok (length bs)))
        × (log d' ≡ log d ++ drop acc bs)
  write_all_lem zero acc bs d le lt = absurd (omega arith)
  write_all_lem (suc fuel) acc bs d le lt = elim (Bool-cases (ltb acc (length bs))) [
    | inl more ↦
        let acc_in : acc < length bs = ground arith in
        let left : 0 < length (drop acc bs) = omega (arith, length-drop acc bs) in
        let cnt : ℕ = count d (drop acc bs) in
        let (lo, hi) = some_bytes d (drop acc bs) left in
        let (d', ran, logged) =
          write_all_lem fuel (acc + cnt) bs (write d (drop acc bs)).0
            (omega (arith, hi, length-drop acc bs)) (omega (arith, lo)) in
        (
          d',
          write_all_step fuel acc bs d acc_in ∙ ran,
          logged
              ∙ rw
                  (
                    stores d (drop acc bs) left,
                    append_assoc (log d) (take cnt (drop acc bs)) (drop (acc + cnt) bs),
                  )
                  (ap (λ l. log d ++ l)
                    (ap (λ l. take cnt (drop acc bs) ++ l) (sym (drop-drop acc cnt bs))
                      ∙ take-drop cnt (drop acc bs))),
        )
    | inr over ↦
        let end : acc ≡ length bs = ground arith in
        (
          d,
          write_all_end fuel acc bs d end,
          sym (ap (λ l. log d ++ l) (drop_end bs acc (omega arith)) ∙ append-nil (log d)),
        )
  ]

  -- On a device that takes at least one byte of each write, `iowrite` with more fuel than bytes ends,
  -- returns the whole count, and the device has stored all the bytes in order, however short its single
  -- writes are.
  pub iowrite_lem :
      (fuel : ℕ) (bs : List ℕ) (d : D) (read : _)
      → length bs < fuel
      → (d' : D) × (iowrite (record { write = some write; read = read }) fuel bs d
          ≡ some (d', ok (length bs)))
        × (log d' ≡ log d ++ bs)
  unfolding iowrite
  iowrite_lem fuel bs d read lt = write_all_lem fuel 0 bs d (omega arith) (omega arith)
