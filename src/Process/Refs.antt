-- ===== src/Process/Refs.antt =====
-- src/kern/process.c and syscall.c: reference counts, and the number of table entries that refer to an
-- object.
use illinux.Prelude.{
  ℕ, ◌+◌, ◌≤◌, ◌<◌, ◌≡◌, ◌≢◌, refl, ap, arith, true, false, Option, none, some, ◌==◌, if◌then◌else◌,
}
use illinux.Mem.{store}
use illinux.Process.{Iotab, Procs, process_iomax, nproc, entries, set_entry}
use illinux.Process.Sum.{sum, sum_change, le-sum, sum-le}

-- 1 where the entry refers to the object.
abbrev pub one : ℕ → Option ℕ → ℕ
one io none = 0
one io (some k) = if k == io then 1 else 0

pub one-le : (io : ℕ) (e : Option ℕ) → one io e ≤ 1
one-le io none = omega arith
one-le io (some k) = ground arith

-- The references of one table.
unfoldable pub count : ℕ → Option Iotab → ℕ
count io t = sum (λ i. one io (entries t i)) process_iomax

pub count-le : (io : ℕ) (t : Option Iotab) → count io t ≤ 16
unfolding count
count-le io t =
    omega (arith, sum-le (λ i. one io (entries t i)) 1 process_iomax (λ k. one-le io (entries t k)))

unfoldable pub total : ℕ → (ℕ → Option Iotab) → ℕ
total io tab = sum (λ p. count io (tab p)) nproc

pub total-le : (io : ℕ) (tab : ℕ → Option Iotab) → total io tab ≤ 256
unfolding total
total-le io tab = omega (arith, sum-le (λ p. count io (tab p)) 16 nproc (λ p. count-le io (tab p)))

-- Every object that some process refers to has the right reference count.
abbrev pub IsCounted : {D : Type 0} → Procs D → Type 0
IsCounted s = (io : ℕ) → 0 < total io s.proctab → s.refcnt io ≡ total io s.proctab

pub store_other : {A : Type 0} (m : ℕ → A) (i : ℕ) (a : A) (k : ℕ) → k ≢ i → m k ≡ store m i a k
store_other m i a k ne = let miss : (i == k) ≡ false = ground arith in rw miss refl

pub store_same : {A : Type 0} (m : ℕ → A) (i : ℕ) (a : A) → store m i a i ≡ a
store_same m i a = let hit : (i == i) ≡ true = ground arith in rw hit refl

pub count_pos :
    (t : Option Iotab) (i io : ℕ) → i < process_iomax → entries t i ≡ some io → 1 ≤ count io t
unfolding count
count_pos t i io lt e =
    let here : one io (entries t i) ≡ 1 = rw e (ground arith) in
    omega (arith, here, le-sum (λ k. one io (entries t k)) i process_iomax lt)

pub count-le-total :
    (tab : ℕ → Option Iotab) (p io : ℕ) → p < nproc → count io (tab p) ≤ total io tab
unfolding total
count-le-total tab p io lt = le-sum (λ q. count io (tab q)) p nproc lt

-- One entry of one table changes.
pub count_entry :
    (io : ℕ) (t : Option Iotab) (i : ℕ) (e : Option ℕ)
    → i < process_iomax
    → count io (some (store (entries t) i e)) + one io (entries t i) ≡ count io t + one io e
unfolding count
count_entry io t i e lt =
    let changed =
      (sum_change (λ k. one io (entries t k)) (λ k. one io (store (entries t) i e k)) i
          process_iomax (λ k ne. ap (one io) (store_other (entries t) i e k ne))).0
        lt in
    let new : one io (store (entries t) i e i) ≡ one io e =
      ap (one io) (store_same (entries t) i e) in
    omega (arith, changed, new)

-- One table changes.
pub total_table :
    (io : ℕ) (tab : ℕ → Option Iotab) (p : ℕ) (t : Option Iotab)
    → p < nproc
    → total io (store tab p t) + count io (tab p) ≡ total io tab + count io t
unfolding total
total_table io tab p t lt =
    let changed =
      (sum_change (λ q. count io (tab q)) (λ q. count io (store tab p t q)) p nproc
          (λ q ne. ap (count io) (store_other tab p t q ne))).0
        lt in
    let new : count io (store tab p t p) ≡ count io t = ap (count io) (store_same tab p t) in
    omega (arith, changed, new)

pub total-set_entry :
    {D : Type 0} (s : Procs D) (io p i : ℕ) (e : Option ℕ)
    → p < nproc
    → i < process_iomax
    → total io (set_entry p i e s).proctab + one io (entries (s.proctab p) i)
      ≡ total io s.proctab + one io e
unfolding set_entry
total-set_entry s io p i e p_in i_in =
    let table = total_table io s.proctab p (some (store (entries (s.proctab p)) i e)) p_in in
    let entry = count_entry io (s.proctab p) i e i_in in omega (arith, table, entry)
