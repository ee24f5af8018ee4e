-- ===== src/Device/Lookup.antt =====
-- src/kern/device.c: registration and search together.
use illinux.Prelude.{
  ℕ, zero, suc, ◌+◌, ◌≤◌, ◌<◌, ◌≡◌, refl, ap, ◌∙◌, subst, true, false, List, Option, none, some,
  ◌==◌, if◌then◌else◌, arith, inl, inr, Bool-cases, Option-cases,
}
use illinux.Str.Compare.{strcmp_refl}
use illinux.Mem.{store}
use illinux.Device.{
  Device, Devtab, ndev, same_name, find_free, device_register, find_device, device_open,
}

same_name_refl : (n : List ℕ) → same_name n n ≡ true
same_name_refl n = rw (strcmp_refl n) refl

-- The free entry lies ahead, and the instance number does not fall.
find_free_le :
    (tab : Devtab) (name : List ℕ) (i k m devno instno : ℕ)
    → find_free tab name i k m ≡ some (devno, instno)
    → (i ≤ devno) × (m ≤ instno)
unfolding find_free
find_free_le tab name i zero m devno instno e = ground arith
find_free_le tab name i (suc k) m devno instno e = elim (Option-cases (tab i)) [
  | inl free ↦
      let here : ◌≡◌ {A = Option (ℕ × ℕ)} (some (i, m)) (some (devno, instno)) =
        simp (find_free, free) at e in
      ground arith
  | inr (d, used) ↦
      let rest =
        find_free_le tab name (i + 1) k (if same_name d.name name then m + 1 else m) devno instno
          (simp (find_free, used) at e) in
      ground (arith, rest)
]

not-some : {A : Type 0} {a : A} → none ≡ some a → ⊥
not-some h = ground arith

store_here : (tab : Devtab) (i : ℕ) (d : Device) → store tab i (some d) i ≡ some d
store_here tab i d = let hit : (i == i) ≡ true = ground arith in rw hit refl

store_ahead :
    (tab : Devtab) (i j : ℕ) (d : Device) (e : Option Device)
    → i < j
    → tab i ≡ e
    → store tab j (some d) i ≡ e
store_ahead tab i j d e lt same = let miss : (j == i) ≡ false = ground arith in rw miss same

module _ (tab : Devtab) (d : Device) (devno instno : ℕ) where
  found_here :
      (i k m : ℕ)
      → i ≡ devno
      → m ≡ instno
      → find_device (store tab devno (some d)) d.name instno i (suc k) m ≡ some d
  unfolding find_device
  found_here i k m at_slot at_count =
      let stored : store tab devno (some d) i ≡ some d =
        ap (store tab devno (some d)) at_slot ∙ store_here tab devno d in
      let reached : (m == instno) ≡ true = ground arith in
      rw (find_device, stored, same_name_refl d.name, reached) refl

  found_past :
      (i k m : ℕ) (x : Device)
      → tab i ≡ some x
      → find_free tab d.name (i + 1) k (if same_name x.name d.name then m + 1 else m)
        ≡ some (devno, instno)
      → ((m' : ℕ)
          → find_free tab d.name (i + 1) k m' ≡ some (devno, instno)
          → find_device (store tab devno (some d)) d.name instno (i + 1) k m' ≡ some d)
      → find_device (store tab devno (some d)) d.name instno i (suc k) m ≡ some d
  unfolding find_device
  found_past i k m x used e rest = elim (Bool-cases (same_name x.name d.name)) [
    | inl same ↦
        let e' : find_free tab d.name (i + 1) k (m + 1) ≡ some (devno, instno) = simp same at e in
        let (ahead, more) = find_free_le tab d.name (i + 1) k (m + 1) devno instno e' in
        let kept = store_ahead tab i devno d (some x) (omega arith) used in
        let later : (m == instno) ≡ false = ground arith in
        rw (find_device, kept, same, later) (rest (m + 1) e')
    | inr other ↦
        let e' : find_free tab d.name (i + 1) k m ≡ some (devno, instno) = simp other at e in
        let (ahead, more) = find_free_le tab d.name (i + 1) k m devno instno e' in
        let kept = store_ahead tab i devno d (some x) (omega arith) used in
        rw (find_device, kept, other) (rest m e')
  ]

  found_from :
      (i k m : ℕ)
      → find_free tab d.name i k m ≡ some (devno, instno)
      → find_device (store tab devno (some d)) d.name instno i k m ≡ some d
  unfolding find_free
  found_from i zero m e = absurd (not-some e)
  found_from i (suc k) m e = elim (Option-cases (tab i)) [
    | inl free ↦
        let here : some (i, m) ≡ some (devno, instno) = simp (find_free, free) at e in
        found_here i k m (ground (arith, here)) (ground (arith, here))
    | inr (x, used) ↦
        found_past i k m x used (simp (find_free, used) at e) (λ m' h. found_from (i + 1) k m' h)
  ]

abbrev table_of : Devtab → Option (Devtab × ℕ) → Devtab
table_of tab none = tab
table_of tab (some r) = r.0

abbrev number_of : Option (Devtab × ℕ) → ℕ
number_of none = 0
number_of (some r) = r.1

open_of_find :
    (d : Device) (instno : ℕ) (tab : Devtab)
    → find_device tab d.name instno 0 ndev 0 ≡ some d
    → device_open d.name instno tab ≡ some d
unfolding device_open
open_of_find d instno tab e = e

-- Where `device_register` enters a device and returns an instance number, `device_open` with the
-- device's name and that number then reaches this very device.
pub device_open-device_register :
    (tab tab' : Devtab) (d : Device) (instno : ℕ)
    → device_register d tab ≡ some (tab', instno)
    → device_open d.name instno tab' ≡ some d
unfolding device_register
device_open-device_register tab tab' d instno e = elim (Bool-cases (d.openfn == 0)) [
  | inl missing ↦ absurd (not-some (simp (device_register, missing) at e))
  | inr given ↦ elim (Option-cases (find_free tab d.name 0 ndev 0)) [
    | inl full ↦ absurd (not-some (simp (device_register, given, full) at e))
    | inr (r, free) ↦
        let made : some (store tab r.0 (some d), r.1) ≡ some (tab', instno) =
          simp (device_register, given, free) at e in
        let entered : store tab r.0 (some d) ≡ tab' = ap (table_of tab) made in
        let counted : r.1 ≡ instno = ap number_of made in
        subst (λ t. device_open d.name instno t ≡ some d) entered
          (subst (λ n. device_open d.name n (store tab r.0 (some d)) ≡ some d) counted
            (open_of_find d r.1 (store tab r.0 (some d)) (found_from tab d r.0 r.1 0 ndev 0 free)))
  ]
]
