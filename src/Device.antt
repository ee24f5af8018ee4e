-- ===== src/Device.antt =====
-- src/kern/device.c: the table of devices, with registration and the search by name and instance.
pub mod Lookup
use illinux.Prelude.{
  ℕ, zero, suc, ◌+◌, Bool, true, false, List, Option, none, some, ◌==◌, if◌then◌else◌,
}
use illinux.Prelude.Int.{is_zero}
use illinux.Str.{strcmp}
use illinux.Mem.{store}

abbrev pub ndev : ℕ
ndev = 16

-- `struct device` of an entry in use: `openfn` and `aux` are addresses. A registered name is not NULL.
pub record Device : Type 0 where
  pub name : List ℕ
  pub openfn : ℕ
  pub aux : ℕ

-- `devtab`: the entry, or none where its name and its function are NULL.
abbrev pub Devtab : Type 0
Devtab = ℕ → Option Device

abbrev pub same_name : List ℕ → List ℕ → Bool
same_name a b = is_zero (strcmp (some a) (some b))

-- The loop of `device_register`, with `k` entries to go: the first entry that is free and the number of
-- entries of that name before it, or none where there is no free entry.
unfoldable pub find_free : Devtab → List ℕ → ℕ → ℕ → ℕ → Option (ℕ × ℕ)
find_free tab name devno zero instno = none
find_free tab name devno (suc k) instno = elim (tab devno) [
  | none ↦ some (devno, instno)
  | some d ↦ find_free tab name (devno + 1) k (if same_name d.name name then instno + 1 else instno)
]

-- The instance number; none stands for the panic and for the assertion that there is a function.
unfoldable pub device_register : Device → Devtab → Option (Devtab × ℕ)
unfolding find_free
device_register d tab = if d.openfn == 0 then none else elim (find_free tab d.name 0 ndev 0) [
  | none ↦ none
  | some r ↦ some (store tab r.0 (some d), r.1)
]

-- The loop of `device_open`, with `k` entries to go.
unfoldable pub find_device : Devtab → List ℕ → ℕ → ℕ → ℕ → ℕ → Option Device
find_device tab name instno devno zero seen = none
find_device tab name instno devno (suc k) seen = elim (tab devno) [
  | none ↦ find_device tab name instno (devno + 1) k seen
  | some d ↦ elim (same_name d.name name) [
    | false ↦ find_device tab name instno (devno + 1) k seen
    | true ↦ elim (seen == instno) [
      | true ↦ some d
      | false ↦ find_device tab name instno (devno + 1) k (seen + 1)
    ]
  ]
]

-- The device whose function `device_open` calls, or none where it returns -ENODEV.
unfoldable pub device_open : List ℕ → ℕ → Devtab → Option Device
unfolding find_device
device_open name instno tab = find_device tab name instno 0 ndev 0
