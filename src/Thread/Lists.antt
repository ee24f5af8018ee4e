-- ===== src/Thread/Lists.antt =====
-- src/kern/thread.c: the lists of threads, linked by the `list_next` member of the threads.
use illinux.Prelude.{ℕ, Bool, true, false, Option, none, some}
use illinux.Mem.{store}

-- `list_next` of each thread. A thread is the number of its address, and NULL is none.
abbrev pub Links : Type 0
Links = ℕ → Option ℕ

-- `struct thread_list`
pub record ThreadList : Type 0 where
  pub head : Option ℕ
  pub tail : Option ℕ

abbrev pub tlclear : ThreadList
tlclear = record { head = none; tail = none }

unfoldable pub tlempty : ThreadList → Bool
tlempty l = elim l.head [ none ↦ true | some p ↦ false ]

-- None where an assertion fails. A NULL thread is not given: the code would write to it.
unfoldable pub tlinsert : Links → ThreadList → ℕ → Option (Links × ThreadList)
tlinsert next l thr =
    let cleared = store next thr none in
    elim l.tail [
      | some t ↦ elim l.head [
        | none ↦ none
        | some h ↦ some (store cleared t (some thr), record l { tail = some thr })
      ]
      | none ↦ elim l.head [
        | some h ↦ none
        | none ↦ some (cleared, record { head = some thr; tail = some thr })
      ]
    ]

unfoldable pub tlremove : Links → ThreadList → Links × ThreadList × Option ℕ
tlremove next l = elim l.head [
  | none ↦ (next, l, none)
  | some thr ↦ (
    store next thr none,
    record { head = next thr; tail = elim (next thr) [ none ↦ none | some n ↦ l.tail ] },
    some thr,
  )
]

-- The first list afterwards; the second is cleared.
unfoldable pub tlappend : Links → ThreadList → ThreadList → Option (Links × ThreadList)
tlappend next l0 l1 = elim l0.head [
  | some h ↦ elim l0.tail [
    | none ↦ none
    | some t ↦ elim l1.head [
      | none ↦ some (next, l0)
      | some h1 ↦ elim l1.tail [
        | none ↦ none
        | some t1 ↦ some (store next t (some h1), record l0 { tail = some t1 })
      ]
    ]
  ]
  | none ↦ elim l0.tail [ some t ↦ none | none ↦ some (next, l1) ]
]
