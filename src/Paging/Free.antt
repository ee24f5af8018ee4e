-- ===== src/Paging/Free.antt =====
-- src/kern/memory.c: the list of free pages as a stack.
use illinux.Prelude.{ℕ, ◌≡◌, refl, ap, sym, subst, false, none, some, List, [], ◌∷◌}
use illinux.Cmd.{done, panic}
use illinux.Mem.{store, store_same, store_other}
use illinux.Thread.Queue.{has, Chain, Distinct, Chain-frame, not_eq_of_has}
use illinux.Paging.{Paging, memory_alloc_page, memory_free_page}

-- The free pages, the next one to be given out in front.
pub record IsFree (s : Paging) (pages : List ℕ) : Type 0 where
  pub chain : Chain s.next s.free_list pages
  pub distinct : Distinct pages

-- `memory_alloc_page` gives out the first free page, and panics exactly where none is free.
pub memory_alloc_page-IsFree :
    (s : Paging) (pages : List ℕ)
    → IsFree s pages
    → (pages ≡ [] → memory_alloc_page s ≡ panic)
      × ((p : ℕ) (rest : List ℕ)
          → pages ≡ p ∷ rest
          → (memory_alloc_page s ≡ done p (record s { free_list = s.next p }))
            × IsFree (record s { free_list = s.next p }) rest)
unfolding memory_alloc_page
memory_alloc_page-IsFree s pages f = (
  λ e. let c = subst (λ l. Chain s.next s.free_list l) e f.chain in rw (memory_alloc_page, c) refl,
  λ p rest e.
      let c = subst (λ l. Chain s.next s.free_list l) e f.chain in
      let d = subst Distinct e f.distinct in
      (
        ap
            (λ o. elim o [
              | none ↦ panic
              | some page ↦ done page (record s { free_list = s.next page })
            ])
            c.0,
        record { chain = c.1; distinct = d.1 },
      ),
)

-- A page that is given back is the next one to be given out.
pub memory_free_page-IsFree :
    (s : Paging) (pages : List ℕ) (pp : ℕ)
    → IsFree s pages
    → has pp pages ≡ false
    → (s' : Paging) × (memory_free_page pp s ≡ done tt s') × IsFree s' (pp ∷ pages)
unfolding memory_free_page
memory_free_page-IsFree s pages pp f out =
    let next' = store s.next pp s.free_list in
    (
      record s { next = next'; free_list = some pp },
      refl,
      record {
        chain = (
          refl,
          subst (λ h. Chain next' h pages) (sym (store_same s.next pp s.free_list pp refl))
              (Chain-frame s.next next' s.free_list pages
                (λ a i.
                  store_other s.next pp s.free_list a (λ e. not_eq_of_has pp a pages out i (sym e)))
                f.chain),
        );
        distinct = (out, f.distinct);
      },
    )
