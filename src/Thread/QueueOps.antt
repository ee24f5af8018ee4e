-- ===== src/Thread/QueueOps.antt =====
-- src/kern/thread.c: the operations on lists of threads, on the queues that the lists stand for.
use illinux.Prelude.{
  ℕ, ◌≡◌, ◌≢◌, refl, sym, ap, ◌∙◌, subst, true, false, Option, none, some, List, [], ◌∷◌, ◌++◌,
  append-nil, arith,
}
use illinux.Mem.{store, store_same, store_other}
use illinux.Thread.Lists.{Links, ThreadList, tlclear, tlempty, tlinsert, tlremove, tlappend}
use illinux.Thread.Queue.{
  has, last, Chain, IsQueue, Chain-frame, has-last, not_eq_of_has, link, last-append,
  Distinct-append,
}

has_one : (a p : ℕ) (qs : List ℕ) → has p qs ≡ false → has a qs ≡ true → has a (p ∷ []) ≡ false
has_one a p qs out i = let apart = not_eq_of_has p a qs out i in ground arith

-- The list is empty exactly where the queue is.
pub tlempty-queue :
    (next : Links) (l : ThreadList) (qs : List ℕ)
    → IsQueue next l qs
    → (tlempty l ≡ true → qs ≡ []) × (tlempty l ≡ false → (p : ℕ) × (ps : List ℕ) × (qs ≡ p ∷ ps))
unfolding tlempty
tlempty-queue next l [] q = (λ e. refl, λ e. absurd (ground (arith, q.chain)))
tlempty-queue next l (p ∷ ps) q = (λ e. absurd (ground (arith, q.chain.0)), λ e. (p, ps, refl))

-- What an insertion has done.
pub record IsPut (next : Links) (p : ℕ) (qs : List ℕ) (next' : Links) (l' : ThreadList)
    : Type 0 where
  pub queue : IsQueue next' l' (qs ++ (p ∷ []))
  pub same : (a : ℕ) → has a qs ≡ false → a ≢ p → next' a ≡ next a

insert_first :
    (next : Links) (l : ThreadList) (p : ℕ)
    → IsQueue next l []
    → (next' : Links) × (l' : ThreadList) × (tlinsert next l p ≡ some (next', l'))
      × IsPut next p [] next' l'
unfolding tlinsert
insert_first next l p q = (
  store next p none,
  record { head = some p; tail = some p },
  rw (tlinsert, q.end, q.chain) refl,
  record {
    queue = record {
      chain = (refl, store_same next p none p refl);
      end = refl;
      distinct = (refl, tt);
    };
    same = λ a out ne. store_other next p none a ne;
  },
)

insert_more :
    (next : Links) (l : ThreadList) (p r : ℕ) (qs : List ℕ)
    → IsQueue next l (r ∷ qs)
    → has p (r ∷ qs) ≡ false
    → (next' : Links) × (l' : ThreadList) × (tlinsert next l p ≡ some (next', l'))
      × IsPut next p (r ∷ qs) next' l'
unfolding tlinsert
insert_more next l p r qs q out =
    let t : ℕ = last r qs in
    let next' : Links = store (store next p none) t (some p) in
    let apart = not_eq_of_has p t (r ∷ qs) out (has-last r qs) in
    let at_p : next' p ≡ none =
      store_other (store next p none) t (some p) p apart ∙ store_same next p none p refl in
    let at_t : next' t ≡ some p = store_same (store next p none) t (some p) t refl in
    (
      next',
      record l { tail = some p },
      rw (tlinsert, q.end, q.chain.0)
          (ap (λ (h : Option ℕ). some (next', record { head = h; tail = some p })) q.chain.0),
      record {
        queue = record {
          chain =
              link next next' l.head r qs (p ∷ []) q.chain q.distinct
                (λ a i ne.
                  store_other (store next p none) t (some p) a ne
                  ∙ store_other next p none a (λ e. not_eq_of_has p a (r ∷ qs) out i (sym e)))
                (at_t, at_p);
          end = ap some (sym (last-append r p qs []));
          distinct =
              Distinct-append (r ∷ qs) (p ∷ []) q.distinct (refl, tt)
                (λ a i. has_one a p (r ∷ qs) out i);
        };
        same = λ a o ne.
            store_other (store next p none) t (some p) a
              (λ e. not_eq_of_has a t (r ∷ qs) o (has-last r qs) e)
            ∙ store_other next p none a ne;
      },
    )

-- `tlinsert` of a thread that is not in the list meets no failing assertion, puts the thread at the end
-- of the queue, and changes no links but those of the list and the thread.
pub tlinsert-IsPut :
    (next : Links) (l : ThreadList) (p : ℕ) (qs : List ℕ)
    → IsQueue next l qs
    → has p qs ≡ false
    → (next' : Links) × (l' : ThreadList) × (tlinsert next l p ≡ some (next', l'))
      × IsPut next p qs next' l'
tlinsert-IsPut next l p [] q out = insert_first next l p q
tlinsert-IsPut next l p (r ∷ qs) q out = insert_more next l p r qs q out

-- `tlremove` of a list with threads returns the first of the queue and leaves the rest as the queue, and
-- changes no link but that thread's.
pub tlremove-IsQueue :
    (next : Links) (l : ThreadList) (p : ℕ) (qs : List ℕ)
    → IsQueue next l (p ∷ qs)
    → (next' : Links) × (l' : ThreadList) × (tlremove next l ≡ (next', l', some p))
      × IsQueue next' l' qs
      × ((a : ℕ) → a ≢ p → next' a ≡ next a)
unfolding tlremove
tlremove-IsQueue next l p [] q = (
  store next p none,
  tlclear,
  rw (tlremove, q.chain.0, q.chain.1) refl,
  record { chain = refl; end = refl; distinct = tt },
  λ a ne. store_other next p none a ne,
)
tlremove-IsQueue next l p (r ∷ qs) q =
    let next' : Links = store next p none in
    (
      next',
      record { head = some r; tail = l.tail },
      rw (tlremove, q.chain.0, q.chain.1.0) refl,
      record {
        chain =
            subst (λ h. Chain next' h (r ∷ qs)) q.chain.1.0
              (Chain-frame next next' (next p) (r ∷ qs)
                (λ a i.
                  store_other next p none a
                    (λ e. not_eq_of_has p a (r ∷ qs) q.distinct.0 i (sym e)))
                q.chain.1);
        end = q.end;
        distinct = q.distinct.1;
      },
      λ a ne. store_other next p none a ne,
    )

-- `tlappend` of two lists that share no thread meets no failing assertion, joins their queues, and
-- changes no links but the first list's.
pub tlappend-IsQueue :
    (next : Links) (l0 l1 : ThreadList) (xs ys : List ℕ)
    → IsQueue next l0 xs
    → IsQueue next l1 ys
    → ((a : ℕ) → has a xs ≡ true → has a ys ≡ false)
    → (next' : Links) × (l' : ThreadList) × (tlappend next l0 l1 ≡ some (next', l'))
      × IsQueue next' l' (xs ++ ys)
      × ((a : ℕ) → has a xs ≡ false → next' a ≡ next a)
unfolding tlappend
tlappend-IsQueue next l0 l1 [] ys q0 q1 apart =
    (next, l1, rw (tlappend, q0.chain, q0.end) refl, q1, λ a o. refl)
tlappend-IsQueue next l0 l1 (x ∷ xs) [] q0 q1 apart = (
  next,
  l0,
  simp (tlappend, q0.chain.0, q0.end, q1.chain),
  rw (append-nil (x ∷ xs)) q0,
  λ a o. refl,
)
tlappend-IsQueue next l0 l1 (x ∷ xs) (y ∷ ys) q0 q1 apart =
    let t : ℕ = last x xs in
    let next' : Links = store next t (some y) in
    (
      next',
      record l0 { tail = some (last y ys) },
      rw (tlappend, q0.chain.0, q0.end, q1.chain.0, q1.end)
          (ap (λ (h : Option ℕ). some (next', record { head = h; tail = some (last y ys) }))
            q0.chain.0),
      record {
        chain =
            link next next' l0.head x xs (y ∷ ys) q0.chain q0.distinct
              (λ a i ne. store_other next t (some y) a ne)
              (Chain-frame next next' (next' t) (y ∷ ys)
                (λ a i.
                  store_other next t (some y) a
                    (λ e. not_eq_of_has t a (y ∷ ys) (apart t (has-last x xs)) i (sym e)))
                (subst (λ h. Chain next h (y ∷ ys))
                  (q1.chain.0 ∙ sym (store_same next t (some y) t refl)) q1.chain));
        end = ap some (sym (last-append x y xs ys));
        distinct = Distinct-append (x ∷ xs) (y ∷ ys) q0.distinct q1.distinct apart;
      },
      λ a o. store_other next t (some y) a (λ e. not_eq_of_has a t (x ∷ xs) o (has-last x xs) e),
    )
