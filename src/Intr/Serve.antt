-- ===== src/Intr/Serve.antt =====
-- src/kern/intr.c: an interrupt, from its registration to its routine.
use illinux.Prelude.{
  ℕ, ◌<◌, ◌≡◌, refl, ap, ◌∙◌, arith, Bool, true, false, ◌==◌, ◌||◌, ◌&&◌, ltb, leb, max, none, some,
  fun_ext, if◌then◌else◌,
}
use illinux.Cmd.{Cmd, Run, done, panic, blocked, timeout, then_done, modify, ◌>>◌}
use illinux.Mem.{Mem, store, store_same}
use illinux.Bits.{bit}
use illinux.Plic.{
  Claims, claim_word, plic_claim_irq, plic_claim_context_interrupt, plic_close_irq,
  plic_complete_context_interrupt, plic_enable_irq,
}
use illinux.Plic.Start.{priority, plic_set_source_priority_range}
use illinux.Intr.{
  Entry, Intr, TrapFrame, is_negative, nirq, update_regs, intr_register_isr, intr_enable_irq,
  call_isr, extern_intr_handler, intr_handler,
}

module _ {I X : Type 0} (prio : ℕ) (isr : I) (isr_aux : X) where
  abbrev pub entry : Entry I X
  entry = record { isr = some isr; isr_aux = isr_aux; prio = max 1 prio }

abbrev and_then : {S : Type 0} → Run S (Unit {0}) → Cmd S (Unit {0}) → Run S (Unit {0})
and_then run f = elim run [ done a s ↦ f s | blocked ↦ blocked | panic ↦ panic | timeout ↦ timeout ]

module _ {I X D : Type 0} (irqno prio : ℕ) (isr : I) (isr_aux : X) where
  abbrev pub registered : Intr I X D → Intr I X D
  registered s = record s { isrtab = store s.isrtab irqno (entry prio isr isr_aux) }

  intr_register_isr_lem :
      (s : Intr I X D)
      → irqno < 32
      → prio < 2147483648
      → intr_register_isr irqno prio isr isr_aux s ≡ done tt (registered s)
  unfolding intr_register_isr
  intr_register_isr_lem s lt small =
      let inside : (is_negative irqno || leb nirq irqno) ≡ false = ground (arith, lt) in
      let clamped : (if (prio == 0) || is_negative prio then 1 else prio) ≡ max 1 prio =
        ground (arith, small) in
      rw (intr_register_isr, inside)
        (ap
          (λ (p : ℕ). done tt (record s {
            isrtab = store s.isrtab irqno (record { isr = some isr; isr_aux = isr_aux; prio = p });
          }))
          clamped)

  intr_enable_irq_lem :
      (s : Intr I X D)
      → s.isrtab irqno ≡ entry prio isr isr_aux
      → intr_enable_irq irqno s
        ≡ done tt (record s { regs = plic_enable_irq irqno (max 1 prio) s.regs })
  unfolding intr_enable_irq
  intr_enable_irq_lem s e =
      ap
        (λ (x : Entry I X). elim x.isr [
          | none ↦ panic
          | some f ↦ update_regs (plic_enable_irq irqno x.prio) s
        ])
        e

  module _ (io : Claims) (run_isr : I → ℕ → X → Cmd (Intr I X D) (Unit {0})) where
    abbrev served : Intr I X D → Entry I X → Run (Intr I X D) (Unit {0})
    served s x =
        (call_isr io run_isr x.isr irqno x.isr_aux >> update_regs (plic_close_irq io irqno)) s

    abbrev claimed : Intr I X D → ℕ × Mem → Run (Intr I X D) (Unit {0})
    claimed s q =
        let s' : Intr I X D = record s { regs = q.1 } in
        if is_negative q.0 || leb nirq q.0
        then panic
        else if q.0 == 0
        then done tt s'
        else (call_isr io run_isr (s'.isrtab q.0).isr q.0 (s'.isrtab q.0).isr_aux
              >> update_regs (plic_close_irq io q.0))
            s'

    pub extern_intr_handler_lem :
        (s : Intr I X D) (r : Mem)
        → 0 < irqno
        → irqno < 32
        → s.isrtab irqno ≡ entry prio isr isr_aux
        → io.claim s.regs (claim_word 1) ≡ (irqno, r)
        → extern_intr_handler io run_isr s
          ≡ (run_isr isr irqno isr_aux >> update_regs (λ r'. io.complete r' (claim_word 1) irqno))
              (record s { regs = r })
    unfolding extern_intr_handler call_isr plic_claim_irq plic_claim_context_interrupt
        plic_close_irq plic_complete_context_interrupt
    extern_intr_handler_lem s r pos lt e c =
        let s' : Intr I X D = record s { regs = r } in
        let inside : (is_negative irqno || leb nirq irqno) ≡ false = ground (arith, lt) in
        let found : (irqno == 0) ≡ false = ground (arith, pos) in
        let known : ltb irqno 1024 ≡ true = ground (arith, lt) in
        ap (claimed s) c
        ∙ rw (inside, found)
            (ap (served s') e
              ∙ ap (λ (f : Mem → Mem). (run_isr isr irqno isr_aux >> update_regs f) s')
                  (fun_ext (λ r'.
                    ap (λ (b : Bool). if b then io.complete r' (claim_word 1) irqno else r')
                      known)))

  module _ (io : Claims) (run_isr : I → ℕ → X → Cmd (Intr I X D) (Unit {0}))
      (timer_intr_handler thread_yield : Cmd (Intr I X D) (Unit {0})) where
    -- The other sources' priorities are those of `s`, the priority of the source is the one asked for,
    -- and every interrupt of it calls the routine.
    abbrev pub Serves : Intr I X D → Intr I X D → Type 0
    Serves s s' =
        ((src : ℕ)
          → src < 1024
          → priority s'.regs src
            ≡ (if (irqno == src) && leb prio 7 then max 1 prio else priority s.regs src))
        × ((t : Intr I X D) (r : Mem) (tfr : TrapFrame)
            → t.isrtab ≡ s'.isrtab
            → io.claim t.regs (claim_word 1) ≡ (irqno, r)
            → intr_handler io run_isr timer_intr_handler thread_yield 9 tfr t
              ≡ ((run_isr isr irqno isr_aux
                      >> update_regs (λ r'. io.complete r' (claim_word 1) irqno))
                    >> (if bit 8 tfr.sstatus == 0 then thread_yield else modify (λ u. u)))
                  (record t { regs = r }))

    -- Registering a routine for the interrupt `irqno` of 1 to 31 and enabling it finds no reason to panic.
    -- It leaves the other sources' priorities alone and gives the source `irqno` the one that was asked
    -- for, but at least 1; one above 7 is not stored. From then on, as long as the table is not changed,
    -- an external interrupt that the controller says is `irqno` calls this routine with its argument,
    -- gives the claim back, and yields the processor where user code was interrupted.
    pub intr_handler-Serves :
        (s : Intr I X D)
        → 0 < irqno
        → irqno < 32
        → prio < 2147483648
        → (s' : Intr I X D) × ((intr_register_isr irqno prio isr isr_aux >> intr_enable_irq irqno) s
            ≡ done tt s')
          × Serves s s'
    unfolding intr_handler plic_enable_irq
    intr_handler-Serves s pos lt small =
        let found : store s.isrtab irqno (entry prio isr isr_aux) irqno ≡ entry prio isr isr_aux =
          store_same s.isrtab irqno (entry prio isr isr_aux) irqno refl in
        (
          record (registered s) { regs = plic_enable_irq irqno (max 1 prio) s.regs },
          then_done (intr_register_isr irqno prio isr isr_aux) (λ u. intr_enable_irq irqno)
                (intr_register_isr_lem s lt small)
              ∙ intr_enable_irq_lem (registered s) found,
          (
            (λ src ls.
                plic_set_source_priority_range s.regs irqno (max 1 prio) src (omega (arith, lt)) ls
                ∙ ground (arith)),
            (λ t r tfr same c.
                ap
                  (λ (run : Run (Intr I X D) (Unit {0})).
                    and_then run (if bit 8 tfr.sstatus == 0 then thread_yield else modify (λ u. u)))
                  (extern_intr_handler_lem io run_isr t r pos lt
                    (ap (λ (f : ℕ → Entry I X). f irqno) same ∙ found) c)),
          ),
        )
