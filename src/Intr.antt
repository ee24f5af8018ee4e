-- ===== src/Intr.antt =====
-- src/kern/intr.c: the table of interrupt service routines and the interrupt handler; the trap frame of
-- src/kern/trap.h. The routines, the timer's handler and `thread_yield` are parameters.
pub mod Serve
use illinux.Prelude.{
  ℕ, zero, suc, ◌+◌, ◌-◌, Bool, true, false, ◌||◌, Option, none, some, ltb, leb, ◌==◌,
  if◌then◌else◌,
}
use illinux.Bits.{bit}
use illinux.Cmd.{Cmd, Run, done, panic, blocked, timeout, pure, get, modify, ◌>>=◌, ◌>>◌}
use illinux.Mem.{Mem, store}
use illinux.Plic.{
  Claims, plic_init, plic_enable_irq, plic_disable_irq, plic_claim_irq, plic_close_irq,
}

abbrev pub nirq : ℕ
nirq = 32

-- An entry of `isrtab`: the routine and its argument, and the priority. An int is the 32 bits of it.
pub record Entry (I X : Type 0) : Type 0 where
  pub isr : Option I
  pub isr_aux : X
  pub prio : ℕ

-- The interrupt controller, the table, and what the routines change.
pub record Intr (I X D : Type 0) : Type 0 where
  pub regs : Mem
  pub isrtab : ℕ → Entry I X
  pub intr_initialized : Bool
  pub devices : D

pub record TrapFrame : Type 0 where
  pub x : ℕ → ℕ
  pub sstatus : ℕ
  pub sepc : ℕ

-- Whether an int is below 0.
abbrev pub is_negative : ℕ → Bool
is_negative n = leb 2147483648 n

abbrev pub intr_excode_sti : ℕ
intr_excode_sti = 5

abbrev pub intr_excode_sei : ℕ
intr_excode_sei = 9

module _ {I X D : Type 0} where
  abbrev pub update_regs : (Mem → Mem) → Cmd (Intr I X D) (Unit {0})
  update_regs f = modify λ s. record s { regs = f s.regs }

  -- Less the accesses to the control registers of the processor.
  unfoldable pub intr_init : Cmd (Intr I X D) (Unit {0})
  intr_init = modify λ s. record s { regs = plic_init s.regs; intr_initialized = true }

  unfoldable pub intr_register_isr : ℕ → ℕ → I → X → Cmd (Intr I X D) (Unit {0})
  intr_register_isr irqno prio isr isr_aux s =
      if is_negative irqno || leb nirq irqno
      then panic
      else (let p = if (prio == 0) || is_negative prio then 1 else prio in
          done tt (record s {
            isrtab = store s.isrtab irqno (record { isr = some isr; isr_aux = isr_aux; prio = p });
          }))

  unfoldable pub intr_enable_irq : ℕ → Cmd (Intr I X D) (Unit {0})
  intr_enable_irq irqno s = elim ((s.isrtab irqno).isr) [
    | none ↦ panic
    | some isr ↦ update_regs (plic_enable_irq irqno (s.isrtab irqno).prio) s
  ]

  unfoldable pub intr_disable_irq : ℕ → Cmd (Intr I X D) (Unit {0})
  intr_disable_irq irqno = update_regs (plic_disable_irq irqno)

  module _ (io : Claims) (run_isr : I → ℕ → X → Cmd (Intr I X D) (Unit {0})) where
    -- The call of the routine of the entry, none for NULL.
    unfoldable pub call_isr : Option I → ℕ → X → Cmd (Intr I X D) (Unit {0})
    call_isr none irqno aux s = panic
    call_isr (some isr) irqno aux s = run_isr isr irqno aux s

    unfoldable pub extern_intr_handler : Cmd (Intr I X D) (Unit {0})
    extern_intr_handler s =
        let irqno = (plic_claim_irq io s.regs).0 in
        let s' : Intr I X D = record s { regs = (plic_claim_irq io s.regs).1 } in
        if is_negative irqno || leb nirq irqno
        then panic
        else if irqno == 0
        then done tt s'
        else (call_isr (s'.isrtab irqno).isr irqno (s'.isrtab irqno).isr_aux
              >> update_regs (plic_close_irq io irqno))
            s'

    unfoldable pub intr_handler :
        Cmd (Intr I X D) (Unit {0})
        → Cmd (Intr I X D) (Unit {0})
        → ℕ
        → TrapFrame
        → Cmd (Intr I X D) (Unit {0})
    intr_handler timer_intr_handler thread_yield code tfr =
        (if code == intr_excode_sei
          then extern_intr_handler
          else if code == intr_excode_sti
          then timer_intr_handler
          else (λ s. panic))
        >> (if bit 8 tfr.sstatus == 0 then thread_yield else modify (λ s. s))
