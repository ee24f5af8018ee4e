-- ===== src/Plic.antt =====
-- src/kern/plic.c: the interrupt controller. Its registers that keep what is written are a memory of
-- 32-bit words, by their offset from PLIC_IOBASE. What the device does when its claim register is read
-- or written is a parameter.
pub mod Sources
pub mod Start
use illinux.Prelude.{
  ℕ, zero, suc, ◌+◌, ◌-◌, ◌*◌, ◌/◌, ◌%◌, ◌^◌, Bool, true, false, ◌&&◌, ltb, leb, if◌then◌else◌,
}
use illinux.Bits.{bit, bit_and, bit_or, bit_not, one_bit}
use illinux.Mem.{Mem, store}

abbrev pub plic_srccnt : ℕ
plic_srccnt = 1024

abbrev pub plic_ctxcnt : ℕ
plic_ctxcnt = 2

abbrev pub plic_prio_max : ℕ
plic_prio_max = 7

-- PLIC_SOURCE_PRIO * srcno
abbrev pub source_prio : ℕ → ℕ
source_prio srcno = 4 * srcno

-- PLIC_PENDING + (srcno / 32) * 4
abbrev pub pending_word : ℕ → ℕ
pending_word srcno = 4096 + (srcno / 32) * 4

-- PLIC_ENABLE + ctxno * NEXT_PLIC_ENABLE + (srcno / 32) * 4
abbrev pub enable_word : ℕ → ℕ → ℕ
enable_word ctxno srcno = 8192 + ctxno * 128 + (srcno / 32) * 4

-- PLIC_PRIO_TR + ctxno * NEXT_PLIC_PRIO_TR
abbrev pub threshold_word : ℕ → ℕ
threshold_word ctxno = 2097152 + ctxno * 4096

-- PLIC_CLAIM_COMPLETE + ctxno * NEXT_PLIC_CLAIM_COMPLETE
abbrev pub claim_word : ℕ → ℕ
claim_word ctxno = 2097156 + ctxno * 4096

unfoldable pub plic_set_source_priority : ℕ → ℕ → Mem → Mem
plic_set_source_priority srcno level r =
    if ltb srcno plic_srccnt && leb level plic_prio_max
    then store r (source_prio srcno) level
    else r

unfoldable pub plic_source_pending : ℕ → Mem → ℕ
plic_source_pending srcno r =
    if ltb srcno plic_srccnt then bit (srcno % 32) (r (pending_word srcno)) else 0

unfoldable pub plic_enable_source_for_context : ℕ → ℕ → Mem → Mem
plic_enable_source_for_context ctxno srcno r =
    let a = enable_word ctxno srcno in
    if ltb ctxno plic_ctxcnt && ltb srcno plic_srccnt
    then store r a (bit_or 32 (r a) (one_bit (srcno % 32)))
    else r

unfoldable pub plic_disable_source_for_context : ℕ → ℕ → Mem → Mem
plic_disable_source_for_context ctxno srcid r =
    let a = enable_word ctxno srcid in
    if ltb ctxno plic_ctxcnt && ltb srcid plic_srccnt
    then store r a (bit_and 32 (r a) (bit_not 32 (one_bit (srcid % 32))))
    else r

unfoldable pub plic_set_context_threshold : ℕ → ℕ → Mem → Mem
plic_set_context_threshold ctxno level r =
    if ltb ctxno plic_ctxcnt && leb level plic_prio_max
    then store r (threshold_word ctxno) level
    else r

-- The accesses to a claim register, by its offset: the read gives the claimed source, the write gives
-- it back. They change the state of the device and so its registers.
pub record Claims : Type 0 where
  pub claim : Mem → ℕ → ℕ × Mem
  pub complete : Mem → ℕ → ℕ → Mem

module _ (io : Claims) where
  unfoldable pub plic_claim_context_interrupt : ℕ → Mem → ℕ × Mem
  plic_claim_context_interrupt ctxno r =
      if ltb ctxno plic_ctxcnt then io.claim r (claim_word ctxno) else (0, r)

  unfoldable pub plic_complete_context_interrupt : ℕ → ℕ → Mem → Mem
  plic_complete_context_interrupt ctxno srcno r =
      if ltb ctxno plic_ctxcnt && ltb srcno plic_srccnt
      then io.complete r (claim_word ctxno) srcno
      else r

  unfoldable pub plic_claim_irq : Mem → ℕ × Mem
  plic_claim_irq r = plic_claim_context_interrupt 1 r

  unfoldable pub plic_close_irq : ℕ → Mem → Mem
  plic_close_irq irqno r = plic_complete_context_interrupt 1 irqno r

-- The loop of `plic_init` over the sources from `i` on.
unfoldable pub init_sources : ℕ → ℕ → Mem → Mem
init_sources i zero r = r
init_sources i (suc n) r =
    init_sources (i + 1) n (plic_enable_source_for_context 1 i (plic_set_source_priority i 0 r))

unfoldable pub plic_init : Mem → Mem
plic_init r = init_sources 0 plic_srccnt r

unfoldable pub plic_enable_irq : ℕ → ℕ → Mem → Mem
plic_enable_irq irqno prio r = plic_set_source_priority irqno prio r

unfoldable pub plic_disable_irq : ℕ → Mem → Mem
plic_disable_irq irqno r = if ltb 0 irqno then plic_set_source_priority irqno 0 r else r
