-- ===== src/Virtio.antt =====
-- src/kern/virtio.c and virtio.h: the sets of features, their negotiation and the queues of a virtio
-- device. What the device offers, and what its status register holds after a write, are parameters.
pub mod Features
pub mod Negotiate
use illinux.Prelude.{
  ℕ, zero, suc, ◌+◌, ◌/◌, ◌%◌, ◌^◌, Bool, true, false, Option, none, some, ◌==◌, if◌then◌else◌,
}
use illinux.Bits.{bit, bit_and, bit_or, one_bit}
use illinux.Cmd.{Cmd, Run, done, panic, blocked, timeout, pure, modify, ◌>>=◌, ◌>>◌}
use illinux.Errno.{Result, ok, err, enotsup}
use illinux.Mem.{store}

abbrev pub featlen : ℕ
featlen = 4

-- A feature set: its words.
abbrev pub Featset : Type 0
Featset = ℕ → ℕ

unfoldable pub virtio_featset_init : Featset → Featset
virtio_featset_init fts = store (store (store (store fts 0 0) 1 0) 2 0) 3 0

unfoldable pub virtio_featset_add : Featset → ℕ → Featset
virtio_featset_add fts k = store fts (k / 32) (bit_or 32 (fts (k / 32)) (one_bit (k % 32)))

unfoldable pub virtio_featset_test : Featset → ℕ → ℕ
virtio_featset_test fts k = bit (k % 32) (fts (k / 32))

-- The registers of one queue.
pub record VirtQueue : Type 0 where
  pub desc : ℕ
  pub driver_ring : ℕ
  pub device_ring : ℕ
  pub num : ℕ
  pub queue_ready : ℕ
  pub queue_reset : ℕ

-- `struct virtio_mmio_regs`, less the configuration. The registers behind a selector are functions of it.
pub record Mmio : Type 0 where
  pub magic_value : ℕ
  pub version : ℕ
  pub device_id : ℕ
  pub device_features_sel : ℕ
  pub driver_features_sel : ℕ
  pub driver_features : ℕ → ℕ
  pub queue_sel : ℕ
  pub queues : ℕ → VirtQueue
  pub queue_notify : ℕ
  pub status : ℕ

-- The registers, and the caller's array `enabled`.
pub record Negotiation : Type 0 where
  pub regs : Mmio
  pub enabled : Featset

abbrev pub select_device : ℕ → Negotiation → Negotiation
select_device i s = record s { regs = record (s.regs) { device_features_sel = i } }

abbrev pub write_driver_features : ℕ → Mmio → Mmio
write_driver_features v r = record r {
  driver_features = store r.driver_features r.driver_features_sel v;
}

module _ (offered : Featset) (settles : Mmio → ℕ → ℕ) where
  abbrev pub device_features : Negotiation → ℕ
  device_features s = offered s.regs.device_features_sel

  abbrev pub has_needed : Featset → ℕ → Negotiation → Bool
  has_needed needed i s = bit_and 32 (device_features s) (needed i) == needed i

  -- The loop over the needed features, from the word `i` on.
  unfoldable pub check_needed : Featset → ℕ → ℕ → Negotiation → Negotiation × Bool
  check_needed needed i zero s = (s, true)
  check_needed needed i (suc n) s = elim (needed i == 0) [
    | true ↦ check_needed needed (i + 1) n s
    | false ↦ elim (has_needed needed i (select_device i s)) [
      | true ↦ check_needed needed (i + 1) n (select_device i s)
      | false ↦ (select_device i s, false)
    ]
  ]

  -- One pass of the loop over the wanted features, for a word that is not 0.
  unfoldable pub request_word : Featset → ℕ → Negotiation → Negotiation
  request_word wanted i s =
      let s' : Negotiation = record s {
        regs = record (s.regs) { device_features_sel = i; driver_features_sel = i };
      } in
      let v = bit_and 32 (device_features s') (wanted i) in
      record { regs = write_driver_features v s'.regs; enabled = store s'.enabled i v }

  unfoldable pub request_wanted : Featset → ℕ → ℕ → Negotiation → Negotiation
  request_wanted wanted i zero s = s
  request_wanted wanted i (suc n) s =
      request_wanted wanted (i + 1) n
        (elim (wanted i == 0) [ true ↦ s | false ↦ request_word wanted i s ])

  -- `regs->status |= 1 << k`
  abbrev pub add_status : ℕ → Mmio → Mmio
  add_status k r = record r { status = settles r (bit_or 32 r.status (one_bit k)) }

  -- VIRTIO_STAT_FEATURES_OK is bit 3.
  unfoldable pub features_ok : Cmd Negotiation (Result ℕ)
  features_ok s =
      let r = add_status 3 s.regs in
      if bit 3 r.status == 1 then done (ok 0) (record s { regs = r }) else panic

  unfoldable pub virtio_negotiate_features : Featset → Featset → Cmd Negotiation (Result ℕ)
  virtio_negotiate_features wanted needed s =
      let r = check_needed needed 0 featlen s in
      elim r.1 [
        | false ↦ done (err enotsup) r.0
        | true ↦ features_ok (request_wanted wanted 0 featlen r.0)
      ]

abbrev pub update_queue : (VirtQueue → VirtQueue) → Mmio → Mmio
update_queue f r = record r { queues = store r.queues r.queue_sel (f (r.queues r.queue_sel)) }

abbrev pub select_queue : ℕ → Mmio → Mmio
select_queue qid r = record r { queue_sel = qid }

unfoldable pub virtio_attach_virtq : ℕ → ℕ → ℕ → ℕ → ℕ → Mmio → Mmio
virtio_attach_virtq qid len desc_addr used_addr avail_addr r =
    update_queue
      (λ q. record q {
        desc = desc_addr;
        device_ring = used_addr;
        driver_ring = avail_addr;
        num = len;
      })
      (select_queue qid r)

unfoldable pub virtio_enable_virtq : ℕ → Mmio → Mmio
virtio_enable_virtq qid r = update_queue (λ q. record q { queue_ready = 1 }) (select_queue qid r)

unfoldable pub virtio_reset_virtq : ℕ → Mmio → Mmio
virtio_reset_virtq qid r = update_queue (λ q. record q { queue_reset = 1 }) (select_queue qid r)

unfoldable pub virtio_notify_avail : ℕ → Mmio → Mmio
virtio_notify_avail qid r = record r { queue_notify = qid }

-- The driver that `virtio_attach` gives the device to.
pub data Attached : Type 0 where
  no_driver viocons vioblk : Attached

module _ (settles : Mmio → ℕ → ℕ) where
  abbrev pub write_status : ℕ → Mmio → Mmio
  write_status v r = record r { status = settles r v }

  -- `virtio_attach` up to the call of the driver's own function.
  unfoldable pub virtio_attach : Mmio → Mmio × Attached
  virtio_attach r =
      if r.magic_value == 1953655158
      then if r.version == 2
        then if r.device_id == 0
          then (r, no_driver)
          else (let r' = write_status 1 (write_status 0 r) in
              if r'.device_id == 3
              then (r', viocons)
              else if r'.device_id == 2
              then (r', vioblk)
              else (r', no_driver))
        else (r, no_driver)
      else (r, no_driver)
