-- ===== src/Vioblk/Setup.antt =====
-- src/kern/vioblk.c: `vioblk_attach`, which negotiates the features of the device and fills in the
-- structures that the driver and the device share, less the lock, which starts free. The offsets in
-- `struct vioblk_device` are the compiler's, and a parameter, as are the two registrations. The new
-- structure is on the heap of src/kern/ezheap.c.
use illinux.Prelude.{
  ℕ, zero, suc, ◌+◌, ◌-◌, ◌*◌, ◌/◌, ◌%◌, ◌^◌, Option, none, some, List, [], ◌∷◌, ◌==◌,
  if◌then◌else◌,
}
use illinux.Bits.{bit, bit_or, one_bit}
use illinux.Cmd.{Cmd, done, panic, pure, modify, ◌>>=◌, ◌>>◌}
use illinux.Errno.{ok, err}
use illinux.Mem.{store}
use illinux.Heap.{Heap, kmalloc}
use illinux.Virtio.{
  Featset, Mmio, Negotiation, virtio_featset_init, virtio_featset_add, virtio_featset_test,
  virtio_negotiate_features, virtio_attach_virtq, write_status,
}

-- `struct virtq_desc`
pub record Desc : Type 0 where
  pub addr : ℕ
  pub len : ℕ
  pub flags : ℕ
  pub next : ℕ

-- VIRTQ_DESC_F_NEXT, VIRTQ_DESC_F_WRITE and VIRTQ_DESC_F_INDIRECT are bits 0, 1 and 2.
abbrev pub add_flag : ℕ → Desc → Desc
add_flag k d = record d { flags = bit_or 16 d.flags (one_bit k) }

abbrev pub virtio_desc_size : ℕ
virtio_desc_size = 16

-- The offsets in `struct vioblk_device` and its size.
pub record Layout : Type 0 where
  pub desc_at : ℕ
  pub used_at : ℕ
  pub avail_at : ℕ
  pub req_header_at : ℕ
  pub req_status_at : ℕ
  pub sizeof_device : ℕ

-- The members of the new device that `vioblk_attach` sets to something else than 0.
pub record NewDevice : Type 0 where
  pub blksz : ℕ
  pub size : ℕ
  pub blkcnt : ℕ
  pub blkbuf_at : ℕ
  pub desc : ℕ → Desc

unfoldable pub needed_features : Featset → Featset
needed_features fts = virtio_featset_add (virtio_featset_add (virtio_featset_init fts) 40) 28

unfoldable pub wanted_features : Featset → Featset
wanted_features fts = virtio_featset_add (virtio_featset_add (virtio_featset_init fts) 6) 10

abbrev pub empty_desc : Desc
empty_desc = record { addr = 0; len = 0; flags = 0; next = 0 }

-- The four descriptors of a device at the address `dev`.
unfoldable pub fill_descs : Layout → ℕ → ℕ → ℕ → ℕ → Desc
fill_descs o dev blkbuf blksz =
    let d₀ : Desc = add_flag 2 (record empty_desc {
      addr = dev + o.desc_at + virtio_desc_size;
      len = 3 * virtio_desc_size;
    }) in
    let d₁ : Desc = add_flag 0 (record empty_desc { addr = dev + o.req_header_at; len = 16 }) in
    let d₂ : Desc = add_flag 0 (record empty_desc { addr = blkbuf; len = blksz }) in
    let d₃ : Desc = add_flag 1 (record empty_desc { addr = dev + o.req_status_at; len = 1 }) in
    store
      (store (store (store (λ i. empty_desc) 0 d₀) 1 (record d₁ { next = 1 })) 2
        (record d₂ { next = 2 }))
      3 d₃

-- `blk_size` is what the device gives.
unfoldable pub block_size : ℕ → Featset → ℕ
block_size blk_size enabled = if virtio_featset_test enabled 6 == 0 then 512 else blk_size

-- The device at the address `dev`. For blocks of no bytes the code divides by 0: the processor's
-- division gives 2^64 - 1.
unfoldable pub new_device : Layout → ℕ → ℕ → NewDevice
new_device o blksz dev = record {
  blksz = blksz;
  size = o.sizeof_device;
  blkcnt = if blksz == 0 then 2 ^ 64 - 1 else o.sizeof_device / blksz;
  blkbuf_at = dev + o.sizeof_device;
  desc = fill_descs o dev (dev + o.sizeof_device) blksz;
}

module _ (offered : Featset) (settles : Mmio → ℕ → ℕ) where
  abbrev pub set_status : (ℕ → ℕ) → Cmd Negotiation (Unit {0})
  set_status f = modify λ s. record s { regs = write_status settles (f s.regs.status) s.regs }

  abbrev pub assert_block : Cmd Negotiation (Unit {0})
  assert_block s = if s.regs.device_id == 2 then done tt s else panic

  -- The status writes before the negotiation: reset, ACKNOWLEDGE, DRIVER.
  unfoldable pub announce_driver : Cmd Negotiation (Unit {0})
  announce_driver = do
    set_status (λ v. 0)
    set_status (λ v. bit_or 32 v (one_bit 0))
    set_status (λ v. bit_or 32 v (one_bit 1))
    assert_block
    set_status (λ v. bit_or 32 v (one_bit 1))

  -- `new_block` is the page that the heap takes where it needs one.
  module _ (blk_size : ℕ) (new_block : ℕ) (heap : Heap) (o : Layout) where
    -- The rest, once the device has its memory at `at`; `registrations` are those of the routine and of
    -- the device.
    unfoldable pub go_live :
        Cmd Negotiation (Unit {0}) → Heap → ℕ → Cmd Negotiation (Option (Heap × NewDevice))
    go_live registrations heap' at s =
        let dev = new_device o (block_size blk_size s.enabled) at in
        (modify (λ u. record u {
          regs = virtio_attach_virtq 0 1 (at + o.desc_at) (at + o.used_at) (at + o.avail_at) u.regs;
        })
            >> (registrations
                >> (set_status (λ v. bit_or 32 v (one_bit 2)) >> pure (some (heap', dev)))))
          s

    -- The call of `kmalloc` and what follows.
    unfoldable pub make_device :
        Cmd Negotiation (Unit {0}) → Cmd Negotiation (Option (Heap × NewDevice))
    make_device registrations s =
        elim (kmalloc new_block ((o.sizeof_device + block_size blk_size s.enabled) % 2 ^ 64) heap) [
          | none ↦ panic
          | some r ↦ go_live registrations r.0 r.1 s
        ]

    -- None where the negotiation failed. `stack` is what the two sets hold before they are filled.
    unfoldable pub vioblk_attach :
        Featset → Cmd Negotiation (Unit {0}) → Cmd Negotiation (Option (Heap × NewDevice))
    vioblk_attach stack registrations = do
      announce_driver
      result ←
          virtio_negotiate_features offered settles (wanted_features stack) (needed_features stack)
      elim result [ err e ↦ pure none | ok n ↦ make_device registrations ]

-- The addresses that the device finds from the entry `i` of a table on, along the marks NEXT.
unfoldable pub chain : ℕ → (ℕ → Desc) → ℕ → List ℕ
chain zero table i = []
chain (suc fuel) table i =
    let rest = chain fuel table (table i).next in
    (table i).addr ∷ (if bit 0 (table i).flags == 0 then [] else rest)
