-- ===== src/Tests/Virtio.antt =====
-- src/kern/virtio.c and vioblk.c at a device that offers every feature.
use illinux.Prelude.{ℕ, suc, ◌+◌, ◌/◌, ◌≤◌, ◌<◌, ◌≡◌, refl, sym, ap, ◌∙◌, some, [], ◌∷◌, arith}
use illinux.Bits.{bit, bit-one_bit}
use illinux.Cmd.{Cmd, done, panic, modify}
use illinux.Errno.{ok}
use illinux.Virtio.{Featset, Mmio, Negotiation, virtio_featset_test, virtio_negotiate_features}
use illinux.Virtio.Negotiate.{Accepts, agreed, virtio_negotiate_features_ok}
use illinux.Heap.{Heap, page_size, kmalloc}
use illinux.Vioblk.Setup.{Layout, NewDevice, block_size, vioblk_attach, chain}
use illinux.Vioblk.Attach.{vioblk_attach_ok}

-- Features 0 to 31 of each word, and a status register that keeps what is written.
abbrev all_offered : Featset
all_offered i = 4294967295

abbrev keeps : Mmio → ℕ → ℕ
keeps r v = v

keeps-Accepts : Accepts keeps
keeps-Accepts r v e = e

abbrev block_device : Negotiation
block_device = record {
  regs = record {
    magic_value = 1953655158;
    version = 2;
    device_id = 2;
    device_features_sel = 0;
    driver_features_sel = 0;
    driver_features = λ i. 0;
    queue_sel = 0;
    queues = λ q. record {
      desc = 0;
      driver_ring = 0;
      device_ring = 0;
      num = 0;
      queue_ready = 0;
      queue_reset = 0;
    };
    queue_notify = 0;
    status = 0;
  };
  enabled = λ i. 0;
}

abbrev lowest : Featset
lowest i = 1

lowest_bit : (k : ℕ) → bit k 1 ≡ 1 → k ≡ 0
lowest_bit k e = ground (arith, sym (bit-one_bit k 0) ∙ e)

virtio_negotiate_features_ok_example :
    (t : Negotiation) × (virtio_negotiate_features all_offered keeps (λ i. 65) lowest block_device
      ≡ done (ok 0) t)
    × (bit 3 t.regs.status ≡ 1)
    × ((j : ℕ)
        → j < 4
        → (t.enabled j ≡ agreed all_offered keeps (λ i. 65) j 0)
          × (t.regs.driver_features j ≡ agreed all_offered keeps (λ i. 65) j 0))
unfolding bit
virtio_negotiate_features_ok_example =
    virtio_negotiate_features_ok all_offered keeps (λ i. 65) lowest block_device
      (λ i lt. omega arith) (λ i k li lk e. ap (λ (j : ℕ). bit j 4294967295) (lowest_bit k e))
      keeps-Accepts

abbrev packed : Layout
packed = record {
  desc_at = 100;
  used_at = 60;
  avail_at = 50;
  req_header_at = 164;
  req_status_at = 180;
  sizeof_device = 200;
}

abbrev heap : Heap
heap = record { heap_start = 8192; heap_end = 12288 }

abbrev registers : Cmd Negotiation (Unit {0})
registers = modify λ s. s

vioblk_attach_ok_example :
    let attach =
      vioblk_attach all_offered keeps 1024 16384 heap packed lowest registers block_device in
    (page_size < 200 + block_size 1024 all_offered → attach ≡ panic)
    × (200 + block_size 1024 all_offered ≤ page_size
        → (heap' : Heap) × (at : ℕ) × (dev : NewDevice) × (t : Negotiation) × (kmalloc 16384
              (200 + block_size 1024 all_offered)
              heap
            ≡ some (heap', at))
          × (attach ≡ done (some (heap', dev)) t)
          × (dev.blksz ≡ block_size 1024 all_offered)
          × (dev.blkbuf_at ≡ at + 200)
          × (chain 3 (λ i. dev.desc (suc i)) 0 ≡ (at + 164) ∷ dev.blkbuf_at ∷ (at + 180) ∷ [])
          × (dev.size ≡ 200)
          × (dev.blkcnt ≡ 200 / block_size 1024 all_offered)
          × (bit 2 (dev.desc 0).flags ≡ 1)
          × (virtio_featset_test t.regs.driver_features 28 ≡ 0))
unfolding virtio_featset_test bit
vioblk_attach_ok_example =
    vioblk_attach_ok all_offered keeps 1024 16384 heap packed lowest registers block_device refl
      refl refl keeps-Accepts (λ u. refl) (omega arith) (omega arith) (omega arith)

block_size_1024 : block_size 1024 all_offered ≡ 1024
unfolding block_size virtio_featset_test bit
block_size_1024 = refl
