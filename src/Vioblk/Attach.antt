-- ===== src/Vioblk/Attach.antt =====
-- src/kern/vioblk.c: what `vioblk_attach` sets up.
use illinux.Prelude.{
  ℕ, zero, suc, ◌+◌, ◌-◌, ◌/◌, ◌%◌, ◌^◌, ◌≤◌, ◌<◌, ◌≡◌, ◌≢◌, refl, sym, ap, ◌∙◌, arith, Bool, false,
  ◌==◌, if◌then◌else◌, min, some, none, [], ◌∷◌,
}
use illinux.Bits.{bit, bit_and, bit_or, one_bit, bit-bit_and, bit-one_bit, bit_bound, bit-zero}
use illinux.Cmd.{Cmd, done, panic, then_done, pure, ◌>>=◌, ◌>>◌}
use illinux.Errno.{ok, err}
use illinux.Heap.{Heap, page_size, kmalloc}
use illinux.Heap.Blocks.{kmalloc_page, kmalloc_large}
use illinux.Virtio.{
  Featset, Mmio, Negotiation, virtio_featset_init, virtio_featset_add, virtio_featset_test,
  virtio_negotiate_features, virtio_attach_virtq, write_status,
}
use illinux.Virtio.Negotiate.{Offers, IsFeatset, Accepts, virtio_negotiate_features_ok}
use illinux.Vioblk.Setup.{
  Layout, NewDevice, needed_features, wanted_features, fill_descs, announce_driver, new_device,
  block_size, go_live, make_device, vioblk_attach, chain, set_status,
}

needed_words :
    (stack : Featset)
    → (needed_features stack 0 ≡ one_bit 28)
      × (needed_features stack 1 ≡ one_bit 8)
      × (needed_features stack 2 ≡ 0)
      × (needed_features stack 3 ≡ 0)
unfolding needed_features virtio_featset_add virtio_featset_init bit_or
needed_words stack = (refl, refl, refl, refl)

wanted_word : (stack : Featset) → wanted_features stack 0 ≡ 1088
unfolding wanted_features virtio_featset_add virtio_featset_init bit_or
wanted_word stack = refl

needed_features-IsFeatset : (stack : Featset) → IsFeatset (needed_features stack)
needed_features-IsFeatset stack zero lt = omega (arith, (needed_words stack).0)
needed_features-IsFeatset stack (suc zero) lt = omega (arith, (needed_words stack).1)
needed_features-IsFeatset stack (suc (suc zero)) lt = omega (arith, (needed_words stack).2)
needed_features-IsFeatset stack (suc (suc (suc zero))) lt = omega (arith, (needed_words stack).3)
needed_features-IsFeatset stack (suc (suc (suc (suc i)))) lt = absurd (omega (arith, lt))

only_bit : (k j word : ℕ) → word ≡ one_bit j → bit k word ≡ 1 → k ≡ j
only_bit k j word e is_set = ground (arith, sym (ap (bit k) e ∙ bit-one_bit k j) ∙ is_set)

no_bits : (k word : ℕ) → word ≡ 0 → bit k word ≢ 1
no_bits k word e is_set = omega (arith, sym (ap (bit k) e ∙ bit-zero k) ∙ is_set)

-- A device that offers the two features, by their numbers 28 and 40.
Offers-needed :
    (offered stack : Featset)
    → virtio_featset_test offered 28 ≡ 1
    → virtio_featset_test offered 40 ≡ 1
    → Offers offered (needed_features stack)
unfolding virtio_featset_test
Offers-needed offered stack has_indirect has_reset zero k li lk is_set =
    ap (λ (j : ℕ). bit j (offered 0))
      (only_bit k 28 (needed_features stack 0) (needed_words stack).0 is_set)
    ∙ has_indirect
Offers-needed offered stack has_indirect has_reset (suc zero) k li lk is_set =
    ap (λ (j : ℕ). bit j (offered 1))
      (only_bit k 8 (needed_features stack 1) (needed_words stack).1 is_set)
    ∙ has_reset
Offers-needed offered stack has_indirect has_reset (suc (suc zero)) k li lk is_set =
    absurd (no_bits k (needed_features stack 2) (needed_words stack).2 is_set)
Offers-needed offered stack has_indirect has_reset (suc (suc (suc zero))) k li lk is_set =
    absurd (no_bits k (needed_features stack 3) (needed_words stack).3 is_set)
Offers-needed offered stack has_indirect has_reset (suc (suc (suc (suc i)))) k li lk is_set =
    absurd (omega (arith, li))

chain_lem :
    (o : Layout) (dev blkbuf blksz : ℕ)
    → chain 3 (λ i. fill_descs o dev blkbuf blksz (suc i)) 0
      ≡ (dev + o.req_header_at) ∷ blkbuf ∷ (dev + o.req_status_at) ∷ []
unfolding chain fill_descs bit bit_or
chain_lem o dev blkbuf blksz = refl

-- A word of features in which some of 6 and 10 are wanted has these alone.
agreed_bit :
    (old offered word wanted k : ℕ)
    → k < 32
    → wanted ≡ 1088
    → word ≡ (if wanted == 0 then old else bit_and 32 offered wanted)
    → bit k word ≡ min (bit k offered) (bit k 1088)
agreed_bit old offered word wanted k lk w e =
    let some_wanted : (wanted == 0) ≡ false = ground (arith, w) in
    ap (bit k) (
      e
      ∙ ap (λ (b : Bool). if b then old else bit_and 32 offered wanted) some_wanted
      ∙ ap (bit_and 32 offered) w)
    ∙ bit-bit_and 32 offered 1088 k lk

at_most_one : (x : ℕ) → x < 2 → min x 1 ≡ x
at_most_one x lt = omega (arith, lt)

module _ (offered : Featset) (settles : Mmio → ℕ → ℕ) where
  announce_driver_lem :
      (s : Negotiation)
      → s.regs.device_id ≡ 2
      → (st : ℕ) × (announce_driver offered settles s
          ≡ done tt (record s { regs = record (s.regs) { status = st } }))
  unfolding announce_driver
  announce_driver_lem s e =
      let r₀ : Mmio = write_status settles 0 s.regs in
      let r₁ : Mmio = write_status settles (bit_or 32 r₀.status 1) r₀ in
      let r₂ : Mmio = write_status settles (bit_or 32 r₁.status 2) r₁ in
      let r₃ : Mmio = write_status settles (bit_or 32 r₂.status 2) r₂ in
      (r₃.status, rw (announce_driver, e) refl)

  module _ (blk_size : ℕ) (new_block : ℕ) (heap : Heap) (o : Layout) where
    go_live_lem :
        (registrations : Cmd Negotiation (Unit {0})) (heap' : Heap) (at : ℕ) (u : Negotiation)
        → ((v : Negotiation) → registrations v ≡ done tt v)
        → (t : Negotiation) × (go_live offered settles blk_size new_block heap o registrations heap'
              at u
            ≡ done (some (heap', new_device o (block_size blk_size u.enabled) at)) t)
          × (t.regs.driver_features ≡ u.regs.driver_features)
    unfolding go_live virtio_attach_virtq
    go_live_lem registrations heap' at u quiet =
        let dev : NewDevice = new_device o (block_size blk_size u.enabled) at in
        let v : Negotiation = record u {
          regs = virtio_attach_virtq 0 1 (at + o.desc_at) (at + o.used_at) (at + o.avail_at) u.regs;
        } in
        (
          record v { regs = write_status settles (bit_or 32 v.regs.status 4) v.regs },
          then_done registrations
              (λ x. set_status offered settles (λ st. bit_or 32 st 4) >> pure (some (heap', dev)))
              (quiet v),
          refl,
        )

    abbrev asked : Featset → ℕ
    asked enabled = (o.sizeof_device + block_size blk_size enabled) % 2 ^ 64

    make_device_lem :
        (registrations : Cmd Negotiation (Unit {0})) (heap' : Heap) (at : ℕ) (u : Negotiation)
        → kmalloc new_block (asked u.enabled) heap ≡ some (heap', at)
        → make_device offered settles blk_size new_block heap o registrations u
          ≡ go_live offered settles blk_size new_block heap o registrations heap' at u
    unfolding make_device
    make_device_lem registrations heap' at u e = rw (make_device, e) refl

    make_device_panic :
        (registrations : Cmd Negotiation (Unit {0})) (u : Negotiation)
        → kmalloc new_block (asked u.enabled) heap ≡ none
        → make_device offered settles blk_size new_block heap o registrations u ≡ panic
    unfolding make_device
    make_device_panic registrations u e = rw (make_device, e) refl

    -- Up to the call of `kmalloc`.
    attach_makes :
        (stack : Featset) (registrations : Cmd Negotiation (Unit {0})) (s : Negotiation)
        → s.regs.device_id ≡ 2
        → virtio_featset_test offered 28 ≡ 1
        → virtio_featset_test offered 40 ≡ 1
        → Accepts settles
        → (u : Negotiation) × (vioblk_attach offered settles blk_size new_block heap o stack
              registrations s
            ≡ make_device offered settles blk_size new_block heap o registrations u)
          × (block_size blk_size u.enabled ≡ block_size blk_size offered)
          × (virtio_featset_test u.regs.driver_features 28 ≡ 0)
    unfolding vioblk_attach virtio_featset_test block_size bit bit_or
    attach_makes stack registrations s id has_indirect has_reset accepts =
        let (st, announced) = announce_driver_lem s id in
        let s' : Negotiation = record s { regs = record (s.regs) { status = st } } in
        let (u, e, kept, words) =
          virtio_negotiate_features_ok offered settles (wanted_features stack)
            (needed_features stack) s' (needed_features-IsFeatset stack)
            (Offers-needed offered stack has_indirect has_reset) accepts in
        let w : wanted_features stack 0 ≡ 1088 = wanted_word stack in
        let size_bit : virtio_featset_test u.enabled 6 ≡ virtio_featset_test offered 6 =
          agreed_bit (s.enabled 0) (offered 0) (u.enabled 0) (wanted_features stack 0) 6
            (omega arith) w (words 0 (omega arith)).0
          ∙ at_most_one (bit 6 (offered 0)) (bit_bound 6 (offered 0)) in
        let make = make_device offered settles blk_size new_block heap o registrations in
        (
          u,
          then_done (announce_driver offered settles)
                (λ x.
                  virtio_negotiate_features offered settles (wanted_features stack)
                    (needed_features stack)
                  >>= λ result. elim result [ err er ↦ pure none | ok n ↦ make ])
                announced
              ∙ then_done
                  (virtio_negotiate_features offered settles (wanted_features stack)
                    (needed_features stack))
                  (λ result. elim result [ err er ↦ pure none | ok n ↦ make ]) e,
          ap (λ (x : ℕ). if x == 0 then 512 else blk_size) size_bit,
          agreed_bit (s.regs.driver_features 0) (offered 0) (u.regs.driver_features 0)
                (wanted_features stack 0) 28 (omega arith) w (words 0 (omega arith)).1
              ∙ omega arith,
        )

    block_size_bound : (fts : Featset) → blk_size < 2 ^ 32 → block_size blk_size fts < 2 ^ 32
    unfolding block_size
    block_size_bound fts lt = ground (arith, lt)

    block_size_some : (fts : Featset) → 0 < blk_size → (block_size blk_size fts == 0) ≡ false
    unfolding block_size
    block_size_some fts lt = ground (arith, lt)

    -- Let the device offer the two features 28 and 40 that the driver needs and keep FEATURES_OK, let its
    -- blocks not be empty where it gives their size, a number of 32 bits, and let the two registrations
    -- return and leave its registers alone. The block size is the one that the device gives where it
    -- offers feature 6, and else 512. Where the driver's structure and a block together are more than a
    -- page of 4096 bytes, `vioblk_attach` panics in `kmalloc`. Else it makes a new device of this block
    -- size in the memory that `kmalloc` gives, with the block buffer behind the structure; the table
    -- of the request, followed along the marks NEXT from its first entry, is the header, the block buffer
    -- and the status byte; its size is that of the driver's own structure, and its number of blocks is
    -- that divided by the block size. The first descriptor is marked INDIRECT although the device was not
    -- told that the driver uses feature 28, which allows this.
    pub vioblk_attach_ok :
        (stack : Featset) (registrations : Cmd Negotiation (Unit {0})) (s : Negotiation)
        → s.regs.device_id ≡ 2
        → virtio_featset_test offered 28 ≡ 1
        → virtio_featset_test offered 40 ≡ 1
        → Accepts settles
        → ((u : Negotiation) → registrations u ≡ done tt u)
        → 0 < blk_size
        → blk_size < 2 ^ 32
        → o.sizeof_device < 2 ^ 32
        → let blksz = block_size blk_size offered in
          (page_size < o.sizeof_device + blksz
            → vioblk_attach offered settles blk_size new_block heap o stack registrations s ≡ panic)
          × (o.sizeof_device + blksz ≤ page_size
              → (heap' : Heap) × (at : ℕ) × (dev : NewDevice) × (t : Negotiation) × (kmalloc
                    new_block
                    (o.sizeof_device + blksz)
                    heap
                  ≡ some (heap', at))
                × (vioblk_attach offered settles blk_size new_block heap o stack registrations s
                    ≡ done (some (heap', dev)) t)
                × (dev.blksz ≡ blksz)
                × (dev.blkbuf_at ≡ at + o.sizeof_device)
                × (chain 3 (λ i. dev.desc (suc i)) 0
                    ≡ (at + o.req_header_at) ∷ dev.blkbuf_at ∷ (at + o.req_status_at) ∷ [])
                × (dev.size ≡ o.sizeof_device)
                × (dev.blkcnt ≡ o.sizeof_device / blksz)
                × (bit 2 (dev.desc 0).flags ≡ 1)
                × (virtio_featset_test t.regs.driver_features 28 ≡ 0))
    unfolding virtio_featset_test new_device chain fill_descs bit bit_or
    vioblk_attach_ok stack registrations s id has_indirect has_reset accepts quiet some_bytes small
          small_o =
        let (u, run, same_size, untold) =
          attach_makes stack registrations s id has_indirect has_reset accepts in
        let blksz = block_size blk_size offered in
        let bound = block_size_bound offered small in
        let request : asked u.enabled ≡ o.sizeof_device + blksz =
          ap (λ (x : ℕ). (o.sizeof_device + x) % 2 ^ 64) same_size
          ∙ omega (arith, bound, small_o) in
        (
          λ large.
              let no_block =
                ap (λ (x : ℕ). kmalloc new_block x heap) request
                ∙ kmalloc_large new_block (o.sizeof_device + blksz) heap large
                    (omega (arith, bound, small_o)) in
              run ∙ make_device_panic registrations u no_block,
          λ fits.
              let ((heap', at), got) = kmalloc_page new_block (o.sizeof_device + blksz) heap fits in
              let (t, live, same) = go_live_lem registrations heap' at u quiet in
              let made =
                make_device_lem registrations heap' at u
                  (ap (λ (x : ℕ). kmalloc new_block x heap) request ∙ got) in
              (
                heap',
                at,
                new_device o (block_size blk_size u.enabled) at,
                t,
                got,
                run ∙ made ∙ live,
                same_size,
                refl,
                refl,
                refl,
                ap (λ (x : ℕ). if x == 0 then 2 ^ 64 - 1 else o.sizeof_device / x) same_size
                    ∙ rw (block_size_some offered some_bytes) refl,
                refl,
                ap (λ (f : ℕ → ℕ). bit 28 (f 0)) same ∙ untold,
              ),
        )
