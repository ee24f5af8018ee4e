-- ===== src/Vioblk/Reads.antt =====
-- src/kern/vioblk.c: what `vioblk_read` gives.
use illinux.Prelude.{
  ℕ, zero, suc, ◌+◌, ◌-◌, ◌*◌, ◌/◌, ◌%◌, ◌^◌, ◌≤◌, ◌<◌, ◌≡◌, refl, ap, ◌∙◌, true, false, not, ◌||◌,
  ltb, ◌==◌, if◌then◌else◌, arith, inl, inr, Bool-cases,
}
use illinux.Cmd.{Cmd, done, blocked, pure, then_done, ◌>>=◌, ◌>>◌}
use illinux.Errno.{eio, enotsup, Result, ok, err}
use illinux.Mem.{Mem, memcpy, memcpy_lem, within}
use illinux.Vioblk.{
  t_in, Request, Answer, Vioblk, unsigned_sub, operation_single_blk, read_copy, read_blocks,
  vioblk_read, vio_lock_release, vio_lock_acquire, read_locked, assert,
}

-- A device that reads sectors of 512 bytes: it answers a read of one whose buffer it may write with the
-- bytes of the sector and leaves the disk as it is.
pub record IsReadable (D : Type 0) (serve : Request → D → Mem → Answer D) (bytes : D → Mem)
    : Type 0 where
  pub served :
      (r : Request) (d : D) (m : Mem)
      → r.type ≡ t_in
      → r.len ≡ 512
      → r.writable ≡ true
      → let answer = serve r d m in
        (answer.status ≡ 0)
        × (answer.disk ≡ d)
        × ((i : ℕ) → i < 512 → answer.buffer i ≡ bytes d (r.sector * 512 + i))

module _ {D : Type 0} (serve : Request → D → Mem → Answer D) (bytes : D → Mem) where
  -- What a read of `m` sectors into a buffer has done.
  pub record IsRead (dev : Vioblk D) (buf : Mem) (at m : ℕ) (dev' : Vioblk D) (buf' : Mem)
      : Type 0 where
    pub inside : (i : ℕ) → i < m * 512 → buf' (at + i) ≡ bytes dev.disk (dev.bufblkno * 512 + i)
    pub outside : (j : ℕ) → within at (m * 512) j ≡ false → buf' j ≡ buf j
    pub disk : dev'.disk ≡ dev.disk
    pub pos : dev'.pos ≡ (dev.pos + m * 512) % 2 ^ 64
    pub opened : dev'.opened ≡ dev.opened

  abbrev read_request : Vioblk D → Request
  read_request dev = record {
    type = t_in;
    sector = dev.bufblkno % 2 ^ 32;
    len = dev.blksz;
    writable = dev.data_writable || true;
  }

  -- The device after one transfer.
  abbrev transferred : Vioblk D → Vioblk D
  transferred dev =
      let answer = serve (read_request dev) dev.disk dev.blkbuf in
      record dev {
        data_writable = dev.data_writable || true;
        avail_idx = (dev.avail_idx + 1) % 2 ^ 16;
        disk = answer.disk;
        blkbuf = answer.buffer;
      }

  operation_ok :
      IsReadable D serve bytes
      → (dev : Vioblk D) → dev.blksz ≡ 512
      → operation_single_blk serve dev.bufblkno t_in dev ≡ done (ok dev.blksz) (transferred dev)
  unfolding operation_single_blk
  operation_ok law dev size =
      let marked : (dev.data_writable || true) ≡ true = ground arith in
      let good = law.served (read_request dev) dev.disk dev.blkbuf refl size marked in
      let is_ok : ((serve (read_request dev) dev.disk dev.blkbuf).status == 0) ≡ true =
        ground (arith, good.0) in
      ap (λ b. done (if b then ok dev.blksz else err eio) (transferred dev)) is_ok

  -- One round of the loop.
  abbrev after_round : Vioblk D → Vioblk D
  after_round dev = record (transferred dev) {
    bufblkno = dev.bufblkno + 1;
    pos = (dev.pos + dev.blksz) % 2 ^ 64;
  }

  abbrev copied : Vioblk D → Mem → ℕ → Mem
  copied dev buf at = memcpy buf at (transferred dev).blkbuf 0 dev.blksz

  read_blocks_step :
      IsReadable D serve bytes
      → (fuel : ℕ) (buf : Mem) (at left : ℕ) (dev : Vioblk D) → dev.blksz ≡ 512
      → read_blocks serve (suc fuel) buf at (suc left) dev
        ≡ read_blocks serve fuel
            (copied dev buf at)
            (at + dev.blksz)
            (unsigned_sub (suc left) dev.blksz)
            (after_round dev)
  unfolding read_blocks read_copy
  read_blocks_step law fuel buf at left dev size =
      then_done (operation_single_blk serve dev.bufblkno t_in)
        (λ (result : Result ℕ). elim result [
          | err e ↦ pure (buf, err eio)
          | ok n ↦ read_copy serve buf at >>= λ next.
              read_blocks serve fuel next (at + n) (unsigned_sub (suc left) n)
        ])
        (operation_ok law dev size)

  copied_inside :
      (dev : Vioblk D) (buf : Mem) (at i : ℕ)
      → i < dev.blksz
      → copied dev buf at (at + i) ≡ (transferred dev).blkbuf i
  copied_inside dev buf at i lt =
      let m = (transferred dev).blkbuf in
      let hit : within at dev.blksz (at + i) ≡ true = ground (arith, lt) in
      memcpy_lem buf at m 0 dev.blksz (at + i) ∙ rw hit (ap m (omega arith))

  copied_outside :
      (dev : Vioblk D) (buf : Mem) (at j : ℕ)
      → within at dev.blksz j ≡ false
      → copied dev buf at j ≡ buf j
  copied_outside dev buf at j out =
      memcpy_lem buf at (transferred dev).blkbuf 0 dev.blksz j ∙ rw out refl

  read_blocks_end :
      (fuel : ℕ) (buf : Mem) (at : ℕ) (dev : Vioblk D)
      → read_blocks serve (suc fuel) buf at 0 dev ≡ done (buf, ok at) dev
  unfolding read_blocks
  read_blocks_end fuel buf at dev = refl

  -- With more fuel than sectors, the loop reads them all.
  pub read_blocks_lem :
      IsReadable D serve bytes
      → (m fuel : ℕ) (buf : Mem) (at : ℕ) (dev : Vioblk D) → dev.blksz ≡ 512
      → m < fuel
      → dev.bufblkno + m ≤ 2 ^ 32
      → m * 512 < 2 ^ 64
      → dev.pos < 2 ^ 64
      → (dev' : Vioblk D) × (buf' : Mem) × (read_blocks serve fuel buf at (m * 512) dev
          ≡ done (buf', ok (at + m * 512)) dev')
        × IsRead dev buf at m dev' buf'
  read_blocks_lem law m zero buf at dev size lt small fits in64 = absurd (omega (arith, lt))
  read_blocks_lem law zero (suc fuel) buf at dev size lt small fits in64 = (
    dev,
    buf,
    read_blocks_end fuel buf at dev ∙ ap (λ n. done (buf, ok n) dev) (omega arith),
    record {
      inside = λ i h. absurd (omega (arith, h));
      outside = λ j h. refl;
      disk = refl;
      pos = omega (arith, in64);
      opened = refl;
    },
  )
  read_blocks_lem law (suc m) (suc fuel) buf at dev size lt small fits in64 =
      let dev1 = after_round dev in
      let buf1 = copied dev buf at in
      let marked : (dev.data_writable || true) ≡ true = ground arith in
      let (good, same, content) =
        law.served (read_request dev) dev.disk dev.blkbuf refl size marked in
      let (dev', buf', run, did) =
        read_blocks_lem law m fuel buf1 (at + dev.blksz) dev1 size (omega (arith, lt))
          (omega (arith, small)) (omega (arith, fits)) (omega arith) in
      (
        dev',
        buf',
        ap (λ n. read_blocks serve (suc fuel) buf at n dev) (omega arith)
            ∙ read_blocks_step law fuel buf at (m * 512 + 511) dev size
            ∙ ap (λ n. read_blocks serve fuel buf1 (at + dev.blksz) n dev1)
                (omega (arith, size, fits))
            ∙ run
            ∙ ap (λ n. done (buf', ok n) dev') (omega (arith, size)),
        record {
          inside = λ i h. elim (Bool-cases (ltb i 512)) [
            | inl e ↦
                let first : i < 512 = ground (arith, e) in
                let sector : dev.bufblkno % 2 ^ 32 ≡ dev.bufblkno = omega (arith, small) in
                did.outside (at + i) (ground (arith, size, first))
                ∙ copied_inside dev buf at i (omega (arith, size, first))
                ∙ content i first
                ∙ ap (λ b. bytes dev.disk (b * 512 + i)) sector
            | inr e ↦
                let later : 512 ≤ i = ground (arith, e) in
                ap buf' (omega (arith, size, later))
                ∙ did.inside (i - 512) (omega (arith, h, later))
                ∙ ap (λ d. bytes d ((dev.bufblkno + 1) * 512 + (i - 512))) same
                ∙ ap (bytes dev.disk) (omega (arith, later))
          ];
          outside = λ j h.
              did.outside j (ground (arith, size, h))
              ∙ copied_outside dev buf at j (ground (arith, size, h));
          disk = did.disk ∙ same;
          pos = did.pos ∙ omega (arith, size);
          opened = did.opened;
        },
      )

  -- The device where `vioblk_read` starts its loop.
  abbrev started : Vioblk D → Vioblk D
  started dev = record dev { bufblkno = dev.pos / dev.blksz; vio_lock = true }

  abbrev read_tests : ℕ → Mem → ℕ → ℕ → Cmd (Vioblk D) (Mem × Result ℕ)
  read_tests fuel buf bufsz blksz =
      if bufsz == 0
      then pure (buf, ok 0)
      else if not (bufsz % blksz == 0)
      then pure (buf, err enotsup)
      else read_locked serve fuel buf bufsz

  vioblk_read_runs :
      (fuel : ℕ) (buf : Mem) (bufsz : ℕ) (r : Mem × Result ℕ) (dev dev' : Vioblk D)
      → dev.opened ≡ true
      → (bufsz == 0) ≡ false
      → (bufsz % dev.blksz == 0) ≡ true
      → dev.vio_lock ≡ false
      → read_blocks serve fuel buf 0 bufsz (started dev) ≡ done r dev'
      → vioblk_read serve fuel buf bufsz dev ≡ done r (record dev' { vio_lock = false })
  unfolding vioblk_read
  vioblk_read_runs fuel buf bufsz r dev dev' op nonzero whole free run =
      let dev0 : Vioblk D = record dev { bufblkno = dev.pos / dev.blksz } in
      let is_open : assert serve dev0.opened dev0 ≡ done tt dev0 =
        ap (λ b. assert serve b dev0) op in
      let locked : vio_lock_acquire serve dev0 ≡ done tt (started dev) =
        ap (λ b. if b then blocked else done tt (started dev)) free in
      then_done (assert serve dev0.opened) (λ _. read_tests fuel buf bufsz dev.blksz) {s = dev0}
        is_open
      ∙ rw (read_tests, nonzero, whole)
          (then_done (vio_lock_acquire serve)
              (λ _. read_blocks serve fuel buf 0 bufsz >>= λ x. vio_lock_release serve >> pure x)
              {s = dev0} locked
            ∙ then_done (read_blocks serve fuel buf 0 bufsz) (λ x. vio_lock_release serve >> pure x)
                {s = started dev} run)

  -- Let the blocks of the device have 512 bytes, which is the size of a sector. A read of `m` sectors, at least
  -- one, with more fuel than sectors, all of them below sector 2^32, and a position and a length below
  -- 2^64, from an open device whose lock is free returns their length and fills the buffer with the bytes of the disk from the sector of the position on, wherever
  -- in the sector that is; it moves the position by the length and leaves the disk as it is and the lock free.
  pub vioblk_read_lem :
      IsReadable D serve bytes
      → (m fuel : ℕ) (buf : Mem) (dev : Vioblk D) → dev.blksz ≡ 512
      → dev.opened ≡ true
      → dev.vio_lock ≡ false
      → 0 < m
      → m < fuel
      → dev.pos / 512 + m ≤ 2 ^ 32
      → m * 512 < 2 ^ 64
      → dev.pos < 2 ^ 64
      → (dev' : Vioblk D) × (buf' : Mem) × (vioblk_read serve fuel buf (m * 512) dev
          ≡ done (buf', ok (m * 512)) dev')
        × ((i : ℕ) → i < m * 512 → buf' i ≡ bytes dev.disk (dev.pos / 512 * 512 + i))
        × (dev'.pos ≡ (dev.pos + m * 512) % 2 ^ 64)
        × (dev'.disk ≡ dev.disk)
        × (dev'.vio_lock ≡ false)
  vioblk_read_lem law m fuel buf dev size op free some_left lt small fits in64 =
      let sector : dev.pos / dev.blksz ≡ dev.pos / 512 = ap (λ z. dev.pos / z) size in
      let (dev', buf', run, did) =
        read_blocks_lem law m fuel buf 0 (started dev) size lt (omega (arith, sector, small)) fits
          in64 in
      let nonzero : (m * 512 == 0) ≡ false = ground (arith, some_left) in
      let aligned : m * 512 % 512 ≡ 0 = omega arith in
      let whole : (m * 512 % dev.blksz == 0) ≡ true =
        ap (λ z. m * 512 % z == 0) size ∙ ap (λ z. z == 0) aligned in
      (
        record dev' { vio_lock = false },
        buf',
        vioblk_read_runs fuel buf (m * 512) (buf', ok (0 + m * 512)) dev dev' op nonzero whole free
              run
            ∙ ap (λ n. done (buf', ok n) (record dev' { vio_lock = false })) (omega arith),
        λ i h.
            ap buf' (omega arith) ∙ did.inside i h ∙ ap (λ b. bytes dev.disk (b * 512 + i)) sector,
        did.pos,
        did.disk,
        refl,
      )
