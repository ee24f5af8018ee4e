-- ===== src/Vioblk/Writes.antt =====
-- src/kern/vioblk.c: what `vioblk_write` does to the disk.
use illinux.Prelude.{
  ℕ, zero, suc, ◌+◌, ◌-◌, ◌*◌, ◌/◌, ◌%◌, ◌^◌, ◌≤◌, ◌<◌, ◌≡◌, refl, sym, ap, ◌∙◌, true, false, ◌||◌,
  Bool, ltb, ◌==◌, if◌then◌else◌, arith, inl, inr, Bool-cases,
}
use illinux.Cmd.{Cmd, done, blocked, pure, modify, then_done, ◌>>=◌, ◌>>◌}
use illinux.Errno.{eio, Result, ok, err}
use illinux.Mem.{Mem, memcpy, memcpy_lem, within}
use illinux.Vioblk.{
  t_out, Request, Answer, Vioblk, unsigned_sub, operation_single_blk, write_copy, write_blocks,
  vioblk_write, vio_lock_release, vio_lock_acquire, assert,
}

-- A device that writes sectors of 512 bytes: it answers a write of one whose buffer it may not write by storing the
-- buffer in the sector and leaving the others as they are.
pub record IsWritable (D : Type 0) (serve : Request → D → Mem → Answer D) (bytes : D → Mem)
    : Type 0 where
  pub served :
      (r : Request) (d : D) (m : Mem)
      → r.type ≡ t_out
      → r.len ≡ 512
      → r.writable ≡ false
      → let answer = serve r d m in
        (answer.status ≡ 0)
        × ((i : ℕ) → i < 512 → bytes answer.disk (r.sector * 512 + i) ≡ m i)
        × ((j : ℕ) → within (r.sector * 512) 512 j ≡ false → bytes answer.disk j ≡ bytes d j)

module _ {D : Type 0} (serve : Request → D → Mem → Answer D) (bytes : D → Mem) where
  -- What a write of `m` sectors from a buffer has done.
  pub record IsWritten (dev : Vioblk D) (buf : Mem) (at sector m : ℕ) (dev' : Vioblk D)
      : Type 0 where
    pub inside : (i : ℕ) → i < m * 512 → bytes dev'.disk (sector * 512 + i) ≡ buf (at + i)
    pub outside :
        (j : ℕ) → within (sector * 512) (m * 512) j ≡ false → bytes dev'.disk j ≡ bytes dev.disk j
    pub pos : dev'.pos ≡ (dev.pos + m * 512) % 2 ^ 64
    pub opened : dev'.opened ≡ dev.opened

  abbrev write_request : Vioblk D → ℕ → Request
  write_request dev sector = record {
    type = t_out;
    sector = sector % 2 ^ 32;
    len = dev.blksz;
    writable = dev.data_writable || false;
  }

  abbrev filled : Vioblk D → Mem → ℕ → Vioblk D
  filled dev buf at = record dev { blkbuf = memcpy dev.blkbuf 0 buf at dev.blksz }

  -- The device after one transfer.
  abbrev stored : Vioblk D → ℕ → Vioblk D
  stored dev sector =
      let answer = serve (write_request dev sector) dev.disk dev.blkbuf in
      record dev {
        data_writable = dev.data_writable || false;
        avail_idx = (dev.avail_idx + 1) % 2 ^ 16;
        disk = answer.disk;
        blkbuf = answer.buffer;
      }

  operation_stores :
      IsWritable D serve bytes
      → (dev : Vioblk D) (sector : ℕ) → dev.blksz ≡ 512
      → dev.data_writable ≡ false
      → operation_single_blk serve sector t_out dev ≡ done (ok dev.blksz) (stored dev sector)
  unfolding operation_single_blk
  operation_stores law dev sector size unmarked =
      let clear : (dev.data_writable || false) ≡ false = ground (arith, unmarked) in
      let good = law.served (write_request dev sector) dev.disk dev.blkbuf refl size clear in
      let is_ok : ((serve (write_request dev sector) dev.disk dev.blkbuf).status == 0) ≡ true =
        ground (arith, good.0) in
      ap (λ b. done (if b then ok dev.blksz else err eio) (stored dev sector)) is_ok

  -- One round of the loop.
  abbrev after_write : Vioblk D → Mem → ℕ → ℕ → Vioblk D
  after_write dev buf at sector = record (stored (filled dev buf at) sector) {
    pos = (dev.pos + dev.blksz) % 2 ^ 64;
  }

  write_blocks_step :
      IsWritable D serve bytes
      → (fuel : ℕ) (buf : Mem) (at sector left : ℕ) (dev : Vioblk D) → dev.blksz ≡ 512
      → dev.data_writable ≡ false
      → write_blocks serve (suc fuel) buf at sector (suc left) dev
        ≡ write_blocks serve fuel buf
            (at + dev.blksz)
            (sector + 1)
            (unsigned_sub (suc left) dev.blksz)
            (after_write dev buf at sector)
  unfolding write_blocks write_copy
  write_blocks_step law fuel buf at sector left dev size unmarked =
      then_done (operation_single_blk serve sector t_out)
        (λ (result : Result ℕ). elim result [
          | err e ↦ pure (err eio)
          | ok r ↦
              modify (λ (s : Vioblk D). record s { pos = (s.pos + r) % 2 ^ 64 })
              >> write_blocks serve fuel buf (at + r) (sector + 1) (unsigned_sub (suc left) r)
        ])
        (operation_stores law (filled dev buf at) sector size unmarked)

  filled_lem :
      (dev : Vioblk D) (buf : Mem) (at i : ℕ)
      → i < dev.blksz
      → (filled dev buf at).blkbuf i ≡ buf (at + i)
  filled_lem dev buf at i lt =
      let hit : within 0 dev.blksz i ≡ true = ground (arith, lt) in
      memcpy_lem dev.blkbuf 0 buf at dev.blksz i ∙ rw hit (ap buf (omega arith))

  write_blocks_end :
      (fuel : ℕ) (buf : Mem) (at sector : ℕ) (dev : Vioblk D)
      → write_blocks serve (suc fuel) buf at sector 0 dev ≡ done (ok at) dev
  unfolding write_blocks
  write_blocks_end fuel buf at sector dev = refl

  -- With more fuel than sectors, the loop writes them all.
  write_blocks_lem :
      IsWritable D serve bytes
      → (m fuel : ℕ) (buf : Mem) (at sector : ℕ) (dev : Vioblk D) → dev.blksz ≡ 512
      → dev.data_writable ≡ false
      → m < fuel
      → sector + m ≤ 2 ^ 32
      → m * 512 < 2 ^ 64
      → dev.pos < 2 ^ 64
      → (dev' : Vioblk D) × (write_blocks serve fuel buf at sector (m * 512) dev
          ≡ done (ok (at + m * 512)) dev')
        × IsWritten dev buf at sector m dev'
  write_blocks_lem law m zero buf at sector dev size unmarked lt small fits in64 =
      absurd (omega (arith, lt))
  write_blocks_lem law zero (suc fuel) buf at sector dev size unmarked lt small fits in64 = (
    dev,
    write_blocks_end fuel buf at sector dev ∙ ap (λ n. done (ok n) dev) (omega arith),
    record {
      inside = λ i h. absurd (omega (arith, h));
      outside = λ j h. refl;
      pos = omega (arith, in64);
      opened = refl;
    },
  )
  write_blocks_lem law (suc m) (suc fuel) buf at sector dev size unmarked lt small fits in64 =
      let dev1 = after_write dev buf at sector in
      let clear : (dev.data_writable || false) ≡ false = ground (arith, unmarked) in
      let fill = filled dev buf at in
      let (good, new, others) =
        law.served (write_request fill sector) fill.disk fill.blkbuf refl size clear in
      let (dev', run, did) =
        write_blocks_lem law m fuel buf (at + dev.blksz) (sector + 1) dev1 size clear
          (omega (arith, lt)) (omega (arith, small)) (omega (arith, fits)) (omega arith) in
      let same : sector % 2 ^ 32 ≡ sector = omega (arith, small) in
      (
        dev',
        ap (λ n. write_blocks serve (suc fuel) buf at sector n dev) (omega arith)
            ∙ write_blocks_step law fuel buf at sector (m * 512 + 511) dev size unmarked
            ∙ ap (λ n. write_blocks serve fuel buf (at + dev.blksz) (sector + 1) n dev1)
                (omega (arith, size, fits))
            ∙ run
            ∙ ap (λ n. done (ok n) dev') (omega (arith, size)),
        record {
          inside = λ i h. elim (Bool-cases (ltb i 512)) [
            | inl e ↦
                let first : i < 512 = ground (arith, e) in
                did.outside (sector * 512 + i) (ground (arith, first))
                ∙ ap (λ s. bytes dev1.disk (s * 512 + i)) (sym same)
                ∙ new i first
                ∙ filled_lem dev buf at i (omega (arith, size, first))
            | inr e ↦
                let later : 512 ≤ i = ground (arith, e) in
                ap (bytes dev'.disk) (omega (arith, later))
                ∙ did.inside (i - 512) (omega (arith, h, later))
                ∙ ap buf (omega (arith, size, later))
          ];
          outside = λ j h. did.outside j (ground (arith, h)) ∙ others j (ground (arith, h, same));
          pos = did.pos ∙ omega (arith, size);
          opened = did.opened;
        },
      )

  abbrev write_tests : ℕ → Mem → ℕ → Bool → Cmd (Vioblk D) (Result ℕ)
  write_tests fuel buf n readonly =
      if readonly
      then pure (err eio)
      else if n == 0
      then pure (ok 0)
      else (vio_lock_acquire serve
          >> (write_blocks serve fuel buf 0 0 n >>= λ r. vio_lock_release serve >> pure r))

  abbrev write_started : Vioblk D → Vioblk D
  write_started dev = record dev { bufblkno = dev.pos / dev.blksz; vio_lock = true }

  vioblk_write_runs :
      (fuel : ℕ) (buf : Mem) (n : ℕ) (r : Result ℕ) (dev dev' : Vioblk D)
      → dev.opened ≡ true
      → dev.readonly ≡ false
      → (n == 0) ≡ false
      → dev.vio_lock ≡ false
      → write_blocks serve fuel buf 0 0 n (write_started dev) ≡ done r dev'
      → vioblk_write serve fuel buf n dev ≡ done r (record dev' { vio_lock = false })
  unfolding vioblk_write
  vioblk_write_runs fuel buf n r dev dev' op rw_able nonzero free run =
      let dev0 : Vioblk D = record dev { bufblkno = dev.pos / dev.blksz } in
      let is_open : assert serve dev0.opened dev0 ≡ done tt dev0 =
        ap (λ b. assert serve b dev0) op in
      let locked : vio_lock_acquire serve dev0 ≡ done tt (write_started dev) =
        ap (λ b. if b then blocked else done tt (write_started dev)) free in
      then_done (assert serve dev0.opened) (λ _. write_tests fuel buf n dev.readonly) {s = dev0}
        is_open
      ∙ ap (λ b. write_tests fuel buf n b dev0) rw_able
      ∙ rw nonzero (
          then_done (vio_lock_acquire serve)
            (λ _. write_blocks serve fuel buf 0 0 n >>= λ x. vio_lock_release serve >> pure x)
            {s = dev0} locked
          ∙ then_done (write_blocks serve fuel buf 0 0 n) (λ x. vio_lock_release serve >> pure x)
              {s = write_started dev} run)

  -- Let the blocks of the device have 512 bytes, which is the size of a sector. A write of `m` sectors, at
  -- least one and at most 2^32, with more fuel than sectors and a position below 2^64, to an open device that
  -- is not read-only, has not been read from and whose lock is free returns their length. It stores the buffer from sector 0 of the
  -- disk on, wherever the position is, leaves the rest of the disk as it is, moves the position by the
  -- length and leaves the lock free.
  pub vioblk_write_lem :
      IsWritable D serve bytes
      → (m fuel : ℕ) (buf : Mem) (dev : Vioblk D) → dev.blksz ≡ 512
      → dev.opened ≡ true
      → dev.readonly ≡ false
      → dev.data_writable ≡ false
      → dev.vio_lock ≡ false
      → 0 < m
      → m < fuel
      → m ≤ 2 ^ 32
      → dev.pos < 2 ^ 64
      → (dev' : Vioblk D) × (vioblk_write serve fuel buf (m * 512) dev ≡ done (ok (m * 512)) dev')
        × ((i : ℕ) → i < m * 512 → bytes dev'.disk i ≡ buf i)
        × ((j : ℕ) → m * 512 ≤ j → bytes dev'.disk j ≡ bytes dev.disk j)
        × (dev'.pos ≡ (dev.pos + m * 512) % 2 ^ 64)
        × (dev'.vio_lock ≡ false)
  vioblk_write_lem law m fuel buf dev size op rw_able unmarked free some_left lt small in64 =
      let (dev', run, did) =
        write_blocks_lem law m fuel buf 0 0 (write_started dev) size unmarked lt
          (omega (arith, small)) (omega (arith, small)) in64 in
      let nonzero : (m * 512 == 0) ≡ false = ground (arith, some_left) in
      (
        record dev' { vio_lock = false },
        vioblk_write_runs fuel buf (m * 512) (ok (0 + m * 512)) dev dev' op rw_able nonzero free run
            ∙ ap (λ n. done (ok n) (record dev' { vio_lock = false })) (omega arith),
        (λ i h. ap (bytes dev'.disk) (omega arith) ∙ did.inside i h ∙ ap buf (omega arith)),
        (λ j h. did.outside j (ground (arith, h))),
        did.pos,
        refl,
      )
