-- ===== src/Kfs/Read.antt =====
-- src/kern/kfs.c: the bytes of a file, and the loop of `fs_read`.
use illinux.Prelude.{
  ℕ, zero, suc, ◌+◌, ◌-◌, ◌*◌, ◌/◌, ◌%◌, ◌^◌, ◌≤◌, ◌<◌, ◌≡◌, refl, ap, ◌∙◌, true, false, ◌||◌,
  arith, ltb, leb, if◌then◌else◌, Bool-cases, lt→ltb, ltb→lt, inl, inr,
}
use illinux.Errno.{ok}
use illinux.Cmd.{done, then_done}
use illinux.Disk.{Disk, IsStorage}
use illinux.Mem.{Mem, memcpy, memcpy_lem}
use illinux.Kfs.{Kfs, u32, fs_blksz, max_db_per_inode, num_inodes, num_data, data_block_num}
use illinux.Kfs.Blocks.{update_data_block}
use illinux.Kfs.Transfer.{update_data_block_ok, block_at, IsKept, IsFetched}
use illinux.Kfs.Calls.{read_loop}

-- How much of `left` bytes lies in the block of a byte offset.
abbrev chunk : ℕ → ℕ → ℕ
chunk off left = let here = fs_blksz - off % fs_blksz in if ltb here left then here else left

-- Byte `j` of the file with this inode, on the device with these bytes.
abbrev pub file_byte : Mem → Mem → Mem → ℕ → ℕ
file_byte img boot inode j =
    img (block_at (num_inodes boot) (data_block_num inode (j / fs_blksz)) + j % fs_blksz)

module _ {D : Type 0} (disk : Disk D) (st : IsStorage disk) (self : ℕ) where
  open st use {image, size}

  abbrev offset : Kfs D → ℕ → ℕ → ℕ
  offset s fd read = u32 ((s.file_list fd).file_pos + read)

  -- One round of the loop, where the device hands over the block.
  read_step :
      (s : Kfs D) (fuel fd total allocated read : ℕ) (buf : Mem) {s' : Kfs D}
      → read < total
      → offset s fd read / fs_blksz < allocated
      → offset s fd read / fs_blksz < max_db_per_inode
      → data_block_num s.inode (offset s fd read / fs_blksz) < num_data s.boot_block
      → update_data_block disk (data_block_num s.inode (offset s fd read / fs_blksz)) s
        ≡ done (ok 0) s'
      → let copied = chunk (offset s fd read) (total - read) in
        read_loop disk self (suc fuel) fd total allocated read buf s
        ≡ read_loop disk self fuel fd total allocated
            (read + copied)
            (memcpy buf read s'.data_block (offset s fd read % fs_blksz) copied)
            s'
  unfolding read_loop
  read_step s fuel fd total allocated read buf more below_end below_max block_in loaded =
      let off : ℕ = offset s fd read in
      let inside : (leb allocated (off / fs_blksz) || leb max_db_per_inode (off / fs_blksz))
          ≡ false =
        ground arith in
      let named : leb (num_data s.boot_block) (data_block_num s.inode (off / fs_blksz)) ≡ false =
        ground arith in
      rw (lt→ltb read total more, inside, named)
        (then_done (update_data_block disk (data_block_num s.inode (off / fs_blksz))) _ loaded)

  abbrev pos_of : Kfs D → ℕ → ℕ
  pos_of s fd = (s.file_list fd).file_pos

  -- With the inode loaded: the bytes up to `total` places behind the file's position lie in data
  -- blocks of the device.
  pub record IsReadable (s : Kfs D) (fd total : ℕ) : Type 0 where
    pub mounted : s.disk_io ≡ true
    pub small : size s.disk < 2 ^ 32
    pub fits : block_at (num_inodes s.boot_block) (num_data s.boot_block) ≤ size s.disk
    pub capacity : (s.file_list fd).file_pos + total ≤ max_db_per_inode * fs_blksz
    pub blocks_in :
        (i : ℕ)
        → i * fs_blksz < (s.file_list fd).file_pos + total
        → data_block_num s.inode i < num_data s.boot_block

  -- The buffer holds the first `read` bytes from the file's position on, and old bytes behind them.
  abbrev pub IsFilled : Kfs D → ℕ → ℕ → Mem → Mem → Type 0
  IsFilled s fd read old buf =
      (i : ℕ)
      → buf i ≡ (
          if ltb i read
          then file_byte (image s.disk) s.boot_block s.inode ((s.file_list fd).file_pos + i)
          else old i)

  module _ (s : Kfs D) (fd total read : ℕ) (old buf b' : Mem) {d' : D} (more : read < total)
      (cap : (s.file_list fd).file_pos + total ≤ max_db_per_inode * fs_blksz)
      (fetched : IsFetched disk st s.disk
        (block_at (num_inodes s.boot_block) (data_block_num s.inode (offset s fd read / fs_blksz)))
        d'
        b') where
    abbrev off : ℕ
    off = offset s fd read

    abbrev copied : ℕ
    copied = chunk off (total - read)

    abbrev byte : ℕ → ℕ
    byte = file_byte (image s.disk) s.boot_block s.inode

    -- A byte of the fetched block is the byte of the file.
    fetched_byte :
        (i : ℕ)
        → read ≤ i
        → i < read + copied
        → b' (off % fs_blksz + (i - read)) ≡ byte ((s.file_list fd).file_pos + i)
    fetched_byte i lo hi =
        let place : off ≡ (s.file_list fd).file_pos + read = omega arith in
        let fits : i < read + (fs_blksz - off % fs_blksz) = ground arith in
        let block : ((s.file_list fd).file_pos + i) / fs_blksz ≡ off / fs_blksz = omega arith in
        let inner : ((s.file_list fd).file_pos + i) % fs_blksz ≡ off % fs_blksz + (i - read) =
          omega arith in
        rw (block, inner)
          (fetched.bytes (off % fs_blksz + (i - read)) (omega arith)
            ∙ ap (image s.disk) (omega arith))

    -- A block that was fetched extends the bytes read.
    fill_step :
        IsFilled s fd read old buf
        → IsFilled s fd (read + copied) old (memcpy buf read b' (off % fs_blksz) copied)
    fill_step filled i =
        rw (memcpy_lem buf read b' (off % fs_blksz) copied i)
          (ground (arith, filled i, fetched_byte i))

  IsReadable-fetch :
      {s : Kfs D} {fd total : ℕ} {d' : D} (b' : Mem)
      → IsReadable s fd total
      → IsKept disk st s.disk d'
      → IsReadable (record s { disk = d'; data_block = b' }) fd total
  IsReadable-fetch b' r k = record {
    mounted = r.mounted;
    small = omega (arith, r.small, k.size_kept);
    fits = omega (arith, r.fits, k.size_kept);
    capacity = r.capacity;
    blocks_in = r.blocks_in;
  }

  -- The loop ends with `total` bytes read, if it is given more fuel than bytes.
  pub read_loop_ok :
      (fuel : ℕ) (s : Kfs D) (fd total allocated read : ℕ) (old buf : Mem)
      → IsReadable s fd total
      → (s.file_list fd).file_pos + total ≤ allocated * fs_blksz
      → read ≤ total
      → total - read < fuel
      → IsFilled s fd read old buf
      → (d' : D) × (b' : Mem) × (buf' : Mem) × (read_loop disk self fuel fd total allocated read buf
            s
          ≡ done (ok total, buf') (record s { disk = d'; data_block = b' }))
        × IsKept disk st s.disk d'
        × IsFilled s fd total old buf'
  unfolding read_loop
  read_loop_ok zero s fd total allocated read old buf r alloc le fuel_ok filled =
      absurd (omega arith)
  read_loop_ok (suc fuel) s fd total allocated read old buf r alloc le fuel_ok filled =
      elim (Bool-cases (ltb read total)) [
        | inl test ↦
            let more : read < total = ltb→lt read total test in
            let blk : ℕ = off / fs_blksz in
            let idx : ℕ = data_block_num s.inode blk in
            let place : off ≡ (s.file_list fd).file_pos + read = omega (arith, r.capacity) in
            let known : idx < num_data s.boot_block = r.blocks_in blk (omega arith) in
            let (d₁, b₁, loaded, fetched) =
              update_data_block_ok disk st s idx r.mounted r.small (omega (arith, r.fits)) in
            let more_fuel : total - (read + copied) < fuel = ground arith in
            let in_total : read + copied ≤ total = ground arith in
            let (d', b', buf', run, kept, filled') =
              read_loop_ok fuel (record s { disk = d₁; data_block = b₁ }) fd total allocated
                (read + copied) old (memcpy buf read b₁ (off % fs_blksz) copied)
                (IsReadable-fetch b₁ r fetched.kept) alloc in_total more_fuel
                (rw fetched.kept.image_kept
                  (fill_step s fd total read old buf b₁ more r.capacity fetched filled)) in
            (
              d',
              b',
              buf',
              read_step s fuel fd total allocated read buf more (omega (arith, r.capacity))
                    (omega (arith, r.capacity)) known loaded
                  ∙ run,
              record {
                image_kept = kept.image_kept ∙ fetched.kept.image_kept;
                size_kept = kept.size_kept ∙ fetched.kept.size_kept;
              },
              rw fetched.kept.image_kept at filled',
            )
        | inr stop ↦
            let e : read ≡ total = ground arith in
            (
              s.disk,
              s.data_block,
              buf,
              rw (stop, e),
              record { image_kept = refl; size_kept = refl },
              rw e at filled,
            )
      ]
    where
      off : ℕ
      off = offset s fd read

      copied : ℕ
      copied = chunk off (total - read)
