-- ===== src/Kfs/WriteCall.antt =====
-- src/kern/kfs.c: `fs_write` on an open file, from its loop and its transfers.
use illinux.Prelude.{
  ℕ, ◌+◌, ◌-◌, ◌*◌, ◌/◌, ◌%◌, ◌^◌, ◌≤◌, ◌<◌, ◌≡◌, ◌≢◌, refl, ◌∙◌, sym, arith, if◌then◌else◌,
  Bool-cases, inl, inr, none, some,
}
use illinux.Errno.{ok}
use illinux.Cmd.{done}
use illinux.Disk.{Disk, IsStorage}
use illinux.Mem.{Mem, within}
use illinux.Kfs.{Kfs, u32, fs_blksz, max_db_per_inode, num_inodes, byte_len, data_block_num}
use illinux.Kfs.Blocks.{update_inode}
use illinux.Kfs.Transfer.{update_inode_ok, write_inode_ok, inode_at, block_at, IsFetched, IsStored}
use illinux.Kfs.Calls.{fs_write, advance, allocated_blocks}
use illinux.Kfs.Read.{file_byte}
use illinux.Kfs.ReadFile.{inode_image, IsOpen, le32-fetched, loaded_state}
use illinux.Kfs.Write.{IsWritable, IsWritten}
use illinux.Kfs.WriteFile.{
  storable, IsWritten-none, write_loop_ok, fs_write_run, HasBlocks, blocks_of, IsWrote,
}

module _ {D : Type 0} (disk : Disk D) (st : IsStorage disk) (self : ℕ) where
  open st use {image, size}

  module _ (s : Kfs D) (fd : ℕ) (d₁ : D) (b₁ : Mem) (o : IsOpen disk st self s fd)
      (h : HasBlocks disk st self s fd)
      (fetched : IsFetched disk st s.disk (inode_at (s.file_list fd).inode_number) d₁ b₁) where
    abbrev ino : ℕ
    ino = (s.file_list fd).inode_number

    abbrev inode : Mem
    inode = inode_image disk st self s.disk ino

    loaded_block : (i : ℕ) → i < max_db_per_inode → data_block_num b₁ i ≡ data_block_num inode i
    loaded_block i lt = le32-fetched disk st self (4 + i * 4) fetched (omega arith)

    blocks_small : blocks_of disk st self s fd ≤ max_db_per_inode
    blocks_small = omega (arith, o.capacity)

    allocated : allocated_blocks disk self b₁ ≡ blocks_of disk st self s fd
    allocated =
        let len : byte_len b₁ ≡ (s.file_list fd).file_size =
          le32-fetched disk st self 0 fetched (omega arith) ∙ o.len in
        rw len (omega (arith, o.capacity))

    writable :
        IsWritable disk st self (loaded_state disk st self s d₁ b₁) fd (blocks_of disk st self s fd)
    writable = record {
      mounted = o.mounted;
      small = omega (arith, o.small, fetched.kept.size_kept);
      fits = omega (arith, o.fits, fetched.kept.size_kept);
      capacity = blocks_small;
      pos_in = omega (arith, o.pos_in);
      blocks_in =
          λ i lt. rw (loaded_block i (omega (arith, blocks_small))) (o.blocks_in i (omega arith));
      distinct = λ i k lt_i lt_k e. h.distinct i k (omega arith) (omega arith) (
          sym (loaded_block i (omega (arith, blocks_small)))
          ∙ e
          ∙ loaded_block k (omega (arith, blocks_small)));
    }

    module _ {cnt : ℕ} {buf : Mem} {d₂ d₃ : D}
        (written : IsWritten disk st self
          (loaded_state disk st self s d₁ b₁)
          fd
          (blocks_of disk st self s fd)
          cnt
          buf
          d₂)
        (stored : IsStored disk st d₂ (inode_at ino) b₁ d₃) where
      -- Storing the inode that was loaded changes no byte.
      saved_same : (a : ℕ) → image d₃ a ≡ image d₂ a
      saved_same a = elim (Bool-cases (within (inode_at ino) fs_blksz a)) [
        | inl here ↦
            let back : inode_at ino + (a - inode_at ino) ≡ a = ground arith in
            let lt : a - inode_at ino < fs_blksz = ground arith in
            let low : a < block_at (num_inodes s.boot_block) 0 = ground (arith, o.inode_in) in
            stored.bytes a
            ∙ rw here (
                fetched.bytes (a - inode_at ino) lt
                ∙ rw (back, written.meta_kept a low, fetched.kept.image_kept))
        | inr away ↦ stored.bytes a ∙ rw away
      ]

      wrote_bytes :
          (j : ℕ)
          → j < blocks_of disk st self s fd * fs_blksz
          → file_byte (image d₃) s.boot_block inode j ≡ (
              if within (s.file_list fd).file_pos cnt j
              then buf (j - (s.file_list fd).file_pos)
              else file_byte (image s.disk) s.boot_block inode j)
      wrote_bytes j lt =
          let same : data_block_num b₁ (j / fs_blksz) ≡ data_block_num inode (j / fs_blksz) =
            loaded_block (j / fs_blksz) (omega (arith, blocks_small)) in
          saved_same (
            block_at (num_inodes s.boot_block) (data_block_num inode (j / fs_blksz)) + j % fs_blksz)
          ∙ (rw (same, fetched.kept.image_kept) at (written.bytes j lt))

      wrote :
          {b₂ : Mem}
          → (s.file_list fd).file_pos + cnt < 2 ^ 32
          → IsWrote disk st self s fd cnt buf
              (record (advance disk self fd cnt
                (record (loaded_state disk st self s d₁ b₁) { disk = d₂; data_block = b₂ })) {
                  disk = d₃;
                  kfs_lock = none;
                })
      wrote small_pos = record {
        unlocked = refl;
        boot_kept = refl;
        size_kept = stored.size_kept ∙ written.size_kept ∙ fetched.kept.size_kept;
        files = λ j. rw pos_fits;
        bytes = wrote_bytes;
        meta_kept = λ a lt. saved_same a ∙ rw (written.meta_kept a lt, fetched.kept.image_kept);
        others_kept = λ b k other lt.
            saved_same (block_at (num_inodes s.boot_block) b + k)
            ∙ rw (written.others_kept b k (not_loaded b other) lt, fetched.kept.image_kept);
      }
        where
          pos_fits : u32 ((s.file_list fd).file_pos + cnt) ≡ (s.file_list fd).file_pos + cnt
          pos_fits = omega (arith, small_pos)

          not_loaded :
              (b : ℕ)
              → ((i : ℕ) → i * fs_blksz < (s.file_list fd).file_size → data_block_num inode i ≢ b)
              → (i : ℕ) → i < blocks_of disk st self s fd
              → data_block_num b₁ i ≢ b
          not_loaded b other i lt e =
              other i (omega arith) (sym (loaded_block i (omega (arith, blocks_small))) ∙ e)

    fs_write_rest :
        (fuel n : ℕ) (buf : Mem)
        → 1 ≤ n
        → n < 2 ^ 32
        → n < fuel
        → update_inode disk (s.file_list fd).inode_number (record s { kfs_lock = some self })
          ≡ done (ok 0) (loaded_state disk st self s d₁ b₁)
        → let cnt = storable disk st self s fd (blocks_of disk st self s fd) n in
          (s' : Kfs D) × (fs_write disk self fuel (some fd) (some buf) n s ≡ done (ok cnt) s')
          × IsWrote disk st self s fd cnt buf s'
    fs_write_rest fuel n buf some_bytes n_small fuel_ok loaded =
        let s₂ : Kfs D = loaded_state disk st self s d₁ b₁ in
        let cnt : ℕ = storable disk st self s fd (blocks_of disk st self s fd) n in
        let (d₂, b₂, ran, written) =
          write_loop_ok disk st self s₂ fd (blocks_of disk st self s fd) n buf writable n_small fuel
            d₁ s.data_block 0 (omega arith) (omega arith)
            (IsWritten-none disk st self s₂ fd (blocks_of disk st self s fd) buf) in
        let s₃ : Kfs D = record s₂ { disk = d₂; data_block = b₂ } in
        let size₂ : size d₂ ≡ size s.disk = written.size_kept ∙ fetched.kept.size_kept in
        let (d₃, saved, stored) =
          write_inode_ok disk st (advance disk self fd cnt s₃) ino o.mounted
            (omega (arith, o.small, size₂)) (omega (arith, o.fits, o.inode_in, size₂)) in
        (
          record (advance disk self fd cnt s₃) { disk = d₃; kfs_lock = none },
          fs_write_run disk st self fuel fd n cnt buf s {s₂ = s₂} {s₃ = s₃}
              {s₄ = record (advance disk self fd cnt s₃) { disk = d₃ }} some_bytes o.unlocked
              o.inode_in loaded (rw allocated ran) saved refl,
          wrote written stored (omega (arith, o.pos_in, o.capacity)),
        )

  -- On an open file of a consistent device, whose blocks are different, `fs_write` of `n` bytes (1 ≤ n <
  -- 2^32, and more fuel than `n`) returns min(n, room up to the end of the last allocated block), which
  -- is 0 and no error where there is no room; it allocates no block. It stores exactly those bytes at
  -- the file's position, leaves the file's other bytes, the boot block, all inodes and all other data
  -- blocks on the device alone, moves the position of that file alone and gives the lock back.
  pub fs_write_ok :
      (fuel fd n : ℕ) (buf : Mem) (s : Kfs D)
      → 1 ≤ n
      → n < 2 ^ 32
      → n < fuel
      → IsOpen disk st self s fd
      → HasBlocks disk st self s fd
      → let cnt = storable disk st self s fd (blocks_of disk st self s fd) n in
        (s' : Kfs D) × (fs_write disk self fuel (some fd) (some buf) n s ≡ done (ok cnt) s')
        × IsWrote disk st self s fd cnt buf s'
  fs_write_ok fuel fd n buf s some_bytes n_small fuel_ok o h =
      let (d₁, b₁, loaded, fetched) =
        update_inode_ok disk st (record s { kfs_lock = some self }) (s.file_list fd).inode_number
          o.mounted o.small (omega (arith, o.fits, o.inode_in)) in
      fs_write_rest s fd d₁ b₁ o h fetched fuel n buf some_bytes n_small fuel_ok loaded
