-- ===== src/Kfs/Write.antt =====
-- src/kern/kfs.c: one round of the loop of `fs_write`.
use illinux.Prelude.{
  ℕ, suc, ◌+◌, ◌-◌, ◌*◌, ◌/◌, ◌%◌, ◌^◌, ◌≤◌, ◌<◌, ◌≡◌, ◌≢◌, ◌∙◌, true, false, ◌||◌, arith, ltb, leb,
  if◌then◌else◌, Bool-cases, lt→ltb, inl, inr, ◌⊎◌,
}
use illinux.Errno.{ok}
use illinux.Cmd.{done, then_done}
use illinux.Disk.{Disk, IsStorage}
use illinux.Mem.{Mem, within, memcpy}
use illinux.Kfs.{Kfs, u32, fs_blksz, max_db_per_inode, num_inodes, num_data, data_block_num}
use illinux.Kfs.Blocks.{update_data_block, write_data_block}
use illinux.Kfs.Transfer.{block_at}
use illinux.Kfs.Calls.{write_loop}
use illinux.Kfs.Read.{file_byte}

-- How much of `n` bytes is copied in the block of a byte offset, `written` of them before.
abbrev pub piece : ℕ → ℕ → ℕ → ℕ
piece off n written =
    let here = fs_blksz - off % fs_blksz in
    let left = u32 (n - written) in if ltb here left then here else left

module _ {D : Type 0} (disk : Disk D) (st : IsStorage disk) (self : ℕ) where
  open st use {image, size}

  abbrev pub offset : Kfs D → ℕ → ℕ → ℕ
  offset s fd written = u32 ((s.file_list fd).file_pos + written)

  -- One round of the loop, where the device takes part.
  pub write_step :
      (s : Kfs D) (fuel fd n allocated written : ℕ) (buf : Mem) {s₁ s₂ : Kfs D}
      → written < n
      → offset s fd written / fs_blksz < allocated
      → offset s fd written / fs_blksz < max_db_per_inode
      → update_data_block disk (data_block_num s.inode (offset s fd written / fs_blksz)) s
        ≡ done (ok 0) s₁
      → let off = offset s fd written in
        write_data_block disk (data_block_num s.inode (off / fs_blksz)) (record s₁ {
          data_block = memcpy s₁.data_block (off % fs_blksz) buf written (piece off n written);
        })
          ≡ done (ok 0) s₂
        → write_loop disk self (suc fuel) fd buf n allocated written s
          ≡ write_loop disk self fuel fd buf n allocated (written + piece off n written) s₂
  unfolding write_loop
  write_step s fuel fd n allocated written buf {s₁} more below_end below_max loaded stored =
      let off : ℕ = offset s fd written in
      let idx : ℕ = data_block_num s.inode (off / fs_blksz) in
      let inside : (leb allocated (off / fs_blksz) || leb max_db_per_inode (off / fs_blksz))
          ≡ false =
        ground arith in
      rw (lt→ltb written n more, inside)
        (then_done (update_data_block disk idx) _ loaded
          ∙ then_done (write_data_block disk idx) _ stored)

  -- The loop ends at the end of the last allocated block.
  pub write_stop :
      (s : Kfs D) (fuel fd n allocated written : ℕ) (buf : Mem)
      → (n ≤ written) ⊎ (allocated ≤ offset s fd written / fs_blksz)
      → write_loop disk self (suc fuel) fd buf n allocated written s ≡ done (ok written) s
  unfolding write_loop
  write_stop s fuel fd n allocated written buf (inl all) =
      let stop : ltb written n ≡ false = ground arith in rw stop
  write_stop s fuel fd n allocated written buf (inr full) = elim (Bool-cases (ltb written n)) [
    | inl more ↦
        let past : (leb allocated (offset s fd written / fs_blksz)
              || leb max_db_per_inode (offset s fd written / fs_blksz))
            ≡ true =
          ground arith in
        rw (more, past)
    | inr stop ↦ rw stop
  ]

  -- The file of a state with the inode loaded: `allocated` different data blocks of the device.
  pub record IsWritable (s : Kfs D) (fd allocated : ℕ) : Type 0 where
    pub mounted : s.disk_io ≡ true
    pub small : size s.disk < 2 ^ 32
    pub fits : block_at (num_inodes s.boot_block) (num_data s.boot_block) ≤ size s.disk
    pub capacity : allocated ≤ max_db_per_inode
    pub pos_in : (s.file_list fd).file_pos ≤ allocated * fs_blksz
    pub blocks_in : (i : ℕ) → i < allocated → data_block_num s.inode i < num_data s.boot_block
    pub distinct :
        (i k : ℕ)
        → i < allocated
        → k < allocated
        → data_block_num s.inode i ≡ data_block_num s.inode k
        → i ≡ k

  -- The device after `written` bytes of `buf` have been stored at the file's position.
  pub record IsWritten (s : Kfs D) (fd allocated written : ℕ) (buf : Mem) (d' : D) : Type 0 where
    pub size_kept : size d' ≡ size s.disk
    pub bytes :
        (j : ℕ)
        → j < allocated * fs_blksz
        → file_byte (image d') s.boot_block s.inode j ≡ (
            if within (s.file_list fd).file_pos written j
            then buf (j - (s.file_list fd).file_pos)
            else file_byte (image s.disk) s.boot_block s.inode j)
    pub meta_kept : (a : ℕ) → a < block_at (num_inodes s.boot_block) 0 → image d' a ≡ image s.disk a
    pub others_kept :
        (b k : ℕ)
        → ((i : ℕ) → i < allocated → data_block_num s.inode i ≢ b)
        → k < fs_blksz
        → image d' (block_at (num_inodes s.boot_block) b + k)
          ≡ image s.disk (block_at (num_inodes s.boot_block) b + k)
