-- ===== src/Kfs/WriteFile.antt =====
-- src/kern/kfs.c: what a call of `fs_write` on an open file does.
use illinux.Prelude.{
  ℕ, zero, suc, ◌+◌, ◌-◌, ◌*◌, ◌/◌, ◌%◌, ◌^◌, ◌≤◌, ◌<◌, ◌≡◌, ◌≢◌, refl, ◌∙◌, false, arith, leb,
  ◌==◌, if◌then◌else◌, inl, inr, ◌⊎◌, none, some, min,
}
use native.Mathlib.Decide.{dec_lt}
use illinux.Errno.{ok}
use illinux.Cmd.{done, then_done}
use illinux.Disk.{Disk, IsStorage}
use illinux.Mem.{Mem, within, memcpy}
use illinux.Kfs.{Kfs, fs_blksz, num_inodes, num_data, data_block_num}
use illinux.Kfs.Blocks.{update_inode, write_inode, lock_acquire, lock_release}
use illinux.Kfs.Transfer.{update_data_block_ok, write_data_block_ok, block_at}
use illinux.Kfs.Locked.{acquire_free, release_held}
use illinux.Kfs.Calls.{write_loop, fs_write, advance, allocated_blocks}
use illinux.Kfs.Read.{file_byte}
use illinux.Kfs.ReadFile.{inode_image}
use illinux.Kfs.Write.{piece, offset, write_step, write_stop, IsWritable, IsWritten}
use illinux.Kfs.WriteLoop.{patched, round_facts, IsWritten-step}

module _ {D : Type 0} (disk : Disk D) (st : IsStorage disk) (self : ℕ) where
  open st use {image, size}

  -- The bytes that fit behind the position, up to the end of the last allocated block.
  abbrev pub storable : Kfs D → ℕ → ℕ → ℕ → ℕ
  storable s fd allocated n = min n (allocated * fs_blksz - (s.file_list fd).file_pos)

  pub IsWritten-none :
      (s : Kfs D) (fd allocated : ℕ) (buf : Mem)
      → IsWritten disk st self s fd allocated 0 buf s.disk
  IsWritten-none s fd allocated buf = record {
    size_kept = refl;
    bytes = λ j lt. ground arith;
    meta_kept = λ a lt. refl;
    others_kept = λ b k other lt. refl;
  }

  module _ (s : Kfs D) (fd allocated n : ℕ) (buf : Mem) (w : IsWritable disk st self s fd allocated)
      (n_small : n < 2 ^ 32) where
    abbrev pub total : ℕ
    total = storable s fd allocated n

    -- The loop ends with all the bytes stored that fit, if it has more fuel than bytes.
    pub write_loop_ok :
        (fuel : ℕ) (d₁ : D) (b₁ : Mem) (written : ℕ)
        → written ≤ total
        → n - written < fuel
        → IsWritten disk st self s fd allocated written buf d₁
        → (d' : D) × (b' : Mem) × (write_loop disk self fuel fd buf n allocated written
              (record s { disk = d₁; data_block = b₁ })
            ≡ done (ok total) (record s { disk = d'; data_block = b' }))
          × IsWritten disk st self s fd allocated total buf d'
    write_loop_ok zero d₁ b₁ written le fuel_ok before = absurd (omega arith)
    write_loop_ok (suc fuel) d₁ b₁ written le fuel_ok before = elim (dec_lt written total) [
      | yes more ↦
          let s₁ : Kfs D = record s { disk = d₁; data_block = b₁ } in
          let some_left : written < n = omega arith in
          let inside : (s.file_list fd).file_pos + written < allocated * fs_blksz = omega arith in
          let (place, blk, lo, fits, le', end) =
            round_facts disk st self s fd allocated n written buf w some_left n_small inside in
          let off : ℕ = offset disk st self s fd written in
          let copied : ℕ = piece off n written in
          let known : data_block_num s.inode (off / fs_blksz) < num_data s.boot_block =
            w.blocks_in (off / fs_blksz) blk in
          let (d₂, b₂, loaded, fetched) =
            update_data_block_ok disk st s₁ (data_block_num s.inode (off / fs_blksz)) w.mounted
              (omega (arith, w.small, before.size_kept))
              (omega (arith, w.fits, before.size_kept, known)) in
          let size₂ : size d₂ ≡ size s.disk = fetched.kept.size_kept ∙ before.size_kept in
          let s₂ : Kfs D = record s {
            disk = d₂;
            data_block = memcpy b₂ (off % fs_blksz) buf written copied;
          } in
          let (d₃, stored, there) =
            write_data_block_ok disk st s₂ (data_block_num s.inode (off / fs_blksz)) w.mounted
              (omega (arith, w.small, size₂)) (omega (arith, w.fits, size₂, known)) in
          let after : IsWritten disk st self s fd allocated (written + copied) buf d₃ =
            IsWritten-step disk st self s fd allocated n written buf w some_left n_small inside
              before (there.size_kept ∙ fetched.kept.size_kept)
              (patched disk st self (off % fs_blksz) copied written buf fits fetched there) in
          let (d', b', run, result) =
            write_loop_ok fuel d₃ s₂.data_block (written + copied) (omega arith) (omega arith)
              after in
          (
            d',
            b',
            write_step disk st self s₁ fuel fd n allocated written buf
                  {s₁ = record s { disk = d₂; data_block = b₂ }} {s₂ = record s₂ { disk = d₃ }}
                  some_left blk (omega (arith, w.capacity)) loaded stored
                ∙ run,
            result,
          )
      | no stop ↦
          let all : written ≡ total = omega arith in
          let why : (n ≤ written) ⊎ (allocated ≤ offset disk st self s fd written / fs_blksz) =
            elim (dec_lt written n) [
              | yes left ↦ inr (omega (arith, w.capacity, w.pos_in))
              | no none_left ↦ inl (omega arith)
            ] in
          (
            d₁,
            b₁,
            write_stop disk st self (record s { disk = d₁; data_block = b₁ }) fuel fd n allocated
                  written buf why
                ∙ rw all,
            rw all at before,
          )
    ]

  -- The call's own steps, between the transfers.
  pub fs_write_run :
      (fuel fd n cnt : ℕ) (buf : Mem) (s : Kfs D) {s₂ s₃ s₄ : Kfs D}
      → 1 ≤ n
      → s.kfs_lock ≡ none
      → (s.file_list fd).inode_number < num_inodes s.boot_block
      → update_inode disk (s.file_list fd).inode_number (record s { kfs_lock = some self })
        ≡ done (ok 0) s₂
      → write_loop disk self fuel fd buf n (allocated_blocks disk self s₂.inode) 0 s₂
        ≡ done (ok cnt) s₃
      → write_inode disk (s.file_list fd).inode_number (advance disk self fd cnt s₃)
        ≡ done (ok 0) s₄
      → s₄.kfs_lock ≡ some self
      → fs_write disk self fuel (some fd) (some buf) n s
        ≡ done (ok cnt) (record s₄ { kfs_lock = none })
  unfolding fs_write
  fs_write_run fuel fd n cnt buf s {s₂} {s₃} {s₄} some_bytes free inode_in loaded ran saved held =
      let nonzero : (n == 0) ≡ false = ground arith in
      let known : leb (num_inodes s.boot_block) (s.file_list fd).inode_number ≡ false =
        ground arith in
      rw nonzero (
        then_done (lock_acquire self) _ (acquire_free self s free)
        ∙ rw known (
            then_done (update_inode disk (s.file_list fd).inode_number) _ loaded
            ∙ then_done (write_loop disk self fuel fd buf n (allocated_blocks disk self s₂.inode) 0)
                _ ran
            ∙ then_done (write_inode disk (s.file_list fd).inode_number) _ saved
            ∙ then_done (lock_release self) _ (release_held self s₄ held)))

  -- The data blocks of an open file, which no two places of it share.
  pub record HasBlocks (s : Kfs D) (fd : ℕ) : Type 0 where
    pub distinct :
        (i k : ℕ)
        → i * fs_blksz < (s.file_list fd).file_size
        → k * fs_blksz < (s.file_list fd).file_size
        → data_block_num (inode_image disk st self s.disk (s.file_list fd).inode_number) i
          ≡ data_block_num (inode_image disk st self s.disk (s.file_list fd).inode_number) k
        → i ≡ k

  -- ceil(file_size / FS_BLKSZ)
  abbrev pub blocks_of : Kfs D → ℕ → ℕ
  blocks_of s fd = ((s.file_list fd).file_size + fs_blksz - 1) / fs_blksz

  -- What a call of `fs_write` that returned `cnt` has done.
  pub record IsWrote (s : Kfs D) (fd cnt : ℕ) (buf : Mem) (s' : Kfs D) : Type 0 where
    pub unlocked : s'.kfs_lock ≡ none
    pub boot_kept : s'.boot_block ≡ s.boot_block
    pub size_kept : size s'.disk ≡ size s.disk
    pub files :
        (j : ℕ)
        → s'.file_list j ≡ (
            if fd == j
            then record (s.file_list fd) { file_pos = (s.file_list fd).file_pos + cnt }
            else s.file_list j)
    pub bytes :
        let inode = inode_image disk st self s.disk (s.file_list fd).inode_number in
        (j : ℕ)
        → j < blocks_of s fd * fs_blksz
        → file_byte (image s'.disk) s.boot_block inode j ≡ (
            if within (s.file_list fd).file_pos cnt j
            then buf (j - (s.file_list fd).file_pos)
            else file_byte (image s.disk) s.boot_block inode j)
    pub meta_kept :
        (a : ℕ) → a < block_at (num_inodes s.boot_block) 0 → image s'.disk a ≡ image s.disk a
    pub others_kept :
        let inode = inode_image disk st self s.disk (s.file_list fd).inode_number in
        (b k : ℕ)
        → ((i : ℕ) → i * fs_blksz < (s.file_list fd).file_size → data_block_num inode i ≢ b)
        → k < fs_blksz
        → image s'.disk (block_at (num_inodes s.boot_block) b + k)
          ≡ image s.disk (block_at (num_inodes s.boot_block) b + k)
