-- ===== src/Kfs/Transfer.antt =====
-- src/kern/kfs.c: what the four block transfers do on a device that stores its blocks.
use illinux.Prelude.{ℕ, ◌+◌, ◌-◌, ◌*◌, ◌^◌, ◌≤◌, ◌<◌, ◌≡◌, ◌∙◌, true, arith, if◌then◌else◌}
use illinux.Errno.{ok}
use illinux.Cmd.{done, then_done}
use illinux.Disk.{Disk, IsStorage}
use illinux.Mem.{Mem, within}
use illinux.Kfs.{Kfs, u32, fs_blksz, num_inodes}
use illinux.Kfs.Blocks.{
  disk_setpos, disk_read_inode, disk_read_data_block, disk_write, data_block_offset, update_inode,
  update_data_block, write_data_block, write_inode,
}

-- The block of inode `k` begins here.
abbrev pub inode_at : ℕ → ℕ
inode_at k = fs_blksz + k * fs_blksz

-- The data block `idx` begins here, behind `inodes` inodes.
abbrev pub block_at : ℕ → ℕ → ℕ
block_at inodes idx = fs_blksz + inodes * fs_blksz + idx * fs_blksz

module _ {D : Type 0} (disk : Disk D) (st : IsStorage disk) where
  open st use {image, size, pos, setpos_ok, read_ok, write_ok}

  -- The device after a transfer that leaves its bytes alone.
  pub record IsKept (d d' : D) : Type 0 where
    pub image_kept : image d' ≡ image d
    pub size_kept : size d' ≡ size d

  -- What one whole block at `p`, read into a buffer, makes of the device and the buffer.
  pub record IsFetched (d : D) (p : ℕ) (d' : D) (b : Mem) : Type 0 where
    pub kept : IsKept d d'
    pub bytes : (i : ℕ) → i < fs_blksz → b i ≡ image d (p + i)

  fetch :
      (d : D) (buf : Mem) (p : ℕ)
      → size d < 2 ^ 32
      → p + fs_blksz ≤ size d
      → let d₁ = (disk.setpos d p).0 in
        ((c : ℕ) × ((disk.setpos d p).1 ≡ ok c))
        × ((disk.read d₁ buf fs_blksz).2 ≡ ok fs_blksz)
        × IsFetched d p (disk.read d₁ buf fs_blksz).0 (disk.read d₁ buf fs_blksz).1
  fetch d buf p small h = (
    sought.0,
    (read_ok d₁ buf fs_blksz small₁ (omega arith) room).0,
    record {
      kept = record { image_kept = got.3 ∙ sought.3; size_kept = got.2 ∙ sought.2 };
      bytes = λ i lt. rw (got.1 i, sought.3, sought.1) (ground arith);
    },
  )
    where
      d₁ : D
      d₁ = (disk.setpos d p).0

      sought :
          ((c : ℕ) × ((disk.setpos d p).1 ≡ ok c))
          × (pos d₁ ≡ p)
          × (size d₁ ≡ size d)
          × (image d₁ ≡ image d)
      sought = setpos_ok d p small (omega arith)

      small₁ : size d₁ < 2 ^ 32
      small₁ = omega (arith, small, sought.2)

      room : pos d₁ + fs_blksz ≤ size d₁
      room = omega (arith, sought.1, sought.2)

      got :
          ((disk.read d₁ buf fs_blksz).2 ≡ ok fs_blksz)
          × ((i : ℕ)
              → (disk.read d₁ buf fs_blksz).1 i
                ≡ (if within 0 fs_blksz i then image d₁ (pos d₁ + i) else buf i))
          × (size (disk.read d₁ buf fs_blksz).0 ≡ size d₁)
          × (image (disk.read d₁ buf fs_blksz).0 ≡ image d₁)
      got = read_ok d₁ buf fs_blksz small₁ (omega arith) room

  setpos_done :
      (s : Kfs D) (p c : ℕ)
      → s.disk_io ≡ true
      → (disk.setpos s.disk p).1 ≡ ok c
      → disk_setpos disk p s ≡ done (ok c) (record s { disk = (disk.setpos s.disk p).0 })
  unfolding disk_setpos
  setpos_done s p c mounted e = ground arith

  read_inode_done :
      (s : Kfs D) (n : ℕ)
      → s.disk_io ≡ true
      → (disk.read s.disk s.inode fs_blksz).2 ≡ ok n
      → let out = disk.read s.disk s.inode fs_blksz in
        disk_read_inode disk s ≡ done (ok n) (record s { disk = out.0; inode = out.1 })
  unfolding disk_read_inode
  read_inode_done s n mounted e = ground arith

  -- The inode `k` is loaded from its block.
  pub update_inode_ok :
      (s : Kfs D) (k : ℕ)
      → s.disk_io ≡ true
      → size s.disk < 2 ^ 32
      → inode_at k + fs_blksz ≤ size s.disk
      → (d' : D) × (b' : Mem) × (update_inode disk k s
          ≡ done (ok 0) (record s { disk = d'; inode = b' }))
        × IsFetched s.disk (inode_at k) d' b'
  unfolding update_inode
  update_inode_ok s k mounted small room =
      let (sought, got, fetched) = fetch s.disk s.inode (inode_at k) small room in
      let addr : u32 (fs_blksz + u32 (k * fs_blksz)) ≡ inode_at k = omega arith in
      (
        _,
        _,
        rw addr (
            then_done (disk_setpos disk (inode_at k)) _
              (setpos_done s (inode_at k) sought.0 mounted sought.1)
            ∙ then_done (disk_read_inode disk) _ (
                read_inode_done (record s { disk = (disk.setpos s.disk (inode_at k)).0 }) fs_blksz
                  mounted got)),
        fetched,
      )

  read_data_block_done :
      (s : Kfs D) (n : ℕ)
      → s.disk_io ≡ true
      → (disk.read s.disk s.data_block fs_blksz).2 ≡ ok n
      → let out = disk.read s.disk s.data_block fs_blksz in
        disk_read_data_block disk s ≡ done (ok n) (record s { disk = out.0; data_block = out.1 })
  unfolding disk_read_data_block
  read_data_block_done s n mounted e = ground arith

  -- The data block `idx` is loaded from its place.
  pub update_data_block_ok :
      (s : Kfs D) (idx : ℕ)
      → s.disk_io ≡ true
      → size s.disk < 2 ^ 32
      → block_at (num_inodes s.boot_block) idx + fs_blksz ≤ size s.disk
      → (d' : D) × (b' : Mem) × (update_data_block disk idx s
          ≡ done (ok 0) (record s { disk = d'; data_block = b' }))
        × IsFetched s.disk (block_at (num_inodes s.boot_block) idx) d' b'
  unfolding update_data_block
  update_data_block_ok s idx mounted small room =
      let at : ℕ = block_at (num_inodes s.boot_block) idx in
      let (sought, got, fetched) = fetch s.disk s.data_block at small room in
      let addr : data_block_offset s.boot_block idx ≡ at = omega arith in
      (
        _,
        _,
        rw addr (
            then_done (disk_setpos disk at) _ (setpos_done s at sought.0 mounted sought.1)
            ∙ then_done (disk_read_data_block disk) _ (
                read_data_block_done (record s { disk = (disk.setpos s.disk at).0 }) fs_blksz
                  mounted got)),
        fetched,
      )

  -- What one whole block, written at `p`, makes of the device.
  pub record IsStored (d : D) (p : ℕ) (b : Mem) (d' : D) : Type 0 where
    pub size_kept : size d' ≡ size d
    pub bytes : (i : ℕ) → image d' i ≡ (if within p fs_blksz i then b (i - p) else image d i)

  send :
      (d : D) (buf : Mem) (p : ℕ)
      → size d < 2 ^ 32
      → p + fs_blksz ≤ size d
      → let d₁ = (disk.setpos d p).0 in
        ((c : ℕ) × ((disk.setpos d p).1 ≡ ok c))
        × ((disk.write d₁ buf fs_blksz).1 ≡ ok fs_blksz)
        × IsStored d p buf (disk.write d₁ buf fs_blksz).0
  send d buf p small h =
      let (c, at, same_size, same) = setpos_ok d p small (omega arith) in
      let (r, kept, bytes) =
        write_ok (disk.setpos d p).0 buf fs_blksz (omega (arith, same_size)) (omega arith)
          (omega (arith, at, same_size)) in
      (c, r, record { size_kept = kept ∙ same_size; bytes = λ i. rw (bytes i, same, at) })

  write_done :
      (s : Kfs D) (b : Mem) (n : ℕ)
      → s.disk_io ≡ true
      → (disk.write s.disk b fs_blksz).1 ≡ ok n
      → disk_write disk b s ≡ done (ok n) (record s { disk = (disk.write s.disk b fs_blksz).0 })
  unfolding disk_write
  write_done s b n mounted e = ground arith

  -- The loaded data block is stored at the place of data block `idx`.
  pub write_data_block_ok :
      (s : Kfs D) (idx : ℕ)
      → s.disk_io ≡ true
      → size s.disk < 2 ^ 32
      → block_at (num_inodes s.boot_block) idx + fs_blksz ≤ size s.disk
      → (d' : D) × (write_data_block disk idx s ≡ done (ok 0) (record s { disk = d' }))
        × IsStored s.disk (block_at (num_inodes s.boot_block) idx) s.data_block d'
  unfolding write_data_block
  write_data_block_ok s idx mounted small room =
      let at : ℕ = block_at (num_inodes s.boot_block) idx in
      let (sought, sent, stored) = send s.disk s.data_block at small room in
      let addr : data_block_offset s.boot_block idx ≡ at = omega arith in
      (
        _,
        rw addr (
            then_done (disk_setpos disk at) _ (setpos_done s at sought.0 mounted sought.1)
            ∙ then_done (disk_write disk s.data_block) _ (
                write_done (record s { disk = (disk.setpos s.disk at).0 }) s.data_block fs_blksz
                  mounted sent)),
        stored,
      )

  -- The loaded inode is stored in the block of inode `k`.
  pub write_inode_ok :
      (s : Kfs D) (k : ℕ)
      → s.disk_io ≡ true
      → size s.disk < 2 ^ 32
      → inode_at k + fs_blksz ≤ size s.disk
      → (d' : D) × (write_inode disk k s ≡ done (ok 0) (record s { disk = d' }))
        × IsStored s.disk (inode_at k) s.inode d'
  unfolding write_inode
  write_inode_ok s k mounted small room =
      let (sought, sent, stored) = send s.disk s.inode (inode_at k) small room in
      let addr : u32 (fs_blksz + u32 (k * fs_blksz)) ≡ inode_at k = omega arith in
      (
        _,
        rw addr (
            then_done (disk_setpos disk (inode_at k)) _
              (setpos_done s (inode_at k) sought.0 mounted sought.1)
            ∙ then_done (disk_write disk s.inode) _ (
                write_done (record s { disk = (disk.setpos s.disk (inode_at k)).0 }) s.inode
                  fs_blksz mounted sent)),
        stored,
      )
