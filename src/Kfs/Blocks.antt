-- ===== src/Kfs/Blocks.antt =====
-- src/kern/kfs.c: the lock, the blocks on the device and the table of open files. `self` is the
-- thread that runs the code. `debug` and `trace` print only, and are left out.
use illinux.Prelude.{
  ℕ, zero, suc, ◌+◌, ◌*◌, Bool, false, Option, none, some, ltb, ◌==◌, if◌then◌else◌,
}
use illinux.Errno.{Result, ok, err, einval, eio}
use illinux.Cmd.{done, blocked, panic, Cmd, pure, ◌>>=◌, ◌>>◌, get, modify}
use illinux.Disk.{Disk}
use illinux.Mem.{Mem, store}
use illinux.Kfs.{
  Kfs, File, u32, fs_blksz, max_open_files, f_in_use, f_not_use, num_inodes, byte_len,
}

module _ {D : Type 0} (self : ℕ) where
  -- `lock_acquire` returns once the lock is free; while any thread has it, the caller waits.
  unfoldable pub lock_acquire : Cmd (Kfs D) (Unit {0})
  lock_acquire s = elim s.kfs_lock [
    | none ↦ done tt (record s { kfs_lock = some self })
    | some t ↦ blocked
  ]

  -- The assertion is that the caller holds the lock.
  unfoldable pub lock_release : Cmd (Kfs D) (Unit {0})
  lock_release s = elim s.kfs_lock [
    | none ↦ panic
    | some t ↦ if t == self then done tt (record s { kfs_lock = none }) else panic
  ]

abbrev pub is_block : Result ℕ → Bool
is_block (ok n) = n == fs_blksz
is_block (err e) = false

-- Where a data block begins on the device: behind the boot block and the inodes.
abbrev pub data_block_offset : Mem → ℕ → ℕ
data_block_offset boot idx =
    u32 (u32 (fs_blksz + u32 (num_inodes boot * fs_blksz)) + u32 (idx * fs_blksz))

module _ {D : Type 0} (disk : Disk D) where
  -- `disk_io->ops->ctl(disk_io, IOCTL_SETPOS, &offset)`
  unfoldable pub disk_setpos : ℕ → Cmd (Kfs D) (Result ℕ)
  disk_setpos p s =
      let (d, ret) = disk.setpos s.disk p in
      if s.disk_io then done ret (record s { disk = d }) else panic

  -- `disk_io->ops->read(disk_io, &inode, FS_BLKSZ)`
  unfoldable pub disk_read_inode : Cmd (Kfs D) (Result ℕ)
  disk_read_inode s =
      let (d, b, ret) = disk.read s.disk s.inode fs_blksz in
      if s.disk_io then done ret (record s { disk = d; inode = b }) else panic

  -- `disk_io->ops->read(disk_io, &data_block, FS_BLKSZ)`
  unfoldable pub disk_read_data_block : Cmd (Kfs D) (Result ℕ)
  disk_read_data_block s =
      let (d, b, ret) = disk.read s.disk s.data_block fs_blksz in
      if s.disk_io then done ret (record s { disk = d; data_block = b }) else panic

  -- `disk_io->ops->write(disk_io, b, FS_BLKSZ)`
  unfoldable pub disk_write : Mem → Cmd (Kfs D) (Result ℕ)
  disk_write b s =
      let (d, ret) = disk.write s.disk b fs_blksz in
      if s.disk_io then done ret (record s { disk = d }) else panic

  -- The tests `ret < 0` after a seek, and `ret != FS_BLKSZ` after a transfer.
  abbrev pub seek_then : Result ℕ → Cmd (Kfs D) (Result ℕ) → Cmd (Kfs D) (Result ℕ)
  seek_then (ok c) next = next
  seek_then (err e) next = pure (err eio)

  abbrev pub whole_block : Result ℕ → Cmd (Kfs D) (Result ℕ)
  whole_block ret = if is_block ret then pure (ok 0) else pure (err eio)

  unfoldable pub update_inode : ℕ → Cmd (Kfs D) (Result ℕ)
  unfolding disk_setpos disk_read_inode
  update_inode inode_number = do
    ret ← disk_setpos (u32 (fs_blksz + u32 (inode_number * fs_blksz)))
    seek_then ret (do ret ← disk_read_inode; whole_block ret)

  unfoldable pub update_data_block : ℕ → Cmd (Kfs D) (Result ℕ)
  unfolding disk_setpos disk_read_data_block
  update_data_block idx = do
    s ← get
    ret ← disk_setpos (data_block_offset s.boot_block idx)
    seek_then ret (do ret ← disk_read_data_block; whole_block ret)

  unfoldable pub write_data_block : ℕ → Cmd (Kfs D) (Result ℕ)
  unfolding disk_setpos disk_write
  write_data_block idx = do
    s ← get
    ret ← disk_setpos (data_block_offset s.boot_block idx)
    seek_then ret (do s ← get; ret ← disk_write s.data_block; whole_block ret)

  -- Here only a negative result of the write is an error.
  unfoldable pub write_inode : ℕ → Cmd (Kfs D) (Result ℕ)
  unfolding disk_setpos disk_write
  write_inode inode_number = do
    ret ← disk_setpos (u32 (fs_blksz + u32 (inode_number * fs_blksz)))
    seek_then ret (do s ← get; ret ← disk_write s.inode; seek_then ret (pure (ok 0)))

abbrev pub closed_file : File
closed_file = record {
  ops = false;
  file_pos = 0;
  file_size = 0;
  inode_number = 0;
  flags = f_not_use;
}

-- The first unused file from index `i` on, among `k`.
unfoldable pub free_from : (ℕ → File) → ℕ → ℕ → Option ℕ
free_from files zero i = none
free_from files (suc k) i =
    let rest = free_from files k (i + 1) in if (files i).flags == f_not_use then some i else rest

module _ {D : Type 0} where
  unfoldable pub release_file : Option ℕ → Cmd (Kfs D) (Result ℕ)
  release_file none = pure (err einval)
  release_file (some i) = do
    modify λ s. record s { file_list = store s.file_list i closed_file }
    pure (ok 0)

  -- The files from index `i` on, `k` of them.
  release_from : ℕ → ℕ → Cmd (Kfs D) (Unit {0})
  unfolding release_file
  release_from zero i = pure tt
  release_from (suc k) i = do _ ← release_file (some i); release_from k (i + 1)

  unfoldable pub initialize_file_list : Cmd (Kfs D) (Result ℕ)
  unfolding release_from
  initialize_file_list = do release_from max_open_files 0; pure (ok 0)

  unfoldable pub allocate_file : ℕ → Cmd (Kfs D) (Option ℕ)
  unfolding free_from
  allocate_file inode_number s =
      let opened = λ (i : ℕ). record (s.file_list i) {
        inode_number = inode_number;
        file_pos = 0;
        file_size = byte_len s.inode;
        flags = f_in_use;
      } in
      if ltb (num_inodes s.boot_block) inode_number
      then done none s
      else elim (free_from s.file_list max_open_files 0) [
        | none ↦ done none s
        | some i ↦ done (some i) (record s { file_list = store s.file_list i (opened i) })
      ]
