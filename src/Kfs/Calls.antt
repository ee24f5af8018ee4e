-- ===== src/Kfs/Calls.antt =====
-- src/kern/kfs.c: mounting, opening, closing, reading and writing. `self` is the thread that runs
-- the code, and a null pointer is `none`. `debug` and `trace` print only, and are left out.
use illinux.Prelude.{
  ℕ, zero, suc, ◌+◌, ◌-◌, ◌/◌, ◌%◌, Bool, true, false, ◌||◌, Option, none, some, ltb, leb, ◌==◌,
  if◌then◌else◌,
}
use illinux.Errno.{Result, ok, err, einval, eio, ebusy, enoent}
use illinux.Cmd.{timeout, Cmd, pure, ◌>>=◌, ◌>>◌, get, modify}
use illinux.Disk.{Disk}
use illinux.Mem.{Mem, store, memcpy}
use illinux.Str.{strncmp}
use illinux.Prelude.Int.{is_zero}
use illinux.Kfs.{
  Kfs, u32, fs_namelen, fs_blksz, max_db_per_inode, num_dentry, num_inodes, num_data, dentry,
  dentry_inode, byte_len, data_block_num,
}
use illinux.Kfs.Blocks.{
  lock_acquire, lock_release, is_block, update_inode, update_data_block, write_data_block,
  write_inode, release_file, initialize_file_list, allocate_file,
}

-- The bit pattern of the int -1.
abbrev pub no_inode : ℕ
no_inode = 0xffff_ffff

-- The loop of `fs_open` over the directory entries from `i` on, `k` of them.
unfoldable pub find_inode : Mem → Mem → ℕ → ℕ → ℕ
find_inode boot name zero i = no_inode
find_inode boot name (suc k) i =
    let rest = find_inode boot name k (i + 1) in
    if is_zero (strncmp boot (dentry i) name 0 fs_namelen) then dentry_inode boot i else rest

module _ {D : Type 0} (disk : Disk D) (self : ℕ) where
  -- `io` is a device other than the one mounted, or NULL.
  unfoldable pub fs_mount : Option D → Cmd (Kfs D) (Result ℕ)
  unfolding initialize_file_list
  fs_mount none = pure (err einval)
  fs_mount (some io) = do
    modify λ s. record s { kfs_lock = none }
    let (io, ret) = disk.setpos io 0
    elim ret [
      | err e ↦ pure (err e)
      | ok c ↦ do
        _ ← initialize_file_list
        s ← get
        let (io, boot, ret) = disk.read io s.boot_block fs_blksz
        modify λ s. record s { boot_block = boot }
        if is_block ret
            then (do modify λ s. record s { disk = io; disk_io = true }; pure (ok 0))
            else pure (err eio)
    ]

  -- The end of a path that has the lock.
  abbrev pub unlock_and : {A : Type 0} → A → Cmd (Kfs D) A
  unlock_and a = do lock_release self; pure a

  -- `ok i` is the return of 0 with `*ioptr` set to the interface of file `i`. `ioptr` tells that
  -- the pointer is not NULL.
  unfoldable pub fs_open : Option Mem → Bool → Cmd (Kfs D) (Result ℕ)
  fs_open none ioptr = pure (err einval)
  fs_open (some name) false = pure (err einval)
  fs_open (some name) true = do
    lock_acquire self
    s ← get
    let inode_number = find_inode s.boot_block name (num_dentry s.boot_block) 0
    if inode_number == no_inode then unlock_and (err enoent) else do
      ret ← update_inode disk inode_number
      elim ret [
        | err e ↦ unlock_and (err eio)
        | ok c ↦ do
          fd ← allocate_file inode_number
          elim fd [
            | none ↦ unlock_and (err ebusy)
            | some i ↦ do
              modify λ s. record s {
                file_list = store s.file_list i (record (s.file_list i) { ops = true });
              }
              unlock_and (ok i)
          ]
      ]

  unfoldable pub fs_close : Option ℕ → Cmd (Kfs D) (Unit {0})
  unfolding release_file
  fs_close none = pure tt
  fs_close (some fd) = do _ ← release_file (some fd); pure tt

  -- The new position of a file, as a uint32_t.
  abbrev pub advance : ℕ → ℕ → Kfs D → Kfs D
  advance fd cnt s =
      let f = s.file_list fd in
      record s { file_list = store s.file_list fd (record f { file_pos = u32 (f.file_pos + cnt) }) }

  abbrev pub allocated_blocks : Mem → ℕ
  allocated_blocks inode = u32 (byte_len inode + fs_blksz - 1) / fs_blksz

  -- The loop of `fs_write`. `ok` is its end, and `err` the return of -EIO from inside it.
  unfoldable pub write_loop :
      ℕ → (fd : ℕ) → Mem → (n allocated written : ℕ) → Cmd (Kfs D) (Result ℕ)
  write_loop zero fd buf n allocated written = λ s. timeout
  write_loop (suc fuel) fd buf n allocated written =
      if ltb written n
      then (do
        s ← get
        let byte_offset = u32 ((s.file_list fd).file_pos + written)
        let block_idx = byte_offset / fs_blksz
        let block_offset = byte_offset % fs_blksz
        let bytes_in_block = fs_blksz - block_offset
        let bytes_left = u32 (n - written)
        let bytes_to_copy = if ltb bytes_in_block bytes_left then bytes_in_block else bytes_left
        if leb allocated block_idx || leb max_db_per_inode block_idx then pure (ok written) else do
          ret ← update_data_block disk (data_block_num s.inode block_idx)
          elim ret [
            | err e ↦ unlock_and (err eio)
            | ok c ↦ do
              modify λ s. record s {
                data_block = memcpy s.data_block block_offset buf written bytes_to_copy;
              }
              ret ← write_data_block disk (data_block_num s.inode block_idx)
              elim ret [
                | err e ↦ unlock_and (err eio)
                | ok c ↦ write_loop fuel fd buf n allocated (written + bytes_to_copy)
              ]
          ])
      else pure (ok written)

  -- `fuel` bounds the rounds of the loop. The file system has no way to learn of it.
  unfoldable pub fs_write : ℕ → Option ℕ → Option Mem → ℕ → Cmd (Kfs D) (Result ℕ)
  fs_write fuel none buf n = pure (err einval)
  fs_write fuel (some fd) none n = pure (err einval)
  fs_write fuel (some fd) (some buf) n = if n == 0 then pure (ok n) else do
    lock_acquire self
    s ← get
    let inode_number = (s.file_list fd).inode_number
    if leb (num_inodes s.boot_block) inode_number then unlock_and (err eio) else do
      ret ← update_inode disk inode_number
      elim ret [
        | err e ↦ unlock_and (err eio)
        | ok c ↦ do
          s ← get
          ret ← write_loop fuel fd buf n (allocated_blocks s.inode) 0
          elim ret [
            | err e ↦ pure (err e)
            | ok written ↦ do
              modify (advance fd written)
              ret ← write_inode disk inode_number
              elim ret [ err e ↦ unlock_and (err eio) | ok c ↦ unlock_and (ok written) ]
          ]
      ]

  -- The loop of `fs_read`, which also returns the buffer.
  unfoldable pub read_loop :
      ℕ → (fd : ℕ) → (bytes_to_read allocated read : ℕ) → Mem → Cmd (Kfs D) (Result ℕ × Mem)
  read_loop zero fd bytes_to_read allocated read buf = λ s. timeout
  read_loop (suc fuel) fd bytes_to_read allocated read buf =
      if ltb read bytes_to_read
      then (do
        s ← get
        let byte_offset = u32 ((s.file_list fd).file_pos + read)
        let block_idx = byte_offset / fs_blksz
        let block_offset = byte_offset % fs_blksz
        let bytes_in_block = fs_blksz - block_offset
        let bytes_left = bytes_to_read - read
        let bytes_to_copy = if ltb bytes_in_block bytes_left then bytes_in_block else bytes_left
        let data_block_idx = data_block_num s.inode block_idx
        if leb allocated block_idx || leb max_db_per_inode block_idx
            then unlock_and (err eio, buf)
            else if leb (num_data s.boot_block) data_block_idx
            then unlock_and (err eio, buf)
            else do
              ret ← update_data_block disk data_block_idx
              elim ret [
                | err e ↦ unlock_and (err eio, buf)
                | ok c ↦ do
                  s ← get
                  read_loop fuel fd bytes_to_read allocated (read + bytes_to_copy)
                      (memcpy buf read s.data_block block_offset bytes_to_copy)
              ])
      else pure (ok read, buf)

  unfoldable pub fs_read : ℕ → Option ℕ → Option Mem → ℕ → Cmd (Kfs D) (Result ℕ × Option Mem)
  fs_read fuel none buf n = pure (err einval, buf)
  fs_read fuel (some fd) none n = pure (err einval, none)
  fs_read fuel (some fd) (some buf) n = if n == 0 then pure (ok n, some buf) else do
    lock_acquire self
    s ← get
    let f = s.file_list fd
    if leb f.file_size f.file_pos
        then unlock_and (ok 0, some buf)
        else if leb (num_inodes s.boot_block) f.inode_number
        then unlock_and (err eio, some buf)
        else do
          ret ← update_inode disk f.inode_number
          elim ret [
            | err e ↦ unlock_and (err eio, some buf)
            | ok c ↦ do
              s ← get
              let bytes_remaining = f.file_size - f.file_pos
              let bytes_to_read = if ltb n bytes_remaining then n else bytes_remaining
              (ret, buf) ← read_loop fuel fd bytes_to_read (allocated_blocks s.inode) 0 buf
              elim ret [
                | err e ↦ pure (err e, some buf)
                | ok read ↦ do modify (advance fd read); unlock_and (ok read, some buf)
              ]
          ]
