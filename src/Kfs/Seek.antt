-- ===== src/Kfs/Seek.antt =====
-- src/kern/kfs.c: the position of an open file, set and read by `fs_ioctl`.
use illinux.Prelude.{ℕ, none}
use illinux.Mem.{store}
use illinux.Kfs.{Kfs}

module _ {D : Type 0} (self : ℕ) where
  -- The file system with another position of the file, and the lock free.
  abbrev moved : ℕ → ℕ → Kfs D → Kfs D
  moved fd p s = record s {
    file_list = store s.file_list fd (record (s.file_list fd) { file_pos = p });
    kfs_lock = none;
  }
