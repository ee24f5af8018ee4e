-- ===== src/Kfs.antt =====
-- src/kern/kfs.c: the state of the file system.
pub mod Blocks
pub mod Calls
pub mod Control
pub mod Locked
pub mod OpenFile
pub mod Read
pub mod ReadFile
pub mod Seek
pub mod Transfer
pub mod Write
pub mod WriteCall
pub mod WriteFile
pub mod WriteLoop
use illinux.Prelude.{ℕ, ◌+◌, ◌*◌, ◌^◌, ◌%◌, Bool, Option}
use illinux.Mem.{Mem, le32}

abbrev pub fs_namelen : ℕ
fs_namelen = 32

abbrev pub fs_blksz : ℕ
fs_blksz = 4096

abbrev pub max_open_files : ℕ
max_open_files = 32

abbrev pub f_in_use : ℕ
f_in_use = 1

abbrev pub f_not_use : ℕ
f_not_use = 0

abbrev pub max_db_per_inode : ℕ
max_db_per_inode = 1023

abbrev pub u32 : ℕ → ℕ
u32 n = n % 2 ^ 32

-- `file_t`. Of its `io` only whether `ops` is `&fs_io_ops` or NULL; the reference count is the
-- system calls'.
pub record File : Type 0 where
  pub ops : Bool
  pub file_pos : ℕ
  pub file_size : ℕ
  pub inode_number : ℕ
  pub flags : ℕ

-- `boot_block_t`, `inode_t` and `data_block_t` are packed structures of one block: they are the
-- bytes that the device stored, and a field is read at its offset.
abbrev pub num_dentry : Mem → ℕ
num_dentry b = le32 b 0

abbrev pub num_inodes : Mem → ℕ
num_inodes b = le32 b 4

abbrev pub num_data : Mem → ℕ
num_data b = le32 b 8

-- `dir_entries[i].file_name` begins here, and `dir_entries[i].inode` follows it.
abbrev pub dentry : ℕ → ℕ
dentry i = 64 + i * 64

abbrev pub dentry_inode : Mem → ℕ → ℕ
dentry_inode b i = le32 b (dentry i + fs_namelen)

abbrev pub byte_len : Mem → ℕ
byte_len b = le32 b 0

abbrev pub data_block_num : Mem → ℕ → ℕ
data_block_num b i = le32 b (4 + i * 4)

-- The static variables. `disk` is the device that `fs_mount` was given, and `disk_io` tells whether
-- the pointer is set; a file is its index in `file_list`. `kfs_lock` holds the thread that has the
-- lock.
pub record Kfs (D : Type 0) : Type 0 where
  pub boot_block : Mem
  pub inode : Mem
  pub data_block : Mem
  pub file_list : ℕ → File
  pub disk : D
  pub disk_io : Bool
  pub kfs_lock : Option ℕ
