-- ===== src/Tests/KfsOpen.antt =====
-- src/kern/kfs.c at concrete inputs: opening a file and setting its position.
use illinux.Prelude.{◌*◌, ◌<◌, ◌≡◌, refl, true, none, some, arith, ◌==◌, if◌then◌else◌}
use illinux.Errno.{ok}
use illinux.Cmd.{done}
use illinux.Mem.{Mem}
use illinux.Io.Lit.{Lit}
use illinux.Io.LitLaws.{lit_disk, lit_IsStorage}
use illinux.Kfs.{Kfs, num_dentry}
use illinux.Kfs.Blocks.{closed_file, free_from}
use illinux.Kfs.Calls.{find_inode, fs_open}
use illinux.Kfs.ReadFile.{IsOpen}
use illinux.Kfs.OpenFile.{IsMounted, opened_file, fs_open-IsOpen}
use illinux.Str.{strncmp}

-- One directory entry, named "a", for inode 0, with 5 bytes in data block 0.
abbrev boot : Mem
boot i = if i == 0 then 1 else if i == 4 then 1 else if i == 8 then 1 else if i == 64 then 97 else 0

abbrev image : Mem
image i = if i == 4096 then 5 else boot i

abbrev device : Lit
device = record { ops = true; buf = true; mem = image; size = 3 * 4096; pos = 0 }

abbrev mounted : Kfs Lit
mounted = record {
  boot_block = boot;
  inode = λ i. 0;
  data_block = λ i. 0;
  file_list = λ j. closed_file;
  disk = device;
  disk_io = true;
  kfs_lock = none;
}

abbrev name : Mem
name i = if i == 0 then 97 else 0

mounted-IsMounted : IsMounted lit_disk lit_IsStorage 7 mounted 0
unfolding lit_IsStorage
mounted-IsMounted = record {
  mounted = refl;
  unlocked = refl;
  small = omega arith;
  fits = omega arith;
  inode_in = omega arith;
  capacity = omega arith;
  blocks_in = λ i lt. ground arith;
}

found : find_inode mounted.boot_block name (num_dentry mounted.boot_block) 0 ≡ 0
unfolding find_inode strncmp
found = refl

first_free : free_from mounted.file_list 32 0 ≡ some 0
unfolding free_from
first_free = refl

fs_open-IsOpen_example :
    (s' : Kfs Lit) × (fs_open lit_disk 7 (some name) true mounted ≡ done (ok 0) s')
    × IsOpen lit_disk lit_IsStorage 7 s' 0
    × (s'.file_list 0 ≡ opened_file lit_disk lit_IsStorage 7 0 5)
    × (0 < 32)
    × (closed_file.flags ≡ 0)
unfolding lit_IsStorage
fs_open-IsOpen_example =
    fs_open-IsOpen lit_disk lit_IsStorage 7 0 0 name mounted found refl mounted-IsMounted first_free

abbrev opened : Kfs Lit
opened = record mounted {
  file_list = λ j. record { ops = true; file_pos = 1; file_size = 5; inode_number = 0; flags = 1 };
}
