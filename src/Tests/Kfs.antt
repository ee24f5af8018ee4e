-- ===== src/Tests/Kfs.antt =====
-- src/kern/kfs.c at concrete inputs: a device of three blocks in memory, with one file of 5 bytes
-- that is open as file 0 at position 1.
use illinux.Prelude.{◌*◌, ◌≡◌, refl, true, none, some, arith, ◌==◌, if◌then◌else◌}
use illinux.Errno.{ok}
use illinux.Cmd.{done}
use illinux.Mem.{Mem}
use illinux.Io.Lit.{Lit}
use illinux.Io.LitLaws.{lit_disk, lit_IsStorage}
use illinux.Kfs.{Kfs, File}
use illinux.Kfs.Calls.{fs_read, fs_write}
use illinux.Kfs.ReadFile.{IsOpen, IsRead, fs_read_ok}
use illinux.Kfs.WriteFile.{HasBlocks, IsWrote}
use illinux.Kfs.WriteCall.{fs_write_ok}

abbrev boot : Mem
boot i = if i == 0 then 1 else if i == 4 then 1 else if i == 8 then 1 else 0

-- The boot block, the inode with its length, and the data block.
abbrev image : Mem
image i =
    if i == 0
    then 1
    else if i == 4
    then 1
    else if i == 8
    then 1
    else if i == 4096
    then 5
    else if i == 8193
    then 66
    else 0

abbrev device : Lit
device = record { ops = true; buf = true; mem = image; size = 3 * 4096; pos = 0 }

abbrev file : File
file = record { ops = true; file_pos = 1; file_size = 5; inode_number = 0; flags = 1 }

abbrev mounted : Kfs Lit
mounted = record {
  boot_block = boot;
  inode = λ i. 0;
  data_block = λ i. 0;
  file_list = λ j. file;
  disk = device;
  disk_io = true;
  kfs_lock = none;
}

file-IsOpen : IsOpen lit_disk lit_IsStorage 7 mounted 0
unfolding lit_IsStorage
file-IsOpen = record {
  mounted = refl;
  unlocked = refl;
  small = omega arith;
  fits = omega arith;
  inode_in = omega arith;
  len = refl;
  capacity = omega arith;
  pos_in = omega arith;
  blocks_in = λ i lt. ground arith;
}

file-HasBlocks : HasBlocks lit_disk lit_IsStorage 7 mounted 0
unfolding lit_IsStorage
file-HasBlocks = record { distinct = λ i k li lk e. omega (arith, li, lk) }

fs_read_ok_example :
    (s' : Kfs Lit) × (buf' : Mem) × (fs_read lit_disk 7 4 (some 0) (some (λ i. 9)) 3 mounted
      ≡ done (ok 3, some buf') s')
    × IsRead lit_disk lit_IsStorage 7 mounted 0 3 (λ i. 9) buf' s'
fs_read_ok_example =
    fs_read_ok lit_disk lit_IsStorage 7 4 0 3 (λ i. 9) mounted (omega arith) (omega arith)
      file-IsOpen

fs_write_ok_example :
    (s' : Kfs Lit) × (fs_write lit_disk 7 4 (some 0) (some (λ i. 9)) 3 mounted ≡ done (ok 3) s')
    × IsWrote lit_disk lit_IsStorage 7 mounted 0 3 (λ i. 9) s'
fs_write_ok_example =
    fs_write_ok lit_disk lit_IsStorage 7 4 0 3 (λ i. 9) mounted (omega arith) (omega arith)
      (omega arith) file-IsOpen file-HasBlocks
