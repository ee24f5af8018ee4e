-- ===== src/Disk.antt =====
-- What src/kern/kfs.c needs of the device it is mounted on: the calls `ctl` with IOCTL_SETPOS,
-- `read` and `write` of its `struct io_intf` (src/kern/io.h), and what these promise.
use illinux.Prelude.{ℕ, ◌+◌, ◌-◌, ◌^◌, ◌≤◌, ◌<◌, ◌≡◌, if◌then◌else◌}
use illinux.Errno.{Result, ok}
use illinux.Mem.{Mem, within}

-- `read` is given the buffer, and returns it with the bytes that the device stored.
pub record Disk (D : Type 0) : Type 0 where
  pub setpos : D → ℕ → D × Result ℕ
  pub read : D → Mem → ℕ → D × Mem × Result ℕ
  pub write : D → Mem → ℕ → D × Result ℕ

-- A device that stores `size` bytes and transfers a whole request that lies inside. The file system
-- has 32-bit offsets, so larger devices are left out.
pub record IsStorage {D : Type 0} (disk : Disk D) : Type 0 where
  pub image : D → Mem
  pub size : D → ℕ
  pub pos : D → ℕ
  pub setpos_ok :
      (d : D) (p : ℕ)
      → size d < 2 ^ 32
      → p ≤ size d
      → ((c : ℕ) × ((disk.setpos d p).1 ≡ ok c))
        × (pos (disk.setpos d p).0 ≡ p)
        × (size (disk.setpos d p).0 ≡ size d)
        × (image (disk.setpos d p).0 ≡ image d)
  pub read_ok :
      (d : D) (buf : Mem) (n : ℕ)
      → size d < 2 ^ 32
      → 1 ≤ n
      → pos d + n ≤ size d
      → ((disk.read d buf n).2 ≡ ok n)
        × ((i : ℕ)
            → (disk.read d buf n).1 i ≡ (if within 0 n i then image d (pos d + i) else buf i))
        × (size (disk.read d buf n).0 ≡ size d)
        × (image (disk.read d buf n).0 ≡ image d)
  pub write_ok :
      (d : D) (buf : Mem) (n : ℕ)
      → size d < 2 ^ 32
      → 1 ≤ n
      → pos d + n ≤ size d
      → ((disk.write d buf n).1 ≡ ok n)
        × (size (disk.write d buf n).0 ≡ size d)
        × ((i : ℕ)
            → image (disk.write d buf n).0 i
              ≡ (if within (pos d) n i then buf (i - pos d) else image d i))
