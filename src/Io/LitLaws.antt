-- ===== src/Io/LitLaws.antt =====
-- src/kern/io.c: an I/O literal as the device of a file system.
use illinux.Prelude.{
  ℕ, ◌+◌, ◌-◌, ◌%◌, ◌^◌, ◌≤◌, ◌<◌, ◌≡◌, refl, min, Option, none, some, arith, ltb, ◌==◌,
  if◌then◌else◌, false,
}
use native.Mathlib.Nat.{sub-zero, zero-add}
use illinux.Errno.{ok}
use illinux.Mem.{Mem, within, memcpy, memcpy_lem}
use illinux.Disk.{Disk, IsStorage}
use illinux.Io.{ioctl_setlen, ioctl_setpos}
use illinux.Io.Lit.{Lit, bytes_remaining, lesser, iolit_read, iolit_write, iolit_ioctl}

-- The object as the device of a file system: no pointer that it is given is NULL.
abbrev or_old : Mem → Option Mem → Mem
or_old b none = b
or_old b (some c) = c

abbrev pub lit_disk : Disk Lit
lit_disk = record {
  setpos = λ l p. let (l', a, ret) = iolit_ioctl l ioctl_setpos (some p) in (l', ret);
  read = λ l b n. let (l', b', ret) = iolit_read l (some b) n in (l', or_old b b', ret);
  write = λ l b n. iolit_write l (some b) n;
}

module _ (l : Lit) (small : l.size < 2 ^ 32) where
  pub setpos_stores :
      (p : ℕ)
      → p ≤ l.size
      → let (l', a, ret) = iolit_ioctl l ioctl_setpos (some p) in
        ((c : ℕ) × (ret ≡ ok c)) × (l'.pos ≡ p) × (l'.size ≡ l.size) × (l'.mem ≡ l.mem)
  unfolding iolit_ioctl
  setpos_stores p le = ((0, ground arith), ground arith, ground arith, ground arith)

  pub read_stores :
      (b : Mem) (n : ℕ)
      → 1 ≤ n
      → l.pos + n ≤ l.size
      → let (l', b', ret) = iolit_read l (some b) n in
        (ret ≡ ok n)
        × ((i : ℕ) → or_old b b' i ≡ (if within 0 n i then l.mem (l.pos + i) else b i))
        × (l'.size ≡ l.size)
        × (l'.mem ≡ l.mem)
  unfolding iolit_read
  read_stores b n lo le =
      let count : lesser n (bytes_remaining l) ≡ n = ground arith in
      let nonzero : (n == 0) ≡ false = ground arith in
      rw (nonzero, count) (refl, λ i. rw (memcpy_lem b 0 l.mem l.pos n i, sub-zero), refl, refl)

  pub write_stores :
      (b : Mem) (n : ℕ)
      → 1 ≤ n
      → l.pos + n ≤ l.size
      → let (l', ret) = iolit_write l (some b) n in
        (ret ≡ ok n)
        × (l'.size ≡ l.size)
        × ((i : ℕ) → l'.mem i ≡ (if within l.pos n i then b (i - l.pos) else l.mem i))
  unfolding iolit_write
  write_stores b n lo le =
      let count : lesser n (bytes_remaining l) ≡ n = ground arith in
      let nonzero : (n == 0) ≡ false = ground arith in
      rw (nonzero, count) (refl, refl, λ i. rw (memcpy_lem l.mem l.pos b 0 n i, zero-add))

-- An I/O literal of less than 2^32 bytes is a storage device for the file system: a seek inside it
-- succeeds, and a transfer that lies inside it moves all its bytes and no others.
unfoldable pub lit_IsStorage : IsStorage lit_disk
lit_IsStorage = record {
  image = λ l. l.mem;
  size = λ l. l.size;
  pos = λ l. l.pos;
  setpos_ok = λ l p small le. setpos_stores l small p le;
  read_ok = λ l b n small lo le. read_stores l small b n lo le;
  write_ok = λ l b n small lo le. write_stores l small b n lo le;
}

-- Where the position lies inside the object, a read of at least one byte returns
-- min(n, size - pos), copies those bytes, leaves the rest of the buffer and the object's bytes alone,
-- moves the position by the count and keeps it inside.
pub iolit_read_lem :
    (l : Lit) (b : Mem) (n : ℕ)
    → l.pos ≤ l.size
    → l.size < 2 ^ 64
    → 1 ≤ n
    → let cnt = min n (l.size - l.pos) in
      (b' : Mem) × (iolit_read l (some b) n ≡ (record l { pos = l.pos + cnt }, some b', ok cnt))
      × ((i : ℕ) → b' i ≡ (if ltb i cnt then l.mem (l.pos + i) else b i))
      × (l.pos + cnt ≤ l.size)
unfolding iolit_read
iolit_read_lem l b n inside small lo =
    let cnt : ℕ = min n (l.size - l.pos) in
    let count : lesser n (bytes_remaining l) ≡ cnt = ground arith in
    let nonzero : (n == 0) ≡ false = ground arith in
    let wrap : (l.pos + cnt) % 2 ^ 64 ≡ l.pos + cnt = omega arith in
    (
      memcpy b 0 l.mem l.pos cnt,
      rw (nonzero, count, wrap),
      λ i. rw (memcpy_lem b 0 l.mem l.pos cnt i, sub-zero) (ground arith),
      omega arith,
    )

-- After IOCTL_SETLEN has put the size below the position, the subtraction wraps, and a read returns
-- all `n` bytes that it is asked for, from behind the end of the object.
pub iolit_read_past_end :
    (l : Lit) (b : Mem) (len n : ℕ)
    → len < l.pos
    → l.pos < 2 ^ 64
    → 1 ≤ n
    → n ≤ 2 ^ 64 - l.pos
    → let l' = (iolit_ioctl l ioctl_setlen (some len)).0 in
      ((iolit_read l' (some b) n).2 ≡ ok n) × (l'.size < l'.pos + n)
unfolding iolit_read iolit_ioctl
iolit_read_past_end l b len n below small lo le = (ground arith, ground arith)
