-- ===== src/Vioblk.antt =====
-- src/kern/vioblk.c: the driver of the virtio block device. The device is a parameter: what it answers to a
-- request. The wait for the interrupt is over when the answer is there; the set-up is in Vioblk/Setup.
pub mod Reads
pub mod Writes
pub mod Setup
pub mod Attach
use illinux.Prelude.{
  ℕ, zero, suc, ◌+◌, ◌-◌, ◌*◌, ◌/◌, ◌%◌, ◌^◌, Bool, true, false, not, ◌||◌, Option, none, some, ltb,
  leb, ◌==◌, if◌then◌else◌,
}
use illinux.Cmd.{Cmd, Run, done, panic, blocked, timeout, pure, get, modify, ◌>>=◌, ◌>>◌}
use illinux.Errno.{Errno, ebusy, eio, enotsup, Result, ok, err}
use illinux.Io.{ioctl_getlen, ioctl_getpos, ioctl_setpos, ioctl_getblksz}
use illinux.Mem.{Mem, memcpy}

abbrev pub t_in : ℕ
t_in = 0

abbrev pub t_out : ℕ
t_out = 1

-- What the device sees of a request: the header, the length of the data descriptor, and whether that is
-- marked as written by the device.
pub record Request : Type 0 where
  pub type : ℕ
  pub sector : ℕ
  pub len : ℕ
  pub writable : Bool

pub record Answer (D : Type 0) : Type 0 where
  pub status : ℕ
  pub disk : D
  pub buffer : Mem

-- `struct vioblk_device`, with the lock and the disk behind the device.
pub record Vioblk (D : Type 0) : Type 0 where
  pub opened : Bool
  pub readonly : Bool
  pub blksz : ℕ
  pub pos : ℕ
  pub size : ℕ
  pub bufblkno : ℕ
  pub blkbuf : Mem
  pub data_writable : Bool
  pub avail_idx : ℕ
  pub vio_lock : Bool
  pub disk : D

-- a - b on unsigned long.
abbrev pub unsigned_sub : ℕ → ℕ → ℕ
unsigned_sub a b = (a + 2 ^ 64 - b) % 2 ^ 64

module _ {D : Type 0} (serve : Request → D → Mem → Answer D) where
  abbrev pub assert : Bool → Cmd (Vioblk D) (Unit {0})
  assert b s = if b then done tt s else panic

  abbrev pub vio_lock_acquire : Cmd (Vioblk D) (Unit {0})
  vio_lock_acquire s = if s.vio_lock then blocked else done tt (record s { vio_lock = true })

  abbrev pub vio_lock_release : Cmd (Vioblk D) (Unit {0})
  vio_lock_release s = done tt (record s { vio_lock = false })

  unfoldable pub vioblk_open : Cmd (Vioblk D) (Result ℕ)
  vioblk_open dev =
      if dev.opened
      then done (err ebusy) dev
      else done (ok 0) (record dev { opened = true; pos = 0 })

  unfoldable pub vioblk_close : Cmd (Vioblk D) (Unit {0})
  vioblk_close dev = if dev.opened then done tt (record dev { opened = false }) else panic

  -- The flag of the data descriptor is set for a read and stays.
  unfoldable pub operation_single_blk : ℕ → ℕ → Cmd (Vioblk D) (Result ℕ)
  operation_single_blk sector type dev =
      let writable = dev.data_writable || (type == t_in) in
      let request : Request = record {
        type = type;
        sector = sector % 2 ^ 32;
        len = dev.blksz;
        writable = writable;
      } in
      let answer : Answer D = serve request dev.disk dev.blkbuf in
      done (if answer.status == 0 then ok dev.blksz else err eio) (record dev {
        data_writable = writable;
        avail_idx = (dev.avail_idx + 1) % 2 ^ 16;
        disk = answer.disk;
        blkbuf = answer.buffer;
      })

  -- A round of the loop of `vioblk_read` after its transfer.
  unfoldable pub read_copy : Mem → ℕ → Cmd (Vioblk D) Mem
  read_copy buf at dev =
      done (memcpy buf at dev.blkbuf 0 dev.blksz)
        (record dev { bufblkno = dev.bufblkno + 1; pos = (dev.pos + dev.blksz) % 2 ^ 64 })

  -- The loops, on fuel. The buffer, the offset that is reached in it, and the bytes that are left; the
  -- result is the number of bytes, or the code of the error.
  unfoldable pub read_blocks : ℕ → Mem → ℕ → ℕ → Cmd (Vioblk D) (Mem × Result ℕ)
  read_blocks zero buf at bufsz = λ s. timeout
  read_blocks (suc fuel) buf at zero = pure (buf, ok at)
  read_blocks (suc fuel) buf at (suc left) = do
    s ← get
    result ← operation_single_blk s.bufblkno t_in
    elim result [
      | err e ↦ pure (buf, err eio)
      | ok n ↦ do buf ← read_copy buf at; read_blocks fuel buf (at + n) (unsigned_sub (suc left) n)
    ]

  abbrev pub read_locked : ℕ → Mem → ℕ → Cmd (Vioblk D) (Mem × Result ℕ)
  read_locked fuel buf bufsz = do
    vio_lock_acquire
    r ← read_blocks fuel buf 0 bufsz
    vio_lock_release
    pure r

  unfoldable pub vioblk_read : ℕ → Mem → ℕ → Cmd (Vioblk D) (Mem × Result ℕ)
  vioblk_read fuel buf bufsz = do
    modify λ s. record s { bufblkno = s.pos / s.blksz }
    s ← get
    assert s.opened
    if bufsz == 0
        then pure (buf, ok 0)
        else if not (bufsz % s.blksz == 0)
        then pure (buf, err enotsup)
        else read_locked fuel buf bufsz

  -- The data of a round of the loop of `vioblk_write`.
  unfoldable pub write_copy : Mem → ℕ → Cmd (Vioblk D) (Unit {0})
  write_copy buf at dev = done tt (record dev { blkbuf = memcpy dev.blkbuf 0 buf at dev.blksz })

  unfoldable pub write_blocks : ℕ → Mem → ℕ → ℕ → ℕ → Cmd (Vioblk D) (Result ℕ)
  write_blocks zero buf at sector n = λ s. timeout
  write_blocks (suc fuel) buf at sector zero = pure (ok at)
  write_blocks (suc fuel) buf at sector (suc left) = do
    write_copy buf at
    result ← operation_single_blk sector t_out
    elim result [
      | err e ↦ pure (err eio)
      | ok r ↦ do
        modify λ s. record s { pos = (s.pos + r) % 2 ^ 64 }
        write_blocks fuel buf (at + r) (sector + 1) (unsigned_sub (suc left) r)
    ]

  unfoldable pub vioblk_write : ℕ → Mem → ℕ → Cmd (Vioblk D) (Result ℕ)
  vioblk_write fuel buf n = do
    modify λ s. record s { bufblkno = s.pos / s.blksz }
    s ← get
    assert s.opened
    if s.readonly
        then pure (err eio)
        else if n == 0
        then pure (ok 0)
        else (do vio_lock_acquire; r ← write_blocks fuel buf 0 0 n; vio_lock_release; pure r)

  -- An int of 32 bits as a result: a number of 64 bits loses its upper half.
  abbrev pub to_int : ℕ → ℕ
  to_int n = n % 2 ^ 32

  unfoldable pub vioblk_getlen : Cmd (Vioblk D) (ℕ × ℕ)
  vioblk_getlen dev = done (dev.size, to_int dev.size) dev

  unfoldable pub vioblk_getpos : Cmd (Vioblk D) (ℕ × ℕ)
  vioblk_getpos dev = done (dev.pos, to_int dev.pos) dev

  unfoldable pub vioblk_getblksz : Cmd (Vioblk D) (ℕ × ℕ)
  vioblk_getblksz dev = done (dev.blksz, to_int dev.blksz) dev

  unfoldable pub vioblk_setpos : ℕ → Cmd (Vioblk D) ℕ
  vioblk_setpos new_pos = do
    vio_lock_acquire
    modify λ s. record s { pos = new_pos }
    vio_lock_release
    s ← get
    pure (to_int s.pos)

  -- The number that the command stores behind the pointer, if it does, and its result.
  abbrev pub stored_result : ℕ × ℕ → Option ℕ × Result ℕ
  stored_result r = (some r.0, ok r.1)

  -- `arg` is the number behind the pointer, which is not NULL.
  unfoldable pub vioblk_ioctl : ℕ → ℕ → Cmd (Vioblk D) (Option ℕ × Result ℕ)
  vioblk_ioctl cmd arg =
      if cmd == ioctl_getlen
      then (vioblk_getlen >>= λ r. pure (stored_result r))
      else if cmd == ioctl_getpos
      then (vioblk_getpos >>= λ r. pure (stored_result r))
      else if cmd == ioctl_setpos
      then (vioblk_setpos arg >>= λ r. pure (none, ok r))
      else if cmd == ioctl_getblksz
      then (vioblk_getblksz >>= λ r. pure (stored_result r))
      else pure (none, err enotsup)
