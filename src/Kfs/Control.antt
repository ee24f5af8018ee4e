-- ===== src/Kfs/Control.antt =====
-- src/kern/kfs.c: `fs_ioctl` and its helpers. `arg` is the uint32_t that the pointer points at, or
-- `none` for NULL; each helper returns it with the result.
use illinux.Prelude.{ℕ, Option, none, some, ltb, ◌==◌, if◌then◌else◌}
use illinux.Errno.{Result, ok, err, einval, enotsup}
use illinux.Cmd.{Cmd, pure, ◌>>=◌, ◌>>◌, get, modify}
use illinux.Mem.{store}
use illinux.Io.{ioctl_getlen, ioctl_getpos, ioctl_setpos, ioctl_getblksz}
use illinux.Kfs.{Kfs, fs_blksz}
use illinux.Kfs.Blocks.{lock_acquire, lock_release}

module _ {D : Type 0} (self : ℕ) where
  fs_getlen : Option ℕ → Option ℕ → Cmd (Kfs D) (Result ℕ × Option ℕ)
  fs_getlen none arg = pure (err einval, arg)
  fs_getlen (some fd) none = pure (err einval, none)
  fs_getlen (some fd) (some a) = do s ← get; pure (ok 0, some (s.file_list fd).file_size)

  fs_getpos : Option ℕ → Option ℕ → Cmd (Kfs D) (Result ℕ × Option ℕ)
  fs_getpos none arg = pure (err einval, arg)
  fs_getpos (some fd) none = pure (err einval, none)
  fs_getpos (some fd) (some a) = do s ← get; pure (ok 0, some (s.file_list fd).file_pos)

  fs_setpos : Option ℕ → Option ℕ → Cmd (Kfs D) (Result ℕ × Option ℕ)
  unfolding lock_acquire lock_release
  fs_setpos none arg = pure (err einval, arg)
  fs_setpos (some fd) none = pure (err einval, none)
  fs_setpos (some fd) (some p) = do
    lock_acquire self
    s ← get
    let f = s.file_list fd
    if ltb f.file_size p then (do lock_release self; pure (err einval, some p)) else do
      modify λ s. record s { file_list = store s.file_list fd (record f { file_pos = p }) }
      lock_release self
      pure (ok 0, some p)

  fs_getblksz : Option ℕ → Option ℕ → Cmd (Kfs D) (Result ℕ × Option ℕ)
  fs_getblksz none arg = pure (err einval, arg)
  fs_getblksz (some fd) none = pure (err einval, none)
  fs_getblksz (some fd) (some a) = pure (ok 0, some fs_blksz)

  unfoldable pub fs_ioctl : Option ℕ → ℕ → Option ℕ → Cmd (Kfs D) (Result ℕ × Option ℕ)
  unfolding fs_getlen fs_getpos fs_setpos fs_getblksz
  fs_ioctl none cmd arg = pure (err einval, arg)
  fs_ioctl (some fd) cmd none = pure (err einval, none)
  fs_ioctl (some fd) cmd (some a) =
      if cmd == ioctl_getlen
      then fs_getlen (some fd) (some a)
      else if cmd == ioctl_getpos
      then fs_getpos (some fd) (some a)
      else if cmd == ioctl_setpos
      then fs_setpos (some fd) (some a)
      else if cmd == ioctl_getblksz
      then fs_getblksz (some fd) (some a)
      else pure (err enotsup, some a)
