-- ===== src/Kfs/Locked.antt =====
-- src/kern/kfs.c: the lock of the file system, taken and given back.
use illinux.Prelude.{ℕ, ◌≡◌, some, none, arith}
use illinux.Cmd.{done}
use illinux.Kfs.{Kfs}
use illinux.Kfs.Blocks.{lock_acquire, lock_release}

module _ {D : Type 0} (self : ℕ) where
  pub acquire_free :
      (s : Kfs D)
      → s.kfs_lock ≡ none
      → lock_acquire self s ≡ done tt (record s { kfs_lock = some self })
  unfolding lock_acquire
  acquire_free s free = ground arith

  pub release_held :
      (s : Kfs D)
      → s.kfs_lock ≡ some self
      → lock_release self s ≡ done tt (record s { kfs_lock = none })
  unfolding lock_release
  release_held s held = ground arith
