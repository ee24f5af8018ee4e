-- ===== src/Kfs/OpenFile.antt =====
-- src/kern/kfs.c: what a call of `fs_open` on a file of the mounted device does.
use illinux.Prelude.{
  ℕ, zero, suc, ◌+◌, ◌*◌, ◌^◌, ◌≤◌, ◌<◌, ◌≡◌, refl, ap, ◌∙◌, sym, subst, true, false, none, some,
  ltb, ◌==◌, arith, inl, inr, Bool-cases,
}
use illinux.Errno.{ok}
use illinux.Cmd.{done, then_done, pure}
use illinux.Disk.{Disk, IsStorage}
use illinux.Mem.{Mem, store}
use illinux.Kfs.{
  Kfs, File, fs_blksz, max_db_per_inode, num_dentry, num_inodes, num_data, byte_len, data_block_num,
  f_in_use, f_not_use, max_open_files,
}
use illinux.Kfs.Blocks.{update_inode, lock_acquire, lock_release, allocate_file, free_from}
use illinux.Kfs.Transfer.{update_inode_ok, inode_at, block_at, IsFetched}
use illinux.Kfs.Locked.{acquire_free, release_held}
use illinux.Kfs.Calls.{no_inode, find_inode, fs_open}
use illinux.Kfs.ReadFile.{IsOpen, inode_image, le32-fetched, loaded_state}

free_from_lem :
    (files : ℕ → File) (k i n : ℕ)
    → free_from files k i ≡ some n
    → (n < i + k) × ((files n).flags ≡ f_not_use)
unfolding free_from
free_from_lem files zero i n e = ground arith
free_from_lem files (suc k) i n e = elim (Bool-cases ((files i).flags == f_not_use)) [
  | inl free ↦
      let same : some i ≡ some n = simp (free_from, free) at e in
      let same' : i ≡ n = ground (arith, same) in rw (← same') (omega arith, ground (arith, free))
  | inr used ↦
      let rest = free_from_lem files k (i + 1) n (simp (free_from, used) at e) in
      (omega (arith, rest.0), rest.1)
]

module _ {D : Type 0} (disk : Disk D) (st : IsStorage disk) (self : ℕ) where
  open st use {image, size}

  -- The inode `k` of the mounted device is consistent, and the lock is free.
  pub record IsMounted (s : Kfs D) (k : ℕ) : Type 0 where
    pub mounted : s.disk_io ≡ true
    pub unlocked : s.kfs_lock ≡ none
    pub small : size s.disk < 2 ^ 32
    pub fits : block_at (num_inodes s.boot_block) (num_data s.boot_block) ≤ size s.disk
    pub inode_in : k < num_inodes s.boot_block
    pub capacity : byte_len (inode_image disk st self s.disk k) ≤ max_db_per_inode * fs_blksz
    pub blocks_in :
        (i : ℕ)
        → i * fs_blksz < byte_len (inode_image disk st self s.disk k)
        → data_block_num (inode_image disk st self s.disk k) i < num_data s.boot_block

  -- The file that `fs_open` makes of the inode.
  abbrev pub opened_file : ℕ → ℕ → File
  opened_file k len = record {
    ops = true;
    file_pos = 0;
    file_size = len;
    inode_number = k;
    flags = f_in_use;
  }

  allocate_done :
      (k fd : ℕ) (s : Kfs D)
      → k < num_inodes s.boot_block
      → free_from s.file_list max_open_files 0 ≡ some fd
      → allocate_file k s
        ≡ done (some fd) (record s {
          file_list = store s.file_list fd (record (s.file_list fd) {
            inode_number = k;
            file_pos = 0;
            file_size = byte_len s.inode;
            flags = f_in_use;
          });
        })
  unfolding allocate_file
  allocate_done k fd s k_in free =
      let known : ltb (num_inodes s.boot_block) k ≡ false = ground arith in rw (known, free) refl

  opened-IsOpen :
      (s : Kfs D) (k fd : ℕ) (d₁ : D) (b₁ : Mem) (files : ℕ → File)
      → IsMounted s k
      → IsFetched disk st s.disk (inode_at k) d₁ b₁
      → files fd ≡ opened_file k (byte_len b₁)
      → IsOpen disk st self
          (record s { disk = d₁; inode = b₁; file_list = files; kfs_lock = none })
          fd
  opened-IsOpen s k fd d₁ b₁ files m f e =
      let len : byte_len b₁ ≡ byte_len (inode_image disk st self s.disk k) =
        le32-fetched disk st self 0 f (omega arith) in
      let kept : inode_image disk st self d₁ k ≡ inode_image disk st self s.disk k =
        ap {B = Mem} (λ (im : Mem) (i : ℕ). im (inode_at k + i)) f.kept.image_kept in
      record {
        mounted = m.mounted;
        unlocked = refl;
        small = omega (arith, m.small, f.kept.size_kept);
        fits = omega (arith, m.fits, f.kept.size_kept);
        inode_in = rw e m.inode_in;
        len = rw e (ap byte_len kept ∙ sym len);
        capacity = rw (e, len) m.capacity;
        pos_in = rw e (omega arith);
        blocks_in = λ i lt.
            let lt' : i * fs_blksz < byte_len b₁ =
              subst (λ (x : File). i * fs_blksz < x.file_size) e lt in
            rw e (
              subst (λ (im : Mem). data_block_num im i < num_data s.boot_block) (sym kept)
                (m.blocks_in i (omega (arith, len, lt'))));
      }

  fs_open_run :
      (k fd : ℕ) (name : Mem) (s : Kfs D) {s₂ s₃ : Kfs D}
      → s.kfs_lock ≡ none
      → find_inode s.boot_block name (num_dentry s.boot_block) 0 ≡ k
      → (k == no_inode) ≡ false
      → update_inode disk k (record s { kfs_lock = some self }) ≡ done (ok 0) s₂
      → allocate_file k s₂ ≡ done (some fd) s₃
      → s₃.kfs_lock ≡ some self
      → fs_open disk self (some name) true s
        ≡ done (ok fd) (record s₃ {
          file_list = store s₃.file_list fd (record (s₃.file_list fd) { ops = true });
          kfs_lock = none;
        })
  unfolding fs_open
  fs_open_run k fd name s {s₂} {s₃} free found known loaded allocated held =
      then_done (lock_acquire self) _ (acquire_free self s free)
      ∙ rw (found, known)
          (then_done (update_inode disk k) _ loaded
            ∙ rw found (
                then_done (allocate_file k) _ allocated
                ∙ then_done (lock_release self) (λ x. pure (ok fd))
                    {s = record s₃ {
                      file_list = store s₃.file_list fd (record (s₃.file_list fd) { ops = true });
                    }}
                    (release_held self
                      (record s₃ {
                        file_list = store s₃.file_list fd (record (s₃.file_list fd) { ops = true });
                      })
                      held)))

  store_twice :
      (files : ℕ → File) (fd : ℕ) (a : File)
      → let files' = store files fd a in
        store files' fd (record (files' fd) { ops = true }) fd ≡ record a { ops = true }
  store_twice files fd a = let hit : (fd == fd) ≡ true = ground arith in rw hit refl

  -- Where the directory names an inode for the file, a device with that inode consistent is mounted,
  -- the lock is free and `fd` is the first unused file, `fs_open` returns that file: it was not in use,
  -- and is open now as `fs_read` needs it, at position 0 and with the inode's length.
  pub fs_open-IsOpen :
      (k fd : ℕ) (name : Mem) (s : Kfs D)
      → find_inode s.boot_block name (num_dentry s.boot_block) 0 ≡ k
      → (k == no_inode) ≡ false
      → IsMounted s k
      → free_from s.file_list max_open_files 0 ≡ some fd
      → (s' : Kfs D) × (fs_open disk self (some name) true s ≡ done (ok fd) s')
        × IsOpen disk st self s' fd
        × (s'.file_list fd ≡ opened_file k (byte_len (inode_image disk st self s.disk k)))
        × (fd < max_open_files)
        × ((s.file_list fd).flags ≡ f_not_use)
  fs_open-IsOpen k fd name s found known m free =
      let (d₁, b₁, loaded, fetched) =
        update_inode_ok disk st (record s { kfs_lock = some self }) k m.mounted m.small
          (omega (arith, m.fits, m.inode_in)) in
      let (fd_in, unused) = free_from_lem s.file_list max_open_files 0 fd free in
      let new : File = record (s.file_list fd) {
        inode_number = k;
        file_pos = 0;
        file_size = byte_len b₁;
        flags = f_in_use;
      } in
      let files₁ : ℕ → File = store s.file_list fd new in
      let files : ℕ → File = store files₁ fd (record (files₁ fd) { ops = true }) in
      let here : files fd ≡ opened_file k (byte_len b₁) = store_twice s.file_list fd new in
      let len : byte_len b₁ ≡ byte_len (inode_image disk st self s.disk k) =
        le32-fetched disk st self 0 fetched (omega arith) in
      (
        record s { disk = d₁; inode = b₁; file_list = files; kfs_lock = none },
        fs_open_run k fd name s m.unlocked found known loaded
            (allocate_done k fd (loaded_state disk st self s d₁ b₁) m.inode_in free) refl,
        opened-IsOpen s k fd d₁ b₁ files m fetched here,
        here ∙ ap (opened_file k) len,
        fd_in,
        unused,
      )
