-- ===== src/Kfs/ReadFile.antt =====
-- src/kern/kfs.c: what a call of `fs_read` on an open file does.
use illinux.Prelude.{
  ℕ, ◌+◌, ◌-◌, ◌*◌, ◌/◌, ◌^◌, ◌≤◌, ◌<◌, ◌≡◌, refl, ◌∙◌, true, false, arith, ltb, leb, if◌then◌else◌,
  Bool-cases, ltb→lt, inl, inr, none, some, min, ◌==◌,
}
use native.Mathlib.Nat.{add-zero}
use illinux.Errno.{ok}
use illinux.Cmd.{done, then_done}
use illinux.Disk.{Disk, IsStorage}
use illinux.Mem.{Mem, le32}
use illinux.Kfs.{
  Kfs, u32, fs_blksz, max_db_per_inode, num_inodes, num_data, byte_len, data_block_num,
}
use illinux.Kfs.Blocks.{update_inode, lock_acquire, lock_release}
use illinux.Kfs.Transfer.{update_inode_ok, inode_at, block_at, IsKept, IsFetched}
use illinux.Kfs.Locked.{acquire_free, release_held}
use illinux.Kfs.Calls.{read_loop, fs_read, advance, allocated_blocks}
use illinux.Kfs.Read.{file_byte, IsReadable, IsFilled, read_loop_ok}

module _ {D : Type 0} (disk : Disk D) (st : IsStorage disk) (self : ℕ) where
  open st use {image, size}

  -- The inode `k`, as the device holds it.
  abbrev pub inode_image : D → ℕ → Mem
  inode_image d k i = image d (inode_at k + i)

  -- A file that `fs_open` gave out, on a mounted and consistent device, with the lock free.
  pub record IsOpen (s : Kfs D) (fd : ℕ) : Type 0 where
    pub mounted : s.disk_io ≡ true
    pub unlocked : s.kfs_lock ≡ none
    pub small : size s.disk < 2 ^ 32
    pub fits : block_at (num_inodes s.boot_block) (num_data s.boot_block) ≤ size s.disk
    pub inode_in : (s.file_list fd).inode_number < num_inodes s.boot_block
    pub len :
        byte_len (inode_image s.disk (s.file_list fd).inode_number) ≡ (s.file_list fd).file_size
    pub capacity : (s.file_list fd).file_size ≤ max_db_per_inode * fs_blksz
    pub pos_in : (s.file_list fd).file_pos ≤ (s.file_list fd).file_size
    pub blocks_in :
        (i : ℕ)
        → i * fs_blksz < (s.file_list fd).file_size
        → data_block_num (inode_image s.disk (s.file_list fd).inode_number) i
          < num_data s.boot_block

  -- What a call leaves behind that moved the position of `fd` by `cnt`.
  pub record IsMoved (s : Kfs D) (fd cnt : ℕ) (s' : Kfs D) : Type 0 where
    pub unlocked : s'.kfs_lock ≡ none
    pub boot_kept : s'.boot_block ≡ s.boot_block
    pub disk_kept : IsKept disk st s.disk s'.disk
    pub files :
        (j : ℕ)
        → s'.file_list j ≡ (
            if fd == j
            then record (s.file_list fd) { file_pos = (s.file_list fd).file_pos + cnt }
            else s.file_list j)

  -- The call's own steps, between the transfers.
  fs_read_run :
      (fuel fd n cnt : ℕ) (buf buf' : Mem) (s : Kfs D) {s₂ s₃ : Kfs D}
      → 1 ≤ n
      → s.kfs_lock ≡ none
      → (s.file_list fd).file_pos < (s.file_list fd).file_size
      → (s.file_list fd).inode_number < num_inodes s.boot_block
      → update_inode disk (s.file_list fd).inode_number (record s { kfs_lock = some self })
        ≡ done (ok 0) s₂
      → (let left = (s.file_list fd).file_size - (s.file_list fd).file_pos in
          if ltb n left then n else left)
        ≡ cnt
      → read_loop disk self fuel fd cnt (allocated_blocks disk self s₂.inode) 0 buf s₂
        ≡ done (ok cnt, buf') s₃
      → s₃.kfs_lock ≡ some self
      → fs_read disk self fuel (some fd) (some buf) n s
        ≡ done (ok cnt, some buf') (record (advance disk self fd cnt s₃) { kfs_lock = none })
  unfolding fs_read
  fs_read_run fuel fd n cnt buf buf' s {s₂} {s₃} some_bytes free more inode_in loaded count ran
        held =
      let nonzero : (n == 0) ≡ false = ground arith in
      let before_end : leb (s.file_list fd).file_size (s.file_list fd).file_pos ≡ false =
        ground arith in
      let known : leb (num_inodes s.boot_block) (s.file_list fd).inode_number ≡ false =
        ground arith in
      rw nonzero (
        then_done (lock_acquire self) _ (acquire_free self s free)
        ∙ rw (before_end, known)
            (then_done (update_inode disk (s.file_list fd).inode_number) _ loaded
              ∙ rw count (
                  then_done
                    (read_loop disk self fuel fd cnt (allocated_blocks disk self s₂.inode) 0 buf) _
                    ran
                  ∙ then_done (lock_release self) _
                      (release_held self (advance disk self fd cnt s₃) held))))

  -- At the end of the file the call returns 0 and changes nothing.
  fs_read_end :
      (fuel fd n : ℕ) (buf : Mem) (s : Kfs D)
      → 1 ≤ n
      → s.kfs_lock ≡ none
      → (s.file_list fd).file_size ≤ (s.file_list fd).file_pos
      → fs_read disk self fuel (some fd) (some buf) n s
        ≡ done (ok 0, some buf) (record s { kfs_lock = none })
  unfolding fs_read
  fs_read_end fuel fd n buf s some_bytes free end =
      let nonzero : (n == 0) ≡ false = ground arith in
      let at_end : leb (s.file_list fd).file_size (s.file_list fd).file_pos ≡ true = ground arith in
      rw nonzero (
        then_done (lock_acquire self) _ (acquire_free self s free)
        ∙ rw at_end (
            then_done (lock_release self) _
              (release_held self (record s { kfs_lock = some self }) refl)))

  -- The loaded inode has the fields of the inode on the device.
  pub le32-fetched :
      {d d' : D} {p : ℕ} {b : Mem} (o : ℕ)
      → IsFetched disk st d p d' b
      → o + 4 ≤ fs_blksz
      → le32 b o ≡ le32 (λ i. image d (p + i)) o
  le32-fetched o f fits = rw (
    f.bytes o (omega arith),
    f.bytes (o + 1) (omega arith),
    f.bytes (o + 2) (omega arith),
    f.bytes (o + 3) (omega arith),
  )

  IsReadable-loaded :
      (s : Kfs D) (fd cnt : ℕ) {d' : D} {b' : Mem}
      → IsOpen s fd
      → (s.file_list fd).file_pos + cnt ≤ (s.file_list fd).file_size
      → IsFetched disk st s.disk (inode_at (s.file_list fd).inode_number) d' b'
      → IsReadable disk st self (record s { kfs_lock = some self; disk = d'; inode = b' }) fd cnt
  IsReadable-loaded s fd cnt o le f = record {
    mounted = o.mounted;
    small = omega (arith, o.small, f.kept.size_kept);
    fits = omega (arith, o.fits, f.kept.size_kept);
    capacity = omega (arith, o.capacity);
    blocks_in = λ i lt.
        rw (le32-fetched (4 + i * 4) f (omega (arith, o.capacity))) (o.blocks_in i (omega arith));
  }

  -- A byte of the file, by the loaded inode and by the inode on the device.
  file_byte-loaded :
      (s : Kfs D) (fd j : ℕ) {d' : D} {b' : Mem}
      → (s.file_list fd).file_size ≤ max_db_per_inode * fs_blksz
      → j < (s.file_list fd).file_size
      → IsFetched disk st s.disk (inode_at (s.file_list fd).inode_number) d' b'
      → file_byte (image d') s.boot_block b' j
        ≡ file_byte (image s.disk) s.boot_block (inode_image s.disk (s.file_list fd).inode_number) j
  file_byte-loaded s fd j cap lt f =
      rw (f.kept.image_kept, le32-fetched (4 + j / fs_blksz * 4) f (omega arith))

  -- What `fs_read` has done when it returned `cnt`, with this buffer and state.
  pub record IsRead (s : Kfs D) (fd cnt : ℕ) (buf buf' : Mem) (s' : Kfs D) : Type 0 where
    pub moved : IsMoved s fd cnt s'
    pub bytes :
        (i : ℕ)
        → buf' i ≡ (
            if ltb i cnt
            then file_byte
                (image s.disk)
                s.boot_block
                (inode_image s.disk (s.file_list fd).inode_number)
                ((s.file_list fd).file_pos + i)
            else buf i)

  IsRead-end :
      (s : Kfs D) (fd : ℕ) (buf : Mem) → IsRead s fd 0 buf buf (record s { kfs_lock = none })
  IsRead-end s fd buf = record {
    moved = record {
      unlocked = refl;
      boot_kept = refl;
      disk_kept = record { image_kept = refl; size_kept = refl };
      files = λ j. ground (arith, add-zero (s.file_list fd).file_pos);
    };
    bytes = λ i. ground arith;
  }

  abbrev pub loaded_state : Kfs D → D → Mem → Kfs D
  loaded_state s d b = record s { kfs_lock = some self; disk = d; inode = b }

  module _ (s : Kfs D) (fd cnt : ℕ) (d₁ : D) (b₁ : Mem) (o : IsOpen s fd)
      (le : (s.file_list fd).file_pos + cnt ≤ (s.file_list fd).file_size)
      (fetched : IsFetched disk st s.disk (inode_at (s.file_list fd).inode_number) d₁ b₁) where
    fits_allocated : (s.file_list fd).file_pos + cnt ≤ allocated_blocks disk self b₁ * fs_blksz
    fits_allocated =
        let len : byte_len b₁ ≡ (s.file_list fd).file_size =
          le32-fetched 0 fetched (omega arith) ∙ o.len in
        rw len (omega (arith, o.capacity))

    IsRead-loop :
        {d₂ : D} {b₂ buf buf' : Mem}
        → IsKept disk st d₁ d₂
        → IsFilled disk st self (loaded_state s d₁ b₁) fd cnt buf buf'
        → IsRead s fd cnt buf buf'
            (record (advance disk self fd cnt
              (record (loaded_state s d₁ b₁) { disk = d₂; data_block = b₂ })) { kfs_lock = none })
    IsRead-loop {buf} kept filled = record {
      moved = record {
        unlocked = refl;
        boot_kept = refl;
        disk_kept = record {
          image_kept = kept.image_kept ∙ fetched.kept.image_kept;
          size_kept = kept.size_kept ∙ fetched.kept.size_kept;
        };
        files = λ j. rw small_pos;
      };
      bytes = λ i. filled i ∙ same_byte i;
    }
      where
        small_pos : u32 ((s.file_list fd).file_pos + cnt) ≡ (s.file_list fd).file_pos + cnt
        small_pos = omega (arith, o.capacity)

        same_byte :
            (i : ℕ)
            → (if ltb i cnt
                then file_byte (image d₁) s.boot_block b₁ ((s.file_list fd).file_pos + i)
                else buf i)
              ≡ (if ltb i cnt
                  then file_byte
                      (image s.disk)
                      s.boot_block
                      (inode_image s.disk (s.file_list fd).inode_number)
                      ((s.file_list fd).file_pos + i)
                  else buf i)
        same_byte i = elim (Bool-cases (ltb i cnt)) [
          | inl inside ↦ rw inside (
              file_byte-loaded s fd ((s.file_list fd).file_pos + i) o.capacity
                (omega (arith, ltb→lt i cnt inside)) fetched)
          | inr outside ↦ rw outside
        ]

    fs_read_rest :
        (fuel n : ℕ) (buf : Mem)
        → 1 ≤ n
        → n < fuel
        → (s.file_list fd).file_pos < (s.file_list fd).file_size
        → cnt ≡ min n ((s.file_list fd).file_size - (s.file_list fd).file_pos)
        → update_inode disk (s.file_list fd).inode_number (record s { kfs_lock = some self })
          ≡ done (ok 0) (loaded_state s d₁ b₁)
        → (s' : Kfs D) × (buf' : Mem) × (fs_read disk self fuel (some fd) (some buf) n s
            ≡ done (ok cnt, some buf') s')
          × IsRead s fd cnt buf buf' s'
    fs_read_rest fuel n buf some_bytes fuel_ok more count loaded =
        let (d₂, b₂, buf', ran, kept, filled) =
          read_loop_ok disk st self fuel (loaded_state s d₁ b₁) fd cnt
            (allocated_blocks disk self b₁) 0 buf buf (IsReadable-loaded s fd cnt o le fetched)
            fits_allocated (omega arith) (omega arith) (λ i. ground arith) in
        let s₃ : Kfs D = record (loaded_state s d₁ b₁) { disk = d₂; data_block = b₂ } in
        (
          record (advance disk self fd cnt s₃) { kfs_lock = none },
          buf',
          fs_read_run fuel fd n cnt buf buf' s {s₂ = loaded_state s d₁ b₁} {s₃ = s₃} some_bytes
              o.unlocked more o.inode_in loaded (ground arith) ran refl,
          IsRead-loop kept filled,
        )

  -- On an open file of a consistent device `fs_read` returns min(n, bytes left), stores exactly those
  -- bytes of the file in the buffer and leaves the rest of it alone, moves the position of that file
  -- alone, changes no byte of the device and gives the lock back, when `n` is at least 1 and the loop
  -- has more fuel than `n`.
  pub fs_read_ok :
      (fuel fd n : ℕ) (buf : Mem) (s : Kfs D)
      → 1 ≤ n
      → n < fuel
      → IsOpen s fd
      → let cnt = min n ((s.file_list fd).file_size - (s.file_list fd).file_pos) in
        (s' : Kfs D) × (buf' : Mem) × (fs_read disk self fuel (some fd) (some buf) n s
          ≡ done (ok cnt, some buf') s')
        × IsRead s fd cnt buf buf' s'
  fs_read_ok fuel fd n buf s some_bytes fuel_ok o =
      let size : ℕ = (s.file_list fd).file_size in
      let pos : ℕ = (s.file_list fd).file_pos in
      let cnt : ℕ = min n (size - pos) in
      elim (Bool-cases (leb size pos)) [
        | inl end ↦
            let none_left : cnt ≡ 0 = ground arith in
            rw none_left (
              record s { kfs_lock = none },
              buf,
              fs_read_end fuel fd n buf s some_bytes o.unlocked (ground arith),
              IsRead-end s fd buf,
            )
        | inr more ↦
            let (d₁, b₁, loaded, fetched) =
              update_inode_ok disk st (record s { kfs_lock = some self })
                (s.file_list fd).inode_number o.mounted o.small
                (omega (arith, o.fits, o.inode_in)) in
            fs_read_rest s fd cnt d₁ b₁ o (omega (arith, o.pos_in)) fetched fuel n buf some_bytes
              fuel_ok (ground arith) refl loaded
      ]
