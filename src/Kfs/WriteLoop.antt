-- ===== src/Kfs/WriteLoop.antt =====
-- src/kern/kfs.c: the loop of `fs_write`, from its single rounds.
use illinux.Prelude.{
  ℕ, ◌+◌, ◌-◌, ◌*◌, ◌/◌, ◌%◌, ◌^◌, ◌≤◌, ◌<◌, ◌≡◌, ◌≢◌, ap, ◌∙◌, true, false, arith, if◌then◌else◌,
  Bool-cases, inl, inr,
}
use native.Mathlib.Decide.{ℕ_discrete}
use illinux.Disk.{Disk, IsStorage}
use illinux.Mem.{Mem, within, memcpy, memcpy_lem}
use illinux.Kfs.{Kfs, u32, fs_blksz, num_inodes, data_block_num}
use illinux.Kfs.Transfer.{block_at, IsFetched, IsStored}
use illinux.Kfs.Read.{file_byte}
use illinux.Kfs.Write.{piece, offset, IsWritable, IsWritten}

module _ {D : Type 0} (disk : Disk D) (st : IsStorage disk) (self : ℕ) where
  open st use {image, size}

  -- Loading a block, copying into it and storing it changes the copied bytes alone.
  pub patched :
      {d₁ d₂ d₃ : D} {at : ℕ} {b : Mem} (inner copied written : ℕ) (buf : Mem)
      → inner + copied ≤ fs_blksz
      → IsFetched disk st d₁ at d₂ b
      → IsStored disk st d₂ at (memcpy b inner buf written copied) d₃
      → (a : ℕ)
      → image d₃ a
        ≡ (if within (at + inner) copied a then buf (written + (a - (at + inner))) else image d₁ a)
  patched {d₁} {d₂} {d₃} {at} {b} inner copied written buf fits f t a =
      elim (Bool-cases (within at fs_blksz a)) [
        | inl here ↦
            let back : at + (a - at) ≡ a = ground arith in
            let lt : a - at < fs_blksz = ground arith in
            let old : b (a - at) ≡ image d₁ a = f.bytes (a - at) lt ∙ ap (image d₁) back in
            let regroup : a - at - inner ≡ a - (at + inner) = omega arith in
            t.bytes a
            ∙ rw (here, memcpy_lem b inner buf written copied (a - at), old, regroup) (ground arith)
        | inr away ↦ t.bytes a ∙ rw (away, f.kept.image_kept) (ground arith)
      ]

  module _ (s : Kfs D) (fd allocated n written : ℕ) (buf : Mem)
      (w : IsWritable disk st self s fd allocated) (more : written < n) (n_small : n < 2 ^ 32)
      (inside : (s.file_list fd).file_pos + written < allocated * fs_blksz) where
    abbrev pub off : ℕ
    off = offset disk st self s fd written

    abbrev pub copied : ℕ
    copied = piece off n written

    abbrev pub at : ℕ
    at = block_at (num_inodes s.boot_block) (data_block_num s.inode (off / fs_blksz))

    -- No uint32_t of the round wraps, and it copies at least one byte, inside the block and the file.
    pub round_facts :
        (off ≡ (s.file_list fd).file_pos + written)
        × (off / fs_blksz < allocated)
        × (1 ≤ copied)
        × (off % fs_blksz + copied ≤ fs_blksz)
        × (written + copied ≤ n)
        × ((s.file_list fd).file_pos + written + copied ≤ allocated * fs_blksz)
    round_facts =
        let place : off ≡ (s.file_list fd).file_pos + written = omega (arith, w.capacity) in
        let left : u32 (n - written) ≡ n - written = omega arith in
        let blk : off / fs_blksz < allocated = omega (arith, place) in
        let lo : 1 ≤ copied = rw left (ground arith) in
        let here : off % fs_blksz + copied ≤ fs_blksz = rw left (ground arith) in
        let le : written + copied ≤ n = rw left (ground arith) in
        (place, blk, lo, here, le, omega (arith, place, here, blk))

    abbrev pos : ℕ
    pos = (s.file_list fd).file_pos

    abbrev addr : ℕ → ℕ
    addr j =
        block_at (num_inodes s.boot_block) (data_block_num s.inode (j / fs_blksz)) + j % fs_blksz

    -- An address of the file is in the copied range exactly when its place is.
    in_piece :
        (j : ℕ)
        → j < allocated * fs_blksz
        → within (at + off % fs_blksz) copied (addr j) ≡ within (pos + written) copied j
    in_piece j lt =
        let (place, blk, lo, here, le, end) = round_facts in
        elim (ℕ_discrete (j / fs_blksz) (off / fs_blksz)) [
          | yes same ↦ rw same (ground (arith, place, here))
          | no other ↦
              let apart : data_block_num s.inode (j / fs_blksz)
                  ≢ data_block_num s.inode (off / fs_blksz) =
                λ e. other (w.distinct (j / fs_blksz) (off / fs_blksz) (omega arith) blk e) in
              ground (arith, place, here, apart)
        ]

    in_piece_at :
        (j : ℕ)
        → j < allocated * fs_blksz
        → within (pos + written) copied j ≡ true
        → written + (addr j - (at + off % fs_blksz)) ≡ j - pos
    in_piece_at j lt here =
        let (place, blk, lo, fits, le, end) = round_facts in
        let range : (pos + written ≤ j) × (j < pos + written + copied) = ground arith in
        let same : j / fs_blksz ≡ off / fs_blksz = omega (arith, place, fits, range) in
        rw same (omega (arith, place, fits, range, same))

    module _ {d₁ d₃ : D} (before : IsWritten disk st self s fd allocated written buf d₁)
        (size_kept : size d₃ ≡ size d₁)
        (patch : (a : ℕ)
          → image d₃ a ≡ (
              if within (at + off % fs_blksz) copied a
              then buf (written + (a - (at + off % fs_blksz)))
              else image d₁ a)) where
      patched_bytes :
          (j : ℕ)
          → j < allocated * fs_blksz
          → image d₃ (addr j) ≡ (
              if within pos (written + copied) j
              then buf (j - pos)
              else file_byte (image s.disk) s.boot_block s.inode j)
      patched_bytes j lt =
          let old : image d₁ (addr j)
              ≡ (if within pos written j then buf (j - pos) else image s.disk (addr j)) =
            before.bytes j lt in
          elim (Bool-cases (within (pos + written) copied j)) [
            | inl here ↦
                let grown : within pos (written + copied) j ≡ true = ground arith in
                patch (addr j) ∙ rw (in_piece j lt, here, in_piece_at j lt here, grown)
            | inr away ↦
                let grown : within pos (written + copied) j ≡ within pos written j = ground arith in
                patch (addr j) ∙ rw (in_piece j lt, away, grown) old
          ]

      -- The next round extends the bytes stored.
      pub IsWritten-step : IsWritten disk st self s fd allocated (written + copied) buf d₃
      IsWritten-step = record {
        size_kept = size_kept ∙ before.size_kept;
        bytes = patched_bytes;
        meta_kept = λ a lt.
            let away : within (at + off % fs_blksz) copied a ≡ false = ground arith in
            patch a ∙ rw away (before.meta_kept a lt);
        others_kept = λ b k other lt.
            let a : ℕ = block_at (num_inodes s.boot_block) b + k in
            let (place, blk, lo, fits, le, end) = round_facts in
            let apart : data_block_num s.inode (off / fs_blksz) ≢ b = other (off / fs_blksz) blk in
            let away : within (at + off % fs_blksz) copied a ≡ false =
              ground (arith, apart, fits) in
            patch a ∙ rw away (before.others_kept b k other lt);
      }
