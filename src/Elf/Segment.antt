-- ===== src/Elf/Segment.antt =====
-- src/kern/elf.c: what the loader makes of a segment.
use illinux.Prelude.{
  ℕ, ◌+◌, ◌-◌, ◌%◌, ◌^◌, ◌≤◌, ◌<◌, ◌≡◌, ◌≢◌, Bool, true, false, length, get_elem?, some, ltb, not,
  if◌then◌else◌,
}
use illinux.Cmd.{Cmd, done, panic, pure}
use illinux.Errno.{einval, eio, ebusy, Result, ok, err}
use illinux.Mem.{Mem, user_start_vma, user_end_vma, memset}
use illinux.Heap.{page_size}
use illinux.Paging.{Paging, memory_alloc_and_map_range}
use illinux.Elf.{Elf64Phdr, Calls, Loader, fill_segment, load_segment, first_flags}

-- The object behaves as a file: `file` is what it holds and `pos` where it reads from. A seek goes to the
-- position and changes nothing else; `ioread_full` returns the number of the bytes that it has stored,
-- and these are the file's from the position on.
pub record IsReader {D : Type 0} (calls : Calls D) (file : D → Mem) (pos : D → ℕ) : Type 0 where
  pub seeks : (d : D) (p : ℕ) → (calls.seek d p).1 ≡ true → pos (calls.seek d p).0 ≡ p
  pub keeps : (d : D) (p : ℕ) → file (calls.seek d p).0 ≡ file d
  pub counts :
      (d : D) (n k : ℕ) → (calls.read_full d n).2 ≡ ok k → length (calls.read_full d n).1 ≡ k
  pub reads :
      (d : D) (n i c : ℕ) → get_elem? (calls.read_full d n).1 i ≡ some c → c ≡ file d (pos d + i)

-- The memory of a segment that is loaded from a file: its bytes, then zeros; nothing else has changed.
pub record IsFilled (phdr : Elf64Phdr) (file m m' : Mem) : Type 0 where
  pub stored : (i : ℕ) → i < phdr.p_filesz → m' (phdr.p_vaddr + i) ≡ file (phdr.p_offset + i)
  pub zeros : (i : ℕ) → phdr.p_filesz ≤ i → i < phdr.p_memsz → m' (phdr.p_vaddr + i) ≡ 0
  pub before : (j : ℕ) → j < phdr.p_vaddr → m' j ≡ m j
  pub after :
      (j : ℕ) → phdr.p_vaddr + phdr.p_filesz ≤ j → phdr.p_vaddr + phdr.p_memsz ≤ j → m' j ≡ m j

abbrev zeroed : Elf64Phdr → Mem → Mem
zeroed phdr m =
    if ltb phdr.p_filesz phdr.p_memsz
    then memset m (phdr.p_vaddr + phdr.p_filesz) 0 (phdr.p_memsz - phdr.p_filesz)
    else m

-- The range of the segment is inside that for users, its end taken modulo 2^64.
abbrev pub IsInside : Elf64Phdr → Type 0
IsInside phdr =
    (user_start_vma ≤ phdr.p_vaddr) × ((phdr.p_vaddr + phdr.p_memsz) % 2 ^ 64 ≤ user_end_vma)

module _ {D : Type 0} (calls : Calls D) (phdr : Elf64Phdr) where
  abbrev found : Loader D → Loader D
  found s = record s { io = (calls.seek s.io phdr.p_offset).0 }

  abbrev fill_or_busy : Bool → Cmd (Loader D) (Result ℕ)
  fill_or_busy mapped = if not mapped then pure (err ebusy) else fill_segment calls phdr

  abbrev mapping : Cmd Paging ℕ
  mapping = memory_alloc_and_map_range phdr.p_vaddr phdr.p_memsz first_flags

  -- How loading a segment ends, where the memory manager has the pages for it and sets their flags.
  pub record IsLoaded (file : D → Mem) (s : Loader D) (sp2 : Paging) : Type 0 where
    pub below : phdr.p_vaddr < user_start_vma → load_segment calls phdr s ≡ done (err einval) s
    pub above :
        user_end_vma < (phdr.p_vaddr + phdr.p_memsz) % 2 ^ 64
        → load_segment calls phdr s ≡ done (err einval) s
    pub not_found :
        IsInside phdr
        → (calls.seek s.io phdr.p_offset).1 ≡ false
        → load_segment calls phdr s ≡ done (err eio) (found s)
    pub part_page :
        IsInside phdr
        → (calls.seek s.io phdr.p_offset).1 ≡ true
        → phdr.p_memsz % page_size ≢ 0
        → load_segment calls phdr s ≡ panic
    pub short :
        IsInside phdr
        → (calls.seek s.io phdr.p_offset).1 ≡ true
        → phdr.p_memsz % page_size ≡ 0
        → (calls.read_full (found s).io phdr.p_filesz).2 ≢ ok phdr.p_filesz
        → (s' : Loader D) × (load_segment calls phdr s ≡ done (err eio) s')
    pub loaded :
        IsInside phdr
        → (calls.seek s.io phdr.p_offset).1 ≡ true
        → phdr.p_memsz % page_size ≡ 0
        → (calls.read_full (found s).io phdr.p_filesz).2 ≡ ok phdr.p_filesz
        → (s' : Loader D) × (load_segment calls phdr s ≡ done (ok 0) s')
          × (s'.space ≡ sp2)
          × IsFilled phdr (file s.io) s.memory s'.memory
