-- ===== src/Elf.antt =====
-- src/kern/elf.c: the loader of programs. The file it reads, `memory_alloc_and_map_range` and
-- `memory_set_range_flags` are parameters; user memory is the byte at each virtual address.
pub mod Segment
use illinux.Prelude.{
  ℕ, zero, suc, ◌+◌, ◌-◌, ◌*◌, ◌/◌, ◌%◌, ◌^◌, Bool, true, false, not, ◌||◌, ◌&&◌, List, [], ◌∷◌,
  length, ltb, leb, ◌==◌, if◌then◌else◌,
}
use illinux.Cmd.{Cmd, Run, done, panic, blocked, timeout, pure, get, modify, ◌>>=◌, ◌>>◌}
use illinux.Errno.{Errno, einval, eio, ebusy, Result, ok, err}
use illinux.Paging.{
  Paging, Flags, ◌∪◌, no_flags, pte_r, pte_w, pte_x, pte_u, memory_alloc_and_map_range,
  memory_set_range_flags,
}
use illinux.Mem.{user_start_vma, user_end_vma, Mem, le32, memset, put_text}

abbrev pub pt_load : ℕ
pt_load = 1

-- The part of `Elf64_Ehdr` that is read.
pub record Elf64Ehdr : Type 0 where
  pub e_ident : Mem
  pub e_type : ℕ
  pub e_machine : ℕ
  pub e_entry : ℕ
  pub e_phoff : ℕ
  pub e_phnum : ℕ

-- The part of `Elf64_Phdr` that is read.
pub record Elf64Phdr : Type 0 where
  pub p_type : ℕ
  pub p_flags : ℕ
  pub p_offset : ℕ
  pub p_vaddr : ℕ
  pub p_filesz : ℕ
  pub p_memsz : ℕ

abbrev pub le16 : Mem → ℕ → ℕ
le16 m o = m o + m (o + 1) * 256

abbrev pub le64 : Mem → ℕ → ℕ
le64 m o = le32 m o + le32 m (o + 4) * 2 ^ 32

-- The members at their offsets in the structures.
unfoldable pub ehdr_at : Mem → Elf64Ehdr
ehdr_at m = record {
  e_ident = m;
  e_type = le16 m 16;
  e_machine = le16 m 18;
  e_entry = le64 m 24;
  e_phoff = le64 m 32;
  e_phnum = le16 m 56;
}

unfoldable pub phdr_at : Mem → Elf64Phdr
phdr_at m = record {
  p_type = le32 m 0;
  p_flags = le32 m 4;
  p_offset = le64 m 8;
  p_vaddr = le64 m 16;
  p_filesz = le64 m 32;
  p_memsz = le64 m 40;
}

abbrev pub is_magic : Mem → Bool
is_magic m = (m 0 == 127) && (m 1 == 69) && (m 2 == 76) && (m 3 == 70)

unfoldable pub verify_elf_header : Elf64Ehdr → Result ℕ
verify_elf_header ehdr =
    if not (is_magic ehdr.e_ident)
    then err einval
    else if not (ehdr.e_ident 5 == 1)
    then err einval
    else if not (ehdr.e_machine == 243)
    then err einval
    else if not (ehdr.e_type == 2)
    then err einval
    else if (ehdr.e_phoff == 0) || (ehdr.e_phnum == 0)
    then err einval
    else ok 0

-- The object that the loader reads from. A read gives the bytes it has stored and its result.
pub record Calls (D : Type 0) : Type 0 where
  pub seek : D → ℕ → D × Bool
  pub read : D → ℕ → D × Mem × Result ℕ
  pub read_full : D → ℕ → D × List ℕ × Result ℕ

-- The object, the memory manager, and user memory by its virtual addresses.
pub record Loader (D : Type 0) : Type 0 where
  pub io : D
  pub space : Paging
  pub memory : Mem

-- PTE_U with the flags of the segment: PF_X, PF_W and PF_R are the bits 0, 1 and 2.
unfoldable pub page_flags : ℕ → Flags
page_flags p_flags =
    pte_u
    ∪ ((if p_flags % 2 == 1 then pte_x else no_flags)
        ∪ ((if p_flags / 2 % 2 == 1 then pte_w else no_flags)
            ∪ (if p_flags / 4 % 2 == 1 then pte_r else no_flags)))

abbrev pub first_flags : Flags
first_flags = pte_u ∪ (pte_r ∪ pte_w)

abbrev pub is_size : Result ℕ → ℕ → Bool
is_size (err e) n = false
is_size (ok k) n = k == n

module _ {D : Type 0} (calls : Calls D) where
  -- A call of the memory manager.
  abbrev pub on_space : {A : Type 0} → Cmd Paging A → Cmd (Loader D) A
  on_space m s = elim (m s.space) [
    | done a sp ↦ done a (record s { space = sp })
    | blocked ↦ blocked
    | panic ↦ panic
    | timeout ↦ timeout
  ]

  abbrev pub seek_to : ℕ → Cmd (Loader D) Bool
  seek_to pos s = let r = calls.seek s.io pos in done r.1 (record s { io = r.0 })

  abbrev pub read_into : ℕ → Cmd (Loader D) (Mem × Result ℕ)
  read_into n s = let r = calls.read s.io n in done (r.1, r.2) (record s { io = r.0 })

  -- Whether the pointer that the memory manager gives is not NULL.
  abbrev pub map_range : ℕ → ℕ → Cmd (Loader D) Bool
  map_range vaddr size = do
    vma ← on_space (memory_alloc_and_map_range vaddr size first_flags)
    pure (not (vma == 0))

  -- `ioread_full` straight into user memory.
  abbrev pub read_user : ℕ → ℕ → Cmd (Loader D) (Result ℕ)
  read_user vaddr n s =
      let r = calls.read_full s.io n in
      done r.2 (record s { io = r.0; memory = put_text s.memory vaddr r.1 })

  -- The rest of the segment is filled with zeros.
  abbrev pub zero_fill : Elf64Phdr → Cmd (Loader D) (Unit {0})
  zero_fill phdr = modify λ s. record s {
    memory =
        if ltb phdr.p_filesz phdr.p_memsz
        then memset s.memory (phdr.p_vaddr + phdr.p_filesz) 0 (phdr.p_memsz - phdr.p_filesz)
        else s.memory;
  }

  abbrev pub in_range : Elf64Phdr → Bool
  in_range phdr =
      leb user_start_vma phdr.p_vaddr && leb ((phdr.p_vaddr + phdr.p_memsz) % 2 ^ 64) user_end_vma

  -- The bytes of the segment and its flags, once its memory is mapped.
  unfoldable pub fill_segment : Elf64Phdr → Cmd (Loader D) (Result ℕ)
  fill_segment phdr = do
    bytes_read ← read_user phdr.p_vaddr phdr.p_filesz
    if not (is_size bytes_read phdr.p_filesz) then pure (err eio) else (do
      zero_fill phdr
      on_space (memory_set_range_flags phdr.p_vaddr phdr.p_memsz (page_flags phdr.p_flags))
      pure (ok 0))

  -- The part of the loop of `elf_load` for a segment that is loaded.
  unfoldable pub load_segment : Elf64Phdr → Cmd (Loader D) (Result ℕ)
  load_segment phdr = if not (in_range phdr) then pure (err einval) else (do
    found ← seek_to phdr.p_offset
    if not found then pure (err eio) else (do
      mapped ← map_range phdr.p_vaddr phdr.p_memsz
      if not mapped then pure (err ebusy) else fill_segment phdr))

  unfoldable pub process_header : ℕ → ℕ → Cmd (Loader D) (Result ℕ)
  process_header phoff i = do
    found ← seek_to ((phoff + i * 56) % 2 ^ 64)
    if not found then pure (err eio) else (do
      r ← read_into 56
      if not (is_size r.1 56)
          then pure (err eio)
          else (let phdr = phdr_at r.0 in
              if not (phdr.p_type == pt_load) then pure (ok 0) else load_segment phdr))

  -- The loop over the program headers, with the number of those that are left.
  unfoldable pub process_headers : ℕ → ℕ → ℕ → Cmd (Loader D) (Result ℕ)
  process_headers zero phoff i = pure (ok 0)
  process_headers (suc n) phoff i = do
    result ← process_header phoff i
    elim result [ err e ↦ pure (err e) | ok k ↦ process_headers n phoff (i + 1) ]

  -- The entry point, where the program is loaded.
  unfoldable pub elf_load : Cmd (Loader D) (Result ℕ)
  elf_load = do
    found ← seek_to 0
    if not found then pure (err eio) else (do
      r ← read_into 64
      if not (is_size r.1 64)
          then pure (err eio)
          else (let ehdr = ehdr_at r.0 in
              elim (verify_elf_header ehdr) [
                | err e ↦ pure (err e)
                | ok k ↦ do
                  result ← process_headers ehdr.e_phnum ehdr.e_phoff 0
                  elim result [ err e ↦ pure (err e) | ok k ↦ pure (ok ehdr.e_entry) ]
              ]))
