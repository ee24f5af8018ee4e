-- ===== src/Tests/Elf.antt =====
-- src/kern/elf.c at concrete inputs: a file that counts, and a memory manager with three free pages.
use illinux.Prelude.{ℕ, zero, suc, ◌+◌, ◌%◌, true, none, some, List, [], ◌∷◌, ◌==◌, if◌then◌else◌}
use illinux.Cmd.{Run, done, blocked, panic, timeout}
use illinux.Errno.{Result, ok, err}
use illinux.Mem.{Mem, user_start_vma}
use illinux.Paging.{Paging, null_pte, map_pages, set_pages_flags}
use illinux.Elf.{Elf64Phdr, Calls, Loader, page_flags, first_flags}

-- Each byte of the file is its position's lowest eight bits.
abbrev counting : ℕ → Mem
counting d i = i % 256

abbrev bytes : ℕ → ℕ → List ℕ
bytes p zero = []
bytes p (suc n) = (p % 256) ∷ bytes (p + 1) n

abbrev counting_calls : Calls ℕ
counting_calls = record {
  seek = λ d p. (p, true);
  read = λ d n. (d + n, λ i. (d + i) % 256, ok n);
  read_full = λ d n. (d + n, bytes d n, ok n);
}

abbrev size_of : Result ℕ → ℕ
size_of (ok k) = k
size_of (err e) = 0

-- Three bytes of the file on a page of its own.
abbrev segment : Elf64Phdr
segment = record {
  p_type = 1;
  p_flags = 5;
  p_offset = 4096;
  p_vaddr = user_start_vma;
  p_filesz = 3;
  p_memsz = 4096;
}

abbrev pages : Paging
pages = record {
  entries = λ page i. null_pte;
  next = λ page. if page == 10 then some 11 else if page == 11 then some 12 else none;
  free_list = some 10;
  active_space_root = 1;
}

abbrev state_of : Run Paging (Unit {0}) → Paging
state_of (done u s) = s
state_of blocked = pages
state_of panic = pages
state_of timeout = pages

abbrev mapped : Paging
mapped = state_of (map_pages 1 user_start_vma first_flags pages)

abbrev flagged : Paging
flagged = state_of (set_pages_flags 1 user_start_vma (page_flags 5) mapped)

abbrev loader : Loader ℕ
loader = record { io = 0; space = pages; memory = λ i. 7 }
