-- ===== src/Io/Lit.antt =====
-- src/kern/io.c: a block of memory as a file (`struct io_lit`).
use illinux.Prelude.{
  ℕ, ◌+◌, ◌-◌, ◌%◌, ◌^◌, Bool, true, false, Option, none, some, ltb, ◌==◌, if◌then◌else◌,
}
use illinux.Errno.{Result, ok, err, einval, enotsup}
use illinux.Mem.{Mem, memcpy}
use illinux.Io.{ioctl_getlen, ioctl_setlen, ioctl_getpos, ioctl_setpos}

-- `ops` and `buf` tell that the pointers are not NULL; `mem` is what `buf` points at.
pub record Lit : Type 0 where
  pub ops : Bool
  pub buf : Bool
  pub mem : Mem
  pub size : ℕ
  pub pos : ℕ

unfoldable pub iolit_init : Mem → ℕ → Lit
iolit_init mem size = record { ops = true; buf = true; mem = mem; size = size; pos = 0 }

unfoldable pub iolit_close : Lit → Lit
iolit_close l = record l { ops = false; buf = false; pos = 0; size = 0 }

-- `unsigned long` subtraction wraps.
abbrev pub bytes_remaining : Lit → ℕ
bytes_remaining l = (l.size + 2 ^ 64 - l.pos) % 2 ^ 64

abbrev pub lesser : ℕ → ℕ → ℕ
lesser a b = if ltb a b then a else b

-- The object is not NULL here: `io` is the first member of the struct.
unfoldable pub iolit_read : Lit → Option Mem → ℕ → Lit × Option Mem × Result ℕ
iolit_read l none bufsz = (l, none, err einval)
iolit_read l (some b) bufsz =
    let cnt = lesser bufsz (bytes_remaining l) in
    if bufsz == 0
    then (l, some b, err einval)
    else (record l { pos = (l.pos + cnt) % 2 ^ 64 }, some (memcpy b 0 l.mem l.pos cnt), ok cnt)

unfoldable pub iolit_write : Lit → Option Mem → ℕ → Lit × Result ℕ
iolit_write l none n = (l, err einval)
iolit_write l (some b) n =
    let cnt = lesser n (bytes_remaining l) in
    if n == 0
    then (l, err einval)
    else (record l { mem = memcpy l.mem l.pos b 0 cnt; pos = (l.pos + cnt) % 2 ^ 64 }, ok cnt)

-- The helpers of `iolit_ioctl`. `arg` is the uint32_t that the pointer points at, or `none` for
-- NULL, and is returned.
unfoldable pub lit_setlen : Lit → Option ℕ → Lit × Option ℕ × Result ℕ
lit_setlen l none = (l, none, err einval)
lit_setlen l (some a) = (record l { size = a }, some a, ok 0)

unfoldable pub lit_getlen : Lit → Option ℕ → Lit × Option ℕ × Result ℕ
lit_getlen l none = (l, none, err einval)
lit_getlen l (some a) = (l, some (l.size % 2 ^ 32), ok 0)

unfoldable pub lit_getpos : Lit → Option ℕ → Lit × Option ℕ × Result ℕ
lit_getpos l none = (l, none, err einval)
lit_getpos l (some a) = (l, some (l.pos % 2 ^ 32), ok 0)

unfoldable pub lit_setpos : Lit → Option ℕ → Lit × Option ℕ × Result ℕ
lit_setpos l none = (l, none, err einval)
lit_setpos l (some a) =
    if ltb l.size a then (l, some a, err einval) else (record l { pos = a }, some a, ok 0)

unfoldable pub iolit_ioctl : Lit → ℕ → Option ℕ → Lit × Option ℕ × Result ℕ
unfolding lit_setlen lit_getlen lit_getpos lit_setpos
iolit_ioctl l cmd none = (l, none, err einval)
iolit_ioctl l cmd (some a) =
    if cmd == ioctl_setlen
    then lit_setlen l (some a)
    else if cmd == ioctl_getlen
    then lit_getlen l (some a)
    else if cmd == ioctl_getpos
    then lit_getpos l (some a)
    else if cmd == ioctl_setpos
    then lit_setpos l (some a)
    else (l, some a, err enotsup)
