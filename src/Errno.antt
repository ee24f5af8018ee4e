-- ===== src/Errno.antt =====
-- src/kern/error.h: the error codes, and what a function returns that may fail.
-- A C result that is negative is `err` of its code, any other is `ok`.

use illinux.Prelude.{ℕ}

-- The code is the number in error.h; a function returns its negation.
pub data Errno : Type 0 where
  einval ebusy enotsup enodev eio ebadfmt enoent eaccess ebadfd emfile : Errno

pub data Result {ℓ} (A : Type ℓ) : Type ℓ where
  ok : A → Result A
  err : Errno → Result A

abbrev pub code : Errno → ℕ
code einval = 1
code ebusy = 2
code enotsup = 3
code enodev = 4
code eio = 5
code ebadfmt = 6
code enoent = 7
code eaccess = 8
code ebadfd = 9
code emfile = 10
