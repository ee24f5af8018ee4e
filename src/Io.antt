-- ===== src/Io.antt =====
-- src/kern/io.h: the numbers of the control commands.
pub mod Stream
pub mod StreamLaws
pub mod Term
pub mod Lit
pub mod Line
pub mod Print
pub mod LineLaws
pub mod LineKeys
pub mod LineEdits
pub mod LitLaws
pub mod TermLaws
pub mod TermReads
pub mod TermSends
use illinux.Prelude.{ℕ}

abbrev pub ioctl_getlen : ℕ
ioctl_getlen = 1

abbrev pub ioctl_setlen : ℕ
ioctl_setlen = 2

abbrev pub ioctl_getpos : ℕ
ioctl_getpos = 3

abbrev pub ioctl_setpos : ℕ
ioctl_setpos = 4

abbrev pub ioctl_flush : ℕ
ioctl_flush = 5

abbrev pub ioctl_getblksz : ℕ
ioctl_getblksz = 6
