-- ===== src/Tests.antt =====
-- The theorems at concrete inputs.
pub mod Console
pub mod Virtio
pub mod Traps
pub mod Line
pub mod Kfs
pub mod KfsOpen
pub mod Device
pub mod Heap
pub mod Io
pub mod Uart
pub mod Process
pub mod Str
pub mod Format
pub mod Thread
pub mod Timer
pub mod Paging
pub mod Elf
pub mod Vioblk
