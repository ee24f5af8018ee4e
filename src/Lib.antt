-- ===== src/Lib.antt =====
-- A model of the Illinux kernel (src/kern), a small Unix-like system for RISC-V.
--
-- A module stands for a source file. State is passed explicitly: pointers to a structure become the
-- structure, static variables become fields of a record, and a pointer that may be NULL is an Option.
-- A C result that is negative is `err` of its code (Errno), any other is `ok`. Machine integers are
-- natural numbers with the wrap-around written out. Debug output is left out.
--
-- * Prelude, Mem and Cmd hold what the modules share: Boolean tests and lists over the native
--   numbers, memory as a function from offsets to bytes with `memcpy` and `memset`, and runs of kernel
--   code that may block on a lock, panic or use up fuel.
-- * Str is string.c: the comparisons and copies, and Str/Format the formatted output of `vgprintf`
--   and `vsnprintf`. A string is a list of characters or a memory. One fuel more than characters of
--   the format is enough for `vgprintf`; the fuel of the loop in `format_int` is the room in its
--   buffer.
-- * Kfs is kfs.c with the lock of lock.h. Kfs/Blocks has the transfers of whole blocks and the table
--   of open files, Kfs/Calls the operations `fs_mount`, `fs_open`, `fs_close`, `fs_read` and
--   `fs_write`, Kfs/Control the commands of `fs_ioctl`. The device below is a parameter (Disk), with
--   the laws that the file system relies on in `IsStorage`; Io/LitLaws fills them in for a block of
--   memory. The loops of `fs_read` and `fs_write` copy at least one byte in each round, so more fuel
--   than bytes is enough.
-- * Io is io.c and io.h: Io/Lit the I/O literals, Io/Stream the repeated reads and writes, Io/Term the
--   terminal with its CRLF normalisation. One fuel more than bytes is enough for their loops. Io/Line is
--   its line editing, which Io/LineLaws compares with a stack of characters; one fuel more than keys is
--   enough. Io/Print has `ioputs` and `iovprintf`.
-- * Console is console.c: the kernel's console on the polled serial port.
-- * Uart is uart.c: the ring buffers, the interrupt handler and the calls of the driver. The wait of
--   `uart_read` is a list of rounds, with the interrupts that are served in each (Uart/Reads); that of
--   `uart_write` is the caller's.
-- * Process is process.c with the descriptor calls of syscall.c and the reference counts of io.h. The
--   drivers are a parameter (`Drivers`); the memory space and the thread of a process are left out.
-- * Thread is thread.c: Thread/Lists the linked lists of threads, which Thread/Queue and
--   Thread/QueueOps read as queues; Thread the switch and the condition variables; Thread/Table the
--   table of threads with `thread_spawn`, `thread_exit` and `thread_join`. Thread/Schedule holds the
--   abstract view: who runs, who is ready, who waits. A call that gives up the processor ends where
--   the next thread goes on, and the rest of it is a definition of its own. The loop of
--   `condition_broadcast` has more fuel than threads that wait.
-- * Timer is timer.c: the list of sleeping alarms and the comparator. The wait itself and the
--   machine-mode trap are left out.
-- * Device is device.c: the table of devices, its registration and its search.
-- * Vioblk is vioblk.c: the calls of the driver of the block device. What the device answers to a
--   request is a parameter, with the laws in `IsReadable` and `IsWritable`. One fuel more than blocks
--   is enough for `vioblk_read` and `vioblk_write`. Vioblk/Setup is `vioblk_attach`, which takes its
--   memory from the heap of Heap. Virtio is virtio.c and virtio.h: feature sets, their negotiation and
--   the registers of the queues. What a device offers and how its status register settles are
--   parameters.
-- * Plic is plic.c: the registers of the interrupt controller, with the bit operations of Bits. Intr is
--   intr.c: the table of routines and the interrupt handler, the routines being parameters.
-- * Syscall is the rest of syscall.c: the other system calls, and in Syscall/Handler the handler
--   that finds the call for a number and the one for exceptions in user mode of excp.c. Syscall/Errors
--   follows calls on descriptors from the exception to the device and back. The calls of thread.c,
--   timer.c and `process_exec` are parameters (`Calls`).
-- * Elf is elf.c: the loader of programs, from the bytes of the headers to user memory. The object
--   that it reads is a parameter (`Calls`), with the laws of a file in `IsReader`; the memory manager
--   is that of Paging. User memory is by its virtual addresses.
-- * Paging is memory.c: the list of free pages (Paging/Free) and the page tables, walked
--   (Paging/Walk) and filled (Paging/Mapped); Paging/User frees the pages of a program and validates
--   its pointers, Paging/Spaces makes, copies and ends memory spaces. A page of memory is its number,
--   and what it held stays when it is given out. The recursion that frees pages has one fuel for each
--   level of tables.
-- * Heap is ezheap.c: the heap that gives out blocks and never takes one back. The page that the memory
--   manager would give out next is an argument.
-- * Tests applies the theorems at concrete inputs.
--
-- Not modelled: the context switch and the trap entry in assembly, the accesses to control registers, the
-- start-up of the memory manager, the start-up code, the user programs and the host tool mkfs.c.
pub mod Bits
pub mod Cmd
pub mod Console
pub mod Device
pub mod Disk
pub mod Elf
pub mod Errno
pub mod Heap
pub mod Intr
pub mod Io
pub mod Kfs
pub mod Mem
pub mod Paging
pub mod Plic
pub mod Prelude
pub mod Process
pub mod Str
pub mod Syscall
pub mod Tests
pub mod Thread
pub mod Timer
pub mod Uart
pub mod Vioblk
pub mod Virtio
