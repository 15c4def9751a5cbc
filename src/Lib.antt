-- ===== src/Lib.antt =====
-- The Phoebe kernel: its memory management, its locks and its C library.
--
-- The allocator of physical memory (`kernel/memory/physical.cpp`, Physical) keeps a bit for each
-- frame in a bitmap (`kernel/include/libs/bitmap.hpp`, Bitmap). A ticket lock and a guard
-- (`kernel/include/lock.hpp`, Lock) keep its operations apart. It converts addresses by
-- `kernel/include/memory/memory.hpp` (Address) and writes memory by `libc/string/memset.c`
-- (Libc.Memset). The page tables (`kernel/arch/amd64/memory/paging.cpp` and the headers beside it,
-- Paging) take their frames from it, and the virtual allocator (`kernel/memory/virtual.cpp`, Virtual)
-- searches them for rows of pages and maps these to new frames.
--
-- - Bitmap: `Bitmap` is the buffer and its size in bits; `bit` and `set_bit` stand for `Bitmap::bit`
--   and `Bitmap::set`, with their assertions.
-- - Physical: the accounts, the bitmap and the index of the allocator are one record, which
--   `physical_allocate` and `physical_free` take and give back. `Physical.Initialize` is
--   `physical_initialize`, with the map of the boot loader as a list. `Physical.Session` is what its
--   users do: allocations, and releases of blocks they hold, in any order.
-- - Lock: a lock is its two tickets. Each operation is one thread's, run while no other touches the
--   lock; a wait that nobody ends is `none`. `Lock.Threads` is a lock with any number of threads, whose
--   steps come in any order, one at a time.
-- - Paging: `parse_flags` and `vmm_flags` of `PageMap`, the operations of `PageTableEntry`, and the
--   choice of a page size. Paging.Walk is the walk of `get_next_lvl` and `virtual_to_entry` and what
--   `map_page`, `unmap_page`, `setflags_page`, `remap_page` and `virtual_to_physical` do with it, and
--   Paging.Ranges the calls for rows of pages and `initialize`. They stand on Paging.Frames, an
--   interface to the allocator and the memory, which Paging.Store fills by Physical. Paging.Tree has
--   the tables as a tree, and Paging.Map that tree as a map from pages to entries.
-- - Virtual: `virtual_allocate`, `virtual_free` and the maps of `virtual_initialize`.
-- - Libc.Ctype: `libc/ctype.c`. Libc.Strtol: `strtol.c`, `strtoll.c`, `strtoul.c`, `strtoull.c` and
--   `atou.c` of `libc/stdlib`. Libc.Memset, Libc.Memcpy, Libc.Memmove and Libc.Memcmp: `memset.c`,
--   `memcpy.c`, `memmove.c` and `memcmp.c` of `libc/string`, with what they use of `memcopy.c`, over a
--   memory of bytes. Libc.Cstring: `strlen.c` and `strcmp.c` of `libc/string`, over texts that are
--   lists. Libc.Strcpy: `strcpy.c` and `strcat.c`, over the memory.
-- - Libc.Stdio: streams with `putc`. Libc.Print: `libc/stdio/print.c` up to the conversion of integers.
--   Libc.Format: `format_string` and `vsnprintf_internal` of that file, with `vprintf.c`, `printf.c` and
--   `fputs.c` of `libc/stdio`. A format is a list of bytes, and the arguments are a list.
-- - Descriptors: the entries of the descriptor tables and how `initialize` fills these, in
--   `kernel/arch/amd64/cpu/gdt.cpp` and `idt.cpp`; the routines of the interrupts are an argument.
-- - Base: numbers, lists, bits and results that the parts share.
--
-- Integers are natural numbers with `u8`, `u32` and `u64` where the code wraps around; the data
-- model is that of amd64. An operation that can stop the system gives a `Result`: `assertion` and
-- `panik` are the two ways the code stops by itself, `fault` is an access outside a buffer, and
-- `deadlock` a wait of a thread for a lock that it holds itself. The loops run by recursion on the
-- list they read or on the number of rounds that their conditions leave. The loops of
-- `output_reverse` and of the padding have fuel: the width, of which every round writes a column,
-- and the 32 characters of the array, of which every round takes one. That of `format_string` has one
-- more than the length of the format, of which every round passes a character.
--
-- The loader's offset of the higher half is a parameter. The walk is modelled for four and five
-- levels and for large pages; what is shown of it is for four levels and pages of 4 KiB, where frame 0
-- holds zeros. Nothing in the code sees to that: without a table `virtual_to_entry` gives an entry in
-- frame 0, which `unmap_page` clears. Where a format ends inside a directive the code may read behind
-- its end; `format_string` stops with `overrun` there, as it does with `bad_argument` at a missing
-- argument and with `overflow` at a width of `INT_MIN`. Left out
-- are what the processor does (loading a map, dropping translations, the accessed and dirty bits),
-- the destruction of a map, and the handlers of interrupts, which print what was saved and stop;
-- the heap, which is glue over a copy of another project's buddy allocator
-- (`kernel/memory/buddy_alloc.h`); and devices, logging, start-up code and assembly.
pub mod Base
pub mod Bitmap
pub mod Libc
pub mod Address
pub mod Physical
pub mod Virtual
pub mod Lock
pub mod Paging
pub mod Descriptors
