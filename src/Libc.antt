-- ===== src/Libc.antt =====
-- `libc`: the C library of the kernel.
pub mod Memory
pub mod Ctype
pub mod Strtol
pub mod Memset
pub mod Memcpy
pub mod Memmove
pub mod Memcmp
pub mod Stdio
pub mod Print
pub mod Format
pub mod Cstring
pub mod Strcpy
