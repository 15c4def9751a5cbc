-- ===== src/Libc/Stdio.antt =====
-- Streams: `FILE` of `libc/include/sys/file.h`, `putc` of `libc/stdio/putc.c`, and the termination of
-- a buffer in `libc/stdio/print.c`.
use phoebe.Base.{
  ℕ, ◌+◌, ◌-◌, ltb, ◌==◌, ◌||◌, if◌then◌else◌, u8, u64, List, [], ◌∷◌, ◌++◌, Option, none, some,
}
use phoebe.Libc.Memory.{Memory, store}

-- `FILE`, with the memory that `buffer` points into. `write_func` is known by the result it gives;
-- `sent` are the characters it was called with.
pub record File : Type 0 where
  pub buffer : ℕ
  pub buffer_size : ℕ
  pub position : ℕ
  pub write_func : Option (ℕ → ℕ)
  pub sent : List ℕ
  pub memory : Memory

-- The result, where `SYSTEM_OK` is 0, and the stream. The test of `buffer_size` sets a result that
-- is overwritten on both branches.
unfoldable pub putc : ℕ → File → ℕ × File
putc c stream =
    let write_pos = stream.position in
    let moved : File = record stream { position = u64 (write_pos + 1) } in
    elim stream.write_func [
      | some write ↦ (write c, record moved { sent = stream.sent ++ (c ∷ []) })
      | none ↦ (
        0,
        record moved { memory = store stream.memory (u64 (stream.buffer + write_pos)) (u8 c) },
      )
    ]

-- `putc(c, fp);`
unfoldable pub put : File → ℕ → File
unfolding putc
put fp c = (putc c fp).1

unfoldable pub append_termination : File → File
append_termination fp = elim fp.write_func [
  | some write ↦ fp
  | none ↦
      if fp.buffer_size == 0 || fp.buffer == 0
      then fp
      else (let null_pos =
            if ltb fp.position fp.buffer_size then fp.position else fp.buffer_size - 1 in
          record fp { memory = store fp.memory (u64 (fp.buffer + null_pos)) 0 })
]
