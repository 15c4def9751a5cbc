-- ===== src/Libc/Memcpy.antt =====
-- `libc/string/memcpy.c`, with what it uses of `memcopy.h` and `memcopy.c`.
pub mod Words
pub mod Steps
pub mod Laws
pub mod Tests
use phoebe.Base.{ℕ, zero, suc, ◌+◌, ◌-◌, ◌*◌, ◌/◌, ◌%◌, ◌^◌, ◌==◌, leb, bit_or, u64, if◌then◌else◌}
use phoebe.Libc.Memory.{Memory, op_size, op_t_thres, store, store_word, load_word}

-- The memory and the variables `destp` and `srcp`.
pub record Copy : Type 0 where
  pub memory : Memory
  pub destp : ℕ
  pub srcp : ℕ

-- `BYTE_COPY_FWD`
unfoldable pub byte_copy_fwd : ℕ → Copy → Copy
byte_copy_fwd zero c = c
byte_copy_fwd (suc nbytes) c = byte_copy_fwd nbytes (record {
  memory = store c.memory c.destp (c.memory c.srcp);
  destp = u64 (c.destp + 1);
  srcp = u64 (c.srcp + 1);
})

-- `MERGE`, where the lowest byte comes first.
abbrev pub merge : ℕ → ℕ → ℕ → ℕ → ℕ
merge w0 sh_1 w1 sh_2 = bit_or (w0 / 2 ^ sh_1) (u64 (w1 * 2 ^ sh_2))

-- The loop of `_wordcopy_fwd_aligned`, with the pairs of words left.
unfoldable pub aligned_pairs : ℕ → Memory → ℕ → ℕ → Memory
aligned_pairs zero m dstp srcp = m
aligned_pairs (suc left) m dstp srcp =
    let a0 = load_word m srcp in
    let a1 = load_word m (u64 (srcp + op_size)) in
    let m1 = store_word m dstp a0 in
    let m2 = store_word m1 (u64 (dstp + op_size)) a1 in
    aligned_pairs left m2 (u64 (dstp + 2 * op_size)) (u64 (srcp + 2 * op_size))

-- No caller passes a `len` of 0, with which the loop would not end.
unfoldable pub wordcopy_fwd_aligned : Memory → ℕ → ℕ → ℕ → Memory
wordcopy_fwd_aligned m dstp srcp len =
    if len % 2 == 1
    then aligned_pairs ((len - 1) / 2) (store_word m dstp (load_word m srcp)) (u64 (dstp + op_size))
        (u64 (srcp + op_size))
    else aligned_pairs (len / 2) m dstp srcp

-- The loop of `_wordcopy_fwd_dest_aligned`, with the pairs of words left.
unfoldable pub merged_pairs : ℕ → ℕ → ℕ → ℕ → Memory → ℕ → ℕ → Memory
merged_pairs sh_1 sh_2 zero a0 m dstp srcp = m
merged_pairs sh_1 sh_2 (suc left) a0 m dstp srcp =
    let a1 = load_word m (u64 (srcp + op_size)) in
    let a2 = load_word m (u64 (srcp + 2 * op_size)) in
    let m1 = store_word m dstp (merge a0 sh_1 a1 sh_2) in
    let m2 = store_word m1 (u64 (dstp + op_size)) (merge a1 sh_1 a2 sh_2) in
    merged_pairs sh_1 sh_2 left a2 m2 (u64 (dstp + 2 * op_size)) (u64 (srcp + 2 * op_size))

-- `start` is the source that was not aligned.
unfoldable pub wordcopy_fwd_dest_aligned : Memory → ℕ → ℕ → ℕ → Memory
wordcopy_fwd_dest_aligned m dstp start len =
    let sh_1 = 8 * (start % op_size) in
    let sh_2 = 8 * op_size - sh_1 in
    let srcp = start - start % op_size in
    let a0 = load_word m srcp in
    let a1 = load_word m (u64 (srcp + op_size)) in
    if len % 2 == 1
    then merged_pairs sh_1 sh_2 ((len - 1) / 2) a1 (store_word m dstp (merge a0 sh_1 a1 sh_2))
        (u64 (dstp + op_size)) (u64 (srcp + op_size))
    else merged_pairs sh_1 sh_2 (len / 2) a0 m dstp srcp

-- `WORD_COPY_FWD`; what is left is `nbytes % OPSIZ`.
unfoldable pub word_copy_fwd : ℕ → Copy → Copy
word_copy_fwd nbytes c = record {
  memory =
      if c.srcp % op_size == 0
      then wordcopy_fwd_aligned c.memory c.destp c.srcp (nbytes / op_size)
      else wordcopy_fwd_dest_aligned c.memory c.destp c.srcp (nbytes / op_size);
  destp = u64 (c.destp + (nbytes - nbytes % op_size));
  srcp = u64 (c.srcp + (nbytes - nbytes % op_size));
}

-- The memory after the call; the result is `dest`.
unfoldable pub memcpy : Memory → ℕ → ℕ → ℕ → Memory
memcpy m dest src length =
    let c : Copy = record { memory = m; destp = dest; srcp = src } in
    let short = (2 ^ 64 - dest) % op_size in
    let rest = length - short in
    if leb op_t_thres length
    then (byte_copy_fwd (rest % op_size) (word_copy_fwd rest (byte_copy_fwd short c))).memory
    else (byte_copy_fwd length c).memory
