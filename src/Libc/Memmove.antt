-- ===== src/Libc/Memmove.antt =====
-- `libc/string/memmove.c`, with what it uses of `memcopy.h` and `memcopy.c`.
pub mod Steps
pub mod Laws
pub mod Tests
use phoebe.Base.{ℕ, zero, suc, ◌+◌, ◌-◌, ◌*◌, ◌/◌, ◌%◌, ◌^◌, ◌==◌, leb, u64, sub64, if◌then◌else◌}
use phoebe.Libc.Memory.{Memory, op_size, op_t_thres, store, store_word, load_word}
use phoebe.Libc.Memcpy.{Copy, merge, memcpy}

-- `BYTE_COPY_BWD`
unfoldable pub byte_copy_bwd : ℕ → Copy → Copy
byte_copy_bwd zero c = c
byte_copy_bwd (suc nbytes) c =
    let srcp' = sub64 c.srcp 1 in
    let destp' = sub64 c.destp 1 in
    byte_copy_bwd nbytes
      (record { memory = store c.memory destp' (c.memory srcp'); destp = destp'; srcp = srcp' })

-- The loop of `_wordcopy_bwd_aligned`, with the pairs of words left.
unfoldable pub aligned_pairs_bwd : ℕ → Memory → ℕ → ℕ → Memory
aligned_pairs_bwd zero m dstp srcp = m
aligned_pairs_bwd (suc left) m dstp srcp =
    let srcp' = sub64 srcp (2 * op_size) in
    let dstp' = sub64 dstp (2 * op_size) in
    let a1 = load_word m (u64 (srcp' + op_size)) in
    let a0 = load_word m srcp' in
    let m1 = store_word m (u64 (dstp' + op_size)) a1 in
    let m2 = store_word m1 dstp' a0 in aligned_pairs_bwd left m2 dstp' srcp'

-- No caller passes a `len` of 0, with which the loop would not end.
unfoldable pub wordcopy_bwd_aligned : Memory → ℕ → ℕ → ℕ → Memory
wordcopy_bwd_aligned m dstp srcp len =
    let srcp' = sub64 srcp op_size in
    let dstp' = sub64 dstp op_size in
    if len % 2 == 1
    then aligned_pairs_bwd ((len - 1) / 2) (store_word m dstp' (load_word m srcp')) dstp' srcp'
    else aligned_pairs_bwd (len / 2) m dstp srcp

-- The loop of `_wordcopy_bwd_dest_aligned`, with the pairs of words left.
unfoldable pub merged_pairs_bwd : ℕ → ℕ → ℕ → ℕ → Memory → ℕ → ℕ → Memory
merged_pairs_bwd sh_1 sh_2 zero a2 m dstp srcp = m
merged_pairs_bwd sh_1 sh_2 (suc left) a2 m dstp srcp =
    let srcp' = sub64 srcp (2 * op_size) in
    let dstp' = sub64 dstp (2 * op_size) in
    let a1 = load_word m (u64 (srcp' + op_size)) in
    let a0 = load_word m srcp' in
    let m1 = store_word m (u64 (dstp' + op_size)) (merge a1 sh_1 a2 sh_2) in
    let m2 = store_word m1 dstp' (merge a0 sh_1 a1 sh_2) in
    merged_pairs_bwd sh_1 sh_2 left a0 m2 dstp' srcp'

-- `start` is the source that was not aligned.
unfoldable pub wordcopy_bwd_dest_aligned : Memory → ℕ → ℕ → ℕ → Memory
wordcopy_bwd_dest_aligned m dstp start len =
    let sh_1 = 8 * (start % op_size) in
    let sh_2 = 8 * op_size - sh_1 in
    let srcp = start - start % op_size in
    let a2 = load_word m srcp in
    let srcp' = sub64 srcp op_size in
    let dstp' = sub64 dstp op_size in
    let a1 = load_word m srcp' in
    if len % 2 == 1
    then merged_pairs_bwd sh_1 sh_2 ((len - 1) / 2) a1 (store_word m dstp' (merge a1 sh_1 a2 sh_2))
        dstp' srcp'
    else merged_pairs_bwd sh_1 sh_2 (len / 2) a2 m dstp srcp

-- `WORD_COPY_BWD`; what is left is `nbytes % OPSIZ`.
unfoldable pub word_copy_bwd : ℕ → Copy → Copy
word_copy_bwd nbytes c = record {
  memory =
      if c.srcp % op_size == 0
      then wordcopy_bwd_aligned c.memory c.destp c.srcp (nbytes / op_size)
      else wordcopy_bwd_dest_aligned c.memory c.destp c.srcp (nbytes / op_size);
  destp = sub64 c.destp (nbytes - nbytes % op_size);
  srcp = sub64 c.srcp (nbytes - nbytes % op_size);
}

-- The branch that copies from the end.
unfoldable pub copy_bwd : Memory → ℕ → ℕ → ℕ → Memory
copy_bwd m dest src length =
    let c : Copy = record { memory = m; destp = u64 (dest + length); srcp = u64 (src + length) } in
    let short = u64 (dest + length) % op_size in
    let rest = length - short in
    if leb op_t_thres length
    then (byte_copy_bwd (rest % op_size) (word_copy_bwd rest (byte_copy_bwd short c))).memory
    else (byte_copy_bwd length c).memory

-- The memory after the call; the result is `dest`.
unfoldable pub memmove : Memory → ℕ → ℕ → ℕ → Memory
memmove m dest src length =
    if leb length (sub64 dest src) then memcpy m dest src length else copy_bwd m dest src length
