-- ===== src/Libc/Memset.antt =====
-- `libc/string/memset.c`.
pub mod Laws
pub mod Tests
use phoebe.Base.{
  ℕ, zero, suc, ◌+◌, ◌*◌, ◌/◌, ◌%◌, ◌^◌, ◌==◌, leb, bit_or, u8, u64, if◌then◌else◌, Bool, true,
  false,
}
use phoebe.Libc.Memory.{Memory, op_size, store, store_word}

-- The memory and the variable `destp`.
pub record Cursor : Type 0 where
  pub memory : Memory
  pub destp : ℕ

-- `((uint8_t*)destp)[0] = c; destp++;`
pub put_byte : ℕ → Cursor → Cursor
put_byte c s = record { memory = store s.memory s.destp (u8 c); destp = u64 (s.destp + 1) }

-- `((op_t*)destp)[0] = word; destp += OPSIZ;`
pub put_word : ℕ → Cursor → Cursor
put_word word s = record {
  memory = store_word s.memory s.destp word;
  destp = u64 (s.destp + op_size);
}

-- The first loop, with the rounds left. It also counts `len` down from 0, which nothing reads.
pub align : ℕ → ℕ → Cursor → Cursor
align zero c s = s
align (suc fuel) c s = elim (s.destp % op_size == 0) [
  | true ↦ s
  | false ↦ align fuel c (put_byte c s)
]

-- Eight words at `destp`, which moves once at the end.
pub put_block : ℕ → Cursor → Cursor
put_block word s =
    let d = s.destp in
    let m = s.memory in
    record {
      memory =
          store_word
            (store_word
              (store_word
                (store_word
                  (store_word
                    (store_word (store_word (store_word m d word) (u64 (d + op_size)) word)
                      (u64 (d + 2 * op_size)) word)
                    (u64 (d + 3 * op_size)) word)
                  (u64 (d + 4 * op_size)) word)
                (u64 (d + 5 * op_size)) word)
              (u64 (d + 6 * op_size)) word)
            (u64 (d + 7 * op_size)) word;
      destp = u64 (d + 8 * op_size);
    }

-- `while(len > 0) { …; len--; }`
pub repeat : ℕ → (Cursor → Cursor) → Cursor → Cursor
repeat zero body s = s
repeat (suc len) body s = repeat len body (body s)

-- `word`: the byte in each of its eight places.
pub spread : ℕ → ℕ
spread c =
    let w1 = u8 c in
    let w2 = bit_or w1 (u64 (w1 * 2 ^ 8)) in
    let w4 = bit_or w2 (u64 (w2 * 2 ^ 16)) in bit_or w4 (u64 (u64 (w4 * 2 ^ 16) * 2 ^ 16))

-- The branch for a length of at least 8. The length left is `length % OPSIZ`.
pub memset_words : ℕ → ℕ → Cursor → Cursor
memset_words c length s =
    let word = spread c in
    let aligned = align op_size c s in
    let blocks = repeat (length / (op_size * 8)) (put_block word) aligned in
    repeat (length % (op_size * 8) / op_size) (put_word word) blocks

-- The memory after the call; the result is `dest`.
unfoldable pub memset : Memory → ℕ → ℕ → ℕ → Memory
unfolding memset_words repeat
memset m dest c length =
    let s : Cursor = record { memory = m; destp = dest } in
    elim (leb 8 length) [
      | true ↦
          (repeat (length % (op_size * 8) % op_size) (put_byte c) (memset_words c length s)).memory
      | false ↦ (repeat length (put_byte c) s).memory
    ]
