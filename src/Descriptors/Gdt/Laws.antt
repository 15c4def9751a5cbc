-- ===== src/Descriptors/Gdt/Laws.antt =====
-- What a segment descriptor says.
use phoebe.Base.{
  ℕ, ◌+◌, ◌-◌, ◌*◌, ◌/◌, ◌%◌, ◌^◌, ◌<◌, ◌≡◌, ◌-◌, refl, false, true, some, u64, arith,
}
use phoebe.Lock.{TicketLock, is_locked, unlock, lock}
use phoebe.Lock.Laws.{IsValid}
use phoebe.Lock.Scoped.{scoped, destroy}
use phoebe.Descriptors.Masks.{bit_and_low}
use phoebe.Descriptors.Gdt.{
  create_entry, segment_bits, create_tss_entry, tss_bits, GdtTable, GdtRegister, fill,
  initialize_gdt, gdt_size,
}

-- The fields of a segment, where `docs/amd64/amd64/gdt.md` has them.
abbrev pub base_of_segment : ℕ → ℕ
base_of_segment e = e / 2 ^ 16 % 2 ^ 24 + 2 ^ 24 * (e / 2 ^ 56 % 2 ^ 8)

abbrev pub limit_of_segment : ℕ → ℕ
limit_of_segment e = e % 2 ^ 16 + 2 ^ 16 * (e / 2 ^ 48 % 2 ^ 4)

abbrev pub access_of_segment : ℕ → ℕ
access_of_segment e = e / 2 ^ 40 % 2 ^ 8

abbrev pub flags_of_segment : ℕ → ℕ
flags_of_segment e = e / 2 ^ 52 % 2 ^ 4

-- A segment that `create_entry` writes holds the base, the limit of 20 bits, the access byte and the
-- four flags in the places of a segment descriptor.
pub create_entry-segment_bits :
    (base limit granularity access : ℕ)
    → base < 2 ^ 32
    → limit < 2 ^ 32
    → access < 2 ^ 8
    → (base_of_segment (segment_bits (create_entry base limit granularity access)) ≡ base)
      × (limit_of_segment (segment_bits (create_entry base limit granularity access))
          ≡ limit % 2 ^ 20)
      × (access_of_segment (segment_bits (create_entry base limit granularity access)) ≡ access)
      × (flags_of_segment (segment_bits (create_entry base limit granularity access))
          ≡ granularity % 2 ^ 4)
unfolding create_entry segment_bits
create_entry-segment_bits base limit granularity access hb hl ha =
    let b0 = bit_and_low 16 16 base (omega (arith, hb)) in
    let b1 = bit_and_low 8 8 (base / 2 ^ 16) (omega (arith, hb)) in
    let b2 = bit_and_low 8 8 (base / 2 ^ 24) (omega (arith, hb)) in
    let l0 = bit_and_low 16 16 limit (omega (arith, hl)) in
    let l1 = bit_and_low 12 4 (limit / 2 ^ 16) (omega (arith, hl)) in
    rw (b0, b1, b2, l0, l1)
      (omega (arith, hb), omega (arith, ha), omega (arith, ha), omega (arith, ha))

-- The base of the segment of a task state, which takes two descriptors.
abbrev pub base_of_tss : ℕ → ℕ
base_of_tss e = base_of_segment (e % 2 ^ 64) + 2 ^ 32 * (e / 2 ^ 64 % 2 ^ 32)

-- A present segment of an available task state of 64 bits: 104 bytes at the base, and
-- nothing behind the base.
pub record IsTaskState (tss e : ℕ) : Type 0 where
  pub base : base_of_tss e ≡ tss
  pub limit : limit_of_segment (e % 2 ^ 64) ≡ 104 - 1
  pub access : access_of_segment (e % 2 ^ 64) ≡ 0x89
  pub flags : flags_of_segment (e % 2 ^ 64) ≡ 0
  pub reserved : e / 2 ^ 96 ≡ 0

create_tss_entry-IsTaskState :
    (base : ℕ) → base < 2 ^ 64 → IsTaskState base (tss_bits (create_tss_entry base))
unfolding create_tss_entry tss_bits
create_tss_entry-IsTaskState base h =
    let b0 = bit_and_low 48 16 base (omega (arith, h)) in
    let b1 = bit_and_low 40 8 (base / 2 ^ 16) (omega (arith, h)) in
    let b2 = bit_and_low 32 8 (base / 2 ^ 24) (omega (arith, h)) in
    let b3 = bit_and_low 32 32 (base / 2 ^ 32) (omega (arith, h)) in
    record {
      base = rw (b0, b1, b2, b3) (omega (arith, h));
      limit = rw (b0, b1, b2, b3) (omega (arith, h));
      access = rw (b0, b1, b2, b3) (omega (arith, h));
      flags = rw (b0, b1, b2, b3) (omega (arith, h));
      reserved = rw (b0, b1, b2, b3) (omega (arith, h));
    }

-- What `initialize` is to give: the null segment, code and data of the kernel, data and code of the user,
-- and the task state.
pub record IsInitialized (tss at : ℕ) (t : GdtTable) (r : GdtRegister) : Type 0 where
  pub null : segment_bits (t.table 0) ≡ 0
  pub kernel_code : segment_bits (t.table 1) ≡ 0xaf9a000000ffff
  pub kernel_data : segment_bits (t.table 2) ≡ 0xcf92000000ffff
  pub user_data : segment_bits (t.table 3) ≡ 0xcff2000000ffff
  pub user_code : segment_bits (t.table 4) ≡ 0xaffa000000ffff
  pub task_state : IsTaskState tss (tss_bits t.tss)
  pub register : (r.limit ≡ 55) × (r.base ≡ at)

-- The guard over a free lock, and the lock that it gives back.
module _ (l : TicketLock) (valid : IsValid l) (free : is_locked l ≡ false) where
  guarded : TicketLock
  guarded = record l { next_ticket = u64 (l.next_ticket + 1) }

  released : TicketLock
  released = record {
    next_ticket = u64 (l.next_ticket + 1);
    serving_ticket = u64 (l.serving_ticket + 1);
  }

  scoped-guarded : scoped l ≡ some (record { mutex = some guarded; locked = true })
  unfolding scoped lock is_locked guarded
  scoped-guarded = ground (arith, valid.next, valid.serving, free)

  destroy-released : destroy (record { mutex = some guarded; locked = true }) ≡ some released
  unfolding destroy unlock is_locked guarded released
  destroy-released = ground (arith, valid.next, valid.serving, free)

  released-free : is_locked released ≡ false
  unfolding is_locked released
  released-free = ground (arith, valid.next, valid.serving, free)

fill-IsInitialized :
    (tss at : ℕ) (t : GdtTable)
    → tss < 2 ^ 64
    → IsInitialized tss at (fill tss t) (record { limit = gdt_size - 1; base = at })
unfolding fill create_entry segment_bits
fill-IsInitialized tss at t h = record {
  null = refl;
  kernel_code = refl;
  kernel_data = refl;
  user_data = refl;
  user_code = refl;
  task_state = create_tss_entry-IsTaskState tss h;
  register = (refl, refl);
}

-- With a lock that is free, `initialize` fills the table in the order of the selectors, whatever it held
-- before, the present segment of the task state behind the others, gives its size less one and its address to the register, and frees the lock.
pub initialize_gdt-IsInitialized :
    (tss at : ℕ) (lock : TicketLock) (t : GdtTable)
    → tss < 2 ^ 64
    → IsValid lock
    → is_locked lock ≡ false
    → (after : TicketLock) × (filled : GdtTable) × (r : GdtRegister) × (initialize_gdt tss at lock t
        ≡ some (some after, filled, r))
      × (is_locked after ≡ false)
      × IsInitialized tss at filled r
unfolding initialize_gdt
initialize_gdt-IsInitialized tss at lock t h valid free = (
  released lock valid free,
  fill tss t,
  record { limit = gdt_size - 1; base = at },
  rw (scoped-guarded lock valid free, destroy-released lock valid free) refl,
  released-free lock valid free,
  fill-IsInitialized tss at t h,
)
