-- ===== src/Descriptors/Gdt.antt =====
-- The global descriptor table of `kernel/arch/amd64/cpu/gdt.cpp` and
-- `kernel/include/arch/amd64/cpu/gdt.hpp`.
pub mod Laws
use phoebe.Base.{
  ℕ, ◌+◌, ◌-◌, ◌*◌, ◌/◌, ◌%◌, ◌^◌, ◌==◌, bit_and, bit_or, u8, u16, u32, if◌then◌else◌, Option, none,
  some,
}
use phoebe.Lock.{TicketLock, ◌>>=◌}
use phoebe.Lock.Scoped.{scoped, destroy}

module _ where
  abbrev pub gdt_readwrite : ℕ
  gdt_readwrite = 2 ^ 1

  abbrev pub gdt_executable : ℕ
  gdt_executable = 2 ^ 3

  abbrev pub gdt_segment : ℕ
  gdt_segment = 2 ^ 4

  abbrev pub gdt_user : ℕ
  gdt_user = 3 * 2 ^ 5

  abbrev pub gdt_present : ℕ
  gdt_present = 2 ^ 7

  abbrev pub gdt_long_mode_granularity : ℕ
  gdt_long_mode_granularity = 2 ^ 1

  abbrev pub gdt_db : ℕ
  gdt_db = 2 ^ 2

  abbrev pub gdt_granularity : ℕ
  gdt_granularity = 2 ^ 3

  abbrev pub gdt_data_segment : ℕ
  gdt_data_segment = bit_or (bit_or gdt_present gdt_segment) gdt_readwrite

  abbrev pub gdt_code_segment : ℕ
  gdt_code_segment = bit_or gdt_data_segment gdt_executable

pub record GdtSegment : Type 0 where
  pub limit : ℕ
  pub base_low : ℕ
  pub base_mid : ℕ
  pub access : ℕ
  pub limit_high : ℕ
  pub granularity : ℕ
  pub base_high : ℕ

-- `GdtSegment::create_entry` of four arguments.
unfoldable pub create_entry : ℕ → ℕ → ℕ → ℕ → GdtSegment
create_entry base limit granularity access = record {
  limit = u16 (bit_and limit 0xffff);
  base_low = u16 (bit_and base 0xffff);
  base_mid = u8 (u16 (bit_and (base / 2 ^ 16) 0xff));
  access = access;
  limit_high = bit_and (limit / 2 ^ 16) 0x0f % 2 ^ 4;
  granularity = granularity % 2 ^ 4;
  base_high = u8 (bit_and (base / 2 ^ 24) 0xff);
}

-- The eight bytes of a packed segment as a number, the first byte lowest.
unfoldable pub segment_bits : GdtSegment → ℕ
segment_bits s =
    s.limit
    + 2 ^ 16
      * (s.base_low
          + 2 ^ 16
            * (s.base_mid
                + 2 ^ 8
                  * (s.access
                      + 2 ^ 8 * (s.limit_high + 2 ^ 4 * (s.granularity + 2 ^ 4 * s.base_high)))))

pub record TssSegment : Type 0 where
  pub limit : ℕ
  pub base_low : ℕ
  pub base_mid : ℕ
  pub flags_low : ℕ
  pub flags_high : ℕ
  pub base_high : ℕ
  pub base_upper : ℕ
  pub reserved : ℕ

-- `sizeof(Tss)` of the packed structure.
abbrev pub tss_size : ℕ
tss_size = 4 + 3 * 8 + 8 + 7 * 8 + 8 + 2 + 2

-- `TssSegment::create_entry`
unfoldable pub create_tss_entry : ℕ → TssSegment
create_tss_entry base = record {
  limit = tss_size - 1;
  base_low = u16 (bit_and base 0xffff);
  base_mid = u8 (bit_and (base / 2 ^ 16) 0xff);
  flags_low = 0x89;
  flags_high = 0;
  base_high = u8 (bit_and (base / 2 ^ 24) 0xff);
  base_upper = u32 (bit_and (base / 2 ^ 32) 0xffffffff);
  reserved = 0;
}

unfoldable pub tss_bits : TssSegment → ℕ
tss_bits s =
    s.limit
    + 2 ^ 16
      * (s.base_low
          + 2 ^ 16
            * (s.base_mid
                + 2 ^ 8
                  * (s.flags_low
                      + 2 ^ 8
                        * (s.flags_high
                            + 2 ^ 8
                              * (s.base_high + 2 ^ 8 * (s.base_upper + 2 ^ 32 * s.reserved))))))

-- The segments by their index, which is below 5, and the segment of the task state.
pub record GdtTable : Type 0 where
  pub table : ℕ → GdtSegment
  pub tss : TssSegment

-- `create_entry` of a segment of the table.
abbrev pub set_segment : ℕ → GdtSegment → GdtTable → GdtTable
set_segment i s t = record t { table = λ j. if i == j then s else t.table j }

-- `GdtRegister`: what `load_gdt` is given.
pub record GdtRegister : Type 0 where
  pub limit : ℕ
  pub base : ℕ

-- `sizeof(GdtTable)`
abbrev pub gdt_size : ℕ
gdt_size = 5 * 8 + 16

-- The segments that `initialize` creates over the table `t`, with the task state at `tss`.
unfoldable pub fill : ℕ → GdtTable → GdtTable
fill tss t0 =
    let t1 = set_segment 0 (create_entry 0 0 0 0) t0 in
    let t2 =
      set_segment 1
        (create_entry 0 0xffffffff (bit_or gdt_long_mode_granularity gdt_granularity)
          gdt_code_segment)
        t1 in
    let t3 =
      set_segment 2 (create_entry 0 0xffffffff (bit_or gdt_db gdt_granularity) gdt_data_segment)
        t2 in
    let t4 =
      set_segment 3
        (create_entry 0 0xffffffff (bit_or gdt_db gdt_granularity)
          (bit_or gdt_data_segment gdt_user))
        t3 in
    let t5 =
      set_segment 4
        (create_entry 0 0xffffffff (bit_or gdt_long_mode_granularity gdt_granularity)
          (bit_or gdt_code_segment gdt_user))
        t4 in
    record t5 { tss = create_tss_entry tss }

-- `initialize`, with the addresses of the task state and of the table: what becomes of the lock and the
-- table, and what the register is given.
unfoldable pub initialize_gdt :
    ℕ → ℕ → TicketLock → GdtTable → Option (Option TicketLock × GdtTable × GdtRegister)
initialize_gdt tss at lock t = do
  guard ← scoped lock
  let filled = fill tss t
  some (destroy guard, filled, record { limit = gdt_size - 1; base = at })
