-- ===== src/Block.antt =====
-- arena/block.rs: one block of memory from the system allocator, and bumping in it.
-- An address is a number, and 0 is the null pointer.
pub mod Align
pub mod Laws
mod Tests
use fastarena_rs.Base.{
  ℕ, ◌+◌, ◌-◌, ◌≤◌, ◌≡◌, Bool, true, ◌&&◌, Option, none, some, ltb, leb, ◌==◌, if◌then◌else◌, max,
  bit_and, isize_max, add_usize, sub_usize, not_usize, checked_add, is_power_of_two, Panic, Outcome,
  ok, panicked, out_of_memory,
}

-- `ptr` is `base` as a `NonNull`.
pub record Block : Type 0 where
  pub offset : ℕ
  pub capacity : ℕ
  pub base : ℕ
  pub ptr : ℕ
  pub align : ℕ

abbrev pub min_block_align : ℕ
min_block_align = 64

-- What `std::alloc::alloc` answers to one call, from the size and the alignment; 0 is null.
abbrev pub Os : Type 0
Os = ℕ → ℕ → ℕ

-- `NonNull::new`
abbrev pub non_null : ℕ → Option ℕ
non_null p = if p == 0 then none else some p

-- `Layout::from_size_align(size, align).is_ok()`
unfoldable pub layout_ok : ℕ → ℕ → Bool
layout_ok size align = is_power_of_two align && leb (size + (align - 1)) isize_max

unfoldable pub align_up : ℕ → ℕ → ℕ
align_up addr align = bit_and (sub_usize (add_usize addr align) 1) (not_usize (sub_usize align 1))

abbrev fresh_block : ℕ → ℕ → ℕ → Block
fresh_block capacity align p = record {
  offset = 0;
  capacity = capacity;
  base = p;
  ptr = p;
  align = align;
}

unfoldable pub try_new : Os → ℕ → ℕ → Option Block
try_new os capacity align =
    if capacity == 0
    then none
    else if layout_ok capacity (max align min_block_align)
    then elim (non_null (os capacity (max align min_block_align))) [
      | none ↦ none
      | some p ↦ some (fresh_block capacity (max align min_block_align) p)
    ]
    else none

unfoldable pub new : Os → ℕ → ℕ → Outcome Block
unfolding try_new
new os capacity align = elim (try_new os capacity align) [
  | none ↦ panicked out_of_memory
  | some b ↦ ok b
]

-- What a successful `try_alloc` returns, with the block that it leaves; `none` leaves it as it is.
pub record Bump : Type 0 where
  pub ptr : ℕ
  pub delta : ℕ
  pub block : Block

abbrev bump_to : Block → ℕ → ℕ → Bump
bump_to b aligned new_offset = record {
  ptr = add_usize b.base (sub_usize aligned b.base);
  delta = sub_usize new_offset b.offset;
  block = record b { offset = new_offset };
}

unfoldable pub try_alloc : Block → ℕ → ℕ → Option Bump
try_alloc b size align =
    let aligned = align_up (add_usize b.base b.offset) align in
    elim (checked_add (sub_usize aligned b.base) size) [
      | none ↦ none
      | some new_offset ↦
          if ltb b.capacity new_offset then none else some (bump_to b aligned new_offset)
    ]

unfoldable pub remaining : Block → ℕ
remaining b = sub_usize b.capacity b.offset

-- The call of `dealloc`: the pointer, and the size and alignment of the layout.
pub record Dealloc : Type 0 where
  pub ptr : ℕ
  pub size : ℕ
  pub align : ℕ

unfoldable pub drop : Block → Dealloc
drop b = record { ptr = b.ptr; size = b.capacity; align = b.align }
