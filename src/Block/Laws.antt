-- ===== src/Block/Laws.antt =====
-- `Block::try_new` and `Block::try_alloc` on blocks that the system allocator hands out.
use fastarena_rs.Base.{
  true, ℕ, ◌+◌, ◌-◌, ◌%◌, ◌^◌, ◌≤◌, ◌<◌, ◌≡◌, ◌↔◌, ltb, if◌then◌else◌, none, some, arith, max,
  add_usize, IsPow2,
}
use fastarena_rs.Base.Pow2.{IsPow2-lt}
use fastarena_rs.Block.{
  drop, layout_ok, Block, Os, Bump, min_block_align, align_up, try_new, try_alloc,
}
use fastarena_rs.Block.Align.{IsAligned, align_up-IsAligned}

-- A block of the lower half of the address space, with an offset inside it.
pub record IsValid (b : Block) : Type 0 where
  pub nonempty : 0 < b.capacity
  pub non_null : 0 < b.base
  pub within : b.offset ≤ b.capacity
  pub low : b.base + b.capacity ≤ 2 ^ 63
  pub min_align : min_block_align ≤ b.align
  pub aligned : b.base % b.align ≡ 0

-- What the documentation of `alloc` promises of a pointer that is not null, on a target whose
-- programs live in the lower half of the address space.
pub record IsOs (os : Os) : Type 0 where
  pub aligned : (size align : ℕ) → 0 < os size align → os size align % align ≡ 0
  pub low : (size align : ℕ) → 0 < os size align → os size align + size ≤ 2 ^ 63

-- If the system allocator keeps its promises, a new block is empty and valid, has the capacity
-- that was asked for, and is aligned to the alignment that was asked for, but at least to 64.
pub try_new-IsValid :
    (os : Os) (capacity align : ℕ) (b : Block)
    → IsOs os
    → try_new os capacity align ≡ some b
    → IsValid b
      × (b.offset ≡ 0)
      × (b.capacity ≡ capacity)
      × (b.align ≡ max align min_block_align)
      × (b.base ≡ os capacity (max align min_block_align))
unfolding try_new
try_new-IsValid os capacity align b is h = ground (
  arith,
  is.aligned capacity (max align min_block_align),
  is.low capacity (max align min_block_align),
)

-- The effect of a successful bump of `size` bytes at `align`.
pub record Bumped (b : Block) (size align : ℕ) (r : Bump) : Type 0 where
  pub multiple : r.ptr % align ≡ 0
  pub above : b.base + b.offset ≤ r.ptr
  pub near : r.ptr < b.base + b.offset + align
  pub end : r.ptr + size ≡ b.base + r.block.offset
  pub fits : r.block.offset ≤ b.capacity
  pub delta : b.offset + r.delta ≡ r.block.offset
  pub block : r.block ≡ record b { offset = r.block.offset }

module _ {b : Block} (v : IsValid b) (size align : ℕ) (p : IsPow2 align) where
  try_alloc-IsAligned : IsAligned (b.base + b.offset) align (align_up (b.base + b.offset) align)
  try_alloc-IsAligned = align_up-IsAligned (b.base + b.offset) align p (omega (arith, IsPow2-lt p))

  -- Nothing wraps, so `try_alloc` is a comparison of addresses.
  no_wrap : add_usize b.base b.offset ≡ b.base + b.offset
  no_wrap = omega arith

  abbrev aligned : ℕ
  aligned = align_up (b.base + b.offset) align

  abbrev bumped : Bump
  bumped = record {
    ptr = aligned;
    delta = aligned + size - b.base - b.offset;
    block = record b { offset = aligned + size - b.base };
  }

  try_alloc-addresses :
      try_alloc b size align
      ≡ (if ltb (b.base + b.capacity) (aligned + size) then none else some bumped)
  unfolding try_alloc
  try_alloc-addresses = rw (try_alloc, no_wrap) (ground (arith, try_alloc-IsAligned, IsPow2-lt p))

  -- For an alignment that is a power of two, a bump that succeeds on a valid block returns an
  -- aligned range inside it, at or above what is in use, with less than one alignment of padding,
  -- and moves the offset to the end of the range by the delta that it reports.
  pub try_alloc-Bumped : (r : Bump) → try_alloc b size align ≡ some r → Bumped b size align r
  try_alloc-Bumped r h = ground (arith, try_alloc-addresses, try_alloc-IsAligned)

  -- For an alignment that is a power of two, a bump on a valid block fails exactly when the
  -- aligned range would end behind the block, for any size, also where the sum would leave the
  -- word.
  pub try_alloc-none_iff :
      (try_alloc b size align ≡ none)
      ↔ (b.base + b.capacity < align_up (b.base + b.offset) align + size)
  try_alloc-none_iff = ground (arith, try_alloc-addresses)

-- A new block that is dropped goes back to the system with the pointer and the layout with which
-- it came, and that layout, which is not checked again, is one.
pub drop-try_new :
    (os : Os) (capacity align : ℕ) (b : Block)
    → try_new os capacity align ≡ some b
    → ((drop b).ptr ≡ os capacity (drop b).align)
      × ((drop b).size ≡ capacity)
      × ((drop b).align ≡ max align min_block_align)
      × (layout_ok (drop b).size (drop b).align ≡ true)
unfolding try_new drop
drop-try_new os capacity align b e = ground arith
