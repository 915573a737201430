-- ===== src/Arena/Alloc.antt =====
-- The raw allocation paths of arena/allocator.rs: the bump of the current block, the scan of the
-- retained blocks, and a new block. `os` is what the system allocator answers, if it is asked.
use fastarena_rs.Base.{
  ℕ, ◌+◌, ◌-◌, ◌/◌, Option, none, some, List, [], ◌∷◌, ◌++◌, length, set, drop, ltb, leb, ◌==◌,
  if◌then◌else◌, max, min, usize_max, add_usize, sub_usize, mul_usize, saturating_add, checked_add,
  is_power_of_two, checked_next_power_of_two, ok, panicked, size_overflow, unsatisfied,
  align_not_power_of_two, M, ◌>>=◌,
}
use fastarena_rs.Block
use fastarena_rs.Block.{Block, Os, Bump, align_up, min_block_align}
use fastarena_rs.Arena.{
  Arena, max_block_size, cache_line_size, set_offset, current_used, set_current_block,
}

unfoldable pub finish_slow_path : Arena → Arena
unfolding set_offset current_used
finish_slow_path a = record a {
  bytes_allocated = add_usize a.bytes_allocated (current_used a);
  blocks = set_offset a.blocks a.current (current_used a);
}

-- The power of two of `next_block_for`; `usize::MAX` if there is none.
abbrev pub power_for : ℕ → ℕ
power_for n = elim (checked_next_power_of_two n) [ none ↦ usize_max | some p ↦ p ]

-- The size that `next_block_for` returns, from `next_block_size` and `worst`.
unfoldable pub rounded_size : ℕ → ℕ → ℕ → ℕ
rounded_size next worst align =
    max (max (min (power_for (max (max next worst) (mul_usize align 2))) max_block_size) worst)
      (mul_usize align 2)

unfoldable pub next_block_for : ℕ → ℕ → M Arena ℕ
next_block_for size align a = elim (checked_add size (sub_usize align 1)) [
  | none ↦ (panicked size_overflow, a)
  | some worst ↦
      let rounded = rounded_size a.next_block_size worst align in
      (
        ok rounded,
        record a { next_block_size = min (saturating_add rounded (rounded / 2)) max_block_size },
      )
]

-- A new block with its first allocation, as the last and current one.
abbrev pub with_block : ℕ → Bump → Arena → Arena
with_block block_size r a = record a {
  bytes_reserved = add_usize a.bytes_reserved block_size;
  bytes_allocated = add_usize a.bytes_allocated r.delta;
  blocks = a.blocks ++ (r.block ∷ []);
}

abbrev pub push_block : ℕ → Bump → Arena → Arena
push_block block_size r a =
    set_current_block (length (a.blocks ++ (r.block ∷ [])) - 1) (with_block block_size r a)

abbrev pub open_block : Os → ℕ → ℕ → ℕ → M Arena ℕ
open_block os size align block_size a = elim (Block.new os block_size align) [
  | panicked e ↦ (panicked e, a)
  | ok block ↦ elim (Block.try_alloc block size align) [
    | none ↦ (panicked unsatisfied, a)
    | some r ↦ (ok r.ptr, push_block block_size r a)
  ]
]

unfoldable pub alloc_new_block : Os → ℕ → ℕ → M Arena ℕ
alloc_new_block os size align = do
  block_size ← next_block_for size align
  open_block os size align block_size

abbrev pub try_open_block : Os → ℕ → ℕ → ℕ → M Arena (Option ℕ)
try_open_block os size align block_size a = elim (Block.try_new os block_size align) [
  | none ↦ (ok none, a)
  | some block ↦ elim (Block.try_alloc block size align) [
    | none ↦ (ok none, a)
    | some r ↦ (ok (some r.ptr), push_block block_size r a)
  ]
]

unfoldable pub try_alloc_new_block : Os → ℕ → ℕ → M Arena (Option ℕ)
try_alloc_new_block os size align = do
  block_size ← next_block_for size align
  try_open_block os size align block_size

-- The first of the blocks from index `i` on with room for the request, after its bump.
unfoldable pub scan : List Block → ℕ → ℕ → ℕ → Option (ℕ × Bump)
scan [] i size align = none
scan (b ∷ bs) i size align =
    let rest = scan bs (i + 1) size align in
    if leb align b.align
    then elim (Block.try_alloc b size align) [ none ↦ rest | some r ↦ some (i, r) ]
    else rest

unfoldable pub find_block : ℕ → ℕ → Arena → Option (ℕ × Bump)
find_block size align a =
    if leb size a.largest_remaining
    then scan (drop (a.current + 1) a.blocks) (a.current + 1) size align
    else none

-- A retained block with its bump, as the current one.
abbrev pub with_bump : ℕ → Bump → Arena → Arena
with_bump i r a = record a {
  blocks = set a.blocks i r.block;
  bytes_allocated = add_usize a.bytes_allocated r.delta;
}

abbrev pub use_block : ℕ → Bump → Arena → Arena
use_block i r a = set_current_block i (with_bump i r a)

unfoldable pub alloc_slow : Os → ℕ → ℕ → M Arena ℕ
alloc_slow os size align a0 =
    let a = finish_slow_path a0 in
    if ltb min_block_align align
    then alloc_new_block os size align a
    else elim (find_block size align a) [
      | some (i, r) ↦ (ok r.ptr, use_block i r a)
      | none ↦ alloc_new_block os size align a
    ]

unfoldable pub alloc_slow_try : Os → ℕ → ℕ → M Arena (Option ℕ)
alloc_slow_try os size align a0 =
    let a = finish_slow_path a0 in
    if ltb min_block_align align
    then try_alloc_new_block os size align a
    else elim (find_block size align a) [
      | some (i, r) ↦ (ok (some r.ptr), use_block i r a)
      | none ↦ try_alloc_new_block os size align a
    ]

-- The pointer of the fast path, and the arena with `size` bytes bumped past it.
abbrev pub aligned_ptr : Arena → ℕ → ℕ
aligned_ptr a align = add_usize a.cur_ptr (sub_usize (align_up a.cur_ptr align) a.cur_ptr)

abbrev pub bump : Arena → ℕ → ℕ → Arena
bump a size align = record a { cur_ptr = add_usize (aligned_ptr a align) size }

unfoldable pub alloc_raw_inner : Os → ℕ → ℕ → M Arena ℕ
alloc_raw_inner os size align a =
    if ltb min_block_align align
    then alloc_slow os size align a
    else elim (checked_add (align_up a.cur_ptr align) size) [
      | none ↦ alloc_slow os size align a
      | some new_end ↦
          if leb new_end a.cur_end
          then (ok (aligned_ptr a align), bump a size align)
          else alloc_slow os size align a
    ]

unfoldable pub try_alloc_raw_inner : Os → ℕ → ℕ → M Arena (Option ℕ)
try_alloc_raw_inner os size align a =
    if ltb min_block_align align
    then alloc_slow_try os size align a
    else elim (checked_add (align_up a.cur_ptr align) size) [
      | none ↦ (ok none, a)
      | some new_end ↦
          if leb new_end a.cur_end
          then (ok (some (aligned_ptr a align)), bump a size align)
          else alloc_slow_try os size align a
    ]

-- `NonNull::<u8>::dangling()`
abbrev pub dangling : ℕ
dangling = 1

unfoldable pub alloc_raw : Os → ℕ → ℕ → M Arena ℕ
alloc_raw os size align a =
    if is_power_of_two align
    then if size == 0 then (ok dangling, a) else alloc_raw_inner os size align a
    else (panicked align_not_power_of_two, a)

unfoldable pub try_alloc_raw : Os → ℕ → ℕ → M Arena (Option ℕ)
try_alloc_raw os size align a =
    if is_power_of_two align
    then if size == 0 then (ok (some dangling), a) else try_alloc_raw_inner os size align a
    else (panicked align_not_power_of_two, a)

unfoldable pub alloc_cache_aligned : Os → ℕ → M Arena ℕ
alloc_cache_aligned os size = alloc_raw os size cache_line_size

unfoldable pub try_alloc_cache_aligned : Os → ℕ → M Arena (Option ℕ)
try_alloc_cache_aligned os size = try_alloc_raw os size cache_line_size
