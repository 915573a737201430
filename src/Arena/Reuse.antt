-- ===== src/Arena/Reuse.antt =====
-- After `reset` the retained blocks are used again before the system allocator is asked for more.
use fastarena_rs.Base.{
  ℕ, ◌+◌, ◌-◌, ◌≤◌, ◌<◌, ◌≡◌, ◌≢◌, refl, ap, ◌∙◌, inl, inr, List, length, drop, arith, true, false,
  some, ok, ltb, leb, leb→le, leb→lt, le→leb, lt→leb, lt→ltb, ◌==◌, usize_mod, Bool-cases,
  Option-cases, is_power_of_two, IsPow2, length-set, length-drop, get_or-drop,
}
use fastarena_rs.Block
use fastarena_rs.Block.{Block, Bump, Os, align_up, min_block_align}
use fastarena_rs.Block.Align.{align_up-IsAligned}
use fastarena_rs.Block.Laws.{try_alloc-none_iff}
use fastarena_rs.Arena.{Arena, block_at, no_block, reset, stats, clear_offsets}
use fastarena_rs.Arena.Alloc.{
  alloc_raw, try_alloc_raw, alloc_raw_inner, try_alloc_raw_inner, alloc_slow, alloc_slow_try,
  find_block, finish_slow_path, use_block, with_bump,
}
use fastarena_rs.Arena.Valid.{IsValid, set_current_block-Pointed}
use fastarena_rs.Arena.Grown.{Flushed}
use fastarena_rs.Arena.Slow.{finish_slow_path-Flushed}
use fastarena_rs.Arena.Paths.{cur_ptr-IsAligned, cur_end_low}
use fastarena_rs.Arena.Room.{alloc_raw-fast}
use fastarena_rs.Arena.Reset.{reset-IsValid, reset_lem, wiped-Reframed}
use fastarena_rs.Base.Pow2.{IsPow2-of_is_power_of_two, IsPow2-lt, IsPow2-pos}
use fastarena_rs.Arena.Search.{largest_capacity-each, scan_finds}

-- The request is served after `reset`, and the arena owns the blocks that it had.
abbrev pub Served : Arena → Os → ℕ → ℕ → Type 0
Served a os size align =
    (p : ℕ) × (a' : Arena) × (alloc_raw os size align (reset a) ≡ (ok p, a'))
    × (try_alloc_raw os size align (reset a) ≡ (ok (some p), a'))
    × ((stats a').block_count ≡ (stats a).block_count)
    × ((stats a').bytes_reserved ≡ (stats a).bytes_reserved)

module _ {a : Arena} (v : IsValid a) (size align i : ℕ) (two : is_power_of_two align ≡ true)
    (low : align ≤ min_block_align) (pos : 0 < size) (lt : i < length a.blocks)
    (fits : size + align ≤ (block_at a.blocks i).capacity + 1) where
  abbrev empty : Arena
  empty = reset a

  pow : IsPow2 align
  pow = IsPow2-of_is_power_of_two align two

  abbrev flushed : Arena
  flushed = finish_slow_path empty

  empty-IsValid : IsValid empty
  empty-IsValid = reset-IsValid v

  flush : Flushed empty flushed
  flush = finish_slow_path-Flushed empty-IsValid

  same_blocks :
      (length empty.blocks ≡ length a.blocks)
      × ((block_at empty.blocks i).capacity ≡ (block_at a.blocks i).capacity)
  unfolding reset
  same_blocks = let same = wiped-Reframed v in (same.same_length, (same.frame i lt).capacity)

  align_pos : 0 < align
  align_pos = IsPow2-pos pow

  largest : i ≢ 0 → size ≤ empty.largest_remaining
  unfolding reset
  largest behind =
      let bs = clear_offsets 0 (a.high_water_mark + 1) a.blocks in
      let same : length bs ≡ length a.blocks = (wiped-Reframed v).same_length in
      let capacity : (block_at bs i).capacity ≡ (block_at a.blocks i).capacity =
        ((wiped-Reframed v).frame i lt).capacity in
      let after_first : 0 < i = omega (arith, behind) in
      let several : ltb 1 (length bs) ≡ true = lt→ltb 1 (length bs) (omega (arith, same)) in
      let each =
        largest_capacity-each (drop 1 bs) 1 0 0 (i - 1) (omega (arith, length-drop 1 bs, same)) in
      let here : block_at (drop 1 bs) (i - 1) ≡ block_at bs i =
        get_or-drop 1 bs (i - 1) i no_block (omega arith) in
      rw several (omega (arith, each, ap (λ (b : Block). b.capacity) here, capacity, align_pos))

  -- The block is empty, so it has room.
  has_room : i ≢ 0 → (s : Bump) × (Block.try_alloc (block_at flushed.blocks i) size align ≡ some s)
  has_room behind =
      let (same, capacity) = same_blocks in
      let b = block_at flushed.blocks i in
      let h : i < length flushed.blocks = omega (arith, flush.blocks.same_length) in
      let valid = flush.valid.layout.valid i h in
      let start : empty.current ≡ 0 = (reset_lem v).1 in
      let idle = flush.valid.layout.idle i (omega (arith, behind, flush.current, start)) h in
      let frame = flush.blocks.frame i (omega (arith, same)) in
      let up =
        align_up-IsAligned (b.base + b.offset) align pow
          (omega (arith, IsPow2-lt pow, valid.low, valid.within)) in
      elim (Option-cases (Block.try_alloc b size align)) [
        | inr (s, e) ↦ (s, e)
        | inl full ↦
            let over = (try_alloc-none_iff valid size align pow).0 full in
            absurd (omega (arith, over, up.near, idle, frame.capacity, capacity))
      ]

  flushed_hint : i ≢ 0 → size ≤ flushed.largest_remaining
  unfolding finish_slow_path
  flushed_hint behind = largest behind

  retained : i ≢ 0 → (j : ℕ) × (r : Bump) × (find_block size align flushed ≡ some (j, r))
  unfolding find_block
  retained behind =
      let (s, room) = has_room behind in
      let (same, capacity) = same_blocks in
      let start : empty.current ≡ 0 = (reset_lem v).1 in
      let first : flushed.current ≡ 0 = flush.current ∙ start in
      let h : i < length flushed.blocks = omega (arith, flush.blocks.same_length) in
      let valid = flush.valid.layout.valid i h in
      let here : block_at (drop 1 flushed.blocks) (i - 1) ≡ block_at flushed.blocks i =
        get_or-drop 1 flushed.blocks (i - 1) i no_block (omega (arith, behind)) in
      let wide : leb align (block_at (drop 1 flushed.blocks) (i - 1)).align ≡ true =
        rw here (le→leb align (block_at flushed.blocks i).align (omega (arith, valid.min_align))) in
      let room' : Block.try_alloc (block_at (drop 1 flushed.blocks) (i - 1)) size align ≡ some s =
        rw here room in
      let (j, r, found) =
        scan_finds (drop 1 flushed.blocks) 1 size align (i - 1) s
          (omega (arith, length-drop 1 flushed.blocks, behind)) wide room' in
      let allowed : leb size flushed.largest_remaining ≡ true =
        le→leb size _ (flushed_hint behind) in
      (j, r, rw (allowed, first, find_block) found)

  fast-Served :
      (os : Os) → align_up empty.cur_ptr align + size ≤ empty.cur_end → Served a os size align
  unfolding stats reset
  fast-Served os within =
      let (served, try_served) =
        alloc_raw-fast empty os size align empty-IsValid two low pos within in
      (
        align_up empty.cur_ptr align,
        record empty { cur_ptr = align_up empty.cur_ptr align + size },
        served,
        try_served,
        same_blocks.0,
        refl,
      )

  -- The first block is the current one, and empty.
  at_start :
      (empty.cur_ptr ≡ empty.cur_base)
      × (empty.cur_end ≡ empty.cur_base + (block_at empty.blocks 0).capacity)
  unfolding reset
  at_start = (refl, empty-IsValid.end)

  not_first : empty.cur_end < align_up empty.cur_ptr align + size → i ≢ 0
  not_first full first =
      let up = cur_ptr-IsAligned size align empty-IsValid pow in
      let (start, end) = at_start in
      let same = ap (λ (k : ℕ). (block_at empty.blocks k).capacity) first in
      omega (arith, full, fits, up.near, start, end, same, same_blocks.1)

  no_overflow : align_up empty.cur_ptr align + size < usize_mod
  no_overflow =
      let up = cur_ptr-IsAligned size align empty-IsValid pow in
      let top = cur_end_low size align empty-IsValid pow in
      let valid = v.layout.valid i lt in
      omega
        (arith, up.near, top, empty-IsValid.ptr_within, fits, align_pos, valid.low, valid.non_null)

  -- A block that is entered is one that the arena had.
  entered :
      (j : ℕ) (r : Bump)
      → ((stats (use_block j r flushed)).block_count ≡ (stats a).block_count)
        × ((stats (use_block j r flushed)).bytes_reserved ≡ (stats a).bytes_reserved)
  unfolding stats finish_slow_path reset
  entered j r =
      let entry = set_current_block-Pointed j (with_bump j r flushed) in
      (
        ap (λ (bs : List Block). length bs) entry.blocks
            ∙ length-set flushed.blocks j r.block
            ∙ flush.blocks.same_length
            ∙ same_blocks.0,
        entry.bytes_reserved,
      )

  slow-Served :
      (os : Os) → empty.cur_end < align_up empty.cur_ptr align + size → Served a os size align
  unfolding alloc_raw try_alloc_raw alloc_raw_inner try_alloc_raw_inner alloc_slow alloc_slow_try
  slow-Served os full =
      let (j, r, found) = retained (not_first full) in
      let more : (size == 0) ≡ false = ground arith in
      let small : ltb min_block_align align ≡ false = ground arith in
      let sum : ltb (align_up empty.cur_ptr align + size) usize_mod ≡ true =
        lt→ltb _ _ no_overflow in
      let outside : leb (align_up empty.cur_ptr align + size) empty.cur_end ≡ false =
        lt→leb _ _ full in
      (
        r.ptr,
        use_block j r flushed,
        rw (two, more, small, sum, outside, small, found) refl,
        rw (two, more, small, sum, outside, small, found) refl,
        (entered j r).0,
        (entered j r).1,
      )

-- In a valid arena, for a size that is not zero and a power of two up to 64: after reset, a
-- request for which one of the blocks is large enough, with one byte less than the alignment to
-- spare, is served by alloc_raw and by try_alloc_raw, whatever the system allocator answers, and
-- the arena then owns as many blocks and bytes as before the reset.
pub reset-Served :
    (a : Arena) (os : Os) (size align i : ℕ)
    → IsValid a
    → is_power_of_two align ≡ true
    → align ≤ min_block_align
    → 0 < size
    → i < length a.blocks
    → size + align ≤ (block_at a.blocks i).capacity + 1
    → Served a os size align
reset-Served a os size align i v two low pos lt fits =
    elim (Bool-cases (leb (align_up (reset a).cur_ptr align + size) (reset a).cur_end)) [
      | inl within ↦ fast-Served v size align i two low pos lt fits os (leb→le _ _ within)
      | inr full ↦ slow-Served v size align i two low pos lt fits os (leb→lt _ _ full)
    ]
