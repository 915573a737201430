-- ===== src/Arena/Tests.antt =====
-- Runs of arena/allocator.rs, and the theorems at concrete arenas.
use fastarena_rs.Base.{
  ℕ, ◌+◌, ◌%◌, ◌≤◌, ◌<◌, ◌≡◌, refl, some, ok, panicked, inr, length, arith, is_power_of_two,
  checked_next_power_of_two, size_overflow, usize_max, max,
}
use fastarena_rs.Block
use fastarena_rs.Block.{align_up, Block, min_block_align}
use fastarena_rs.Block.Laws as BlockLaws
use fastarena_rs.Arena.{
  Arena, ArenaStats, block_at, with_capacity, checkpoint, stats, rewind, reset, set_current_block,
}
use fastarena_rs.Arena.Alloc.{
  alloc_raw, try_alloc_raw, alloc_raw_inner, try_alloc_raw_inner, alloc_slow, alloc_slow_try,
  finish_slow_path, find_block, scan, alloc_new_block, try_alloc_new_block, next_block_for,
  rounded_size,
}
use fastarena_rs.Arena.Valid.{IsValid}
use fastarena_rs.Arena.Grown.{Used}
use fastarena_rs.Arena.Raw.{
  RawAfter, TryRawAfter, alloc_raw_lem, try_alloc_raw_lem, alloc_raw-fresh,
}
use fastarena_rs.Arena.Preserved.{Preserved, alloc_raw-Preserved}
use fastarena_rs.Arena.Rewind.{Rewound, rewind-Rewound}
use fastarena_rs.Arena.Restore.{Restored, rewind-checkpoint, checkpoint-IsCheckpoint}
use fastarena_rs.Arena.Reset.{reset_lem}
use fastarena_rs.Arena.Init.{Fresh, with_capacity-Fresh}
use fastarena_rs.Arena.Room.{alloc_raw-room}
use fastarena_rs.Arena.Reuse.{Served, reset-Served}
use fastarena_rs.Fixtures.{
  at_address-IsOs, full_os, first_os, second_os, second_os-IsFresh, tiny_block, tiny, busy,
  busy-IsValid,
}

-- 128 bytes do not fit the block of `tiny`.
abbrev spilled : Arena
spilled = (alloc_raw second_os 128 1 busy).1

runs : ℕ × ArenaStats
unfolding stats alloc_raw alloc_raw_inner alloc_slow finish_slow_path find_block scan
    alloc_new_block next_block_for rounded_size is_power_of_two checked_next_power_of_two Block.new
    Block.try_alloc Block.align_up Block.layout_ok set_current_block
runs = (length spilled.blocks, stats spilled)

-- The block holds 128 bytes, and they are counted twice: more bytes are counted as allocated than
-- are reserved.
counted_twice : runs ≡ (2, record { bytes_allocated = 272; bytes_reserved = 192; block_count = 2 })
unfolding runs
counted_twice = refl

-- A request that fails counts the bytes of the current block once more.
counted_again :
    ((stats busy).bytes_allocated ≡ 16)
    × ((stats (try_alloc_raw full_os 128 8 busy).1).bytes_allocated ≡ 32)
unfolding runs try_alloc_raw try_alloc_raw_inner alloc_slow_try try_alloc_new_block
counted_again = (refl, refl)

-- A fallible request that panics: `size + align - 1` overflows above alignment 64.
try_alloc_raw_panics : (try_alloc_raw full_os usize_max 128 tiny).0 ≡ panicked size_overflow
unfolding runs try_alloc_raw try_alloc_raw_inner alloc_slow_try try_alloc_new_block
try_alloc_raw_panics = refl

spilled-Preserved : Preserved busy spilled
spilled-Preserved = alloc_raw-Preserved second_os 128 1 busy-IsValid second_os-IsFresh

alloc_raw_lem_example : RawAfter busy 128 1 (alloc_raw second_os 128 1 busy)
alloc_raw_lem_example = alloc_raw_lem second_os 128 1 busy-IsValid second_os-IsFresh

try_alloc_raw_lem_example : TryRawAfter busy 128 1 (try_alloc_raw second_os 128 1 busy)
try_alloc_raw_lem_example = try_alloc_raw_lem second_os 128 1 busy-IsValid second_os-IsFresh

spilled_ok : alloc_raw second_os 128 1 busy ≡ (ok 1048576, spilled)
unfolding runs
spilled_ok = refl

alloc_raw-fresh_example : (Used busy 1048580 → ⊥) × Used spilled 1048580 × Used spilled 65540
alloc_raw-fresh_example =
    alloc_raw-fresh second_os 128 1 1048576 1048580 65540 busy-IsValid second_os-IsFresh
      (omega arith) spilled_ok (omega arith) (omega arith) (inr (omega arith))

rewind-Rewound_example :
    (a' : Arena) × (rewind (checkpoint busy) spilled ≡ (ok tt, a'))
    × Rewound (checkpoint busy) spilled a'
unfolding checkpoint
rewind-Rewound_example =
    rewind-Rewound spilled-Preserved.valid
      (checkpoint-IsCheckpoint busy-IsValid spilled-Preserved.valid spilled-Preserved.grown)
      (omega arith)

rewind-checkpoint_example :
    (a'' : Arena) × (rewind (checkpoint busy) spilled ≡ (ok tt, a''))
    × Restored busy a''
    × (a''.txn_depth ≡ spilled.txn_depth)
rewind-checkpoint_example =
    rewind-checkpoint busy-IsValid spilled-Preserved.valid spilled-Preserved.grown

reset_lem_example :
    IsValid (reset spilled)
    × ((reset spilled).current ≡ 0)
    × ((reset spilled).cur_ptr ≡ (block_at spilled.blocks 0).base)
    × ((stats (reset spilled)).bytes_allocated ≡ 0)
    × ((stats (reset spilled)).bytes_reserved ≡ (stats spilled).bytes_reserved)
    × ((stats (reset spilled)).block_count ≡ (stats spilled).block_count)
    × ((i : ℕ) → i < length spilled.blocks → (block_at (reset spilled).blocks i).offset ≡ 0)
reset_lem_example = reset_lem spilled-Preserved.valid

tiny_made : with_capacity first_os 64 ≡ ok tiny
unfolding with_capacity Block.new Block.layout_ok is_power_of_two
tiny_made = refl

with_capacity-Fresh_example : Fresh 64 tiny
with_capacity-Fresh_example = with_capacity-Fresh first_os 64 tiny (at_address-IsOs 65536) tiny_made

block_made : Block.try_new first_os 64 8 ≡ some tiny_block
unfolding Block.try_new Block.layout_ok is_power_of_two
block_made = refl

try_new-IsValid_example :
    BlockLaws.IsValid tiny_block
    × (tiny_block.offset ≡ 0)
    × (tiny_block.capacity ≡ 64)
    × (tiny_block.align ≡ max 8 min_block_align)
    × (tiny_block.base ≡ first_os 64 (max 8 min_block_align))
try_new-IsValid_example =
    BlockLaws.try_new-IsValid first_os 64 8 tiny_block (at_address-IsOs 65536) block_made

alloc_raw-room_example :
    (p : ℕ) × (p % 8 ≡ 0)
    × (65552 ≤ p)
    × (p ≤ 65592)
    × (alloc_raw full_os 8 8 busy ≡ (ok p, record busy { cur_ptr = p + 8 }))
    × (try_alloc_raw full_os 8 8 busy ≡ (ok (some p), record busy { cur_ptr = p + 8 }))
unfolding is_power_of_two
alloc_raw-room_example =
    alloc_raw-room busy full_os 8 8 65592 busy-IsValid refl (omega arith) (omega arith) refl
      (omega arith) (omega arith)

reset-Served_example : Served spilled full_os 100 8
unfolding runs is_power_of_two
reset-Served_example =
    reset-Served spilled full_os 100 8 1 spilled-Preserved.valid refl (omega arith) (omega arith)
      (omega arith) (omega arith)
