-- ===== src/Arena.antt =====
-- arena/allocator.rs and arena/stats.rs, in the default build (no `drop-tracking`): the arena's
-- state, its constructors, the counters, checkpoints, `rewind` and `reset`.
-- `blocks` is the list that the `InlineVec` of the source stands for.
pub mod Alloc
pub mod Layout
pub mod Valid
pub mod Grown
pub mod Slow
pub mod Retained
pub mod Safety
pub mod Paths
pub mod Raw
pub mod Room
pub mod BlockList
pub mod Clear
pub mod Rewind
pub mod Restore
pub mod Preserved
pub mod Reset
pub mod Search
pub mod Reuse
pub mod Init
mod Tests
use fastarena_rs.Base.{
  ℕ, zero, suc, ◌+◌, ◌-◌, ◌*◌, Bool, true, false, List, [], ◌∷◌, length, get_or, set, drop, ltb,
  leb, if◌then◌else◌, max, min, add_usize, sub_usize, saturating_mul, saturating_sub, Panic,
  Outcome, ok, panicked, checkpoint_out_of_range, M,
}
use fastarena_rs.Block
use fastarena_rs.Block.{Block, Os, min_block_align}

abbrev pub min_block_size : ℕ
min_block_size = 64

abbrev pub default_block_size : ℕ
default_block_size = 64 * 1024

abbrev pub max_block_size : ℕ
max_block_size = 16 * 1024 * 1024

abbrev pub cache_line_size : ℕ
cache_line_size = 64

pub record Checkpoint : Type 0 where
  pub block_idx : ℕ
  pub offset : ℕ
  pub bytes_allocated : ℕ

pub record Arena : Type 0 where
  pub blocks : List Block
  pub current : ℕ
  pub next_block_size : ℕ
  pub bytes_allocated : ℕ
  pub bytes_reserved : ℕ
  pub txn_depth : ℕ
  pub cur_base : ℕ
  pub cur_ptr : ℕ
  pub cur_end : ℕ
  pub high_water_mark : ℕ
  pub largest_remaining : ℕ
  pub largest_remaining_idx : ℕ

pub record ArenaStats : Type 0 where
  pub bytes_allocated : ℕ
  pub bytes_reserved : ℕ
  pub block_count : ℕ

-- What a read past the end of the list gives; `Arena.Valid` shows that there is none.
abbrev pub no_block : Block
no_block = record { offset = 0; capacity = 0; base = 0; ptr = 0; align = 0 }

-- `self.blocks.get(i)`
abbrev pub block_at : List Block → ℕ → Block
block_at bs i = get_or bs i no_block

-- `self.blocks.get_mut(i).offset = offset`
unfoldable pub set_offset : List Block → ℕ → ℕ → List Block
set_offset bs i offset = set bs i (record (block_at bs i) { offset = offset })

abbrev pub fresh_arena : Block → ℕ → Arena
fresh_arena block size = record {
  blocks = block ∷ [];
  current = 0;
  next_block_size = min (saturating_mul size 2) max_block_size;
  bytes_allocated = 0;
  bytes_reserved = size;
  txn_depth = 0;
  cur_base = block.base;
  cur_ptr = block.base;
  cur_end = add_usize block.base size;
  high_water_mark = 0;
  largest_remaining = 0;
  largest_remaining_idx = 0;
}

unfoldable pub with_capacity : Os → ℕ → Outcome Arena
with_capacity os initial_bytes =
    let size = max initial_bytes min_block_size in
    elim (Block.new os size min_block_align) [
      | panicked e ↦ panicked e
      | ok block ↦ ok (fresh_arena block size)
    ]

unfoldable pub new : Os → Outcome Arena
unfolding with_capacity
new os = with_capacity os default_block_size

unfoldable pub default : Os → Outcome Arena
unfolding new
default os = new os

-- The bytes in use in the current block.
unfoldable pub current_used : Arena → ℕ
current_used a = sub_usize a.cur_ptr a.cur_base

unfoldable pub checkpoint : Arena → Checkpoint
unfolding current_used
checkpoint a = record {
  block_idx = a.current;
  offset = current_used a;
  bytes_allocated = add_usize a.bytes_allocated (current_used a);
}

unfoldable pub stats : Arena → ArenaStats
unfolding current_used
stats a = record {
  bytes_allocated = add_usize a.bytes_allocated (current_used a);
  bytes_reserved = a.bytes_reserved;
  block_count = length a.blocks;
}

unfoldable pub bytes_idle : ArenaStats → ℕ
bytes_idle s = saturating_sub s.bytes_reserved s.bytes_allocated

unfoldable pub block_count : Arena → ℕ
block_count a = length a.blocks

unfoldable pub transaction_depth : Arena → ℕ
transaction_depth a = a.txn_depth

-- The largest free space of the blocks from index `i` on, and the index of the first such block:
-- the loop of `compute_largest_remaining`, with its two variables.
unfoldable pub largest_from : List Block → ℕ → ℕ → ℕ → ℕ × ℕ
largest_from [] i max_rem max_idx = (max_rem, max_idx)
largest_from (b ∷ bs) i max_rem max_idx =
    let rem = sub_usize b.capacity b.offset in
    largest_from bs (i + 1) (if ltb max_rem rem then rem else max_rem)
      (if ltb max_rem rem then i else max_idx)

-- Its result is stored in `largest_remaining` by its only caller.
unfoldable pub compute_largest_remaining : ℕ → Arena → Arena
unfolding largest_from
compute_largest_remaining from_idx a =
    let (max_rem, max_idx) =
      largest_from (drop (from_idx + 1) a.blocks) (from_idx + 1) 0 from_idx in
    record a { largest_remaining = max_rem; largest_remaining_idx = max_idx }

abbrev pub point_at : ℕ → Block → Arena → Arena
point_at idx block a = record a {
  current = idx;
  high_water_mark = if ltb a.high_water_mark idx then idx else a.high_water_mark;
  cur_base = block.base;
  cur_ptr = add_usize block.base block.offset;
  cur_end = add_usize block.base block.capacity;
}

-- The second half of `set_current_block`.
unfoldable pub update_largest : ℕ → Arena → Arena
unfolding compute_largest_remaining
update_largest idx a =
    if leb (idx + 1) a.largest_remaining_idx
    then record a {
      largest_remaining =
          sub_usize (block_at a.blocks a.largest_remaining_idx).capacity
            (block_at a.blocks a.largest_remaining_idx).offset;
    }
    else compute_largest_remaining idx a

unfoldable pub set_current_block : ℕ → Arena → Arena
unfolding update_largest
set_current_block idx a = update_largest idx (point_at idx (block_at a.blocks idx) a)

-- `for i in lo..lo + n { self.blocks.get_mut(i).offset = 0 }`
unfoldable pub clear_offsets : ℕ → ℕ → List Block → List Block
unfolding set_offset
clear_offsets lo zero bs = bs
clear_offsets lo (suc n) bs = clear_offsets (lo + 1) n (set_offset bs lo 0)

-- The stores of `rewind` before the last call; the range is empty if `cp` is not behind `current`.
abbrev pub rewound : Checkpoint → Arena → Arena
rewound cp a = record a {
  blocks =
      set_offset (clear_offsets (cp.block_idx + 1) (a.current - cp.block_idx) a.blocks) cp.block_idx
        cp.offset;
  bytes_allocated = sub_usize cp.bytes_allocated cp.offset;
}

unfoldable pub rewind : Checkpoint → M Arena (Unit {0})
unfolding set_current_block clear_offsets
rewind cp a =
    if ltb cp.block_idx (length a.blocks)
    then (ok tt, set_current_block cp.block_idx (rewound cp a))
    else (panicked checkpoint_out_of_range, a)

-- The largest capacity of the blocks from index `i` on: the loop of `reset`.
unfoldable pub largest_capacity : List Block → ℕ → ℕ → ℕ → ℕ × ℕ
largest_capacity [] i max_rem max_idx = (max_rem, max_idx)
largest_capacity (b ∷ bs) i max_rem max_idx =
    largest_capacity bs (i + 1) (if ltb max_rem b.capacity then b.capacity else max_rem)
      (if ltb max_rem b.capacity then i else max_idx)

abbrev pub cleared : List Block → Arena → Arena
cleared bs a =
    let b0 = block_at bs 0 in
    let (max_rem, max_idx) =
      (if ltb 1 (length bs) then largest_capacity (drop 1 bs) 1 0 0 else (0, 0)) in
    record a {
      blocks = bs;
      high_water_mark = 0;
      bytes_allocated = 0;
      current = 0;
      cur_base = b0.base;
      cur_ptr = b0.base;
      cur_end = add_usize b0.base b0.capacity;
      largest_remaining = max_rem;
      largest_remaining_idx = max_idx;
    }

unfoldable pub reset : Arena → Arena
unfolding clear_offsets largest_capacity
reset a = cleared (clear_offsets 0 (a.high_water_mark + 1) a.blocks) a
