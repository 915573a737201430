-- ===== src/Fixtures.antt =====
-- The system allocator and the arenas of the tests.
use fastarena_rs.Base.{
  ℕ, zero, suc, ◌+◌, ◌%◌, ◌^◌, ◌≤◌, ◌<◌, ◌≡◌, refl, inl, ◌&&◌, ok, List, length, arith, leb, ◌==◌,
  if◌then◌else◌, is_power_of_two,
}
use fastarena_rs.Block
use fastarena_rs.Block.{Block, Os}
use fastarena_rs.Block.Laws.{IsOs}
use fastarena_rs.Arena.{Arena, block_at, fresh_arena, with_capacity}
use fastarena_rs.Arena.Alloc.{alloc_raw, alloc_raw_inner}
use fastarena_rs.Arena.Valid.{IsValid, IsFresh}
use fastarena_rs.Arena.Init.{with_capacity-Fresh}
use fastarena_rs.Arena.Preserved.{alloc_raw-Preserved}

-- An allocator that has room at one address only.
abbrev pub at_address : ℕ → Os
at_address p size align = if (p % align == 0) && leb (p + size) (2 ^ 63) then p else 0

pub at_address-IsOs : (p : ℕ) → IsOs (at_address p)
at_address-IsOs p = record {
  aligned = λ size align h. ground arith;
  low = λ size align h. ground arith;
}

pub at_address-IsFresh :
    (p : ℕ) (bs : List Block)
    → ((i : ℕ) → i < length bs → (block_at bs i).base + (block_at bs i).capacity ≤ p)
    → IsFresh (at_address p) bs
at_address-IsFresh p bs below = record {
  is_os = at_address-IsOs p;
  apart = λ size align i pos h. inl (ground (arith, below i h));
}

abbrev pub first_os : Os
first_os = at_address 65536

abbrev pub second_os : Os
second_os = at_address 1048576

-- No memory is left.
abbrev pub full_os : Os
full_os _ _ = 0

pub full_os-IsFresh : (bs : List Block) → IsFresh full_os bs
full_os-IsFresh bs = record {
  is_os = record {
    aligned = λ size align h. absurd (omega arith);
    low = λ size align h. absurd (omega arith);
  };
  apart = λ size align i pos h. absurd (omega arith);
}

abbrev pub tiny_block : Block
tiny_block = record { offset = 0; capacity = 64; base = 65536; ptr = 65536; align = 64 }

-- `Arena::with_capacity(64)`
abbrev pub tiny : Arena
tiny = fresh_arena tiny_block 64

tiny_made : with_capacity first_os 64 ≡ ok tiny
unfolding with_capacity Block.new Block.layout_ok is_power_of_two
tiny_made = refl

pub tiny-IsValid : IsValid tiny
tiny-IsValid = (with_capacity-Fresh first_os 64 tiny (at_address-IsOs 65536) tiny_made).valid

pub second_os-IsFresh : IsFresh second_os tiny.blocks
second_os-IsFresh = at_address-IsFresh 1048576 tiny.blocks below
  where
    below :
        (i : ℕ)
        → i < 1
        → (block_at tiny.blocks i).base + (block_at tiny.blocks i).capacity ≤ 1048576
    below zero h = omega arith
    below (suc i) h = absurd (omega arith)

-- The same arena with 16 bytes in use.
abbrev pub busy : Arena
busy = record tiny { cur_ptr = 65552 }

pub busy-IsValid : IsValid busy
unfolding alloc_raw alloc_raw_inner is_power_of_two Block.align_up
busy-IsValid = (alloc_raw-Preserved full_os 16 8 tiny-IsValid (full_os-IsFresh tiny.blocks)).valid
