-- ===== src/Arena/Init.antt =====
-- A new arena.
use fastarena_rs.Base.{
  ℕ, zero, suc, ◌+◌, ◌<◌, ◌≡◌, refl, inl, inr, [], ◌∷◌, length, arith, ok, max, Option-cases,
}
use fastarena_rs.Block
use fastarena_rs.Block.{Block, Os, min_block_align}
use fastarena_rs.Block.Laws as BlockLaws
use fastarena_rs.Block.Laws.{IsOs, try_new-IsValid}
use fastarena_rs.Arena.{
  Arena, block_at, fresh_arena, with_capacity, stats, current_used, min_block_size,
}
use fastarena_rs.Arena.Layout.{IsLayout}
use fastarena_rs.Arena.Valid.{IsValid}

single-IsLayout : (b : Block) → BlockLaws.IsValid b → IsLayout (b ∷ []) 0
single-IsLayout b v = record {
  in_range = omega arith;
  valid = only;
  idle = λ i lt h. absurd (omega arith);
  apart = λ i j lt h. absurd (omega arith);
}
  where
    only : (i : ℕ) → i < length (b ∷ []) → BlockLaws.IsValid (block_at (b ∷ []) i)
    only zero h = v
    only (suc i) h = absurd (omega arith)

-- What `with_capacity` promises of the arena that it returns.
pub record Fresh (initial_bytes : ℕ) (a : Arena) : Type 0 where
  pub valid : IsValid a
  pub bytes_allocated : (stats a).bytes_allocated ≡ 0
  pub bytes_reserved : (stats a).bytes_reserved ≡ max initial_bytes min_block_size
  pub block_count : (stats a).block_count ≡ 1
  pub room : a.cur_end ≡ a.cur_ptr + max initial_bytes min_block_size

fresh_arena-Fresh :
    (n : ℕ) (b : Block)
    → BlockLaws.IsValid b
    → b.offset ≡ 0
    → b.capacity ≡ max n min_block_size
    → Fresh n (fresh_arena b (max n min_block_size))
unfolding stats current_used
fresh_arena-Fresh n b v empty capacity =
    let low = v.low in
    let positive = v.non_null in
    record {
      valid = record {
        layout = single-IsLayout b v;
        base = refl;
        end = omega arith;
        ptr_above = omega arith;
        ptr_within = omega arith;
        mark_above = omega arith;
        mark_in_range = omega arith;
        reserved = omega arith;
        counted = omega arith;
      };
      bytes_allocated = omega arith;
      bytes_reserved = refl;
      block_count = refl;
      room = omega arith;
    }

-- If the system allocator keeps its promises, an arena that with_capacity returns is valid and
-- empty: no byte is counted as allocated, one block of the capacity asked for, but at least 64
-- bytes, is reserved, and all of it lies ahead of the bump pointer.
pub with_capacity-Fresh :
    (os : Os) (n : ℕ) (a : Arena) → IsOs os → with_capacity os n ≡ ok a → Fresh n a
unfolding with_capacity Block.new
with_capacity-Fresh os n a is h =
    elim (Option-cases (Block.try_new os (max n min_block_size) min_block_align)) [
      | inl failed ↦ absurd (ground arith)
      | inr (b, made) ↦
          let (v, empty, capacity, _, _) =
            try_new-IsValid os (max n min_block_size) min_block_align b is made in
          let same : ok (fresh_arena b (max n min_block_size)) ≡ ok a =
            rw (made, with_capacity) at h in
          let e : fresh_arena b (max n min_block_size) ≡ a = cc in
          rw (← e) (fresh_arena-Fresh n b v empty capacity)
    ]
