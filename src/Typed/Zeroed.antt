-- ===== src/Typed/Zeroed.antt =====
-- Zeroed memory.
use fastarena_rs.Base.{
  ℕ, ◌<◌, ◌≡◌, sym, subst, length, length-replicate, replicate, arith, ◌==◌, true, false,
  is_power_of_two,
}
use fastarena_rs.Base.Pow2.{IsPow2-of_is_power_of_two}
use fastarena_rs.Block.{Os}
use fastarena_rs.Arena.Alloc as Alloc
use fastarena_rs.Arena.Alloc.{dangling}
use fastarena_rs.Arena.Valid.{IsValid, IsFresh}
use fastarena_rs.Arena.Safety.{After, TryAfter}
use fastarena_rs.Arena.Paths.{alloc_raw-After, try_alloc_raw_inner-TryAfter}
use fastarena_rs.Typed.{Store, alloc_zeroed, try_alloc_zeroed}
use fastarena_rs.Typed.Laws.{PutAfter, TryPutAfter, put-PutAfter, try_put-TryPutAfter}

module _ (s : Store) (os : Os) (size align : ℕ) (v : IsValid s.arena)
    (fresh : IsFresh os s.arena.blocks) where
  zeroed_size : size ≡ length {A = ℕ} (replicate size 0)
  zeroed_size = sym (length-replicate {A = ℕ} size 0)

  -- In a valid arena, if the system allocator keeps its promises and returns memory apart from
  -- the blocks of the arena, for a size that is not zero and an alignment that is a power of two:
  -- alloc_zeroed returns an aligned pointer to as many zero bytes in memory that was free, all
  -- memory in use as it was, or it panics, stores nothing and leaves a valid arena in which
  -- nothing in use is lost; try_alloc_zeroed has these outcomes and one more, None, with nothing
  -- stored.
  pub alloc_zeroed_lem :
      is_power_of_two align ≡ true
      → 0 < size
      → PutAfter s (replicate size 0) align (alloc_zeroed os size align s)
        × TryPutAfter s (replicate size 0) align (try_alloc_zeroed os size align s)
  unfolding alloc_zeroed try_alloc_zeroed
  alloc_zeroed_lem two more =
      let nonzero : (size == 0) ≡ false = ground arith in
      let pow = IsPow2-of_is_power_of_two align two in
      (
        rw (nonzero, PutAfter, alloc_zeroed)
            (put-PutAfter s align (replicate size 0) (Alloc.alloc_raw os size align s.arena) v (
              subst (λ (n : ℕ). After s.arena n align (Alloc.alloc_raw os size align s.arena))
                zeroed_size (alloc_raw-After os size align v fresh pow two more))),
        rw (nonzero, two, TryPutAfter, try_alloc_zeroed)
            (try_put-TryPutAfter s align (replicate size 0)
              (Alloc.try_alloc_raw_inner os size align s.arena) v
              (subst
                (λ (n : ℕ).
                  TryAfter s.arena n align (Alloc.try_alloc_raw_inner os size align s.arena))
                zeroed_size (try_alloc_raw_inner-TryAfter os size align v fresh pow))),
      )
