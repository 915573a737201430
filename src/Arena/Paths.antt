-- ===== src/Arena/Paths.antt =====
-- The allocation functions from the slow path up: every outcome keeps the invariant and what is in
-- use, and a success hands out free memory.
use fastarena_rs.Base.{
  ℕ, ◌+◌, ◌^◌, List, ◌≤◌, ◌<◌, ◌≡◌, refl, inl, inr, arith, true, false, usize_mod, IsPow2, ltb, leb,
  leb→le, ◌==◌, Bool-cases, Option-cases, is_power_of_two,
}
use fastarena_rs.Base.Pow2.{IsPow2-lt}
use fastarena_rs.Block.{Block, Os, align_up, min_block_align}
use fastarena_rs.Block.Align.{IsAligned, align_up-IsAligned}
use fastarena_rs.Arena.{Arena, block_at}
use fastarena_rs.Arena.Alloc.{
  finish_slow_path, find_block, alloc_slow, alloc_slow_try, alloc_raw_inner, try_alloc_raw_inner,
  alloc_raw, try_alloc_raw, aligned_ptr, bump,
}
use fastarena_rs.Arena.Layout.{Reframed, SameFrame-refl}
use fastarena_rs.Arena.Valid.{IsValid, IsFresh}
use fastarena_rs.Arena.Grown.{Failed-refl, Allocated, Flushed}
use fastarena_rs.Arena.Slow.{finish_slow_path-Flushed}
use fastarena_rs.Arena.Safety.{
  After, TryAfter, use_block-Allocated, alloc_new_block-After, try_alloc_new_block-TryAfter,
}

Reframed-IsFresh : {os : Os} {bs cs : List Block} → Reframed bs cs → IsFresh os bs → IsFresh os cs
Reframed-IsFresh r fresh = record {
  is_os = fresh.is_os;
  apart = λ size align i pos h.
      let h' = rw r.same_length at h in
      ground (arith, fresh.apart size align i pos h', r.frame i h');
}

-- The bump of the fast path.
module _ {a : Arena} (size align : ℕ) (v : IsValid a) (pow : IsPow2 align) where
  pub cur_end_low : a.cur_end ≤ 2 ^ 63
  cur_end_low =
      let low = (v.layout.valid a.current v.layout.in_range).low in omega (arith, v.base, v.end)

  pub cur_ptr-IsAligned : IsAligned a.cur_ptr align (align_up a.cur_ptr align)
  cur_ptr-IsAligned =
      align_up-IsAligned a.cur_ptr align pow
        (omega (arith, IsPow2-lt pow, v.ptr_within, cur_end_low))

  pub aligned_ptr_lem :
      align_up a.cur_ptr align + size ≤ a.cur_end → aligned_ptr a align ≡ align_up a.cur_ptr align
  aligned_ptr_lem fits = omega (arith, cur_ptr-IsAligned.above, cur_end_low)

  bump-Allocated :
      align_up a.cur_ptr align + size ≤ a.cur_end
      → Allocated a size align (aligned_ptr a align) (bump a size align)
  bump-Allocated fits =
      let e = aligned_ptr_lem fits in
      let above = cur_ptr-IsAligned.above in
      let moved : (bump a size align).cur_ptr ≡ align_up a.cur_ptr align + size =
        omega (arith, e, cur_end_low) in
      record {
        valid = record {
          layout = v.layout;
          base = v.base;
          end = v.end;
          ptr_above = omega (arith, v.ptr_above);
          ptr_within = omega arith;
          mark_above = v.mark_above;
          mark_in_range = v.mark_in_range;
          reserved = v.reserved;
          counted = v.counted;
        };
        grown = record {
          forward = omega arith;
          longer = omega arith;
          frame = λ i h. SameFrame-refl (block_at a.blocks i);
          below = λ i h. refl;
          here = λ _. omega arith;
          passed = λ h. absurd (omega arith);
        };
        multiple = rw e (cur_ptr-IsAligned.multiple);
        start = omega (arith, v.ptr_above);
        end = omega arith;
        depth = refl;
        place = inl (refl, omega arith, omega (arith, v.ptr_above));
      }

module _ {a : Arena} (os : Os) (size align : ℕ) (v : IsValid a) (fresh : IsFresh os a.blocks)
    (pow : IsPow2 align) where
  abbrev flushed : Flushed a (finish_slow_path a)
  flushed = finish_slow_path-Flushed v

  abbrev still_fresh : IsFresh os (finish_slow_path a).blocks
  still_fresh = Reframed-IsFresh flushed.blocks fresh

  alloc_slow-After : After a size align (alloc_slow os size align a)
  unfolding alloc_slow
  alloc_slow-After = elim (Bool-cases (ltb min_block_align align)) [
    | inl high ↦
        rw (high, After, alloc_slow) (alloc_new_block-After size align v flushed still_fresh pow)
    | inr low ↦ elim (Option-cases (find_block size align (finish_slow_path a))) [
      | inl none_found ↦
          rw (low, none_found, After, alloc_slow)
            (alloc_new_block-After size align v flushed still_fresh pow)
      | inr ((i, r), found) ↦
          rw (low, found, After, alloc_slow)
            (use_block-Allocated size align v flushed still_fresh pow i r found)
    ]
  ]

  alloc_slow_try-TryAfter : TryAfter a size align (alloc_slow_try os size align a)
  unfolding alloc_slow_try
  alloc_slow_try-TryAfter = elim (Bool-cases (ltb min_block_align align)) [
    | inl high ↦
        rw (high, TryAfter, alloc_slow_try)
          (try_alloc_new_block-TryAfter size align v flushed still_fresh pow)
    | inr low ↦ elim (Option-cases (find_block size align (finish_slow_path a))) [
      | inl none_found ↦
          rw (low, none_found, TryAfter, alloc_slow_try)
            (try_alloc_new_block-TryAfter size align v flushed still_fresh pow)
      | inr ((i, r), found) ↦
          rw (low, found, TryAfter, alloc_slow_try)
            (use_block-Allocated size align v flushed still_fresh pow i r found)
    ]
  ]

  pub alloc_raw_inner-After : After a size align (alloc_raw_inner os size align a)
  unfolding alloc_raw_inner
  alloc_raw_inner-After = elim (Bool-cases (ltb min_block_align align)) [
    | inl high ↦ rw (high, After, alloc_raw_inner) alloc_slow-After
    | inr low ↦ elim (Bool-cases (ltb (align_up a.cur_ptr align + size) usize_mod)) [
      | inr over ↦ rw (low, over, After, alloc_raw_inner) alloc_slow-After
      | inl sum ↦ elim (Bool-cases (leb (align_up a.cur_ptr align + size) a.cur_end)) [
        | inl fits ↦
            rw (low, sum, fits, After, alloc_raw_inner)
              (bump-Allocated size align v pow (leb→le _ _ fits))
        | inr full ↦ rw (low, sum, full, After, alloc_raw_inner) alloc_slow-After
      ]
    ]
  ]

  pub try_alloc_raw_inner-TryAfter : TryAfter a size align (try_alloc_raw_inner os size align a)
  unfolding try_alloc_raw_inner
  try_alloc_raw_inner-TryAfter = elim (Bool-cases (ltb min_block_align align)) [
    | inl high ↦ rw (high, TryAfter, try_alloc_raw_inner) alloc_slow_try-TryAfter
    | inr low ↦ elim (Bool-cases (ltb (align_up a.cur_ptr align + size) usize_mod)) [
      | inr over ↦ rw (low, over, TryAfter, try_alloc_raw_inner) (Failed-refl v)
      | inl sum ↦ elim (Bool-cases (leb (align_up a.cur_ptr align + size) a.cur_end)) [
        | inl fits ↦
            rw (low, sum, fits, TryAfter, try_alloc_raw_inner)
              (bump-Allocated size align v pow (leb→le _ _ fits))
        | inr full ↦ rw (low, sum, full, TryAfter, try_alloc_raw_inner) alloc_slow_try-TryAfter
      ]
    ]
  ]

  -- The three ways in which `alloc_raw` and `try_alloc_raw` go on from their guards.
  pub alloc_raw-After :
      is_power_of_two align ≡ true → 0 < size → After a size align (alloc_raw os size align a)
  unfolding alloc_raw
  alloc_raw-After two pos =
      let ne : (size == 0) ≡ false = ground arith in
      rw (two, ne, After, alloc_raw) alloc_raw_inner-After

  pub try_alloc_raw-TryAfter :
      is_power_of_two align ≡ true
      → 0 < size
      → TryAfter a size align (try_alloc_raw os size align a)
  unfolding try_alloc_raw
  try_alloc_raw-TryAfter two pos =
      let ne : (size == 0) ≡ false = ground arith in
      rw (two, ne, TryAfter, try_alloc_raw) try_alloc_raw_inner-TryAfter
