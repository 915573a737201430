-- ===== src/Arena/Reset.antt =====
-- `reset`: all memory is free again, and all blocks are kept.
use fastarena_rs.Base.{ℕ, ◌+◌, ◌^◌, ◌≤◌, ◌<◌, ◌≡◌, refl, inl, inr, length, arith}
use fastarena_rs.Arena.{Arena, block_at, clear_offsets, reset, stats, current_used}
use fastarena_rs.Arena.Layout.{IsLayout, Reframed, Reframed-IsLayout}
use fastarena_rs.Arena.Valid.{IsValid, Reframed-total}
use fastarena_rs.Arena.Grown.{Used}
use fastarena_rs.Arena.Clear.{
  IsLayout-Within, clear_offsets-Reframed, block_at-clear_offsets_out, offset-clear_offsets_in,
}
use native.Mathlib.Decide.{dec_lt}

module _ {a : Arena} (v : IsValid a) where
  pub wiped-Reframed : Reframed a.blocks (clear_offsets 0 (a.high_water_mark + 1) a.blocks)
  wiped-Reframed =
      clear_offsets-Reframed 0 (a.high_water_mark + 1) a.blocks (IsLayout-Within v.layout)

  -- Blocks behind the high water mark are idle already.
  wiped-idle :
      (i : ℕ)
      → i < length a.blocks
      → (block_at (clear_offsets 0 (a.high_water_mark + 1) a.blocks) i).offset ≡ 0
  wiped-idle i h = elim (dec_lt a.high_water_mark i) [
    | yes behind ↦
        rw (block_at-clear_offsets_out 0 (a.high_water_mark + 1) a.blocks i (inr (omega arith)))
          (v.layout.idle i (omega (arith, v.mark_above)) h)
    | no ahead ↦
        offset-clear_offsets_in 0 (a.high_water_mark + 1) a.blocks i (omega arith) (omega arith) h
  ]

  wiped-IsLayout : IsLayout (clear_offsets 0 (a.high_water_mark + 1) a.blocks) 0
  wiped-IsLayout =
      Reframed-IsLayout v.layout wiped-Reframed (omega (arith, v.mark_in_range))
        λ i lt h. wiped-idle i h

  first_low :
      (block_at (clear_offsets 0 (a.high_water_mark + 1) a.blocks) 0).base
        + (block_at (clear_offsets 0 (a.high_water_mark + 1) a.blocks) 0).capacity
      ≤ 2 ^ 63
  first_low = (wiped-IsLayout.valid 0 wiped-IsLayout.in_range).low

  pub reset-IsValid : IsValid (reset a)
  unfolding reset
  reset-IsValid = record {
    layout = wiped-IsLayout;
    base = refl;
    end = omega (arith, first_low);
    ptr_above = omega arith;
    ptr_within = omega (arith, first_low);
    mark_above = omega arith;
    mark_in_range = wiped-IsLayout.in_range;
    reserved = rw (Reframed-total wiped-Reframed) v.reserved;
    counted = omega arith;
  }

  -- Resetting a valid arena leaves a valid arena at the start of its first block, with no byte
  -- counted as allocated, with every block and its memory kept, and every block empty.
  pub reset_lem :
      IsValid (reset a)
      × ((reset a).current ≡ 0)
      × ((reset a).cur_ptr ≡ (block_at a.blocks 0).base)
      × ((stats (reset a)).bytes_allocated ≡ 0)
      × ((stats (reset a)).bytes_reserved ≡ (stats a).bytes_reserved)
      × ((stats (reset a)).block_count ≡ (stats a).block_count)
      × ((i : ℕ) → i < length a.blocks → (block_at (reset a).blocks i).offset ≡ 0)
  unfolding reset stats current_used
  reset_lem = (
    reset-IsValid,
    refl,
    (wiped-Reframed.frame 0 (omega (arith, v.mark_in_range))).base,
    omega (arith, first_low),
    refl,
    wiped-Reframed.same_length,
    wiped-idle,
  )

  -- After `reset` no address is in use.
  pub reset-unused : (x : ℕ) → Used (reset a) x → ⊥
  unfolding reset
  reset-unused x (inl (i, lt, from, to)) = absurd (omega arith)
  reset-unused x (inr (from, to)) = omega arith
