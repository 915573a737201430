-- ===== src/DropRegistry/Register.antt =====
-- What `register` and `register_slice` of util/drop_registry.rs add to the registry.
use fastarena_rs.Base.{
  ℕ, ◌<◌, ◌≡◌, refl, ◌⊎◌, inl, inr, true, false, List, [], ◌∷◌, ◌++◌, Panic, Outcome, ok, panicked,
  arith, Bool-cases, ◌==◌, ==→eq,
}
use fastarena_rs.Block.{Os}
use fastarena_rs.InlineVec.Push.{push_lem}
use fastarena_rs.DropRegistry.{
  DropSlot, DropRegistry, Elem, single, range, drop_inline_cap, register, register_slice, push_slot,
  drop_range_shim,
}
use fastarena_rs.DropRegistry.Laws.{Registered}

module _ {W : Type 0} (os : Os) (slot_size slot_align : ℕ) where
  -- The slot is registered as the last one, or there is no memory and nothing changes.
  abbrev pub Adds :
      DropRegistry W → List (DropSlot W) → DropSlot W → Outcome (Unit {0}) × DropRegistry W → Type 0
  Adds r xs s out =
      ((r' : DropRegistry W) × (out ≡ (ok tt, r'))
        × Registered slot_size slot_align r' (xs ++ (s ∷ [])))
      ⊎ ((e : Panic) × (out ≡ (panicked e, r)))

  push_slot_lem :
      (r : DropRegistry W) (xs : List (DropSlot W)) (s : DropSlot W)
      → Registered slot_size slot_align r xs
      → Adds r xs s (push_slot os slot_size slot_align s r)
  push_slot_lem r xs s h =
      elim (push_lem os slot_size slot_align drop_inline_cap s (omega arith) h) [
        | inl (slots, e, kept) ↦ inl (record { slots = slots }, rw e refl, kept)
        | inr (e, refused, why) ↦ inr (e, rw refused refl)
      ]

  -- `register` does nothing for a type that needs no drop; otherwise one slot is registered as the
  -- last one, or memory is refused, which panics, and nothing changes.
  pub register_lem :
      (t : Elem W) (ptr : ℕ) (r : DropRegistry W) (xs : List (DropSlot W))
      → Registered slot_size slot_align r xs
      → ((t.needs_drop ≡ false) × (register os slot_size slot_align t ptr r ≡ (ok tt, r)))
        ⊎ ((t.needs_drop ≡ true)
            × Adds r xs (single ptr t.drop_in_place) (register os slot_size slot_align t ptr r))
  unfolding register
  register_lem t ptr r xs h = elim (Bool-cases t.needs_drop) [
    | inr none_needed ↦ inl (none_needed, rw none_needed refl)
    | inl needed ↦ inr (needed, rw needed (push_slot_lem r xs (single ptr t.drop_in_place) h))
  ]

  -- register_slice does nothing for a type that needs no drop and for an empty slice; otherwise
  -- one slot for the whole slice is registered as the last one, or memory is refused, which
  -- panics, and nothing changes.
  pub register_slice_lem :
      (t : Elem W) (ptr count : ℕ) (r : DropRegistry W) (xs : List (DropSlot W))
      → Registered slot_size slot_align r xs
      → (((t.needs_drop ≡ false) ⊎ (count ≡ 0))
          × (register_slice os slot_size slot_align t ptr count r ≡ (ok tt, r)))
        ⊎ ((t.needs_drop ≡ true)
            × (0 < count)
            × Adds r xs
                (range ptr count (drop_range_shim t))
                (register_slice os slot_size slot_align t ptr count r))
  unfolding register_slice drop_range_shim
  register_slice_lem t ptr count r xs h = elim (Bool-cases (count == 0)) [
    | inl empty ↦ inl (inr (==→eq count 0 empty), rw empty refl)
    | inr more ↦ elim (Bool-cases t.needs_drop) [
      | inr none_needed ↦ inl (inl none_needed, rw (more, none_needed) refl)
      | inl needed ↦ inr (
        needed,
        ground (arith, more),
        rw (more, needed) (push_slot_lem r xs (range ptr count (drop_range_shim t)) h),
      )
    ]
  ]
