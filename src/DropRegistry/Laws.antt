-- ===== src/DropRegistry/Laws.antt =====
-- The registry of util/drop_registry.rs is a stack: the destructors run from the last one
-- registered to the first, each one once, and also after one of them has panicked.
use fastarena_rs.Base.{
  ℕ, ◌-◌, ◌≡◌, refl, subst, ap, ◌∙◌, Bool, true, false, ◌&&◌, List, [], ◌∷◌, ◌++◌, reverse,
  append_assoc, append_nil, length, length-append, length-reverse, ltb, Outcome, ok, panicked,
  destructor_panicked, arith, Bool-cases, inl, inr, M,
}
use fastarena_rs.InlineVec.Laws.{Holds, shorter, pop_last, len_lem}
use fastarena_rs.DropRegistry.{
  DropSlot, DropRegistry, drop_inline_cap, run_slot, drain_loop, drain_remaining, run_loop,
  run_drops_until, turn, drain_body, run_body,
}

-- A panic of a destructor is raised again when all have run.
abbrev pub raised : Bool → Outcome (Unit {0})
raised true = ok tt
raised false = panicked destructor_panicked

module _ {W : Type 0} (slot_size slot_align : ℕ) where
  -- The slots of the registry, in the order of their registration.
  abbrev pub Registered : DropRegistry W → List (DropSlot W) → Type 0
  Registered r xs = Holds drop_inline_cap slot_size slot_align r.slots xs

  -- Each destructor of the list is run, from the first to the last: whether all returned, and what
  -- they left.
  abbrev pub run_each : List (DropSlot W) → W → Bool × W
  run_each [] w = (true, w)
  run_each (s ∷ ss) w =
      let (returned, left) = run_slot s w in
      let (all, last) = run_each ss left in (returned && all, last)

  abbrev popped : DropRegistry W → DropRegistry W
  popped r = record { slots = shorter r.slots }

  -- A turn pops the last slot that is above the target.
  turn_lem :
      (xs zs : List (DropSlot W)) (s : DropSlot W) (r : DropRegistry W) (w : W)
      (body : DropSlot W → M (DropRegistry W × W) (Unit {0}))
      → Registered r (xs ++ reverse (s ∷ zs))
      → (turn (length xs) body (r, w) ≡ body s (popped r, w))
        × Registered (popped r) (xs ++ reverse zs)
  turn_lem xs zs s r w body h =
      let split : xs ++ reverse (s ∷ zs) ≡ (xs ++ reverse zs) ++ (s ∷ []) =
        append_assoc xs (reverse zs) (s ∷ []) in
      let (e, left) = pop_last drop_inline_cap slot_size slot_align h (xs ++ reverse zs) s split in
      let more : ltb (length xs) r.slots.len ≡ true = ground (
        arith,
        len_lem drop_inline_cap slot_size slot_align h,
        length-append xs (reverse (s ∷ zs)),
        length-reverse (s ∷ zs),
      ) in
      (rw (more, e) refl, left)

  none_above :
      (xs : List (DropSlot W)) (r : DropRegistry W)
      → Registered r (xs ++ reverse [])
      → Registered r xs
  none_above xs r h = subst (Registered r) (append_nil xs) h

  -- The registry and the rest of the program after the slots `zs` have run.
  abbrev pub Ended :
      Outcome (Unit {0}) × (DropRegistry W × W)
      → Outcome (Unit {0})
      → W
      → List (DropSlot W)
      → Type 0
  Ended end out w xs = (r' : DropRegistry W) × (end ≡ (out, (r', w))) × Registered r' xs

  drain_loop_lem :
      (xs zs : List (DropSlot W)) (r : DropRegistry W) (w : W)
      → Registered r (xs ++ reverse zs)
      → Ended (drain_loop (length zs) (length xs) (r, w)) (ok tt) (run_each zs w).1 xs
  unfolding drain_loop
  drain_loop_lem xs [] r w h = (r, refl, none_above xs r h)
  drain_loop_lem xs (s ∷ zs) r w h =
      let (e, left) = turn_lem xs zs s r w (drain_body (drain_loop (length zs) (length xs))) h in
      let (r', end, kept) = drain_loop_lem xs zs (popped r) (run_slot s w).1 left in
      (r', e ∙ end, kept)

  steps_left :
      (xs zs : List (DropSlot W)) (r : DropRegistry W)
      → Registered r (xs ++ reverse zs)
      → r.slots.len - length xs ≡ length zs
  steps_left xs zs r h = omega (
    arith,
    len_lem drop_inline_cap slot_size slot_align h,
    length-append xs (reverse zs),
    length-reverse zs,
  )

  drain_remaining_lem :
      (xs zs : List (DropSlot W)) (r : DropRegistry W) (w : W)
      → Registered r (xs ++ reverse zs)
      → Ended (drain_remaining (length xs) (r, w)) (ok tt) (run_each zs w).1 xs
  unfolding drain_remaining
  drain_remaining_lem xs zs r w h =
      let (r', end, kept) = drain_loop_lem xs zs r w h in
      (r', ap (λ (k : ℕ). drain_loop k (length xs) (r, w)) (steps_left xs zs r h) ∙ end, kept)

  run_loop_lem :
      (xs zs : List (DropSlot W)) (r : DropRegistry W) (w : W)
      → Registered r (xs ++ reverse zs)
      → Ended
          (run_loop (length zs) (length xs) (r, w))
          (raised (run_each zs w).0)
          (run_each zs w).1
          xs
  unfolding run_loop
  run_loop_lem xs [] r w h = (r, refl, none_above xs r h)
  run_loop_lem xs (s ∷ zs) r w h =
      let (e, left) =
        turn_lem xs zs s r w (run_body (length xs) (run_loop (length zs) (length xs))) h in
      elim (Bool-cases (run_slot s w).0) [
        | inl fine ↦
            let (r', end, kept) = run_loop_lem xs zs (popped r) (run_slot s w).1 left in
            (r', e ∙ rw fine end, kept)
        | inr failed ↦
            let (r', end, kept) = drain_remaining_lem xs zs (popped r) (run_slot s w).1 left in
            (r', e ∙ rw (failed, end) refl, kept)
      ]

  -- run_drops_until runs the destructors of the slots at or above the target, from the last one
  -- registered to the first, each once, also after one has panicked; it leaves the slots below,
  -- and panics exactly when one of them did.
  pub run_drops_until_lem :
      (xs zs : List (DropSlot W)) (r : DropRegistry W) (w : W)
      → Registered r (xs ++ reverse zs)
      → Ended (run_drops_until (length xs) (r, w)) (raised (run_each zs w).0) (run_each zs w).1 xs
  unfolding run_drops_until
  run_drops_until_lem xs zs r w h =
      let (r', end, kept) = run_loop_lem xs zs r w h in
      (r', ap (λ (k : ℕ). run_loop k (length xs) (r, w)) (steps_left xs zs r h) ∙ end, kept)
