-- ===== src/Tracked/Reset.antt =====
-- `reset` of src/arena/allocator.rs with the feature drop-tracking: every destructor runs, and then
-- the arena is empty.
use fastarena_rs.Base.{
  ℕ, ◌≡◌, ◌∙◌, refl, sym, ap, Bool, true, false, List, [], ◌++◌, reverse, reverse-append,
  reverse-reverse, if◌then◌else◌, Outcome, ok, subst,
}
use fastarena_rs.Arena
use fastarena_rs.Arena.{stats}
use fastarena_rs.Arena.Valid.{IsValid}
use fastarena_rs.Arena.Reset.{reset_lem}
use fastarena_rs.Typed.{Store}
use fastarena_rs.DropRegistry.{DropSlot, DropRegistry, run_all_drops}
use fastarena_rs.DropRegistry.Laws.{Registered, run_each, raised, run_drops_until_lem}
use fastarena_rs.Tracked.{TrackedArena, after_drops, reset}
use fastarena_rs.Tracked.Stored.{Stores, Stores-Since}

-- A valid arena with the blocks of another one, all free, and the same memory.
pub record Emptied (s s' : Store) : Type 0 where
  pub valid : IsValid s'.arena
  pub nothing_used : (stats s'.arena).bytes_allocated ≡ 0
  pub same_reserved : (stats s'.arena).bytes_reserved ≡ (stats s.arena).bytes_reserved
  pub same_count : (stats s'.arena).block_count ≡ (stats s.arena).block_count
  pub at_start : s'.arena.current ≡ 0
  pub same_mem : s'.mem ≡ s.mem

reset-Emptied : (s : Store) → IsValid s.arena → Emptied s (record s { arena = Arena.reset s.arena })
reset-Emptied s valid =
    let (valid', current, ptr, none_used, reserved, count, idle) = reset_lem valid in
    record {
      valid = valid';
      nothing_used = none_used;
      same_reserved = reserved;
      same_count = count;
      at_start = current;
      same_mem = refl;
    }

module _ {W : Type 0} (slot_size slot_align : ℕ) where
  -- How a reset ends: all memory is free, or, after a destructor that panicked, it is kept.
  abbrev pub ResetAfter :
      TrackedArena W → Bool × W → Outcome (Unit {0}) × (TrackedArena W × W) → Type 0
  ResetAfter a (all, left) (out, (b, w)) =
      (out ≡ raised all) × (w ≡ left) × (if all then Emptied a.store b.store else b.store ≡ a.store)

  then_emptied :
      (a : TrackedArena W) (r : DropRegistry W) (all : Bool) (w : W)
      → IsValid a.store.arena
      → let end = after_drops (λ x. (ok tt, Arena.reset x)) a (raised all, (r, w)) in
        (end.1.0.drop_registry ≡ r) × ResetAfter a (all, w) end
  then_emptied a r true w valid = (refl, (refl, refl, reset-Emptied a.store valid))
  then_emptied a r false w valid = (refl, (refl, refl, refl))

  empties_registry :
      (a : TrackedArena W) (zs : List (DropSlot W)) (w : W)
      → IsValid a.store.arena
      → Registered slot_size slot_align a.drop_registry (reverse zs)
      → Registered slot_size slot_align (reset (a, w)).1.0.drop_registry []
        × ResetAfter a (run_each slot_size slot_align zs w) (reset (a, w))
  unfolding reset run_all_drops
  empties_registry a zs w valid slots =
      let (r, end, kept) = run_drops_until_lem slot_size slot_align [] zs a.drop_registry w slots in
      let last = run_each slot_size slot_align zs w in
      let (same, done) = then_emptied a r last.0 last.1 valid in
      rw end
        (subst (λ (q : DropRegistry W). Registered slot_size slot_align q []) (sym same) kept, done)

  -- With the feature drop-tracking, when a valid arena with its registered destructors has stored
  -- any number of values and slices, by the fallible calls too, with alignments that are powers
  -- of two and a system allocator that keeps its promises and returns memory apart from the
  -- blocks of the arena at each, and has been used otherwise only so that nothing in use was lost
  -- and nothing registered: reset runs all destructors, those of what has been stored, from the
  -- last to the first, and then those of before, from the last to the first, and leaves none
  -- registered. If all return, reset does, and the arena is valid, at the start of its first
  -- block, with no byte counted as allocated and with all its blocks; if one panics, the others
  -- run all the same, reset panics, and no memory is freed.
  pub reset-Stores :
      (a a' : TrackedArena W) (xs zs : List (DropSlot W)) (w : W)
      → IsValid a.store.arena
      → Registered slot_size slot_align a.drop_registry xs
      → Stores slot_size slot_align a zs a'
      → Registered slot_size slot_align (reset (a', w)).1.0.drop_registry []
        × ResetAfter a' (run_each slot_size slot_align (zs ++ reverse xs) w) (reset (a', w))
  reset-Stores a a' xs zs w valid before s =
      let since = Stores-Since slot_size slot_align valid before s in
      let order : reverse (zs ++ reverse xs) ≡ xs ++ reverse zs =
        reverse-append zs (reverse xs)
        ∙ ap (λ (l : List (DropSlot W)). l ++ reverse zs) (reverse-reverse xs) in
      empties_registry a' (zs ++ reverse xs) w since.arena.valid (
        subst (λ (l : List (DropSlot W)). Registered slot_size slot_align a'.drop_registry l)
          (sym order) since.slots)
