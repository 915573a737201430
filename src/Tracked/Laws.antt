-- ===== src/Tracked/Laws.antt =====
-- Rewinding runs the destructors of what has been stored since, and then takes the memory back.
use fastarena_rs.Base.{
  ℕ, ◌≡◌, ◌∙◌, refl, sym, Bool, true, false, List, ◌++◌, reverse, length, arith, ltb, if◌then◌else◌,
  Outcome, ok, subst, lt→ltb,
}
use fastarena_rs.Arena
use fastarena_rs.Arena.{Arena, Checkpoint}
use fastarena_rs.Arena.Valid.{IsValid}
use fastarena_rs.Arena.Preserved.{Preserved}
use fastarena_rs.Arena.Restore.{rewind-checkpoint}
use fastarena_rs.Txn.Rollback.{Undone}
use fastarena_rs.InlineVec.Laws.{len_lem}
use fastarena_rs.DropRegistry as DropRegistry
use fastarena_rs.DropRegistry.{DropSlot, DropRegistry, Elem, single, drop_inline_cap}
use fastarena_rs.DropRegistry.Laws.{Registered, run_each, raised, run_drops_until_lem}
use fastarena_rs.Tracked.{TrackedArena, after_drops, checkpoint, rewind}

module _ {W : Type 0} (slot_size slot_align : ℕ) where
  -- `a'` has come from `a` by allocations, which registered these slots, the last one first.
  pub record Since (a : TrackedArena W) (xs zs : List (DropSlot W)) (a' : TrackedArena W)
      : Type 0 where
    pub arena : Preserved a.store.arena a'.store.arena
    pub slots : Registered slot_size slot_align a'.drop_registry (xs ++ reverse zs)

  -- How a rewind ends: the arena is as it was, or, after a destructor that panicked, as it is.
  abbrev pub RewoundAfter :
      TrackedArena W
      → TrackedArena W
      → Bool × W
      → Outcome (Unit {0}) × (TrackedArena W × W)
      → Type 0
  RewoundAfter a a' (all, left) (out, (b, w)) =
      (out ≡ raised all)
      × (w ≡ left)
      × (if all then Undone a.store.arena b.store.arena else b.store ≡ a'.store)

  drops_then :
      (a a' : TrackedArena W) (x : Arena) (r : DropRegistry W) (all : Bool) (w : W)
      (cp : Checkpoint)
      → Arena.rewind cp a'.store.arena ≡ (ok tt, x)
      → Undone a.store.arena x
      → let end = after_drops (Arena.rewind cp) a' (raised all, (r, w)) in
        (end.1.0.drop_registry ≡ r) × RewoundAfter a a' (all, w) end
  drops_then a a' x r true w cp done undone = rw done (refl, (refl, refl, undone))
  drops_then a a' x r false w cp done undone = (refl, (refl, refl, refl))

  -- A rewind runs the destructors of the slots registered since the checkpoint, and then, if none
  -- panicked, restores the arena.
  pub rewind_lem :
      (a a' : TrackedArena W) (xs zs : List (DropSlot W)) (w : W)
      → IsValid a.store.arena
      → Registered slot_size slot_align a.drop_registry xs
      → Since a xs zs a'
      → Registered slot_size slot_align (rewind (checkpoint a) (a', w)).1.0.drop_registry xs
        × RewoundAfter a a' (run_each slot_size slot_align zs w) (rewind (checkpoint a) (a', w))
  unfolding rewind checkpoint DropRegistry.len Arena.checkpoint
  rewind_lem a a' xs zs w valid before since =
      let cp = Arena.checkpoint a.store.arena in
      let (x, done, restored, depth) =
        rewind-checkpoint valid since.arena.valid since.arena.grown in
      let (r, end, kept) =
        run_drops_until_lem slot_size slot_align xs zs a'.drop_registry w since.slots in
      let count : a.drop_registry.slots.len ≡ length xs =
        len_lem drop_inline_cap slot_size slot_align before in
      let inside : ltb a.store.arena.current (length a'.store.arena.blocks) ≡ true =
        lt→ltb _ _ (omega (arith, valid.layout.in_range, since.arena.grown.longer)) in
      let last = run_each slot_size slot_align zs w in
      let undone : Undone a.store.arena x = record {
        restored = restored;
        depth = depth ∙ since.arena.depth;
      } in
      let (slots, rewound) = drops_then a a' x r last.0 last.1 cp done undone in
      rw (inside, count, end)
        (
          subst (λ (q : DropRegistry W). Registered slot_size slot_align q xs) (sym slots) kept,
          rewound,
        )
