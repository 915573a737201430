-- ===== src/Tracked/Box.antt =====
-- arena/boxed.rs with the feature drop-tracking: the value of a box is registered for its
-- destructor when it is allocated, and stays registered when it is taken out.
use fastarena_rs.Base.{
  ℕ, ◌≡◌, refl, ap, ◌<◌, true, false, List, [], ◌∷◌, length, Outcome, ok, panicked, M, IsPow2,
  arith, lt→ltb, ◌==◌,
}
use fastarena_rs.Block.{Os}
use fastarena_rs.Arena.Valid.{IsValid, IsFresh}
use fastarena_rs.Typed as Typed
use fastarena_rs.Typed.{Store}
use fastarena_rs.Boxed as Boxed
use fastarena_rs.Boxed.{ArenaBox, alloc_box-into_inner}
use fastarena_rs.DropRegistry as DropRegistry
use fastarena_rs.DropRegistry.{DropSlot, DropRegistry, Elem, single}
use fastarena_rs.DropRegistry.Laws.{Registered, run_each}
use fastarena_rs.Tracked.{TrackedArena, registered, then_register, alloc, checkpoint, rewind}
use fastarena_rs.Tracked.Laws.{RewoundAfter, rewind_lem}
use fastarena_rs.Tracked.Slots.{value_slots}
use fastarena_rs.Tracked.Registers.{alloc-Since}
use fastarena_rs.Tracked.Stored.{Stores-Since, Stores}

boxed_below :
    (os : Os) (align : ℕ) (val : List ℕ) (s s' : Store) (b : ArenaBox)
    → IsValid s.arena
    → IsFresh os s.arena.blocks
    → IsPow2 align
    → Typed.alloc os (length val) align val s ≡ (ok b.ptr, s')
    → Boxed.into_inner (length val) b s'.mem ≡ val
unfolding Boxed.alloc_box Boxed.new
boxed_below os align val s s' b valid fresh pow e =
    (alloc_box-into_inner s s' os align val val b valid fresh pow refl (ap Boxed.boxed e)).0

module _ {W : Type 0} where
  abbrev pub in_box : Outcome ℕ × TrackedArena W → Outcome ArenaBox × TrackedArena W
  in_box (ok p, a) = (ok (record { ptr = p }), a)
  in_box (panicked e, a) = (panicked e, a)

  module _ (heap_os : Os) (slot_size slot_align : ℕ) where
    unfoldable pub alloc_box : Os → Elem W → ℕ → List ℕ → M (TrackedArena W) ArenaBox
    alloc_box os t align val a = in_box (alloc heap_os slot_size slot_align os t align val a)

    abbrev below : Outcome ℕ × TrackedArena W → Outcome ℕ × Store
    below (out, a) = (out, a.store)

    -- When the value was registered, the allocation below had returned.
    stored_below :
        (t : Elem W) (out : Outcome ℕ × Store) (r : DropRegistry W) (p : ℕ) (a' : TrackedArena W)
        → then_register heap_os slot_size slot_align t out r ≡ (ok p, a')
        → out ≡ (ok p, a'.store)
    stored_below t (panicked e, s) r p a' h = absurd (ground (arith, h))
    stored_below t (ok q, s) r p a' h =
        by_end (DropRegistry.register heap_os slot_size slot_align t q r) h
      where
        by_end :
            (end : Outcome (Unit {0}) × DropRegistry W)
            → registered heap_os slot_size slot_align q end s ≡ (ok p, a')
            → Path (Outcome ℕ × Store) (ok q, s) (ok p, a'.store)
        by_end (ok _, r') h = ap below h
        by_end (panicked e, r') h = absurd (ground (arith, h))

    opened :
        (out : Outcome ℕ × TrackedArena W) (b : ArenaBox) (a' : TrackedArena W)
        → in_box out ≡ (ok b, a')
        → out ≡ (ok b.ptr, a')
    opened (ok p, x) b a' h = ap pointed h
      where
        pointed : Outcome ArenaBox × TrackedArena W → Outcome ℕ × TrackedArena W
        pointed (ok c, y) = (ok c.ptr, y)
        pointed (panicked e, y) = (panicked e, y)
    opened (panicked e, x) b a' h = absurd (ground (arith, h))

    -- A value of at least one byte has been stored as without drop-tracking.
    alloc-below :
        (os : Os) (t : Elem W) (align : ℕ) (val : List ℕ) (a a' : TrackedArena W) (p : ℕ)
        → 0 < t.size
        → alloc heap_os slot_size slot_align os t align val a ≡ (ok p, a')
        → Typed.alloc os t.size align val a.store ≡ (ok p, a'.store)
    unfolding alloc
    alloc-below os t align val a a' p pos h =
        let something : (t.size == 0) ≡ false = ground arith in
        stored_below t (Typed.alloc os t.size align val a.store) a.drop_registry p a'
          (rw something at h)

    -- With the feature drop-tracking, when a value of at least one byte whose type needs drop is
    -- boxed in a valid arena with its registered destructors, with an alignment that is a power
    -- of two and a system allocator that keeps its promises and returns memory apart from the
    -- blocks of the arena, into_inner gives the value to the caller, and a rewind to the
    -- checkpoint taken before runs the destructor of the value all the same, once, at the address
    -- of the box.
    pub into_inner-rewind :
        (os : Os) (t : Elem W) (align : ℕ) (val : List ℕ) (a a' : TrackedArena W) (b : ArenaBox)
        (xs : List (DropSlot W)) (w : W)
        → IsValid a.store.arena
        → IsFresh os a.store.arena.blocks
        → IsPow2 align
        → Registered slot_size slot_align a.drop_registry xs
        → 0 < length val
        → t.size ≡ length val
        → t.needs_drop ≡ true
        → alloc_box os t align val a ≡ (ok b, a')
        → (Boxed.into_inner t.size b a'.store.mem ≡ val)
          × RewoundAfter slot_size slot_align a a'
              (run_each slot_size slot_align (single b.ptr t.drop_in_place ∷ []) w)
              (rewind (checkpoint a) (a', w))
    unfolding alloc_box
    into_inner-rewind os t align val a a' b xs w valid fresh pow before pos sized dropped e =
        let made = opened (alloc heap_os slot_size slot_align os t align val a) b a' e in
        let stored = alloc-below os t align val a a' b.ptr (omega (arith, sized)) made in
        let since =
          alloc-Since slot_size slot_align a a xs [] os heap_os t align val valid
            (Stores-Since slot_size slot_align valid before Stores.stop) pow fresh in
        let once : value_slots t (Outcome.ok b.ptr) [] ≡ single b.ptr t.drop_in_place ∷ [] =
          rw (lt→ltb 0 t.size (omega (arith, sized)), dropped) refl in
        (
          rw sized
              (boxed_below os align val a.store a'.store b valid fresh pow (rw sized at stored)),
          (rewind_lem slot_size slot_align a a' xs (single b.ptr t.drop_in_place ∷ []) w valid
              before (rw (made, once) at since)).1,
        )
