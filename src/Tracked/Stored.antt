-- ===== src/Tracked/Stored.antt =====
-- Values and slices stored in an arena that tracks destructors, and the rewind behind them.
use fastarena_rs.Base.{ℕ, ◌≡◌, sym, List, [], append_nil, IsPow2, subst}
use fastarena_rs.Block.{Os}
use fastarena_rs.Arena.Valid.{IsValid, IsFresh}
use fastarena_rs.Arena.Preserved.{Preserved, Preserved-refl, Preserved-trans}
use fastarena_rs.Typed.{Store}
use fastarena_rs.DropRegistry.{DropSlot, Elem}
use fastarena_rs.DropRegistry.Laws.{Registered, run_each}
use fastarena_rs.Tracked.{
  TrackedArena, try_alloc, try_alloc_slice, with_store, alloc, alloc_slice, checkpoint, rewind,
}
use fastarena_rs.Tracked.Laws.{Since, RewoundAfter, rewind_lem}
use fastarena_rs.Tracked.Slots.{value_slots, slice_slots, try_value_slots, try_slice_slots}
use fastarena_rs.Tracked.Registers.{
  alloc-Since, alloc_slice-Since, try_alloc-Since, try_alloc_slice-Since,
}

module _ {W : Type 0} (slot_size slot_align : ℕ) where
  -- Values and slices stored one after the other, also where an allocation fails or panics.
  pub data Stores : TrackedArena W → List (DropSlot W) → TrackedArena W → Type 0 where
    stop : {a : TrackedArena W} → Stores a [] a
    value :
        {a b c : TrackedArena W} {zs ss : List (DropSlot W)} (os heap_os : Os) (t : Elem W)
        (align : ℕ) (val : List ℕ)
        → Stores a zs b
        → IsPow2 align
        → IsFresh os b.store.arena.blocks
        → ss ≡ value_slots t (alloc heap_os slot_size slot_align os t align val b).0 zs
        → c ≡ (alloc heap_os slot_size slot_align os t align val b).1
        → Stores a ss c
    slice :
        {a b c : TrackedArena W} {zs ss : List (DropSlot W)} (os heap_os : Os) (t : Elem W)
        (align len : ℕ) (iter : List (List ℕ))
        → Stores a zs b
        → IsPow2 align
        → IsFresh os b.store.arena.blocks
        → ss ≡ slice_slots t (alloc_slice heap_os slot_size slot_align os t align len iter b).0 zs
        → c ≡ (alloc_slice heap_os slot_size slot_align os t align len iter b).1
        → Stores a ss c
    try_value :
        {a b c : TrackedArena W} {zs ss : List (DropSlot W)} (os heap_os : Os) (t : Elem W)
        (align : ℕ) (val : List ℕ)
        → Stores a zs b
        → IsPow2 align
        → IsFresh os b.store.arena.blocks
        → ss ≡ try_value_slots t (try_alloc heap_os slot_size slot_align os t align val b).0 zs
        → c ≡ (try_alloc heap_os slot_size slot_align os t align val b).1
        → Stores a ss c
    try_slice :
        {a b c : TrackedArena W} {zs ss : List (DropSlot W)} (os heap_os : Os) (t : Elem W)
        (align len : ℕ) (iter : List (List ℕ))
        → Stores a zs b
        → IsPow2 align
        → IsFresh os b.store.arena.blocks
        → ss
          ≡ try_slice_slots t
              (try_alloc_slice heap_os slot_size slot_align os t align len iter b).0
              zs
        → c ≡ (try_alloc_slice heap_os slot_size slot_align os t align len iter b).1
        → Stores a ss c
    -- Another use of the arena that loses nothing in use and registers nothing.
    through :
        {a b c : TrackedArena W} {zs : List (DropSlot W)} (s : Store)
        → Stores a zs b
        → Preserved b.store.arena s.arena
        → c ≡ with_store s b
        → Stores a zs c

  pub Stores-Since :
      {a b : TrackedArena W} {xs zs : List (DropSlot W)}
      → IsValid a.store.arena
      → Registered slot_size slot_align a.drop_registry xs
      → Stores a zs b
      → Since slot_size slot_align a xs zs b
  Stores-Since {a} {xs} valid before stop = record {
    arena = Preserved-refl valid;
    slots =
        subst (λ (q : List (DropSlot W)). Registered slot_size slot_align a.drop_registry q)
          (sym (append_nil xs)) before;
  }
  Stores-Since {a} {xs} valid before (value {b} {zs} os heap_os t align val s pow fresh e q) =
      rw (e, q)
        (alloc-Since slot_size slot_align a b xs zs os heap_os t align val valid
          (Stores-Since valid before s) pow fresh)
  Stores-Since {a} {xs} valid before (slice {b} {zs} os heap_os t align len iter s pow fresh e q) =
      rw (e, q)
        (alloc_slice-Since slot_size slot_align a b xs zs os heap_os t align len iter valid
          (Stores-Since valid before s) pow fresh)
  Stores-Since {a} {xs} valid before (try_value {b} {zs} os heap_os t align val s pow fresh e q) =
      rw (e, q)
        (try_alloc-Since slot_size slot_align a b xs zs os heap_os t align val valid
          (Stores-Since valid before s) pow fresh)
  Stores-Since {a} {xs} valid before
        (try_slice {b} {zs} os heap_os t align len iter s pow fresh e q) =
      rw (e, q)
        (try_alloc_slice-Since slot_size slot_align a b xs zs os heap_os t align len iter valid
          (Stores-Since valid before s) pow fresh)
  Stores-Since {a} {xs} {zs} valid before (through {b} s stored kept e) =
      let since = Stores-Since valid before stored in
      rw e (record { arena = Preserved-trans valid since.arena kept; slots = since.slots })

  -- With the feature drop-tracking, when a valid arena with its registered destructors has stored
  -- any number of values and slices, by the fallible calls too, with alignments that are powers
  -- of two and a system allocator that keeps its promises and returns memory apart from the
  -- blocks of the arena at each, rewinding to the checkpoint taken before runs the destructors
  -- that have been registered since, one for each value and one for each slice that needs to be
  -- dropped and is not empty, from the last to the first, and leaves those of before registered.
  -- The arena may have been used in other ways between, if they lost nothing in use and
  -- registered nothing. If all return, rewind does, and the arena is restored; if one panics, the
  -- others run all the same, rewind panics, and the memory is not taken back.
  pub rewind-Stores :
      (a a' : TrackedArena W) (xs zs : List (DropSlot W)) (w : W)
      → IsValid a.store.arena
      → Registered slot_size slot_align a.drop_registry xs
      → Stores a zs a'
      → Registered slot_size slot_align (rewind (checkpoint a) (a', w)).1.0.drop_registry xs
        × RewoundAfter slot_size slot_align a a'
            (run_each slot_size slot_align zs w)
            (rewind (checkpoint a) (a', w))
  rewind-Stores a a' xs zs w valid before s =
      rewind_lem slot_size slot_align a a' xs zs w valid before (Stores-Since valid before s)
