-- ===== src/Tracked/Registers.antt =====
-- What an allocation registers: one slot for a value or slice that needs to be dropped.
use fastarena_rs.Base.{ℕ, ◌≡◌, inl, inr, false, List, arith, ltb, ◌==◌, Bool-cases, IsPow2}
use fastarena_rs.Block.{Os}
use fastarena_rs.Arena.Valid.{IsValid, IsFresh}
use fastarena_rs.Typed as Typed
use fastarena_rs.Typed.{Store}
use fastarena_rs.Typed.Growing.{
  alloc-IsGrowing, alloc_slice-IsGrowing, try_alloc-IsGrowing, try_alloc_slice-IsGrowing,
}
use fastarena_rs.DropRegistry.{DropSlot, Elem}
use fastarena_rs.Tracked.{TrackedArena, alloc, alloc_slice, try_alloc, try_alloc_slice}
use fastarena_rs.Tracked.Laws.{Since}
use fastarena_rs.Tracked.Slots.{
  value_slots, slice_slots, try_value_slots, try_slice_slots, value_registered, slice_registered,
  try_value_registered, try_slice_registered,
}

module _ {W : Type 0} (slot_size slot_align : ℕ) where
  pub alloc-Since :
      (a b : TrackedArena W) (xs zs : List (DropSlot W)) (os heap_os : Os) (t : Elem W) (align : ℕ)
      (val : List ℕ)
      → IsValid a.store.arena
      → Since slot_size slot_align a xs zs b
      → IsPow2 align
      → IsFresh os b.store.arena.blocks
      → let end = alloc heap_os slot_size slot_align os t align val b in
        Since slot_size slot_align a xs (value_slots t end.0 zs) end.1
  unfolding alloc
  alloc-Since a b xs zs os heap_os t align val valid since pow fresh =
      elim (Bool-cases (t.size == 0)) [
        | inl nothing ↦
            let none_added : ltb 0 t.size ≡ false = ground arith in rw (nothing, none_added) since
        | inr something ↦ rw something (
            value_registered slot_size slot_align heap_os a b xs zs t valid since
              (Typed.alloc os t.size align val b.store)
              (alloc-IsGrowing os align pow t.size val b.store since.arena.valid fresh)
              (ground arith))
      ]

  pub alloc_slice-Since :
      (a b : TrackedArena W) (xs zs : List (DropSlot W)) (os heap_os : Os) (t : Elem W)
      (align len : ℕ) (iter : List (List ℕ))
      → IsValid a.store.arena
      → Since slot_size slot_align a xs zs b
      → IsPow2 align
      → IsFresh os b.store.arena.blocks
      → let end = alloc_slice heap_os slot_size slot_align os t align len iter b in
        Since slot_size slot_align a xs (slice_slots t end.0 zs) end.1
  unfolding alloc_slice
  alloc_slice-Since a b xs zs os heap_os t align len iter valid since pow fresh =
      slice_registered slot_size slot_align heap_os a b xs zs t valid since
        (Typed.alloc_slice os t.size align len iter b.store)
        (alloc_slice-IsGrowing os align pow t.size len iter b.store since.arena.valid fresh)

  pub try_alloc-Since :
      (a b : TrackedArena W) (xs zs : List (DropSlot W)) (os heap_os : Os) (t : Elem W) (align : ℕ)
      (val : List ℕ)
      → IsValid a.store.arena
      → Since slot_size slot_align a xs zs b
      → IsPow2 align
      → IsFresh os b.store.arena.blocks
      → let end = try_alloc heap_os slot_size slot_align os t align val b in
        Since slot_size slot_align a xs (try_value_slots t end.0 zs) end.1
  unfolding try_alloc
  try_alloc-Since a b xs zs os heap_os t align val valid since pow fresh =
      elim (Bool-cases (t.size == 0)) [
        | inl nothing ↦
            let none_added : ltb 0 t.size ≡ false = ground arith in rw (nothing, none_added) since
        | inr something ↦ rw something (
            try_value_registered slot_size slot_align heap_os a b xs zs t valid since
              (Typed.try_alloc os t.size align val b.store)
              (try_alloc-IsGrowing os align pow t.size val b.store since.arena.valid fresh)
              (ground arith))
      ]

  pub try_alloc_slice-Since :
      (a b : TrackedArena W) (xs zs : List (DropSlot W)) (os heap_os : Os) (t : Elem W)
      (align len : ℕ) (iter : List (List ℕ))
      → IsValid a.store.arena
      → Since slot_size slot_align a xs zs b
      → IsPow2 align
      → IsFresh os b.store.arena.blocks
      → let end = try_alloc_slice heap_os slot_size slot_align os t align len iter b in
        Since slot_size slot_align a xs (try_slice_slots t end.0 zs) end.1
  unfolding try_alloc_slice
  try_alloc_slice-Since a b xs zs os heap_os t align len iter valid since pow fresh =
      try_slice_registered slot_size slot_align heap_os a b xs zs t valid since
        (Typed.try_alloc_slice os t.size align len iter b.store)
        (try_alloc_slice-IsGrowing os align pow t.size len iter b.store since.arena.valid fresh)
