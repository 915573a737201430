-- ===== src/Tracked.antt =====
-- arena/allocator.rs with the feature drop-tracking: the allocations register the destructors of
-- what they store, `rewind` and `reset` run them. `W` is the rest of the program.
pub mod Laws
pub mod Slots
pub mod Registers
pub mod Stored
pub mod Reset
pub mod Txn
pub mod Nested
pub mod Steps
pub mod Rollback
pub mod Through
pub mod Box
mod Tests
use fastarena_rs.Base.{
  ℕ, Bool, Option, none, some, List, length, ltb, ◌==◌, if◌then◌else◌, Panic, Outcome, ok, panicked,
  checkpoint_out_of_range, M, and_then,
}
use fastarena_rs.Block.{Os}
use fastarena_rs.Arena
use fastarena_rs.Arena.{Arena, Checkpoint}
use fastarena_rs.Typed as Typed
use fastarena_rs.Typed.{Store, Slice}
use fastarena_rs.DropRegistry as DropRegistry
use fastarena_rs.DropRegistry.{DropRegistry, Elem}

pub record TrackedArena (W : Type 0) : Type 0 where
  pub store : Store
  pub drop_registry : DropRegistry W

pub record TrackedCheckpoint : Type 0 where
  pub position : Checkpoint
  pub drop_registry_len : ℕ

module _ {W : Type 0} where
  abbrev pub with_store : Store → TrackedArena W → TrackedArena W
  with_store s a = record a { store = s }

  abbrev pub with_arena : Arena → TrackedArena W → TrackedArena W
  with_arena x a = record a { store = record a.store { arena = x } }

  -- `heap_os` is the system allocator as the registry meets it.
  module _ (heap_os : Os) (slot_size slot_align : ℕ) where
    abbrev pub registered :
        {A : Type 0} → A → Outcome (Unit {0}) × DropRegistry W → Store → Outcome A × TrackedArena W
    registered x (ok _, r) s = (ok x, record { store = s; drop_registry = r })
    registered x (panicked e, r) s = (panicked e, record { store = s; drop_registry = r })

    abbrev pub then_register :
        Elem W → Outcome ℕ × Store → DropRegistry W → Outcome ℕ × TrackedArena W
    then_register t (ok p, s) r =
        registered p (DropRegistry.register heap_os slot_size slot_align t p r) s
    then_register t (panicked e, s) r = (panicked e, record { store = s; drop_registry = r })

    abbrev pub then_try_register :
        Elem W → Outcome (Option ℕ) × Store → DropRegistry W → Outcome (Option ℕ) × TrackedArena W
    then_try_register t (ok (some p), s) r =
        registered (some p) (DropRegistry.register heap_os slot_size slot_align t p r) s
    then_try_register t (ok none, s) r = (ok none, record { store = s; drop_registry = r })
    then_try_register t (panicked e, s) r = (panicked e, record { store = s; drop_registry = r })

    abbrev pub then_register_slice :
        Elem W → Outcome Slice × Store → DropRegistry W → Outcome Slice × TrackedArena W
    then_register_slice t (ok x, s) r =
        registered x (DropRegistry.register_slice heap_os slot_size slot_align t x.ptr x.len r) s
    then_register_slice t (panicked e, s) r = (panicked e, record { store = s; drop_registry = r })

    abbrev pub then_try_register_slice :
        Elem W
        → Outcome (Option Slice) × Store
        → DropRegistry W
        → Outcome (Option Slice) × TrackedArena W
    then_try_register_slice t (ok (some x), s) r =
        registered (some x)
          (DropRegistry.register_slice heap_os slot_size slot_align t x.ptr x.len r) s
    then_try_register_slice t (ok none, s) r = (ok none, record { store = s; drop_registry = r })
    then_try_register_slice t (panicked e, s) r =
        (panicked e, record { store = s; drop_registry = r })

    -- A value of no bytes returns before it is registered.
    unfoldable pub alloc : Os → Elem W → ℕ → List ℕ → M (TrackedArena W) ℕ
    alloc os t align val a =
        if t.size == 0
        then (ok align, a)
        else then_register t (Typed.alloc os t.size align val a.store) a.drop_registry

    unfoldable pub try_alloc : Os → Elem W → ℕ → List ℕ → M (TrackedArena W) (Option ℕ)
    try_alloc os t align val a =
        if t.size == 0
        then (ok (some align), a)
        else then_try_register t (Typed.try_alloc os t.size align val a.store) a.drop_registry

    -- `register_slice` does nothing for the empty slice, which returns before it.
    unfoldable pub alloc_slice : Os → Elem W → ℕ → ℕ → List (List ℕ) → M (TrackedArena W) Slice
    alloc_slice os t align len iter a =
        then_register_slice t (Typed.alloc_slice os t.size align len iter a.store) a.drop_registry

    unfoldable pub try_alloc_slice :
        Os → Elem W → ℕ → ℕ → List (List ℕ) → M (TrackedArena W) (Option Slice)
    try_alloc_slice os t align len iter a =
        then_try_register_slice t (Typed.try_alloc_slice os t.size align len iter a.store)
          a.drop_registry

    unfoldable pub alloc_slice_copy : Os → Elem W → ℕ → List (List ℕ) → M (TrackedArena W) Slice
    alloc_slice_copy os t align src a =
        then_register_slice t (Typed.alloc_slice_copy os t.size align src a.store) a.drop_registry

    unfoldable pub try_alloc_slice_copy :
        Os → Elem W → ℕ → List (List ℕ) → M (TrackedArena W) (Option Slice)
    try_alloc_slice_copy os t align src a =
        then_try_register_slice t (Typed.try_alloc_slice_copy os t.size align src a.store)
          a.drop_registry

    unfoldable pub register_drop : Elem W → ℕ → M (TrackedArena W) (Unit {0})
    register_drop t ptr a =
        registered tt (DropRegistry.register heap_os slot_size slot_align t ptr a.drop_registry)
          a.store

  unfoldable pub checkpoint : TrackedArena W → TrackedCheckpoint
  unfolding DropRegistry.len
  checkpoint a = record {
    position = Arena.checkpoint a.store.arena;
    drop_registry_len = DropRegistry.len a.drop_registry;
  }

  -- What follows the destructors, if none of them panicked.
  abbrev pub after_drops :
      (Arena → Outcome (Unit {0}) × Arena)
      → TrackedArena W
      → Outcome (Unit {0}) × (DropRegistry W × W)
      → Outcome (Unit {0}) × (TrackedArena W × W)
  after_drops finish a (ok _, (r, w)) =
      let (out, x) = finish a.store.arena in
      (out, (record (with_arena x a) { drop_registry = r }, w))
  after_drops finish a (panicked e, (r, w)) = (panicked e, (record a { drop_registry = r }, w))

  unfoldable pub rewind : TrackedCheckpoint → M (TrackedArena W × W) (Unit {0})
  unfolding DropRegistry.run_drops_until
  rewind cp (a, w) =
      if ltb cp.position.block_idx (length a.store.arena.blocks)
      then after_drops (Arena.rewind cp.position) a
          (DropRegistry.run_drops_until cp.drop_registry_len (a.drop_registry, w))
      else (panicked checkpoint_out_of_range, (a, w))

  unfoldable pub reset : M (TrackedArena W × W) (Unit {0})
  unfolding DropRegistry.run_all_drops
  reset (a, w) =
      after_drops (λ x. (ok tt, Arena.reset x)) a (DropRegistry.run_all_drops (a.drop_registry, w))
