-- ===== src/Tracked/Tests.antt =====
-- Runs of an arena that tracks destructors, and the theorem on rewinding at a concrete one.
use fastarena_rs.Base.{
  ℕ, ◌≡◌, refl, true, false, List, [], ◌∷◌, ◌++◌, reverse, replicate, none, some, ok, panicked,
  destructor_panicked, Result, failed, M, IsPow2, arith,
}
use fastarena_rs.Block
use fastarena_rs.Block.{Os}
use fastarena_rs.Arena
use fastarena_rs.Arena.Alloc as Alloc
use fastarena_rs.InlineVec as Inline
use fastarena_rs.InlineVec.{InlineVec, inline}
use fastarena_rs.InlineVec.Laws.{stays_inline}
use fastarena_rs.Typed as Typed
use fastarena_rs.DropRegistry as DropRegistry
use fastarena_rs.DropRegistry.{DropSlot, DropRegistry, Elem, single}
use fastarena_rs.DropRegistry.Laws.{Registered, run_each}
use fastarena_rs.Tracked.{TrackedArena, alloc, checkpoint, rewind, reset}
use fastarena_rs.Tracked.Laws.{RewoundAfter}
use fastarena_rs.Tracked.Slots.{value_slots}
use fastarena_rs.Tracked.Stored.{stop, value, rewind-Stores}
use fastarena_rs.Tracked.Reset.{ResetAfter, reset-Stores}
use fastarena_rs.Arena.Valid.{IsFresh}
use fastarena_rs.Boxed as Boxed
use fastarena_rs.Boxed.{ArenaBox}
use fastarena_rs.Txn as Plain
use fastarena_rs.Txn.{TxnStatus}
use fastarena_rs.Tracked.Txn as Txn
use fastarena_rs.Tracked.Txn.{TrackedTransaction}
use fastarena_rs.Tracked.Steps.{Steps}
use fastarena_rs.Tracked.Through.{alloc-Steps}
use fastarena_rs.Tracked.Rollback.{
  DropEnded, RanWithDrops, rollback-DropEnded, run_with_transaction-RanWithDrops,
}
use fastarena_rs.Tracked.Box.{alloc_box, into_inner-rewind}
use fastarena_rs.Fixtures.{full_os, full_os-IsFresh, busy, busy-IsValid}

-- The addresses whose destructors have run, the last one first.
abbrev Log : Type 0
Log = List ℕ

abbrev noted : ℕ → M Log (Unit {0})
noted ptr w = (ok tt, ptr ∷ w)

abbrev boxed : Elem Log
boxed = record { size = 4; needs_drop = true; drop_in_place = noted }

abbrev one_slot : List (DropSlot Log)
one_slot = single 100 noted ∷ []

abbrev tracked : TrackedArena Log
tracked = record {
  store = record { arena = busy; mem = λ x. 0 };
  drop_registry = record {
    slots = record {
      storage = inline (some (single 100 noted) ∷ replicate 31 none);
      len = 1;
      on_heap = false;
    };
  };
}

tracked-Registered : Registered 32 8 tracked.drop_registry one_slot
tracked-Registered = stays_inline (replicate 31 none) refl refl

abbrev word : List ℕ
word = 1 ∷ 2 ∷ 3 ∷ 4 ∷ []

abbrev after : TrackedArena Log
after = (alloc full_os 32 8 full_os boxed 4 word tracked).1

four : IsPow2 4
four = (2, omega arith, refl)

abbrev new_slots : List (DropSlot Log)
new_slots = value_slots boxed (alloc full_os 32 8 full_os boxed 4 word tracked).0 []

-- The destructor of the value runs, that of the older slot does not.
drops_the_value :
    ((rewind (checkpoint tracked) (after, [])).0 ≡ ok tt)
    × ((rewind (checkpoint tracked) (after, [])).1.1 ≡ 65552 ∷ [])
    × ((rewind (checkpoint tracked) (after, [])).1.0.store.arena.cur_ptr ≡ 65552)
unfolding alloc checkpoint rewind Typed.alloc Alloc.alloc_raw_inner Block.align_up
    DropRegistry.register DropRegistry.run_drops_until DropRegistry.run_loop DropRegistry.run_slot
    DropRegistry.len Inline.push Inline.pop Arena.rewind Arena.checkpoint Arena.set_current_block
    Arena.update_largest
drops_the_value = (refl, refl, refl)

rewind-Stores_example :
    Registered 32 8 (rewind (checkpoint tracked) (after, [])).1.0.drop_registry one_slot
    × RewoundAfter 32 8 tracked after
        (run_each 32 8 new_slots [])
        (rewind (checkpoint tracked) (after, []))
rewind-Stores_example =
    rewind-Stores 32 8 tracked after one_slot new_slots [] busy-IsValid tracked-Registered
      (value full_os full_os boxed 4 word stop four (full_os-IsFresh busy.blocks) refl refl)

-- Both destructors run, and the arena begins at its first block again.
drops_both :
    ((reset (after, [])).0 ≡ ok tt)
    × ((reset (after, [])).1.1 ≡ 100 ∷ 65552 ∷ [])
    × ((reset (after, [])).1.0.store.arena.cur_ptr ≡ 65536)
unfolding alloc reset Typed.alloc Alloc.alloc_raw_inner Block.align_up DropRegistry.register
    DropRegistry.run_all_drops DropRegistry.run_drops_until DropRegistry.run_loop
    DropRegistry.run_slot Inline.push Inline.pop Arena.reset
drops_both = (refl, refl, refl)

reset-Stores_example :
    Registered 32 8 (reset (after, [])).1.0.drop_registry []
    × ResetAfter 32 8 after (run_each 32 8 (new_slots ++ reverse one_slot) []) (reset (after, []))
reset-Stores_example =
    reset-Stores 32 8 tracked after one_slot new_slots [] busy-IsValid tracked-Registered
      (value full_os full_os boxed 4 word stop four (full_os-IsFresh busy.blocks) refl refl)

-- A transaction that stores a value.
abbrev opened : TrackedTransaction Log
opened = Txn.new tracked

abbrev wrote : TrackedTransaction Log
wrote = (Txn.alloc full_os 32 8 full_os boxed 4 word opened).1

abbrev txn_slots : List (DropSlot Log)
txn_slots = value_slots boxed (Txn.alloc full_os 32 8 full_os boxed 4 word opened).0 []

opened-IsFresh : IsFresh full_os opened.arena.store.arena.blocks
unfolding Txn.new
opened-IsFresh = full_os-IsFresh busy.blocks

wrote-Steps : Steps 32 8 opened [] txn_slots wrote []
wrote-Steps = alloc-Steps 32 8 full_os full_os boxed 4 Steps.stop four opened-IsFresh word

-- A rollback runs the destructor of the value.
rolls_back :
    ((Txn.rollback wrote []).0 ≡ ok TxnStatus.rolled_back)
    × ((Txn.rollback wrote []).1.1 ≡ 65552 ∷ [])
    × ((Txn.rollback wrote []).1.0.store.arena.cur_ptr ≡ 65552)
unfolding Txn.rollback Txn.drop Txn.new Txn.alloc Txn.budget_ok Plain.budget_ok alloc checkpoint
    rewind Typed.alloc Alloc.alloc_raw_inner Block.align_up DropRegistry.register
    DropRegistry.run_drops_until DropRegistry.run_loop DropRegistry.run_slot DropRegistry.len
    Inline.push Inline.pop Arena.rewind Arena.checkpoint Arena.set_current_block
    Arena.update_largest
rolls_back = (refl, refl, refl)

rollback-DropEnded_example :
    DropEnded 32 8
      (ok TxnStatus.rolled_back)
      (panicked destructor_panicked)
      tracked
      wrote
      one_slot
      txn_slots
      []
      (Txn.rollback wrote [])
rollback-DropEnded_example =
    rollback-DropEnded 32 8 tracked wrote one_slot txn_slots [] [] busy-IsValid (omega arith)
      tracked-Registered wrote-Steps

-- A closure that stores the value and then fails.
abbrev failing : M (TrackedTransaction Log × Log) (Result ℕ ℕ)
failing (t, w) = (ok (failed 7), ((Txn.alloc full_os 32 8 full_os boxed 4 word t).1, w))

run_with_transaction-RanWithDrops_example :
    RanWithDrops 32 8 tracked wrote one_slot txn_slots []
      (ok (failed 7))
      (Txn.run_with_transaction failing (tracked, []))
run_with_transaction-RanWithDrops_example =
    run_with_transaction-RanWithDrops 32 8 failing tracked one_slot txn_slots [] busy-IsValid
      (omega arith) tracked-Registered wrote-Steps

-- A value in a box.
abbrev box : ArenaBox
box = record { ptr = 65552 }

abbrev box_arena : TrackedArena Log
box_arena = (alloc_box full_os 32 8 full_os boxed 4 word tracked).1

box_made : alloc_box full_os 32 8 full_os boxed 4 word tracked ≡ (ok box, box_arena)
unfolding alloc_box alloc Typed.alloc Alloc.alloc_raw_inner Block.align_up DropRegistry.register
    Inline.push
box_made = refl

into_inner-rewind_example :
    (Boxed.into_inner 4 box box_arena.store.mem ≡ word)
    × RewoundAfter 32 8 tracked box_arena
        (run_each 32 8 (single 65552 noted ∷ []) [])
        (rewind (checkpoint tracked) (box_arena, []))
into_inner-rewind_example =
    into_inner-rewind full_os 32 8 full_os boxed 4 word tracked box_arena box one_slot []
      busy-IsValid (full_os-IsFresh busy.blocks) four tracked-Registered (omega arith) refl refl
      box_made
