-- ===== src/DropRegistry/Tests.antt =====
-- Runs of util/drop_registry.rs, and the theorems at concrete registries.
use fastarena_rs.Base.{
  ℕ, ◌≡◌, refl, true, false, List, [], ◌∷◌, ◌++◌, none, some, ok, panicked, destructor_panicked,
  unsatisfied, M, reverse, replicate,
}
use fastarena_rs.InlineVec as Inline
use fastarena_rs.InlineVec.{InlineVec, inline}
use fastarena_rs.InlineVec.Laws.{stays_inline}
use fastarena_rs.DropRegistry.{
  DropSlot, DropRegistry, Elem, single, range, drop_range_shim, run_drops_until, run_loop, run_slot,
  drain_remaining, drain_loop,
}
use fastarena_rs.DropRegistry.Laws.{Registered, Ended, raised, run_each, run_drops_until_lem}

-- The destructors that ran, the last one first.
abbrev Log : Type 0
Log = List ℕ

abbrev noted : ℕ → M Log (Unit {0})
noted ptr w = (ok tt, ptr ∷ w)

abbrev failing : ℕ → M Log (Unit {0})
failing ptr w = (panicked unsatisfied, ptr ∷ w)

abbrev boxed : Elem Log
boxed = record { size = 8; needs_drop = true; drop_in_place = noted }

abbrev below : List (DropSlot Log)
below = single 100 noted ∷ []

-- Registered last to first: one element, one that panics, and a slice of two.
abbrev above : List (DropSlot Log)
above = range 300 2 (drop_range_shim boxed) ∷ single 200 failing ∷ single 150 noted ∷ []

abbrev four : DropRegistry Log
four = record {
  slots = record {
    storage = inline (
        some (single 100 noted)
        ∷ some (single 150 noted)
        ∷ some (single 200 failing)
        ∷ some (range 300 2 (drop_range_shim boxed))
        ∷ replicate 28 none);
    len = 4;
    on_heap = false;
  };
}

four-Registered : Registered 32 8 four (below ++ reverse above)
four-Registered = stays_inline (replicate 28 none) refl refl

-- All four places above the first slot are dropped, the panic notwithstanding.
lifo_after_panic :
    ((run_drops_until 1 (four, [])).0 ≡ panicked destructor_panicked)
    × ((run_drops_until 1 (four, [])).1.1 ≡ 150 ∷ 200 ∷ 308 ∷ 300 ∷ [])
unfolding run_drops_until run_loop run_slot drain_remaining drain_loop drop_range_shim Inline.pop
lifo_after_panic = (refl, refl)

run_drops_until_lem_example :
    Ended 32 8
      (run_drops_until 1 (four, []))
      (raised (run_each 32 8 above []).0)
      (run_each 32 8 above []).1
      below
run_drops_until_lem_example = run_drops_until_lem 32 8 below above four [] four-Registered
