-- ===== src/InlineVec/Tests.antt =====
-- Runs of util/inline_vec.rs, after its unit tests, and the theorems at concrete vectors.
use fastarena_rs.Base.{
  ℕ, ◌≡◌, refl, true, false, List, [], ◌∷◌, none, some, ok, panicked, arith, index_out_of_bounds,
}
use fastarena_rs.Block.{Os}
use fastarena_rs.InlineVec.{
  InlineVec, inline, heap, push, push_slow, promote_and_push, doubled, heap_alloc, pop, index,
  as_slice, dropped, index_set, set_at,
}
use fastarena_rs.InlineVec.Laws.{Holds, stays_inline}
use fastarena_rs.InlineVec.Model.{
  Op, Steps, call_push, call_pop, call_index, call_index_set, call_as_slice, returned, value,
  panics, items, exec_all, exec_all-Steps,
}

abbrev heap_os : Os
heap_os size align = 4096

-- `InlineVec<u32, 2>` with both inline places taken
abbrev two : InlineVec ℕ
two = record { storage = inline (some 10 ∷ some 20 ∷ []); len = 2; on_heap = false }

abbrev three : InlineVec ℕ
three = record {
  storage = heap (record { ptr = some 10 ∷ some 20 ∷ some 30 ∷ none ∷ []; cap = 4 });
  len = 3;
  on_heap = true;
}

abbrev tens : List ℕ
tens = 10 ∷ 20 ∷ []

two-Holds : Holds 2 4 4 two tens
two-Holds = stays_inline [] refl refl

push_triggers_promotion : push heap_os 4 4 2 30 two ≡ (ok tt, three)
unfolding push push_slow promote_and_push doubled heap_alloc
push_triggers_promotion = refl

pop_heap : (pop three).0 ≡ ok (some 30)
unfolding pop
pop_heap = refl

oob_panics : index two 2 ≡ panicked index_out_of_bounds
unfolding index
oob_panics = refl

abbrev calls : List (Os × Op ℕ)
calls =
    (heap_os, call_push 30)
    ∷ (heap_os, call_index_set 0 7)
    ∷ (heap_os, call_pop)
    ∷ (heap_os, call_pop)
    ∷ (heap_os, call_index 5)
    ∷ (heap_os, call_as_slice)
    ∷ []

answers :
    (exec_all 4 4 2 calls two).0
    ≡ returned
      ∷ returned
      ∷ value (some 30)
      ∷ value (some 20)
      ∷ panics index_out_of_bounds
      ∷ items (7 ∷ [])
      ∷ []
unfolding push push_slow promote_and_push doubled heap_alloc pop index index_set set_at as_slice
answers = refl

exec_all-Steps_example :
    let (replies, w) = exec_all 4 4 2 calls two in
    (ys : List ℕ) × Steps tens calls replies ys × Holds 2 4 4 w ys × (dropped true w ≡ ok ys)
exec_all-Steps_example = exec_all-Steps 4 4 2 calls two tens (omega arith) two-Holds
