-- ===== src/Txn/Tests.antt =====
-- Runs of util/transaction.rs, and the theorems at concrete transactions.
use fastarena_rs.Base.{
  Result, failed, List, [], ◌∷◌, replicate, ℕ, ◌+◌, ◌≤◌, ◌<◌, ◌≡◌, refl, ◌⊎◌, none, ok, panicked, M,
  arith, true, budget_exceeded, is_power_of_two,
}
use fastarena_rs.Arena.{Arena, checkpoint, current_used}
use fastarena_rs.Arena.Alloc as Alloc
use fastarena_rs.Arena.Valid.{IsValid, IsFresh}
use fastarena_rs.Txn.{
  Transaction, TxnStatus, new, rollback, resume, set_limit, alloc_raw, try_alloc_raw, bytes_used,
  budget_ok, run_with_transaction,
}
use fastarena_rs.Txn.Steps.{Steps, stop, allocate, Kept, Steps-Kept}
use fastarena_rs.Txn.Rollback.{Undone, rollback-Undone, run_with_transaction-Ran}
use fastarena_rs.Txn.Budget.{alloc_raw_budget}
use fastarena_rs.Txn.Typed as TxnTyped
use fastarena_rs.Txn.Typed.{TxnStore, Budgeted, over_budget}
use fastarena_rs.Typed as Typed
use fastarena_rs.ArenaVec.{push, grow, grow_to, extends_in_place, pop}
use fastarena_rs.ArenaVec as Vec
use fastarena_rs.ArenaVec.Model.{Op, call_push, call_pop}
use fastarena_rs.Txn.Through.{build_vec, rollback-vec}
use fastarena_rs.Block
use fastarena_rs.Block.{Os}
use fastarena_rs.Fixtures.{
  full_os, full_os-IsFresh, second_os, second_os-IsFresh, busy, busy-IsValid,
}

-- A transaction on `busy` that allocates 128 bytes in a new block.
abbrev opened : Transaction
opened = new busy

abbrev spilled : Transaction
spilled = (alloc_raw second_os 128 8 opened).1

opened-IsFresh : IsFresh second_os opened.arena.blocks
unfolding new
opened-IsFresh = second_os-IsFresh

opened-IsValid : IsValid opened.arena
unfolding new
opened-IsValid = record {
  layout = busy-IsValid.layout;
  base = refl;
  end = refl;
  ptr_above = omega arith;
  ptr_within = omega arith;
  mark_above = omega arith;
  mark_in_range = omega arith;
  reserved = refl;
  counted = omega arith;
}

spilled-Steps : Steps opened spilled
spilled-Steps = allocate second_os 128 8 stop opened-IsFresh refl

Steps-Kept_example : Kept opened spilled
Steps-Kept_example = Steps-Kept spilled-Steps opened-IsValid

rollback-Undone_example :
    (a' : Arena) × (rollback spilled ≡ (ok TxnStatus.rolled_back, a')) × Undone busy a'
rollback-Undone_example = rollback-Undone busy spilled busy-IsValid (omega arith) spilled-Steps

-- A closure that allocates and then returns an error.
abbrev failing : M Transaction (Result ℕ ℕ)
failing t = (ok (failed 7), (alloc_raw second_os 128 8 t).1)

run_with_transaction-Ran_example :
    (a' : Arena) × (run_with_transaction failing busy ≡ (ok (failed 7), a')) × Undone busy a'
run_with_transaction-Ran_example =
    run_with_transaction-Ran failing busy busy-IsValid (omega arith) spilled-Steps

abbrev limited : Transaction
limited = set_limit 100 opened

-- 128 bytes are over the limit, 8 bytes are within it.
over_limit : (alloc_raw second_os 128 8 limited).0 ≡ panicked budget_exceeded
unfolding alloc_raw budget_ok bytes_used current_used set_limit new checkpoint
over_limit = refl

alloc_raw_budget_example :
    ((100 < bytes_used limited + 128)
      × (alloc_raw second_os 128 8 limited ≡ (panicked budget_exceeded, limited))
      × (try_alloc_raw second_os 128 8 limited ≡ (ok none, limited)))
    ⊎ ((bytes_used limited + 128 ≤ 100)
        × (alloc_raw second_os 128 8 limited ≡ (
          (Alloc.alloc_raw second_os 128 8 limited.arena).0,
          resume limited (Alloc.alloc_raw second_os 128 8 limited.arena).1,
        ))
        × (try_alloc_raw second_os 128 8 limited ≡ (
          (Alloc.try_alloc_raw second_os 128 8 limited.arena).0,
          resume limited (Alloc.try_alloc_raw second_os 128 8 limited.arena).1,
        )))
unfolding set_limit
alloc_raw_budget_example = alloc_raw_budget second_os 128 8 100 limited refl (omega arith)

abbrev held : TxnStore
held = record { txn = limited; mem = λ x. 0 }

abbrev large : List ℕ
large = replicate 101 0

abbrev larges : List (List ℕ)
larges = large ∷ large ∷ []

over_budget_example :
    Budgeted 100 202
      (panicked budget_exceeded)
      (Typed.alloc_slice second_os 101 1 2 larges)
      held
      (TxnTyped.alloc_slice second_os 101 1 2 larges held)
    × Budgeted 100 202
        (ok none)
        (Typed.try_alloc_slice second_os 101 1 2 larges)
        held
        (TxnTyped.try_alloc_slice second_os 101 1 2 larges held)
    × Budgeted 100 202
        (panicked budget_exceeded)
        (Typed.alloc_slice_copy second_os 101 1 larges)
        held
        (TxnTyped.alloc_slice_copy second_os 101 1 larges held)
    × Budgeted 100 202
        (ok none)
        (Typed.try_alloc_slice_copy second_os 101 1 larges)
        held
        (TxnTyped.try_alloc_slice_copy second_os 101 1 larges held)
    × Budgeted 100 101
        (panicked budget_exceeded)
        (Typed.alloc second_os 101 1 large)
        held
        (TxnTyped.alloc second_os 101 1 large held)
    × Budgeted 100 101
        (ok none)
        (Typed.try_alloc second_os 101 1 large)
        held
        (TxnTyped.try_alloc second_os 101 1 large held)
    × Budgeted 100 101
        (panicked budget_exceeded)
        (Typed.alloc_str second_os large)
        held
        (TxnTyped.alloc_str second_os large held)
    × Budgeted 100 101
        (ok none)
        (Typed.try_alloc_str second_os large)
        held
        (TxnTyped.try_alloc_str second_os large held)
unfolding set_limit
over_budget_example = over_budget second_os 101 1 100 larges large held refl (omega arith)

-- A vector in a transaction: two elements are pushed, in memory at the bump pointer, and one is
-- popped.
abbrev writing : TxnStore
writing = record { txn = opened; mem = λ x. 0 }

abbrev word : List ℕ
word = 1 ∷ 2 ∷ 3 ∷ 4 ∷ []

abbrev vec_ops : List (Os × Op)
vec_ops = (full_os, call_push word) ∷ (full_os, call_push word) ∷ (full_os, call_pop) ∷ []

four : is_power_of_two 4 ≡ true
unfolding is_power_of_two
four = refl

rollback-vec_example :
    (a' : Arena) × (rollback (build_vec 4 4 vec_ops writing) ≡ (ok TxnStatus.rolled_back, a'))
    × Undone busy a'
unfolding new Vec.new push grow grow_to extends_in_place pop Alloc.alloc_raw Alloc.alloc_raw_inner
    Block.align_up is_power_of_two
rollback-vec_example =
    rollback-vec 4 4 vec_ops busy writing four
      (full_os-IsFresh _, refl, (full_os-IsFresh _, refl, (full_os-IsFresh _, tt, tt))) busy-IsValid
      (omega arith) stop
