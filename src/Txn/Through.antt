-- ===== src/Txn/Through.antt =====
-- The typed allocations of a transaction, and what is done through `arena_mut`, are steps of it.
use fastarena_rs.Base.{
  [], ℕ, ◌≤◌, ◌≡◌, refl, List, length, true, Option, M, Bool-cases, inl, inr, IsPow2, isize_max,
  is_power_of_two, ok, usize_max, ◌<◌,
}
use fastarena_rs.Block.{Os}
use fastarena_rs.Arena.{Arena}
use fastarena_rs.Arena.Valid.{IsValid, IsFresh}
use fastarena_rs.Arena.Preserved.{Preserved, with_depth-IsValid}
use fastarena_rs.Typed as Typed
use fastarena_rs.Typed.{Mem, Store}
use fastarena_rs.Typed.Growing.{
  IsGrowing, alloc-IsGrowing, try_alloc-IsGrowing, alloc_uninit-IsGrowing, alloc_slice-IsGrowing,
  try_alloc_slice-IsGrowing, alloc_slice_copy-IsGrowing, try_alloc_slice_copy-IsGrowing,
  alloc_str-IsGrowing, try_alloc_str-IsGrowing, alloc_zeroed-IsGrowing,
}
use fastarena_rs.Txn.{Transaction, TxnStatus, new, rollback, arena_mut, budget_ok}
use fastarena_rs.Txn.Steps.{Steps, Steps-Kept, through}
use fastarena_rs.Txn.Rollback.{Undone, rollback-Undone}
use fastarena_rs.Txn.Typed as TxnTyped
use fastarena_rs.Txn.Typed.{TxnStore, store_of, resumed, on_store, checked, try_checked}
use fastarena_rs.ArenaVec.{ArenaVec}
use fastarena_rs.ArenaVec as Vec
use fastarena_rs.ArenaVec.Model.{Op, Reply, run}
use fastarena_rs.ArenaVec.Model.Refines.{IsServed, run-Steps}
use fastarena_rs.ArenaVec.Reserve.{new-Holds}

module _ {A : Type 0} (t : Transaction) (u : TxnStore) (os : Os) (s : Steps t u.txn)
    (v : IsValid t.arena) (fresh : IsFresh os u.txn.arena.blocks) where
  grown : (op : M Store A) → IsGrowing os op → Preserved u.txn.arena (op (store_of u)).1.arena
  grown op g = g (store_of u) (Steps-Kept s v).arena.valid fresh

  -- An allocation that loses nothing, after the test of the budget.
  pub checked-Steps :
      (bytes : ℕ) (op : M Store A) → IsGrowing os op → Steps t (checked bytes op u).1.txn
  checked-Steps bytes op g = elim (Bool-cases (budget_ok bytes u.txn)) [
    | inl within ↦ rw within (through (op (store_of u)).1.arena s (grown op g) refl)
    | inr over ↦ rw over s
  ]

module _ {A : Type 0} (t : Transaction) (u : TxnStore) (os : Os) (s : Steps t u.txn)
    (v : IsValid t.arena) (fresh : IsFresh os u.txn.arena.blocks) where
  pub try_checked-Steps :
      (bytes : ℕ) (op : M Store (Option A))
      → IsGrowing os op
      → Steps t (try_checked bytes op u).1.txn
  try_checked-Steps bytes op g = elim (Bool-cases (budget_ok bytes u.txn)) [
    | inl within ↦
        rw within (through (op (store_of u)).1.arena s (grown t u os s v fresh op g) refl)
    | inr over ↦ rw over s
  ]

-- The allocations of a transaction that write memory.
pub data Request : Type 0 where
  ask : ℕ → ℕ → List ℕ → Request
  try_ask : ℕ → ℕ → List ℕ → Request
  ask_uninit : ℕ → ℕ → Request
  ask_zeroed : ℕ → ℕ → Request
  ask_slice : ℕ → ℕ → ℕ → List (List ℕ) → Request
  try_ask_slice : ℕ → ℕ → ℕ → List (List ℕ) → Request
  ask_slice_copy : ℕ → ℕ → List (List ℕ) → Request
  try_ask_slice_copy : ℕ → ℕ → List (List ℕ) → Request
  ask_str : List ℕ → Request
  try_ask_str : List ℕ → Request

-- The state that the allocation leaves.
abbrev pub serve : Os → Request → TxnStore → TxnStore
serve os (ask size align val) u = (TxnTyped.alloc os size align val u).1
serve os (try_ask size align val) u = (TxnTyped.try_alloc os size align val u).1
serve os (ask_uninit size align) u = (TxnTyped.alloc_uninit os size align u).1
serve os (ask_zeroed size align) u = (TxnTyped.alloc_zeroed os size align u).1
serve os (ask_slice size align len iter) u = (TxnTyped.alloc_slice os size align len iter u).1
serve os (try_ask_slice size align len iter) u =
    (TxnTyped.try_alloc_slice os size align len iter u).1
serve os (ask_slice_copy size align src) u = (TxnTyped.alloc_slice_copy os size align src u).1
serve os (try_ask_slice_copy size align src) u =
    (TxnTyped.try_alloc_slice_copy os size align src u).1
serve os (ask_str str) u = (TxnTyped.alloc_str os str u).1
serve os (try_ask_str str) u = (TxnTyped.try_alloc_str os str u).1

-- Types have an alignment that is a power of two, and strings the length of a slice.
abbrev pub IsRequest : Request → Type 0
IsRequest (ask size align val) = IsPow2 align
IsRequest (try_ask size align val) = IsPow2 align
IsRequest (ask_uninit size align) = IsPow2 align
IsRequest (ask_zeroed size align) = Unit {0}
IsRequest (ask_slice size align len iter) = IsPow2 align
IsRequest (try_ask_slice size align len iter) = IsPow2 align
IsRequest (ask_slice_copy size align src) = IsPow2 align
IsRequest (try_ask_slice_copy size align src) = IsPow2 align
IsRequest (ask_str str) = length str ≤ isize_max
IsRequest (try_ask_str str) = Unit {0}

-- Each of these allocations is a step of the transaction, whether it succeeds, fails or panics.
pub serve-Steps :
    (os : Os) (r : Request) (t : Transaction) (u : TxnStore)
    → IsRequest r
    → Steps t u.txn
    → IsValid t.arena
    → IsFresh os u.txn.arena.blocks
    → Steps t (serve os r u).txn
unfolding TxnTyped.alloc TxnTyped.try_alloc TxnTyped.alloc_uninit TxnTyped.alloc_zeroed
    TxnTyped.alloc_slice TxnTyped.try_alloc_slice TxnTyped.alloc_slice_copy
    TxnTyped.try_alloc_slice_copy TxnTyped.alloc_str TxnTyped.try_alloc_str
serve-Steps os (ask size align val) t u pow s v fresh =
    checked-Steps t u os s v fresh _ (Typed.alloc os size align val)
      (alloc-IsGrowing os align pow size val)
serve-Steps os (try_ask size align val) t u pow s v fresh =
    try_checked-Steps t u os s v fresh _ (Typed.try_alloc os size align val)
      (try_alloc-IsGrowing os align pow size val)
serve-Steps os (ask_uninit size align) t u pow s v fresh =
    checked-Steps t u os s v fresh _ (Typed.alloc_uninit os size align)
      (alloc_uninit-IsGrowing os align pow size)
serve-Steps os (ask_zeroed size align) t u _ s v fresh =
    checked-Steps t u os s v fresh _ (Typed.alloc_zeroed os size align)
      (alloc_zeroed-IsGrowing os size align)
serve-Steps os (ask_slice size align len iter) t u pow s v fresh =
    checked-Steps t u os s v fresh _ (Typed.alloc_slice os size align len iter)
      (alloc_slice-IsGrowing os align pow size len iter)
serve-Steps os (try_ask_slice size align len iter) t u pow s v fresh =
    try_checked-Steps t u os s v fresh _ (Typed.try_alloc_slice os size align len iter)
      (try_alloc_slice-IsGrowing os align pow size len iter)
serve-Steps os (ask_slice_copy size align src) t u pow s v fresh =
    checked-Steps t u os s v fresh _ (Typed.alloc_slice_copy os size align src)
      (alloc_slice_copy-IsGrowing os align pow size src)
serve-Steps os (try_ask_slice_copy size align src) t u pow s v fresh =
    try_checked-Steps t u os s v fresh _ (Typed.try_alloc_slice_copy os size align src)
      (try_alloc_slice_copy-IsGrowing os align pow size src)
serve-Steps os (ask_str str) t u short s v fresh =
    checked-Steps t u os s v fresh _ (Typed.alloc_str os str) (alloc_str-IsGrowing os str short)
serve-Steps os (try_ask_str str) t u _ s v fresh =
    try_checked-Steps t u os s v fresh _ (Typed.try_alloc_str os str)
      (try_alloc_str-IsGrowing os str)

-- A caller of `arena_mut` builds a vector and uses it, until its borrow of the arena ends.
abbrev pub vec_caller : ℕ → ℕ → List (Os × Op) → Mem → M Arena (List Reply)
vec_caller size align ops m a =
    let (replies, v) = run size align ops (Vec.new align (record { arena = a; mem = m })) in
    (ok replies, v.store.arena)

abbrev pub build_vec : ℕ → ℕ → List (Os × Op) → TxnStore → Transaction
build_vec size align ops u = (arena_mut (vec_caller size align ops u.mem) u.txn).1

-- All that a vector does in the arena of a transaction is a step of it.
pub build_vec-Steps :
    (size align : ℕ) (ops : List (Os × Op)) (t : Transaction) (u : TxnStore)
    → is_power_of_two align ≡ true
    → IsServed size align ops (Vec.new align (store_of u))
    → Steps t u.txn
    → IsValid t.arena
    → Steps t (build_vec size align ops u)
unfolding arena_mut Vec.new
build_vec-Steps size align ops t u two served s v =
    let start = new-Holds size align (store_of u) two (Steps-Kept s v).arena.valid in
    let (ys, steps, became) =
      run-Steps size align two ops (Vec.new align (store_of u)) [] start served in
    let arena = (run size align ops (Vec.new align (store_of u))).1.store.arena in
    let kept : Preserved u.txn.arena arena = record {
      valid = became.holds.vec.valid;
      grown = became.framed.grown;
      depth = became.framed.depth;
    } in
    through arena s kept refl

-- When a transaction has been opened on a valid arena below the greatest depth and has taken any
-- steps, and a caller of arena_mut then builds a vector in its arena and makes any sequence of
-- calls, with an alignment that is a power of two, a system allocator that keeps its promises and
-- returns memory apart from the blocks of the arena at each call, elements of one size and
-- capacities within the address space: rollback succeeds, and the arena has the position, the
-- counted bytes, the passed blocks and the depth that it had before the transaction.
pub rollback-vec :
    (size align : ℕ) (ops : List (Os × Op)) (a : Arena) (u : TxnStore)
    → is_power_of_two align ≡ true
    → IsServed size align ops (Vec.new align (store_of u))
    → IsValid a
    → a.txn_depth < usize_max
    → Steps (new a) u.txn
    → (a' : Arena) × (rollback (build_vec size align ops u) ≡ (ok TxnStatus.rolled_back, a'))
      × Undone a a'
unfolding new
rollback-vec size align ops a u two served v bound s =
    rollback-Undone a (build_vec size align ops u) v bound
      (build_vec-Steps size align ops (new a) u two served s (with_depth-IsValid _ v))
