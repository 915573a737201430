-- ===== src/Txn/Typed.antt =====
-- util/transaction.rs: the allocations of values, slices and strings through a transaction.
use fastarena_rs.Base.{
  ℕ, ◌+◌, ◌*◌, ◌≤◌, ◌<◌, ◌≡◌, ◌⊎◌, inl, inr, refl, Option, none, some, List, length, min, Outcome,
  ok, panicked, M, budget_exceeded, saturating_mul, if◌then◌else◌, usize_max, arith, Bool-cases,
}
use fastarena_rs.Block.{Os}
use fastarena_rs.Typed as Typed
use fastarena_rs.Typed.{Mem, Store, Slice}
use fastarena_rs.Txn.{Transaction, resume, budget_ok, bytes_used}
use fastarena_rs.Txn.Budget.{budget_ok-limit}

-- A transaction, and the memory of its arena.
pub record TxnStore : Type 0 where
  pub txn : Transaction
  pub mem : Mem

abbrev pub store_of : TxnStore → Store
store_of t = record { arena = t.txn.arena; mem = t.mem }

abbrev pub resumed : TxnStore → Store → TxnStore
resumed t s = record { txn = resume t.txn s.arena; mem = s.mem }

abbrev pub on_store : {A : Type 0} → M Store A → M TxnStore A
on_store op t = let (out, s) = op (store_of t) in (out, resumed t s)

-- The budget test, and the call of the arena.
abbrev pub checked : {A : Type 0} → ℕ → M Store A → M TxnStore A
checked bytes op t = if budget_ok bytes t.txn then on_store op t else (panicked budget_exceeded, t)

abbrev pub try_checked : {A : Type 0} → ℕ → M Store (Option A) → M TxnStore (Option A)
try_checked bytes op t = if budget_ok bytes t.txn then on_store op t else (ok none, t)

unfoldable pub alloc : Os → ℕ → ℕ → List ℕ → M TxnStore ℕ
alloc os size align val = checked size (Typed.alloc os size align val)

unfoldable pub alloc_slice : Os → ℕ → ℕ → ℕ → List (List ℕ) → M TxnStore Slice
alloc_slice os size align len iter =
    checked (saturating_mul size len) (Typed.alloc_slice os size align len iter)

unfoldable pub alloc_str : Os → List ℕ → M TxnStore ℕ
alloc_str os str = checked (length str) (Typed.alloc_str os str)

unfoldable pub alloc_uninit : Os → ℕ → ℕ → M TxnStore ℕ
alloc_uninit os size align = checked size (Typed.alloc_uninit os size align)

unfoldable pub alloc_zeroed : Os → ℕ → ℕ → M TxnStore ℕ
alloc_zeroed os size align = checked size (Typed.alloc_zeroed os size align)

unfoldable pub alloc_slice_copy : Os → ℕ → ℕ → List (List ℕ) → M TxnStore Slice
alloc_slice_copy os size align src =
    checked (saturating_mul size (length src)) (Typed.alloc_slice_copy os size align src)

unfoldable pub try_alloc : Os → ℕ → ℕ → List ℕ → M TxnStore (Option ℕ)
try_alloc os size align val = try_checked size (Typed.try_alloc os size align val)

unfoldable pub try_alloc_slice : Os → ℕ → ℕ → ℕ → List (List ℕ) → M TxnStore (Option Slice)
try_alloc_slice os size align len iter =
    try_checked (saturating_mul size len) (Typed.try_alloc_slice os size align len iter)

unfoldable pub try_alloc_str : Os → List ℕ → M TxnStore (Option ℕ)
try_alloc_str os str = try_checked (length str) (Typed.try_alloc_str os str)

unfoldable pub try_alloc_slice_copy : Os → ℕ → ℕ → List (List ℕ) → M TxnStore (Option Slice)
try_alloc_slice_copy os size align src =
    try_checked (saturating_mul size (length src)) (Typed.try_alloc_slice_copy os size align src)

module _ {A : Type 0} where
  -- A test of `bytes` bytes against the limit `lim`: it refuses exactly what would exceed it, with
  -- `out` and no change, and lets anything else through to the arena.
  abbrev pub Budgeted : ℕ → ℕ → Outcome A → M Store A → TxnStore → Outcome A × TxnStore → Type 0
  Budgeted lim bytes out op t end =
      ((lim < bytes_used t.txn + bytes) × (end ≡ (out, t)))
      ⊎ ((bytes_used t.txn + bytes ≤ lim) × (end ≡ on_store op t))

  -- The bytes that are tested may have been cut off at the end of the word.
  tested-Budgeted :
      (lim bytes tested : ℕ) (out : Outcome A) (op : M Store A) (t : TxnStore)
      → t.txn.limit ≡ some lim
      → lim < usize_max
      → min tested usize_max ≡ min bytes usize_max
      → Budgeted lim bytes out op t (if budget_ok tested t.txn then on_store op t else (out, t))
  tested-Budgeted lim bytes tested out op t limited small same =
      let test = budget_ok-limit tested lim t.txn limited in
      elim (Bool-cases (budget_ok tested t.txn)) [
        | inl within ↦ inr (ground (arith, test), rw within refl)
        | inr over ↦ inl (ground (arith, test), rw over refl)
      ]

-- With a limit below the greatest number, a slice of len elements of size bytes is refused
-- exactly when the bytes used and size * len exceed the limit, also where this product leaves the
-- word: alloc_slice and alloc_slice_copy then panic, the fallible calls return None, and nothing
-- changes; otherwise the call goes to the arena. So it is for a value and its size, and for a
-- string and its length.
pub over_budget :
    (os : Os) (size align lim : ℕ) (xs : List (List ℕ)) (val : List ℕ) (t : TxnStore)
    → t.txn.limit ≡ some lim
    → lim < usize_max
    → Budgeted lim
        (size * length xs)
        (panicked budget_exceeded)
        (Typed.alloc_slice os size align (length xs) xs)
        t
        (alloc_slice os size align (length xs) xs t)
      × Budgeted lim
          (size * length xs)
          (ok none)
          (Typed.try_alloc_slice os size align (length xs) xs)
          t
          (try_alloc_slice os size align (length xs) xs t)
      × Budgeted lim
          (size * length xs)
          (panicked budget_exceeded)
          (Typed.alloc_slice_copy os size align xs)
          t
          (alloc_slice_copy os size align xs t)
      × Budgeted lim
          (size * length xs)
          (ok none)
          (Typed.try_alloc_slice_copy os size align xs)
          t
          (try_alloc_slice_copy os size align xs t)
      × Budgeted lim size
          (panicked budget_exceeded)
          (Typed.alloc os size align val)
          t
          (alloc os size align val t)
      × Budgeted lim size
          (ok none)
          (Typed.try_alloc os size align val)
          t
          (try_alloc os size align val t)
      × Budgeted lim
          (length val)
          (panicked budget_exceeded)
          (Typed.alloc_str os val)
          t
          (alloc_str os val t)
      × Budgeted lim (length val) (ok none) (Typed.try_alloc_str os val) t (try_alloc_str os val t)
unfolding alloc_slice try_alloc_slice alloc_slice_copy try_alloc_slice_copy alloc try_alloc
    alloc_str try_alloc_str
over_budget os size align lim xs val t limited small =
    let n = length xs in
    let bytes = saturating_mul size n in
    let cut : min bytes usize_max ≡ min (size * n) usize_max = omega arith in
    (
      tested-Budgeted lim (size * n) bytes (panicked budget_exceeded)
          (Typed.alloc_slice os size align n xs) t limited small cut,
      tested-Budgeted lim (size * n) bytes (ok none) (Typed.try_alloc_slice os size align n xs) t
          limited small cut,
      tested-Budgeted lim (size * n) bytes (panicked budget_exceeded)
          (Typed.alloc_slice_copy os size align xs) t limited small cut,
      tested-Budgeted lim (size * n) bytes (ok none) (Typed.try_alloc_slice_copy os size align xs) t
          limited small cut,
      tested-Budgeted lim size size (panicked budget_exceeded) (Typed.alloc os size align val) t
          limited small refl,
      tested-Budgeted lim size size (ok none) (Typed.try_alloc os size align val) t limited small
          refl,
      tested-Budgeted lim (length val) (length val) (panicked budget_exceeded)
          (Typed.alloc_str os val) t limited small refl,
      tested-Budgeted lim (length val) (length val) (ok none) (Typed.try_alloc_str os val) t limited
          small refl,
    )
