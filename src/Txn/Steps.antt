-- ===== src/Txn/Steps.antt =====
-- What may happen inside a transaction: allocations that succeed or fail, budgets, and nested
-- transactions that are kept or undone.
use fastarena_rs.Base.{
  ℕ, inl, inr, ◌-◌, ◌<◌, ◌≡◌, refl, false, ok, arith, usize_max, Bool-cases, sub_usize,
}
use fastarena_rs.Block.{Os}
use fastarena_rs.Arena
use fastarena_rs.Arena.{Arena, Checkpoint}
use fastarena_rs.Arena.Alloc as Alloc
use fastarena_rs.Arena.Valid.{IsValid, IsFresh}
use fastarena_rs.Arena.Grown.{Grown}
use fastarena_rs.Arena.Preserved.{
  Preserved, Preserved-refl, Preserved-trans, alloc_raw-Preserved, try_alloc_raw-Preserved,
  with_depth, with_depth-IsValid, with_depth-Grown,
}
use fastarena_rs.Arena.Restore.{Restored, Restored-Grown, rewind-checkpoint}
use fastarena_rs.Txn.{
  Transaction, new, commit, drop, savepoint, resume, set_limit, budget_ok, alloc_raw, try_alloc_raw,
}

-- A step leads from the transaction at its start to the transaction after its last operation. A
-- nested transaction is given as its own steps; `depth` excludes a counter at its largest value,
-- since as many transactions cannot be open at once.
pub data Steps : Transaction → Transaction → Type 0 where
  stop : {t : Transaction} → Steps t t
  allocate :
      {t u v : Transaction} (os : Os) (size align : ℕ)
      → Steps t u
      → IsFresh os u.arena.blocks
      → v ≡ (alloc_raw os size align u).1
      → Steps t v
  try_allocate :
      {t u v : Transaction} (os : Os) (size align : ℕ)
      → Steps t u
      → IsFresh os u.arena.blocks
      → v ≡ (try_alloc_raw os size align u).1
      → Steps t v
  limit : {t u v : Transaction} (bytes : ℕ) → Steps t u → v ≡ set_limit bytes u → Steps t v
  -- A use of the arena that loses nothing: a typed allocation, or one through `arena_mut`.
  through :
      {t u v : Transaction} (a : Arena)
      → Steps t u
      → Preserved u.arena a
      → v ≡ resume u a
      → Steps t v
  keep :
      {t u c v : Transaction}
      → Steps t u
      → u.arena.txn_depth < usize_max
      → Steps (savepoint u) c
      → v ≡ resume u (commit c).1
      → Steps t v
  undo :
      {t u c v : Transaction}
      → Steps t u
      → u.arena.txn_depth < usize_max
      → Steps (savepoint u) c
      → v ≡ resume u (drop c).1
      → Steps t v

-- What holds of a transaction after any steps.
pub record Kept (t u : Transaction) : Type 0 where
  pub arena : Preserved t.arena u.arena
  pub checkpoint : u.checkpoint ≡ t.checkpoint
  pub committed : u.committed ≡ t.committed
  pub bytes_at_open : u.bytes_at_open ≡ t.bytes_at_open
  pub block_at_open : u.block_at_open ≡ t.block_at_open
  pub depth : u.depth ≡ t.depth

Kept-refl : {t : Transaction} → IsValid t.arena → Kept t t
Kept-refl v = record {
  arena = Preserved-refl v;
  checkpoint = refl;
  committed = refl;
  bytes_at_open = refl;
  block_at_open = refl;
  depth = refl;
}

-- A step that replaces the arena only.
Kept-resume :
    {t u : Transaction} (a : Arena)
    → IsValid t.arena
    → Kept t u
    → Preserved u.arena a
    → Kept t (resume u a)
Kept-resume a v k p = record {
  arena = Preserved-trans v k.arena p;
  checkpoint = k.checkpoint;
  committed = k.committed;
  bytes_at_open = k.bytes_at_open;
  block_at_open = k.block_at_open;
  depth = k.depth;
}

set_limit-Kept : {t u : Transaction} (bytes : ℕ) → Kept t u → Kept t (set_limit bytes u)
unfolding set_limit
set_limit-Kept bytes k = record {
  arena = k.arena;
  checkpoint = k.checkpoint;
  committed = k.committed;
  bytes_at_open = k.bytes_at_open;
  block_at_open = k.block_at_open;
  depth = k.depth;
}

module _ {t u : Transaction} (os : Os) (size align : ℕ) (v : IsValid t.arena) (k : Kept t u)
    (fresh : IsFresh os u.arena.blocks) where
  alloc_raw-Kept : Kept t (alloc_raw os size align u).1
  unfolding alloc_raw
  alloc_raw-Kept = elim (Bool-cases (budget_ok size u)) [
    | inl within ↦ rw within (
        Kept-resume (Alloc.alloc_raw os size align u.arena).1 v k
          (alloc_raw-Preserved os size align k.arena.valid fresh))
    | inr over ↦ rw over k
  ]

  try_alloc_raw-Kept : Kept t (try_alloc_raw os size align u).1
  unfolding try_alloc_raw
  try_alloc_raw-Kept = elim (Bool-cases (budget_ok size u)) [
    | inl within ↦ rw within (
        Kept-resume (Alloc.try_alloc_raw os size align u.arena).1 v k
          (try_alloc_raw-Preserved os size align k.arena.valid fresh))
    | inr over ↦ rw over k
  ]

drop_of_checkpoint :
    (c : Transaction) (cp : Checkpoint) {a : Arena}
    → c.committed ≡ false
    → c.checkpoint ≡ cp
    → Arena.rewind cp (with_depth (c.arena.txn_depth - 1) c.arena) ≡ (ok tt, a)
    → drop c ≡ (ok tt, a)
unfolding drop
drop_of_checkpoint c cp live same rewound = rw (live, same) rewound

-- A nested transaction, opened on the arena of a valid one.
module _ (u c : Transaction) (v : IsValid u.arena) (bound : u.arena.txn_depth < usize_max) where
  pub savepoint-IsValid : IsValid (savepoint u).arena
  unfolding savepoint new
  savepoint-IsValid = with_depth-IsValid _ v

  child-Grown : (d : ℕ) → Kept (savepoint u) c → Grown u.arena (with_depth d c.arena)
  unfolding savepoint new
  child-Grown d k = with_depth-Grown u.arena.txn_depth d k.arena.grown

  pub commit-Preserved : Kept (savepoint u) c → Preserved u.arena (commit c).1
  unfolding commit savepoint new
  commit-Preserved k = record {
    valid = with_depth-IsValid _ k.arena.valid;
    grown = child-Grown (sub_usize c.arena.txn_depth 1) k;
    depth = omega (arith, k.arena.depth);
  }

  -- Dropping a transaction that was not committed gives back the arena as it was before.
  pub drop-Restored :
      Kept (savepoint u) c
      → (a : Arena) × (drop c ≡ (ok tt, a)) × Restored u.arena a × (a.txn_depth ≡ u.arena.txn_depth)
  unfolding drop savepoint new
  drop-Restored k =
      let d : ℕ = c.arena.txn_depth - 1 in
      let (a, done, restored, depth) =
        rewind-checkpoint v (with_depth-IsValid d k.arena.valid) (child-Grown d k) in
      (
        a,
        drop_of_checkpoint c _ k.committed k.checkpoint done,
        restored,
        omega (arith, depth, k.arena.depth),
      )

  pub drop-Preserved : Kept (savepoint u) c → Preserved u.arena (drop c).1
  drop-Preserved k =
      let (a, done, restored, depth) = drop-Restored k in
      rw done (record { valid = restored.valid; grown = Restored-Grown restored; depth = depth })

-- Whatever steps a transaction takes, the arena stays valid and loses nothing that was in use
-- when the transaction was opened, the depth counter comes back to where it was, and the
-- checkpoint and the other fields that the rollback and the metrics read do not change.
pub Steps-Kept : {t u : Transaction} → Steps t u → IsValid t.arena → Kept t u
Steps-Kept stop v = Kept-refl v
Steps-Kept (allocate os size align s fresh e) v =
    rw e (alloc_raw-Kept os size align v (Steps-Kept s v) fresh)
Steps-Kept (try_allocate os size align s fresh e) v =
    rw e (try_alloc_raw-Kept os size align v (Steps-Kept s v) fresh)
Steps-Kept (through a s p e) v = rw e (Kept-resume a v (Steps-Kept s v) p)
Steps-Kept (limit bytes s e) v = rw e (set_limit-Kept bytes (Steps-Kept s v))
Steps-Kept (keep {u} {c} s bound child e) v =
    let k = Steps-Kept s v in
    let inner = Steps-Kept child (savepoint-IsValid u c k.arena.valid bound) in
    rw e (Kept-resume (commit c).1 v k (commit-Preserved u c k.arena.valid bound inner))
Steps-Kept (undo {u} {c} s bound child e) v =
    let k = Steps-Kept s v in
    let inner = Steps-Kept child (savepoint-IsValid u c k.arena.valid bound) in
    rw e (Kept-resume (drop c).1 v k (drop-Preserved u c k.arena.valid bound inner))
