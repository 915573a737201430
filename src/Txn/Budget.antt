-- ===== src/Txn/Budget.antt =====
-- The budget of a transaction.
use fastarena_rs.Base.{
  ℕ, ◌+◌, ◌≤◌, ◌<◌, ◌≡◌, ◌⊎◌, inl, inr, none, some, ok, panicked, budget_exceeded, arith, usize_max,
  leb, Bool-cases, min,
}
use fastarena_rs.Block.{Os}
use fastarena_rs.Arena.Alloc as Alloc
use fastarena_rs.Txn.{Transaction, resume, bytes_used, budget_ok, alloc_raw, try_alloc_raw}

pub budget_ok-limit :
    (size lim : ℕ) (t : Transaction)
    → t.limit ≡ some lim
    → budget_ok size t ≡ leb (min (bytes_used t + size) usize_max) lim
unfolding budget_ok
budget_ok-limit size lim t limited = ground arith

-- With a limit below the greatest number, a request is refused exactly when it and the bytes used
-- exceed the limit: alloc_raw then panics, try_alloc_raw returns None, and nothing changes; a
-- request within the limit goes to the arena unchanged.
pub alloc_raw_budget :
    (os : Os) (size align lim : ℕ) (t : Transaction)
    → t.limit ≡ some lim
    → lim < usize_max
    → ((lim < bytes_used t + size)
        × (alloc_raw os size align t ≡ (panicked budget_exceeded, t))
        × (try_alloc_raw os size align t ≡ (ok none, t)))
      ⊎ ((bytes_used t + size ≤ lim)
          × (alloc_raw os size align t ≡ (
            (Alloc.alloc_raw os size align t.arena).0,
            resume t (Alloc.alloc_raw os size align t.arena).1,
          ))
          × (try_alloc_raw os size align t ≡ (
            (Alloc.try_alloc_raw os size align t.arena).0,
            resume t (Alloc.try_alloc_raw os size align t.arena).1,
          )))
unfolding alloc_raw try_alloc_raw
alloc_raw_budget os size align lim t limited small = elim (Bool-cases (budget_ok size t)) [
  | inl within ↦ inr (ground (arith, budget_ok-limit size lim t limited), rw within, rw within)
  | inr over ↦ inl (ground (arith, budget_ok-limit size lim t limited), rw over, rw over)
]
