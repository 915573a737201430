-- ===== src/ArenaVec/Dropping.antt =====
-- vec/arena_vec.rs where destructors may panic: `clear`, `truncate`, and the drops of a vector and of
-- its owning iterator. A destructor acts on the rest of the program, `W`. While a panic unwinds, the
-- owner of the vector drops it.
pub mod Loop
pub mod Laws
mod Tests
use fastarena_rs.Base.{
  ℕ, zero, suc, ◌+◌, ◌-◌, ltb, if◌then◌else◌, Panic, Outcome, ok, panicked, Ending, ended, aborted,
  M, ◌>>◌, pure,
}
use fastarena_rs.Typed.{Store}
use fastarena_rs.DropRegistry.{Elem}
use fastarena_rs.ArenaVec.{ArenaVec, slot}
use fastarena_rs.ArenaVec.IntoIter.{ArenaVecIntoIter}

module _ {W : Type 0} where
  -- The length is set when the loop has returned.
  abbrev pub then_len : ℕ → ArenaVec → Outcome (Unit {0}) × W → Outcome (Unit {0}) × (ArenaVec × W)
  then_len n v (ok _, w) = (ok tt, (record v { len = n }, w))
  then_len n v (panicked e, w) = (panicked e, (v, w))

  -- The drop of a value behind what has happened before it: a second panic ends the program.
  abbrev pub unwinding : Outcome (Unit {0}) → Outcome (Unit {0}) × W → Ending (Unit {0}) × W
  unwinding (ok _) (out, w) = (ended out, w)
  unwinding (panicked e) (ok _, w) = (ended (panicked e), w)
  unwinding (panicked e) (panicked _, w) = (aborted, w)

module _ {W : Type 0} (t : Elem W) where
  -- `count` turns of `for i in from..len { drop_in_place(ptr.add(i)) }`
  unfoldable pub drop_elements : ArenaVec → ℕ → ℕ → M W (Unit {0})
  drop_elements v from zero = pure tt
  drop_elements v from (suc count) =
      let rest = drop_elements v (from + 1) count in t.drop_in_place (slot t.size v from) >> rest

  -- The loop, if the type needs drop.
  abbrev pub drop_range : ArenaVec → ℕ → M W (Unit {0})
  drop_range v from = if t.needs_drop then drop_elements v from (v.len - from) else pure tt

  unfoldable pub clear : M (ArenaVec × W) (Unit {0})
  clear (v, w) = then_len 0 v (drop_range v 0 w)

  unfoldable pub truncate : ℕ → M (ArenaVec × W) (Unit {0})
  truncate n (v, w) = if ltb n v.len then then_len n v (drop_range v n w) else (ok tt, (v, w))

  -- `Drop for ArenaVec`
  unfoldable pub drop : ArenaVec → M W (Unit {0})
  drop v = drop_range v 0

  -- An operation on a vector whose owner drops it then, also when it panics.
  abbrev pub owner_drops : Outcome (Unit {0}) × (ArenaVec × W) → Ending (Unit {0}) × W
  owner_drops (out, (v, w)) = unwinding out (drop v w)

  -- `Drop for ArenaVecIntoIter`, and then that of its field `inner`.
  unfoldable pub drop_iter : ArenaVecIntoIter → W → Ending (Unit {0}) × W
  unfolding drop
  drop_iter it w = owner_drops (then_len 0 it.inner (drop_range it.inner it.start w))
