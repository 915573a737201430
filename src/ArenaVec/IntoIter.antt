-- ===== src/ArenaVec/IntoIter.antt =====
-- vec/arena_vec.rs: the owning iterator `ArenaVecIntoIter`.
pub mod Laws
use fastarena_rs.Base.{
  ℕ, ◌+◌, ◌-◌, Bool, Option, none, some, List, [], ◌++◌, leb, if◌then◌else◌, sub_usize,
}
use fastarena_rs.Typed.{Store}
use fastarena_rs.Typed.Memory.{read}
use fastarena_rs.ArenaVec.{ArenaVec, slot, elements_from}
use fastarena_rs.ArenaVec as Vec

pub record ArenaVecIntoIter : Type 0 where
  pub inner : ArenaVec
  pub start : ℕ

unfoldable pub into_iter : ArenaVec → ArenaVecIntoIter
into_iter v = record { inner = v; start = 0 }

unfoldable pub next : ℕ → ArenaVecIntoIter → Option (List ℕ) × ArenaVecIntoIter
next size it = if leb it.inner.len it.start then (none, it) else (
  some (read it.inner.store.mem (slot size it.inner it.start) size),
  record it { start = it.start + 1 },
)

unfoldable pub size_hint : ArenaVecIntoIter → ℕ × Option ℕ
size_hint it = let remaining = sub_usize it.inner.len it.start in (remaining, some remaining)

-- What `Drop for ArenaVecIntoIter` drops, in order, and what the drop of the field `inner` does
-- after it.
unfoldable pub drop : ℕ → Bool → ArenaVecIntoIter → List (List ℕ) × Store
unfolding Vec.drop
drop size needs_drop it =
    let dropped = if needs_drop then elements_from size it.start it.inner else [] in
    let (more, s) = Vec.drop size needs_drop (record it.inner { len = 0 }) in (dropped ++ more, s)
