-- ===== src/ArenaVec/Bulk.antt =====
-- vec/arena_vec.rs: the operations that add many elements, `extend_exact`, `extend_from_slice`,
-- `resize` and `Extend::extend`. An iterator is the list of what it will yield, with the length that
-- it reports where it does.
pub mod Writes
pub mod Laws
pub mod Resize
pub mod Extend
pub mod Room
use fastarena_rs.Base.{
  ℕ, zero, suc, ◌+◌, ◌*◌, ◌-◌, Bool, ◌&&◌, Option, none, some, List, [], ◌∷◌, length, ltb, ◌==◌,
  if◌then◌else◌, checked_add, Panic, Outcome, ok, panicked, capacity_overflow, M, and_then,
}
use fastarena_rs.Block.{Os}
use fastarena_rs.Typed.{Mem, write_slice_bulk, write, concat}
use fastarena_rs.ArenaVec.{ArenaVec, with_mem, slot, grow_to, truncate, push}

module _ (size : ℕ) where
  -- The loop of writes has ended, or `next` has returned nothing and `unwrap` has panicked.
  abbrev pub filled : ℕ → Outcome (Unit {0}) × Mem → ArenaVec → Outcome (Unit {0}) × ArenaVec
  filled new_len (ok _, m) v = (ok tt, record (with_mem m v) { len = new_len })
  filled new_len (panicked e, m) v = (panicked e, with_mem m v)

  abbrev pub fill_from_iter : ℕ → ℕ → List (List ℕ) → M ArenaVec (Unit {0})
  fill_from_iter new_len add_len iter v =
      filled new_len (write_slice_bulk size (slot size v v.len) iter add_len v.store.mem) v

  -- `for i in 0..extra { dst.add(i).write(val.clone()) }`
  unfoldable pub fill_clones : (List ℕ → List ℕ) → List ℕ → ℕ → ℕ → Mem → Mem
  fill_clones clone val dst zero m = m
  fill_clones clone val dst (suc extra) m =
      fill_clones clone val (dst + size) extra (write m dst (clone val))

  module _ (os : Os) (align : ℕ) where
    unfoldable pub extend_exact : ℕ → List (List ℕ) → M ArenaVec (Unit {0})
    unfolding write_slice_bulk
    extend_exact add_len iter v =
        if ltb 0 add_len
        then elim (checked_add v.len add_len) [
          | none ↦ (panicked capacity_overflow, v)
          | some new_len ↦
              and_then
                (if ltb 0 size && ltb v.cap new_len
                  then grow_to size os align new_len v
                  else (ok tt, v))
                (λ _. fill_from_iter new_len add_len iter)
        ]
        else (ok tt, v)

    -- The slice is the list of its elements; `copy_nonoverlapping` copies all their bytes.
    unfoldable pub extend_from_slice : List (List ℕ) → M ArenaVec (Unit {0})
    extend_from_slice slice v =
        if length slice == 0 then (ok tt, v) else elim (checked_add v.len (length slice)) [
          | none ↦ (panicked capacity_overflow, v)
          | some new_len ↦
              and_then
                (if ltb 0 size && ltb v.cap new_len
                  then grow_to size os align new_len v
                  else (ok tt, v))
                (λ _ w. (
                  ok tt,
                  record (with_mem (write w.store.mem (slot size w w.len) (concat slice)) w) {
                    len = new_len;
                  },
                ))
        ]

    -- Returns the elements that `truncate` has dropped; the drop of `val`, which is no element, at the
    -- end is left out. `Clone` is the type's own.
    unfoldable pub resize : (List ℕ → List ℕ) → Bool → ℕ → List ℕ → M ArenaVec (List (List ℕ))
    unfolding fill_clones
    resize clone needs_drop new_len val v =
        if ltb v.len new_len
        then and_then (if ltb v.cap new_len then grow_to size os align new_len v else (ok tt, v))
            (λ _ w. (
              ok [],
              record (with_mem
                  (fill_clones clone val (slot size w w.len) (new_len - w.len) w.store.mem) w) {
                    len = new_len;
                  },
            ))
        else (ok (truncate size needs_drop new_len v).0, (truncate size needs_drop new_len v).1)

  -- Each push meets the system allocator as it is then.
  unfoldable pub extend : ℕ → List (Os × List ℕ) → M ArenaVec (Unit {0})
  extend align [] v = (ok tt, v)
  extend align ((os, item) ∷ iter) v = and_then (push size os align item v) (λ _. extend align iter)
