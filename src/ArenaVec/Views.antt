-- ===== src/ArenaVec/Views.antt =====
-- What a vector shows of its elements, and the two ways in which it ends.
use fastarena_rs.Base.{ℕ, ◌≡◌, refl, sym, ap, Bool, List, [], length, arith, ◌==◌, if◌then◌else◌}
use fastarena_rs.Typed.Elements.{elements}
use fastarena_rs.ArenaVec.{ArenaVec, len, is_empty, as_slice, drop, finish}
use fastarena_rs.ArenaVec.Frame.{Holds}
use fastarena_rs.ArenaVec.Items.{length-Holds, from_index}

module _ (size : ℕ) {v : ArenaVec} {xs : List (List ℕ)} (h : Holds size v xs) where
  -- The length, the test for emptiness and the slice are those of the list; finish gives it away,
  -- and drop drops it in order.
  pub views_lem :
      (needs_drop : Bool)
      → (len v ≡ length xs)
        × (is_empty v ≡ (length xs == 0))
        × (as_slice size v ≡ xs)
        × (elements (finish v).1.mem (finish v).0.ptr size (finish v).0.len ≡ xs)
        × ((finish v).1 ≡ v.store)
        × (drop size needs_drop v ≡ (if needs_drop then xs else [], v.store))
  unfolding len is_empty as_slice finish drop
  views_lem needs_drop =
      let count = length-Holds size h in
      (
        sym count,
        ap (λ (n : ℕ). n == 0) (sym count),
        h.holds,
        h.holds,
        refl,
        ap (λ (r : List (List ℕ)). (if needs_drop then r else [], v.store))
            (from_index size h 0 (omega arith)),
      )
