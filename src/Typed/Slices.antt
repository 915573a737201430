-- ===== src/Typed/Slices.antt =====
-- What the allocations of slices promise.
use fastarena_rs.Base.{
  ℕ, suc, ◌+◌, ◌*◌, ◌≤◌, ◌<◌, ◌≡◌, refl, subst, ◌⊎◌, inl, inr, List, [], ◌∷◌, length, length-append,
  arith, ◌==◌, ==→eq, Option, none, some, Outcome, ok, panicked, IsPow2, Bool-cases, ltb, usize_mod,
  capacity_overflow,
}
use native.Mathlib.Nat.{mul-suc}
use fastarena_rs.Block.{Os}
use fastarena_rs.Arena.{Arena}
use fastarena_rs.Arena.Alloc as Alloc
use fastarena_rs.Arena.Valid.{IsValid, IsFresh}
use fastarena_rs.Arena.Safety.{After, TryAfter}
use fastarena_rs.Arena.Paths.{alloc_raw_inner-After, try_alloc_raw_inner-TryAfter}
use fastarena_rs.Typed.{
  Store, Slice, concat, with_ptr, with_try, copied, try_copied, alloc_slice_copy,
  try_alloc_slice_copy, empty_slice,
}
use fastarena_rs.Typed.Laws.{Stored, NotStored, write-Stored}

-- All elements have the size of their type.
abbrev pub AllSized : ℕ → List (List ℕ) → Type 0
AllSized size [] = Unit {0}
AllSized size (x ∷ xs) = (length x ≡ size) × AllSized size xs

pub length-concat :
    (size : ℕ) (xs : List (List ℕ)) → AllSized size xs → length (concat xs) ≡ size * length xs
length-concat size [] all = omega arith
length-concat size (x ∷ xs) (here, all) =
    let rest : length (concat xs) ≡ size * length xs = length-concat size xs all in
    let step : size * suc (length xs) ≡ size * length xs + size = mul-suc size (length xs) in
    omega (arith, length-append x (concat xs))

abbrev pub SliceAfter : Store → List (List ℕ) → ℕ → Outcome Slice × Store → Type 0
SliceAfter s xs align (ok r, s') = (r.len ≡ length xs) × Stored s (concat xs) align r.ptr s'
SliceAfter s xs align (panicked e, s') = NotStored s s'

abbrev pub TrySliceAfter : Store → List (List ℕ) → ℕ → Outcome (Option Slice) × Store → Type 0
TrySliceAfter s xs align (ok (some r), s') =
    (r.len ≡ length xs) × Stored s (concat xs) align r.ptr s'
TrySliceAfter s xs align (ok none, s') = NotStored s s'
TrySliceAfter s xs align (panicked e, s') = NotStored s s'

copied-SliceAfter :
    (s : Store) (align : ℕ) (xs : List (List ℕ)) (out : Outcome ℕ × Arena)
    → IsValid s.arena
    → After s.arena (length (concat xs)) align out
    → SliceAfter s xs align (with_ptr out s.mem (copied xs))
copied-SliceAfter s align xs (ok p, a) v h = (refl, write-Stored (concat xs) v h)
copied-SliceAfter s align xs (panicked e, a) v h = record { failed = h; mem = refl }

try_copied-TrySliceAfter :
    (s : Store) (align : ℕ) (xs : List (List ℕ)) (out : Outcome (Option ℕ) × Arena)
    → IsValid s.arena
    → TryAfter s.arena (length (concat xs)) align out
    → TrySliceAfter s xs align (with_try out s.mem (try_copied xs))
try_copied-TrySliceAfter s align xs (ok (some p), a) v h = (refl, write-Stored (concat xs) v h)
try_copied-TrySliceAfter s align xs (ok none, a) v h = record { failed = h; mem = refl }
try_copied-TrySliceAfter s align xs (panicked e, a) v h = record { failed = h; mem = refl }

module _ (s : Store) (os : Os) (size align : ℕ) (xs : List (List ℕ)) (all : AllSized size xs)
    (v : IsValid s.arena) (fresh : IsFresh os s.arena.blocks) (pow : IsPow2 align) where
  -- What the request of `size * length xs` bytes gives.
  total_After :
      After s.arena
        (length (concat xs))
        align
        (Alloc.alloc_raw_inner os (size * length xs) align s.arena)
  total_After =
      subst
        (λ (n : ℕ).
          After s.arena (length (concat xs)) align (Alloc.alloc_raw_inner os n align s.arena))
        (length-concat size xs all)
        (alloc_raw_inner-After os (length (concat xs)) align v fresh pow)

  -- In a valid arena, if the system allocator keeps its promises and returns memory apart from
  -- the blocks of the arena, for elements of one size and an alignment that is a power of two,
  -- alloc_slice_copy of an empty slice changes nothing, and it panics without a change where the
  -- number of bytes overflows. Otherwise it returns a slice of as many elements, from which their
  -- bytes can be read, in memory that was free, all memory in use as it was; or it panics, stores
  -- nothing and leaves a valid arena in which nothing in use is lost.
  pub alloc_slice_copy_lem :
      ((length xs ≡ 0) × (alloc_slice_copy os size align xs s ≡ (ok (empty_slice align), s)))
      ⊎ ((usize_mod ≤ size * length xs)
          × (alloc_slice_copy os size align xs s ≡ (panicked capacity_overflow, s)))
      ⊎ ((0 < length xs) × SliceAfter s xs align (alloc_slice_copy os size align xs s))
  unfolding alloc_slice_copy
  alloc_slice_copy_lem = elim (Bool-cases (length xs == 0)) [
    | inl empty ↦ inl (==→eq (length xs) 0 empty, rw empty refl)
    | inr more ↦ inr (elim (Bool-cases (ltb (size * length xs) usize_mod)) [
      | inr over ↦ inl (ground (arith, over), rw (more, over) refl)
      | inl sized ↦ inr (
        ground (arith, more),
        rw (more, sized, SliceAfter, alloc_slice_copy)
            (copied-SliceAfter s align xs
              (Alloc.alloc_raw_inner os (size * length xs) align s.arena) v total_After),
      )
    ])
  ]

  try_total_After :
      TryAfter s.arena
        (length (concat xs))
        align
        (Alloc.try_alloc_raw_inner os (size * length xs) align s.arena)
  try_total_After =
      subst
        (λ (n : ℕ).
          TryAfter s.arena (length (concat xs)) align
            (Alloc.try_alloc_raw_inner os n align s.arena))
        (length-concat size xs all)
        (try_alloc_raw_inner-TryAfter os (length (concat xs)) align v fresh pow)

  -- `try_alloc_slice_copy` returns `None` where the number of bytes overflows, and otherwise has the
  -- outcomes of `alloc_slice_copy` and one more: `None`, with nothing stored.
  pub try_alloc_slice_copy_lem :
      ((length xs ≡ 0)
        × (try_alloc_slice_copy os size align xs s ≡ (ok (some (empty_slice align)), s)))
      ⊎ ((usize_mod ≤ size * length xs) × (try_alloc_slice_copy os size align xs s ≡ (ok none, s)))
      ⊎ ((0 < length xs) × TrySliceAfter s xs align (try_alloc_slice_copy os size align xs s))
  unfolding try_alloc_slice_copy
  try_alloc_slice_copy_lem = elim (Bool-cases (length xs == 0)) [
    | inl empty ↦ inl (==→eq (length xs) 0 empty, rw empty refl)
    | inr more ↦ inr (elim (Bool-cases (ltb (size * length xs) usize_mod)) [
      | inr over ↦ inl (ground (arith, over), rw (more, over) refl)
      | inl sized ↦ inr (
        ground (arith, more),
        rw (more, sized, TrySliceAfter, try_alloc_slice_copy)
            (try_copied-TrySliceAfter s align xs
              (Alloc.try_alloc_raw_inner os (size * length xs) align s.arena) v try_total_After),
      )
    ])
  ]
