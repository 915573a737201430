-- ===== src/Typed/Tests.antt =====
-- Runs of the typed allocations, and the theorems at concrete stores.
use fastarena_rs.Base.{
  ℕ, ◌*◌, ◌≤◌, ◌<◌, ◌≡◌, refl, ◌⊎◌, List, [], ◌∷◌, ◌++◌, length, ok, panicked, arith, IsPow2,
  usize_mod, capacity_overflow, unwrap_none,
}
use fastarena_rs.Block
use fastarena_rs.Arena.Alloc as Alloc
use fastarena_rs.Arena.Valid.{IsFresh}
use fastarena_rs.Arena.Alloc.{dangling}
use fastarena_rs.Typed.{
  Store, alloc, alloc_slice, alloc_slice_copy, try_alloc_slice, try_alloc_slice_copy,
  write_slice_bulk, empty_slice,
}
use fastarena_rs.Typed.Memory.{read}
use fastarena_rs.Typed.Laws.{PutAfter, alloc_lem, alloc-alloc}
use fastarena_rs.Typed.Slices.{SliceAfter, alloc_slice_copy_lem}
use fastarena_rs.Typed.Iterators.{alloc_slice_lem}
use fastarena_rs.Fixtures.{second_os, second_os-IsFresh, busy, busy-IsValid}

abbrev zeros : Store
zeros = record { arena = busy; mem = λ x. 0 }

abbrev word : List ℕ
word = 1 ∷ 2 ∷ 3 ∷ 4 ∷ []

abbrev word_size : ℕ
word_size = length word

abbrev other : List ℕ
other = 5 ∷ 6 ∷ 7 ∷ 8 ∷ []

four : IsPow2 4
four = (2, omega arith, refl)

-- A value, and another one behind it.
abbrev first : Store
first = (alloc second_os 4 4 word zeros).1

abbrev second : Store
second = (alloc second_os 4 4 other first).1

first_ok : alloc second_os 4 4 word zeros ≡ (ok 65552, first)
unfolding alloc Alloc.alloc_raw_inner Block.align_up
first_ok = refl

read_back : (read second.mem 65552 4 ≡ word) × (read second.mem 65556 4 ≡ 5 ∷ 6 ∷ 7 ∷ 8 ∷ [])
unfolding first_ok
read_back = (refl, refl)

-- An iterator that yields less than it reports: the memory stays allocated.
short_iterator : (alloc_slice second_os 4 4 2 (word ∷ []) zeros).0 ≡ panicked unwrap_none
unfolding alloc_slice write_slice_bulk Alloc.alloc_raw_inner Block.align_up
short_iterator = refl

alloc_lem_example :
    ((word_size ≡ 0) × (alloc second_os 4 4 word zeros ≡ (ok 4, zeros)))
    ⊎ ((0 < word_size) × PutAfter zeros word 4 (alloc second_os 4 4 word zeros))
alloc_lem_example = alloc_lem second_os 4 word busy-IsValid second_os-IsFresh four

second_ok : alloc second_os 4 4 other first ≡ (ok 65556, second)
unfolding alloc Alloc.alloc_raw_inner Block.align_up
second_ok = refl

still_fresh : IsFresh second_os first.arena.blocks
unfolding first_ok
still_fresh = second_os-IsFresh

alloc-alloc_example : (read second.mem 65552 4 ≡ word) × (read second.mem 65556 4 ≡ other)
alloc-alloc_example =
    alloc-alloc zeros first second second_os second_os 4 4 word other 65552 65556 busy-IsValid
      second_os-IsFresh still_fresh four four (omega arith) (omega arith) first_ok second_ok

abbrev pair : List (List ℕ)
pair = word ∷ other ∷ []

abbrev pair_size : ℕ
pair_size = length pair

alloc_slice_copy_lem_example :
    ((pair_size ≡ 0) × (alloc_slice_copy second_os 4 4 pair zeros ≡ (ok (empty_slice 4), zeros)))
    ⊎ ((usize_mod ≤ 4 * pair_size)
        × (alloc_slice_copy second_os 4 4 pair zeros ≡ (panicked capacity_overflow, zeros)))
    ⊎ ((0 < pair_size) × SliceAfter zeros pair 4 (alloc_slice_copy second_os 4 4 pair zeros))
alloc_slice_copy_lem_example =
    alloc_slice_copy_lem zeros second_os 4 4 pair (refl, (refl, tt)) busy-IsValid second_os-IsFresh
      four

alloc_slice_lem_example :
    (alloc_slice second_os 4 4 2 (pair ++ (word ∷ [])) zeros
      ≡ alloc_slice_copy second_os 4 4 pair zeros)
    × (try_alloc_slice second_os 4 4 2 (pair ++ (word ∷ [])) zeros
        ≡ try_alloc_slice_copy second_os 4 4 pair zeros)
alloc_slice_lem_example = alloc_slice_lem 4 4 pair (word ∷ []) (refl, (refl, tt)) second_os zeros
