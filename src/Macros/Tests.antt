-- ===== src/Macros/Tests.antt =====
-- Runs of `arenavec!`, and its theorem at a concrete store.
use fastarena_rs.Base.{ℕ, ◌≡◌, refl, true, List, [], ◌∷◌, is_power_of_two}
use fastarena_rs.Block
use fastarena_rs.Block.{Os}
use fastarena_rs.Arena.Alloc as Alloc
use fastarena_rs.Typed.{Store, write_slice_bulk}
use fastarena_rs.ArenaVec.{grow, grow_to, extends_in_place, new, push, with_capacity, as_slice}
use fastarena_rs.ArenaVec.Bulk.{extend_exact}
use fastarena_rs.Macros.{push_each, arenavec_empty, arenavec_list, arenavec_repeat}
use fastarena_rs.Macros.Laws.{RepeatAfter, arenavec_repeat_lem}
use fastarena_rs.Fixtures.{
  full_os, full_os-IsFresh, second_os, second_os-IsFresh, busy, busy-IsValid,
}

abbrev zeros : Store
zeros = record { arena = busy; mem = λ x. 0 }

abbrev word : List ℕ
word = 1 ∷ 2 ∷ 3 ∷ 4 ∷ []

abbrev two_words : List (Os × List ℕ)
two_words = (full_os, word) ∷ (full_os, word) ∷ []

four : is_power_of_two 4 ≡ true
unfolding is_power_of_two
four = refl

empty_form : as_slice 4 (arenavec_empty 4 zeros) ≡ []
unfolding arenavec_empty new as_slice
empty_form = refl

list_form : as_slice 4 (arenavec_list 4 4 two_words zeros).1 ≡ word ∷ word ∷ []
unfolding arenavec_list push_each new push grow grow_to extends_in_place Alloc.alloc_raw
    Alloc.alloc_raw_inner Block.align_up is_power_of_two as_slice
list_form = refl

repeat_form :
    as_slice 4 (arenavec_repeat 4 4 (λ x. x) second_os full_os word 3 zeros).1
    ≡ word ∷ word ∷ word ∷ []
unfolding arenavec_repeat with_capacity extend_exact write_slice_bulk new grow_to extends_in_place
    Alloc.alloc_raw Alloc.alloc_raw_inner Block.align_up is_power_of_two as_slice
repeat_form = refl

arenavec_repeat_lem_example :
    RepeatAfter 4 4 zeros 3 word (arenavec_repeat 4 4 (λ x. x) second_os full_os word 3 zeros)
arenavec_repeat_lem_example =
    arenavec_repeat_lem 4 4 zeros busy-IsValid four (λ x. x) second_os full_os word 3 refl
      second_os-IsFresh (λ w e. full_os-IsFresh _)
