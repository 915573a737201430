-- ===== src/ArenaVec/Tests.antt =====
-- Runs of the vector, and the theorems at concrete vectors.
use fastarena_rs.Base.{
  ℕ, ◌+◌, ◌-◌, ◌*◌, ◌≤◌, ◌≡◌, refl, inr, true, List, [], ◌∷◌, ◌++◌, length, some, ok, panicked,
  arith, usize_mod, unwrap_none, is_power_of_two, index_out_of_bounds, take,
}
use fastarena_rs.Block
use fastarena_rs.Block.{Os}
use fastarena_rs.Arena.Alloc as Alloc
use fastarena_rs.Typed.{write_slice_bulk}
use fastarena_rs.ArenaVec.{
  ArenaVec, new, grow, grow_to, extends_in_place, push, pop, truncate, reserve, index, as_slice,
}
use fastarena_rs.ArenaVec.Cost.{push_all, Written, push_all-cheap}
use fastarena_rs.ArenaVec.Frame.{IsVec, Holds, Became}
use fastarena_rs.ArenaVec.Overflow.{reserve-wraps}
use fastarena_rs.ArenaVec.Bulk.{extend, extend_exact}
use fastarena_rs.ArenaVec.Bulk.Extend.{ExtendedAfter, extend_lem}
use fastarena_rs.ArenaVec.Bulk.Room.{SameRoom, extend-reserve}
use fastarena_rs.ArenaVec.IntoIter as IntoIter
use fastarena_rs.ArenaVec.IntoIter.{into_iter, size_hint}
use fastarena_rs.ArenaVec.IntoIter.Laws.{take_next, into_iter_lem}
use fastarena_rs.ArenaVec.Model.{
  Op, Steps, run, call_push, call_pop, call_truncate, call_extend_exact,
}
use fastarena_rs.ArenaVec.Model.Refines.{run-Steps}
use fastarena_rs.Fixtures.{full_os, full_os-IsFresh, busy, busy-IsValid}

-- Two elements of four bytes, with memory for four at the end of what is in use.
abbrev pair : ArenaVec
pair = record {
  store = record { arena = busy; mem = λ x. x - 65536 };
  ptr = 65536;
  len = 2;
  cap = 4;
}

abbrev pair_items : List (List ℕ)
pair_items = (0 ∷ 1 ∷ 2 ∷ 3 ∷ []) ∷ (4 ∷ 5 ∷ 6 ∷ 7 ∷ []) ∷ []

pair-IsVec : IsVec 4 pair
pair-IsVec = record {
  valid = busy-IsValid;
  room = λ pos. omega arith;
  owned = λ x from to. inr (omega arith, omega arith);
  low = omega arith;
  non_null = omega arith;
}

pair-Holds : Holds 4 pair pair_items
pair-Holds = record { vec = pair-IsVec; holds = refl }

abbrev word : List ℕ
word = 9 ∷ 9 ∷ 9 ∷ 9 ∷ []

abbrev two_words : List (Os × List ℕ)
two_words = (full_os, word) ∷ (full_os, word) ∷ []

four : is_power_of_two 4 ≡ true
unfolding is_power_of_two
four = refl

-- The fifth push extends the memory in place, also where the system has no memory left.
grows_in_place : (push 4 full_os 4 word (record pair { len = 4 })).1.cap ≡ 8
unfolding push grow grow_to extends_in_place
grows_in_place = refl

-- A vector that is not at the end of the memory in use moves.
abbrev buried : ArenaVec
buried = record pair { cap = 2 }

moves :
    ((push 4 full_os 4 word buried).1.ptr ≡ 65552)
    × (as_slice 4 (push 4 full_os 4 word buried).1 ≡ pair_items ++ (word ∷ []))
unfolding push grow grow_to extends_in_place Alloc.alloc_raw Alloc.alloc_raw_inner Block.align_up
    is_power_of_two as_slice
moves = (refl, refl)

out_of_bounds : index 4 2 pair ≡ panicked index_out_of_bounds
unfolding index
out_of_bounds = refl

-- An iterator that yields less than it reports: the elements are as they were.
short_iterator :
    ((extend_exact 4 full_os 4 2 (word ∷ []) pair).0 ≡ panicked unwrap_none)
    × (as_slice 4 (extend_exact 4 full_os 4 2 (word ∷ []) pair).1 ≡ pair_items)
unfolding extend_exact write_slice_bulk as_slice
short_iterator = (refl, refl)

-- Elements of no bytes: the length passes the capacity.
past_capacity :
    ((extend_exact 0 full_os 1 3 ([] ∷ [] ∷ [] ∷ []) (new 1 pair.store)).1.len ≡ 3)
    × ((extend_exact 0 full_os 1 3 ([] ∷ [] ∷ [] ∷ []) (new 1 pair.store)).1.cap ≡ 0)
unfolding extend_exact write_slice_bulk new
past_capacity = (refl, refl)

abbrev ops : List (Os × Op)
ops =
    (full_os, call_push word)
    ∷ (full_os, call_extend_exact 3 (word ∷ word ∷ word ∷ []))
    ∷ (full_os, call_pop)
    ∷ (full_os, call_truncate true 3)
    ∷ []

run-Steps_example :
    (ys : List (List ℕ)) × Steps pair_items ops (run 4 4 ops pair).0 ys
    × Became 4 pair ys (run 4 4 ops pair).1
unfolding push extend_exact write_slice_bulk grow_to extends_in_place pop truncate
run-Steps_example = run-Steps 4 4 four ops pair pair_items pair-Holds (
  full_os-IsFresh _,
  refl,
  (
    full_os-IsFresh _,
    ((refl, (refl, (refl, tt))), inr (omega arith)),
    (full_os-IsFresh _, tt, (full_os-IsFresh _, tt, tt)),
  ),
)

into_iter_lem_example :
    let it = take_next 4 1 (into_iter pair) in
    (it.0 ≡ take 1 pair_items)
    × (size_hint it.1 ≡ (length pair_items - 1, some (length pair_items - 1)))
    × (IntoIter.drop 4 true it.1 ≡ ((4 ∷ 5 ∷ 6 ∷ 7 ∷ []) ∷ [], pair.store))
into_iter_lem_example = into_iter_lem 4 pair-Holds 1 true (omega arith)

extend_lem_example :
    ExtendedAfter 4 4 pair pair_items (word ∷ word ∷ []) (extend 4 4 two_words pair)
extend_lem_example =
    extend_lem 4 4 four two_words pair pair_items pair-Holds
      (full_os-IsFresh _, refl, λ w e. (full_os-IsFresh _, refl, λ u q. tt))

extend-reserve_example :
    SameRoom 4 4
      (record pair {
        store = record pair.store { arena = record busy { cur_ptr = 65568 } };
        cap = 8;
      })
      (extend 4 4 two_words (record pair {
        store = record pair.store { arena = record busy { cur_ptr = 65568 } };
        cap = 8;
      }))
unfolding reserve grow_to extends_in_place
extend-reserve_example =
    extend-reserve 4 4 full_os 6 two_words pair
      (record pair {
        store = record pair.store { arena = record busy { cur_ptr = 65568 } };
        cap = 8;
      })
      (omega arith) (omega arith) refl

reserve-wraps_example :
    (reserve 4 full_os 4 4611686018427387906 pair
      ≡ (ok tt, record pair { cap = 4611686018427387908 }))
    × (usize_mod ≤ 4611686018427387908 * 4)
reserve-wraps_example =
    reserve-wraps 4 pair-IsVec full_os 4 4611686018427387906 (omega arith) (omega arith) refl
      (omega arith) (omega arith) refl

-- Five pushes into an empty vector.
abbrev five : List (Os × List ℕ)
five = (full_os, word) ∷ (full_os, word) ∷ (full_os, word) ∷ (full_os, word) ∷ (full_os, word) ∷ []

-- The fifth push extends the memory in place.
pushes_five :
    ((push_all 4 4 five (new 4 pair.store)).len ≡ 5)
    × ((push_all 4 4 five (new 4 pair.store)).cap ≡ 8)
unfolding push_all new push grow grow_to extends_in_place Alloc.alloc_raw Alloc.alloc_raw_inner
    Block.align_up is_power_of_two
pushes_five = (refl, refl)

push_all-cheap_example :
    ((n : ℕ) × Written 4 4 five (new 4 pair.store) n
      × (n ≤ 3 * (push_all 4 4 five (new 4 pair.store)).len))
    × ((push_all 4 4 five (new 4 pair.store)).cap
        ≤ 2 * (push_all 4 4 five (new 4 pair.store)).len + 2)
push_all-cheap_example =
    push_all-cheap 4 4 five pair.store (refl, (refl, (refl, (refl, (refl, tt)))))
