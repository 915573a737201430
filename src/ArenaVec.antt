-- ===== src/ArenaVec.antt =====
-- vec/arena_vec.rs: a growable vector in an arena. An element is the list of its bytes; `size` and
-- `align` are those of its type. A vector holds the arena that it borrows, with its memory.
pub mod Bulk
pub mod IntoIter
pub mod Frame
pub mod Resize
pub mod InPlace
pub mod Push
pub mod Items
pub mod Reserve
pub mod Overflow
pub mod Model
pub mod Views
pub mod Grow
pub mod Dropping
pub mod Cost
mod Tests
use fastarena_rs.Base.{
  ℕ, zero, suc, ◌+◌, ◌*◌, ◌-◌, Bool, true, false, ◌&&◌, Option, none, some, List, [], ◌∷◌, ltb, leb,
  ◌==◌, if◌then◌else◌, add_usize, mul_usize, checked_add, checked_mul, saturating_add, Panic,
  Outcome, ok, panicked, capacity_overflow, index_out_of_bounds, M, Result, done, failed,
}
use fastarena_rs.Block.{Os}
use fastarena_rs.Arena.{Arena}
use fastarena_rs.Arena.Alloc as Alloc
use fastarena_rs.Typed.{Mem, Store, Slice, write}
use fastarena_rs.Typed.Memory.{read}
use fastarena_rs.Typed.Elements.{elements}

pub data TryReserveError : Type 0 where
  capacity_overflow_error : TryReserveError
  alloc_error : TryReserveError

-- `From<LayoutError>`; that error has no fields.
unfoldable pub from_layout_error : Unit {0} → TryReserveError
from_layout_error _ = capacity_overflow_error

pub record ArenaVec : Type 0 where
  pub store : Store
  pub ptr : ℕ
  pub len : ℕ
  pub cap : ℕ

-- `NonNull::dangling()` is the alignment of the type.
unfoldable pub new : ℕ → Store → ArenaVec
new align s = record { store = s; ptr = align; len = 0; cap = 0 }

abbrev pub with_arena : Arena → ArenaVec → ArenaVec
with_arena a v = record v { store = record v.store { arena = a } }

abbrev pub with_mem : Mem → ArenaVec → ArenaVec
with_mem m v = record v { store = record v.store { mem = m } }

unfoldable pub len : ArenaVec → ℕ
len v = v.len

unfoldable pub is_empty : ArenaVec → Bool
is_empty v = v.len == 0

unfoldable pub capacity : ArenaVec → ℕ
capacity v = v.cap

abbrev pub next_cap : ℕ → Option ℕ
next_cap cap = if cap == 0 then some 4 else checked_mul cap 2

-- The new block of memory, with the elements copied.
abbrev pub moved : ℕ → ℕ → ℕ → Arena → ArenaVec → ArenaVec
moved size new_cap p a v = record v {
  store = record {
    arena = a;
    mem =
        if ltb 0 v.len
        then write v.store.mem p (read v.store.mem v.ptr (v.len * size))
        else v.store.mem;
  };
  ptr = p;
  cap = new_cap;
}

abbrev pub relocated : ℕ → ℕ → Outcome ℕ × Arena → ArenaVec → Outcome (Unit {0}) × ArenaVec
relocated size new_cap (ok p, a) v = (ok tt, moved size new_cap p a v)
relocated size new_cap (panicked e, a) v = (panicked e, with_arena a v)

abbrev pub try_relocated :
    ℕ
    → ℕ
    → Outcome (Option ℕ) × Arena
    → ArenaVec
    → Outcome (Result (Unit {0}) TryReserveError) × ArenaVec
try_relocated size new_cap (ok (some p), a) v = (ok (done tt), moved size new_cap p a v)
try_relocated size new_cap (ok none, a) v = (ok (failed alloc_error), with_arena a v)
try_relocated size new_cap (panicked e, a) v = (panicked e, with_arena a v)

module _ (size : ℕ) where
  -- `ptr.add(i)` within the vector
  abbrev pub slot : ArenaVec → ℕ → ℕ
  slot v i = v.ptr + i * size

  -- The pointer behind the memory of the vector, `ptr.wrapping_add(cap)`.
  abbrev pub our_end : ArenaVec → ℕ
  our_end v = add_usize v.ptr (mul_usize v.cap size)

  -- Its end after an extension in place; the product is not checked.
  abbrev pub new_end : ℕ → ArenaVec → ℕ
  new_end new_cap v = add_usize (our_end v) (mul_usize (new_cap - v.cap) size)

  abbrev pub extended : ℕ → ArenaVec → ArenaVec
  extended new_cap v = record v {
    store = record v.store { arena = record v.store.arena { cur_ptr = new_end new_cap v } };
    cap = new_cap;
  }

  unfoldable pub extends_in_place : ℕ → ArenaVec → Bool
  extends_in_place new_cap v =
      (ltb 0 v.cap && ltb v.cap new_cap)
      && ((our_end v == v.store.arena.cur_ptr) && leb (new_end new_cap v) v.store.arena.cur_end)

  -- The element is written behind the last one.
  abbrev pub write_end : List ℕ → ArenaVec → ArenaVec
  write_end x v = record (with_mem (write v.store.mem (slot v v.len) x) v) { len = v.len + 1 }

  abbrev pub push_grown : List ℕ → Outcome (Unit {0}) × ArenaVec → Outcome (Unit {0}) × ArenaVec
  push_grown x (ok _, v) = (ok tt, write_end x v)
  push_grown x (panicked e, v) = (panicked e, v)

  abbrev pub try_push_grown :
      List ℕ
      → Outcome (Result (Unit {0}) TryReserveError) × ArenaVec
      → Outcome (Result (Unit {0}) (List ℕ)) × ArenaVec
  try_push_grown x (ok (done _), v) = (ok (done tt), write_end x v)
  try_push_grown x (ok (failed e), v) = (ok (failed x), v)
  try_push_grown x (panicked e, v) = (panicked e, v)

  module _ (os : Os) (align : ℕ) where
    unfoldable pub grow_to : ℕ → M ArenaVec (Unit {0})
    unfolding extends_in_place
    grow_to new_cap v =
        if size == 0
        then (ok tt, record v { cap = new_cap })
        else if extends_in_place new_cap v
        then (ok tt, extended new_cap v)
        else elim (checked_mul new_cap size) [
          | none ↦ (panicked capacity_overflow, v)
          | some bytes ↦ relocated size new_cap (Alloc.alloc_raw os bytes align v.store.arena) v
        ]

    unfoldable pub try_grow_to : ℕ → M ArenaVec (Result (Unit {0}) TryReserveError)
    unfolding extends_in_place
    try_grow_to new_cap v =
        if size == 0
        then (ok (done tt), record v { cap = new_cap })
        else if extends_in_place new_cap v
        then (ok (done tt), extended new_cap v)
        else elim (checked_mul new_cap size) [
          | none ↦ (ok (failed capacity_overflow_error), v)
          | some bytes ↦
              try_relocated size new_cap (Alloc.try_alloc_raw os bytes align v.store.arena) v
        ]

    unfoldable pub with_capacity : ℕ → Store → Outcome (Unit {0}) × ArenaVec
    unfolding new
    with_capacity cap s =
        if ltb 0 cap && ltb 0 size
        then grow_to cap (new align s)
        else if size == 0
        then (ok tt, record (new align s) { cap = cap })
        else (ok tt, new align s)

    unfoldable pub grow : M ArenaVec (Unit {0})
    grow v = elim (next_cap v.cap) [
      | none ↦ (panicked capacity_overflow, v)
      | some new_cap ↦ grow_to new_cap v
    ]

    unfoldable pub try_grow : M ArenaVec (Result (Unit {0}) TryReserveError)
    try_grow v = elim (next_cap v.cap) [
      | none ↦ (ok (failed capacity_overflow_error), v)
      | some new_cap ↦ try_grow_to new_cap v
    ]

    unfoldable pub push : List ℕ → M ArenaVec (Unit {0})
    push x v = push_grown x (if v.len == v.cap then grow v else (ok tt, v))

    unfoldable pub try_push : List ℕ → M ArenaVec (Result (Unit {0}) (List ℕ))
    try_push x v = try_push_grown x (if v.len == v.cap then try_grow v else (ok (done tt), v))

    unfoldable pub reserve : ℕ → M ArenaVec (Unit {0})
    reserve additional v =
        let required = saturating_add v.len additional in
        if ltb v.cap required then grow_to required v else (ok tt, v)

    unfoldable pub reserve_exact : ℕ → M ArenaVec (Unit {0})
    reserve_exact additional v = elim (checked_add v.len additional) [
      | none ↦ (panicked capacity_overflow, v)
      | some required ↦ if ltb v.cap required then grow_to required v else (ok tt, v)
    ]

    unfoldable pub try_reserve_exact : ℕ → M ArenaVec (Result (Unit {0}) TryReserveError)
    try_reserve_exact additional v = elim (checked_add v.len additional) [
      | none ↦ (ok (failed capacity_overflow_error), v)
      | some required ↦ if ltb v.cap required then try_grow_to required v else (ok (done tt), v)
    ]

    unfoldable pub try_reserve : ℕ → M ArenaVec (Result (Unit {0}) TryReserveError)
    try_reserve additional v =
        let required = saturating_add v.len additional in
        if ltb v.cap required then try_grow_to required v else (ok (done tt), v)

  unfoldable pub pop : ArenaVec → Option (List ℕ) × ArenaVec
  pop v =
      if v.len == 0
      then (none, v)
      else (some (read v.store.mem (slot v (v.len - 1)) size), record v { len = v.len - 1 })

  -- The elements from index `from` to the end, as the loops over `drop_in_place` meet them.
  abbrev pub elements_from : ℕ → ArenaVec → List (List ℕ)
  elements_from from v = elements v.store.mem (slot v from) size (v.len - from)

  -- `clear` and `truncate` return what they drop, in order.
  unfoldable pub clear : Bool → ArenaVec → List (List ℕ) × ArenaVec
  clear needs_drop v = (if needs_drop then elements_from 0 v else [], record v { len = 0 })

  unfoldable pub truncate : Bool → ℕ → ArenaVec → List (List ℕ) × ArenaVec
  truncate needs_drop new_len v =
      if ltb new_len v.len
      then (if needs_drop then elements_from new_len v else [], record v { len = new_len })
      else ([], v)

  -- The elements of the slice.
  unfoldable pub as_slice : ArenaVec → List (List ℕ)
  as_slice v = elements v.store.mem v.ptr size v.len

  unfoldable pub index : ℕ → ArenaVec → Outcome (List ℕ)
  index i v =
      if ltb i v.len then ok (read v.store.mem (slot v i) size) else panicked index_out_of_bounds

  unfoldable pub index_set : ℕ → List ℕ → M ArenaVec (Unit {0})
  index_set i x v =
      if ltb i v.len
      then (ok tt, with_mem (write v.store.mem (slot v i) x) v)
      else (panicked index_out_of_bounds, v)

  -- What `Drop for ArenaVec` drops; the memory stays with the arena.
  unfoldable pub drop : Bool → ArenaVec → List (List ℕ) × Store
  drop needs_drop v = (if needs_drop then elements_from 0 v else [], v.store)

-- The elements can be read and written through it.
unfoldable pub as_mut_slice : ArenaVec → Slice
as_mut_slice v = record { ptr = v.ptr; len = v.len }

-- The borrow of the arena ends.
unfoldable pub finish : ArenaVec → Slice × Store
finish v = (record { ptr = v.ptr; len = v.len }, v.store)
