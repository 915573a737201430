-- ===== src/Typed.antt =====
-- arena/allocator.rs: the allocations that write memory: values, slices, strings and zeroed memory.
-- A value is the list of its bytes. Built without the feature drop-tracking.
pub mod Memory
pub mod Elements
pub mod Laws
pub mod Slices
pub mod Strings
pub mod Zeroed
pub mod Iterators
pub mod Growing
mod Tests
use fastarena_rs.Base.{
  ℕ, zero, suc, ◌+◌, ◌*◌, Bool, true, false, Option, none, some, List, [], ◌∷◌, ◌++◌, length,
  replicate, leb, ◌==◌, if◌then◌else◌, add_usize, checked_add, checked_mul, is_power_of_two, Panic,
  Outcome, ok, panicked, capacity_overflow, unwrap_none, align_not_power_of_two, M,
}
use fastarena_rs.Block.{Os}
use fastarena_rs.Arena.{Arena}
use fastarena_rs.Arena.Alloc as Alloc
use fastarena_rs.Arena.Alloc.{dangling}

-- The byte at each address.
abbrev pub Mem : Type 0
Mem = ℕ → ℕ

-- An arena, and the memory that it hands out.
pub record Store : Type 0 where
  pub arena : Arena
  pub mem : Mem

pub record Slice : Type 0 where
  pub ptr : ℕ
  pub len : ℕ

-- The bytes written from address `p` on.
abbrev pub write : Mem → ℕ → List ℕ → Mem
write m p [] x = m x
write m p (b ∷ bs) x = if x == p then b else write m (p + 1) bs x

abbrev pub concat : List (List ℕ) → List ℕ
concat [] = []
concat (x ∷ xs) = x ++ concat xs

-- The call of an arena's allocation, and what is done with its pointer.
abbrev pub with_ptr :
    {A : Type 0} → Outcome ℕ × Arena → Mem → (ℕ → Mem → Outcome A × Mem) → Outcome A × Store
with_ptr (ok p, a) m f = let (out, m') = f p m in (out, record { arena = a; mem = m' })
with_ptr (panicked e, a) m f = (panicked e, record { arena = a; mem = m })

abbrev pub with_try :
    {A : Type 0}
    → Outcome (Option ℕ) × Arena
    → Mem
    → (ℕ → Mem → Outcome (Option A) × Mem)
    → Outcome (Option A) × Store
with_try (ok (some p), a) m f = let (out, m') = f p m in (out, record { arena = a; mem = m' })
with_try (ok none, a) m f = (ok none, record { arena = a; mem = m })
with_try (panicked e, a) m f = (panicked e, record { arena = a; mem = m })

abbrev pub put : List ℕ → ℕ → Mem → Outcome ℕ × Mem
put val p m = (ok p, write m p val)

abbrev pub try_put : List ℕ → ℕ → Mem → Outcome (Option ℕ) × Mem
try_put val p m = (ok (some p), write m p val)

-- `val` has the size and alignment of its type, and `NonNull::dangling()` is that alignment.
unfoldable pub alloc : Os → ℕ → ℕ → List ℕ → M Store ℕ
alloc os size align val s =
    if size == 0
    then (ok align, s)
    else with_ptr (Alloc.alloc_raw_inner os size align s.arena) s.mem (put val)

unfoldable pub try_alloc : Os → ℕ → ℕ → List ℕ → M Store (Option ℕ)
try_alloc os size align val s =
    if size == 0
    then (ok (some align), s)
    else with_try (Alloc.try_alloc_raw_inner os size align s.arena) s.mem (try_put val)

unfoldable pub alloc_uninit : Os → ℕ → ℕ → M Store ℕ
alloc_uninit os size align s =
    if size == 0
    then (ok align, s)
    else with_ptr (Alloc.alloc_raw_inner os size align s.arena) s.mem (put [])

abbrev pub empty_slice : ℕ → Slice
empty_slice align = record { ptr = align; len = 0 }

-- `for i in 0..len { dst.add(i).write(iter.next().unwrap()) }`
unfoldable pub write_slice_bulk : ℕ → ℕ → List (List ℕ) → ℕ → M Mem (Unit {0})
write_slice_bulk size dst iter zero m = (ok tt, m)
write_slice_bulk size dst [] (suc len) m = (panicked unwrap_none, m)
write_slice_bulk size dst (x ∷ iter) (suc len) m =
    write_slice_bulk size (dst + size) iter len (write m dst x)

abbrev pub slice_of : ℕ → ℕ → Outcome (Unit {0}) × Mem → Outcome Slice × Mem
slice_of p len (ok _, m) = (ok (record { ptr = p; len = len }), m)
slice_of p len (panicked e, m) = (panicked e, m)

abbrev pub try_slice_of : ℕ → ℕ → Outcome (Unit {0}) × Mem → Outcome (Option Slice) × Mem
try_slice_of p len (ok _, m) = (ok (some (record { ptr = p; len = len })), m)
try_slice_of p len (panicked e, m) = (panicked e, m)

-- `len` is what `ExactSizeIterator::len` reports, `iter` what the iterator yields.
unfoldable pub alloc_slice : Os → ℕ → ℕ → ℕ → List (List ℕ) → M Store Slice
unfolding write_slice_bulk
alloc_slice os size align len iter s =
    if len == 0 then (ok (empty_slice align), s) else elim (checked_mul size len) [
      | none ↦ (panicked capacity_overflow, s)
      | some total ↦
          with_ptr (Alloc.alloc_raw_inner os total align s.arena) s.mem
            (λ p m. slice_of p len (write_slice_bulk size p iter len m))
    ]

unfoldable pub try_alloc_slice : Os → ℕ → ℕ → ℕ → List (List ℕ) → M Store (Option Slice)
unfolding write_slice_bulk
try_alloc_slice os size align len iter s =
    if len == 0 then (ok (some (empty_slice align)), s) else elim (checked_mul size len) [
      | none ↦ (ok none, s)
      | some total ↦
          with_try (Alloc.try_alloc_raw_inner os total align s.arena) s.mem
            (λ p m. try_slice_of p len (write_slice_bulk size p iter len m))
    ]

-- The elements of a slice of a type of this size, copied.
abbrev pub copied : List (List ℕ) → ℕ → Mem → Outcome Slice × Mem
copied src p m = (ok (record { ptr = p; len = length src }), write m p (concat src))

abbrev pub try_copied : List (List ℕ) → ℕ → Mem → Outcome (Option Slice) × Mem
try_copied src p m = (ok (some (record { ptr = p; len = length src })), write m p (concat src))

unfoldable pub alloc_slice_copy : Os → ℕ → ℕ → List (List ℕ) → M Store Slice
alloc_slice_copy os size align src s =
    if length src == 0 then (ok (empty_slice align), s) else elim (checked_mul size (length src)) [
      | none ↦ (panicked capacity_overflow, s)
      | some total ↦ with_ptr (Alloc.alloc_raw_inner os total align s.arena) s.mem (copied src)
    ]

unfoldable pub try_alloc_slice_copy : Os → ℕ → ℕ → List (List ℕ) → M Store (Option Slice)
try_alloc_slice_copy os size align src s =
    if length src == 0
    then (ok (some (empty_slice align)), s)
    else elim (checked_mul size (length src)) [
      | none ↦ (ok none, s)
      | some total ↦
          with_try (Alloc.try_alloc_raw_inner os total align s.arena) s.mem (try_copied src)
    ]

-- The fast path of the strings: no alignment, the pointer moves by the length.
abbrev pub bump_str : List ℕ → Store → Store
bump_str str s = record {
  arena = record s.arena { cur_ptr = add_usize s.arena.cur_ptr (length str) };
  mem = write s.mem s.arena.cur_ptr str;
}

unfoldable pub alloc_slow_str : Os → List ℕ → M Store ℕ
alloc_slow_str os str s = with_ptr (Alloc.alloc_raw_inner os (length str) 1 s.arena) s.mem (put str)

unfoldable pub alloc_str : Os → List ℕ → M Store ℕ
alloc_str os str s =
    if length str == 0
    then (ok dangling, s)
    else if leb (add_usize s.arena.cur_ptr (length str)) s.arena.cur_end
    then (ok s.arena.cur_ptr, bump_str str s)
    else alloc_slow_str os str s

unfoldable pub try_alloc_slow_str : Os → List ℕ → M Store (Option ℕ)
try_alloc_slow_str os str s =
    with_try (Alloc.try_alloc_raw_inner os (length str) 1 s.arena) s.mem (try_put str)

unfoldable pub try_alloc_str : Os → List ℕ → M Store (Option ℕ)
try_alloc_str os str s =
    if length str == 0
    then (ok (some dangling), s)
    else elim (checked_add s.arena.cur_ptr (length str)) [
      | none ↦ (ok none, s)
      | some new_end ↦
          if leb new_end s.arena.cur_end
          then (ok (some s.arena.cur_ptr), bump_str str s)
          else try_alloc_slow_str os str s
    ]

unfoldable pub alloc_zeroed : Os → ℕ → ℕ → M Store ℕ
alloc_zeroed os size align s =
    if size == 0
    then (ok dangling, s)
    else with_ptr (Alloc.alloc_raw os size align s.arena) s.mem (put (replicate size 0))

unfoldable pub try_alloc_zeroed : Os → ℕ → ℕ → M Store (Option ℕ)
try_alloc_zeroed os size align s =
    if is_power_of_two align
    then (if size == 0
        then (ok (some dangling), s)
        else with_try (Alloc.try_alloc_raw_inner os size align s.arena) s.mem
            (try_put (replicate size 0)))
    else (panicked align_not_power_of_two, s)
