-- ===== src/InlineVec.antt =====
-- util/inline_vec.rs: a vector whose first elements are stored inline, and that moves to the heap
-- when they no longer fit. A cell of memory that holds no value is `none`.
pub mod Cells
pub mod Laws
pub mod Push
pub mod Model
mod Tests
use fastarena_rs.Base.{
  ℕ, zero, suc, ◌+◌, ◌*◌, ◌-◌, ◌/◌, Bool, true, false, ◌&&◌, ◌||◌, not, Option, none, some, List,
  [], ◌∷◌, ◌++◌, take, drop, set, get_elem?, replicate, ltb, leb, ◌==◌, if◌then◌else◌, isize_max,
  usize_mod, Panic, Outcome, ok, panicked, out_of_memory, capacity_overflow, index_out_of_bounds,
  undefined, M,
}
use fastarena_rs.Block.{Os}

-- Memory for elements of one type.
abbrev pub Cells {ℓ} : Type ℓ → Type ℓ
Cells A = List (Option A)

-- The buffer that `ptr` points to, and its capacity.
pub record HeapBuf {ℓ} (A : Type ℓ) : Type ℓ where
  pub ptr : Cells A
  pub cap : ℕ

pub data Storage {ℓ} (A : Type ℓ) : Type ℓ where
  inline : Cells A → Storage A
  heap : HeapBuf A → Storage A

pub record InlineVec {ℓ} (A : Type ℓ) : Type ℓ where
  pub storage : Storage A
  pub len : ℕ
  pub on_heap : Bool

-- `Layout::array::<T>(capacity).is_ok()`
abbrev pub array_ok : ℕ → ℕ → ℕ → Bool
array_ok elem_size elem_align capacity =
    (elem_size == 0) || leb capacity ((isize_max + 1 - elem_align) / elem_size)

module _ {ℓ} {A : Type ℓ} where
  -- The fields of the union; nothing can be read through the wrong one.
  abbrev pub inline_of : Storage A → Cells A
  inline_of (inline cells) = cells
  inline_of (heap buf) = []

  abbrev pub heap_of : Storage A → HeapBuf A
  heap_of (inline cells) = record { ptr = []; cap = 0 }
  heap_of (heap buf) = buf

  -- The memory that `on_heap` selects.
  abbrev pub cells : InlineVec A → Cells A
  cells v = if v.on_heap then (heap_of v.storage).ptr else inline_of v.storage

  abbrev pub read_cell : Option (Option A) → Outcome A
  read_cell (some (some x)) = ok x
  read_cell (some none) = panicked undefined
  read_cell none = panicked undefined

  -- `ptr.add(i).read()`
  abbrev pub read : Cells A → ℕ → Outcome A
  read m i = read_cell (get_elem? m i)

  -- `copy_nonoverlapping(src, dst, n)`
  abbrev pub copy_nonoverlapping : Cells A → Cells A → ℕ → Cells A
  copy_nonoverlapping src dst n = take n src ++ drop n dst

  abbrev pub store : Cells A → InlineVec A → Storage A
  store m v =
      if v.on_heap then heap (record { ptr = m; cap = (heap_of v.storage).cap }) else inline m

  -- The elements in order, as `as_slice` and the iterators give them.
  abbrev pub read_all : Cells A → Outcome (List A)
  read_all [] = ok []
  read_all (none ∷ m) = panicked undefined
  read_all (some x ∷ m) = elim (read_all m) [ ok xs ↦ ok (x ∷ xs) | panicked e ↦ panicked e ]

  unfoldable pub new : ℕ → InlineVec A
  new n = record { storage = inline (replicate n none); len = 0; on_heap = false }

  unfoldable pub len : InlineVec A → ℕ
  len v = v.len

  unfoldable pub as_slice : InlineVec A → Outcome (List A)
  as_slice v = read_all (take v.len (cells v))

  -- `get` in a release build
  unfoldable pub get : InlineVec A → ℕ → Outcome A
  get v i = read (cells v) i

  -- `*self.get_mut(i) = val`
  unfoldable pub set_at : ℕ → A → InlineVec A → InlineVec A
  set_at i x v = record v { storage = store (set (cells v) i (some x)) v }

  unfoldable pub index : InlineVec A → ℕ → Outcome A
  index v i = if ltb i v.len then read (cells v) i else panicked index_out_of_bounds

  unfoldable pub index_set : ℕ → A → M (InlineVec A) (Unit {0})
  unfolding set_at
  index_set i x v = if ltb i v.len then (ok tt, set_at i x v) else (panicked index_out_of_bounds, v)

  abbrev pub popped : Outcome A → Outcome (Option A)
  popped (ok x) = ok (some x)
  popped (panicked e) = panicked e

  unfoldable pub pop : M (InlineVec A) (Option A)
  pop v =
      if v.len == 0
      then (ok none, v)
      else (popped (read (cells v) (v.len - 1)), record v { len = v.len - 1 })

  -- The elements that `Drop for InlineVec` drops, in its order.
  unfoldable pub dropped : Bool → InlineVec A → Outcome (List A)
  dropped needs_drop v = if needs_drop then read_all (take v.len (cells v)) else ok []

  -- The element written behind the last one.
  abbrev pub appended : Storage A → Bool → InlineVec A → InlineVec A
  appended d h v = record { storage = d; len = v.len + 1; on_heap = h }

  -- The write of `push` on the heap, after `heap_grow` if that was called.
  abbrev pub push_heap : A → Outcome (Unit {0}) × InlineVec A → Outcome (Unit {0}) × InlineVec A
  push_heap x (panicked e, v) = (panicked e, v)
  push_heap x (ok _, v) =
      let buf = heap_of v.storage in
      (ok tt, appended (heap (record buf { ptr = set buf.ptr v.len (some x) })) v.on_heap v)

  abbrev pub and_cells : ℕ → Outcome (Cells A) → Outcome (ℕ × Cells A)
  and_cells new_cap (ok m) = ok (new_cap, m)
  and_cells new_cap (panicked e) = panicked e

  module _ (os : Os) (elem_size elem_align : ℕ) where
    unfoldable pub heap_alloc : ℕ → Outcome (Cells A)
    heap_alloc capacity =
        if array_ok elem_size elem_align capacity
        then (if (elem_size * capacity == 0) || not (os (elem_size * capacity) elem_align == 0)
            then ok (replicate capacity none)
            else panicked out_of_memory)
        else panicked capacity_overflow

    -- Twice the capacity, `checked_mul(2)`, and the memory that `heap_alloc` returns for it.
    unfoldable pub doubled : ℕ → Outcome (ℕ × Cells A)
    doubled capacity =
        if ltb (capacity * 2) usize_mod
        then and_cells (capacity * 2) (heap_alloc (capacity * 2))
        else panicked capacity_overflow

    unfoldable pub heap_grow : M (InlineVec A) (Unit {0})
    heap_grow v =
        let buf = heap_of v.storage in
        elim (doubled buf.cap) [
          | panicked e ↦ (panicked e, v)
          | ok (new_cap, new_ptr) ↦
              if array_ok elem_size elem_align buf.cap
              then (
                ok tt,
                record v {
                  storage =
                      heap
                        (record { ptr = copy_nonoverlapping buf.ptr new_ptr v.len; cap = new_cap });
                },
              )
              else (panicked capacity_overflow, v)
        ]

    module _ (n : ℕ) where
      unfoldable pub promote_and_push : A → M (InlineVec A) (Unit {0})
      promote_and_push x v = elim (doubled n) [
        | panicked e ↦ (panicked e, v)
        | ok (new_cap, new_ptr) ↦
            let moved = copy_nonoverlapping (inline_of v.storage) new_ptr n in
            let written = set moved v.len (some x) in
            (ok tt, appended (heap (record { ptr = written; cap = new_cap })) true v)
      ]

      unfoldable pub push_slow : A → M (InlineVec A) (Unit {0})
      push_slow x v =
          if v.on_heap
          then push_heap x (if v.len == (heap_of v.storage).cap then heap_grow v else (ok tt, v))
          else promote_and_push x v

      unfoldable pub push : A → M (InlineVec A) (Unit {0})
      push x v =
          if not v.on_heap && ltb v.len n
          then (ok tt, appended (inline (set (inline_of v.storage) v.len (some x))) v.on_heap v)
          else push_slow x v
