-- ===== src/Arena/Safety.antt =====
-- Every allocation path keeps the invariant, loses nothing that is in use, and hands out only
-- memory that was free.
use fastarena_rs.Base.{
  ℕ, ◌+◌, ◌-◌, ◌≡◌, refl, ◌⊎◌, inl, inr, [], ◌∷◌, ◌++◌, length, arith, Option, none, some, Outcome,
  ok, panicked, size_overflow, usize_mod, length-append, IsPow2, ltb, Bool-cases, Option-cases,
  sub_usize, saturating_add, max, min, ◌/◌,
}
use fastarena_rs.Block
use fastarena_rs.Block.{Block, Bump, Os, min_block_align}
use fastarena_rs.Block.Laws.{try_new-IsValid, try_alloc-Bumped}
use fastarena_rs.Arena.{Arena, max_block_size}
use fastarena_rs.Arena.Alloc.{
  next_block_for, rounded_size, push_block, with_block, with_bump, open_block, try_open_block,
  alloc_new_block, try_alloc_new_block, find_block, use_block,
}
use fastarena_rs.Arena.Valid.{IsValid, IsFresh, set_current_block-Pointed, total_capacity-append}
use fastarena_rs.Arena.Grown.{Allocated, Failed, Flushed, Flushed-Failed}
use fastarena_rs.Arena.Slow.{push-Allocated}
use fastarena_rs.Arena.Retained.{find_block-lem, retained-Allocated}

-- What holds after an allocation, whichever way it ends.
abbrev pub After : Arena → ℕ → ℕ → Outcome ℕ × Arena → Type 0
After a size align (ok p, a') = Allocated a size align p a'
After a size align (panicked e, a') = Failed a a'

abbrev pub TryAfter : Arena → ℕ → ℕ → Outcome (Option ℕ) × Arena → Type 0
TryAfter a size align (ok (some p), a') = Allocated a size align p a'
TryAfter a size align (ok none, a') = Failed a a'
TryAfter a size align (panicked e, a') = Failed a a'

resized : {f : Arena} (n : ℕ) → IsValid f → IsValid (record f { next_block_size = n })
resized n v = record {
  layout = v.layout;
  base = v.base;
  end = v.end;
  ptr_above = v.ptr_above;
  ptr_within = v.ptr_within;
  mark_above = v.mark_above;
  mark_in_range = v.mark_in_range;
  reserved = v.reserved;
  counted = v.counted;
}

Flushed-resized : {a f : Arena} (n : ℕ) → Flushed a f → Flushed a (record f { next_block_size = n })
Flushed-resized n p = record {
  valid = resized n p.valid;
  blocks = p.blocks;
  others = p.others;
  offset = p.offset;
  current = p.current;
  cur_ptr = p.cur_ptr;
  cur_base = p.cur_base;
  counted = p.counted;
  depth = p.depth;
}

module _ {a f : Arena} {os : Os} (size align : ℕ) (va : IsValid a) (p : Flushed a f)
    (fresh : IsFresh os f.blocks) (pow : IsPow2 align) where
  push_block-Allocated :
      (n : ℕ) (b : Block) (r : Bump)
      → Block.try_new os n align ≡ some b
      → Block.try_alloc b size align ≡ some r
      → Allocated a size align r.ptr (push_block n r f)
  push_block-Allocated n b r made room =
      let (v, empty, capacity, _, base) = try_new-IsValid os n align b fresh.is_os made in
      let bumped = try_alloc-Bumped v size align pow r room in
      let last : length (f.blocks ++ (r.block ∷ [])) - 1 ≡ length f.blocks =
        omega (arith, length-append f.blocks (r.block ∷ [])) in
      let same : r.block.capacity ≡ n = rw bumped.block capacity in
      let positive = v.non_null in
      push-Allocated va p v empty bumped
        (λ i h. ground (arith, fresh.apart n (max align min_block_align) i)) (push_block n r f)
        (with_block n r f) refl refl refl
        (omega (arith, total_capacity-append f.blocks r.block, p.valid.reserved)) refl
        (rw last (set_current_block-Pointed (length f.blocks) (with_block n r f)))

  open_block-After : (n : ℕ) → After a size align (open_block os size align n f)
  unfolding Block.new
  open_block-After n = elim (Option-cases (Block.try_new os n align)) [
    | inl none_made ↦ rw (none_made, After, open_block) (Flushed-Failed va p)
    | inr (b, made) ↦ elim (Option-cases (Block.try_alloc b size align)) [
      | inl full ↦ rw (made, full, After, open_block) (Flushed-Failed va p)
      | inr (r, room) ↦ rw (made, room, After, open_block) (push_block-Allocated n b r made room)
    ]
  ]

  try_open_block-TryAfter : (n : ℕ) → TryAfter a size align (try_open_block os size align n f)
  try_open_block-TryAfter n = elim (Option-cases (Block.try_new os n align)) [
    | inl none_made ↦ rw (none_made, TryAfter, try_open_block) (Flushed-Failed va p)
    | inr (b, made) ↦ elim (Option-cases (Block.try_alloc b size align)) [
      | inl full ↦ rw (made, full, TryAfter, try_open_block) (Flushed-Failed va p)
      | inr (r, room) ↦
          rw (made, room, TryAfter, try_open_block) (push_block-Allocated n b r made room)
    ]
  ]

  pub use_block-Allocated :
      (i : ℕ) (r : Bump)
      → find_block size align f ≡ some (i, r)
      → Allocated a size align r.ptr (use_block i r f)
  use_block-Allocated i r found =
      let (behind, in_range, room) = find_block-lem f size align i r found in
      let bumped = try_alloc-Bumped (p.valid.layout.valid i in_range) size align pow r room in
      retained-Allocated va p behind in_range bumped (use_block i r f) (with_bump i r f) refl refl
        refl refl refl (set_current_block-Pointed i (with_bump i r f))

next_block_for-cases :
    (size align : ℕ) (f : Arena)
    → (next_block_for size align f ≡ (panicked size_overflow, f))
      ⊎ ((n k : ℕ) × (next_block_for size align f ≡ (ok n, record f { next_block_size = k })))
unfolding next_block_for
next_block_for-cases size align f = elim (Bool-cases (ltb (size + sub_usize align 1) usize_mod)) [
  | inl fits ↦ inr (
    resized_to,
    min (saturating_add resized_to (resized_to / 2)) max_block_size,
    rw (fits, next_block_for),
  )
  | inr over ↦ inl (rw (over, next_block_for))
]
  where
    resized_to : ℕ
    resized_to = rounded_size f.next_block_size (size + sub_usize align 1) align

module _ {a f : Arena} {os : Os} (size align : ℕ) (va : IsValid a) (p : Flushed a f)
    (fresh : IsFresh os f.blocks) (pow : IsPow2 align) where
  pub alloc_new_block-After : After a size align (alloc_new_block os size align f)
  unfolding alloc_new_block
  alloc_new_block-After = elim (next_block_for-cases size align f) [
    | inl over ↦ rw (over, After, alloc_new_block) (Flushed-Failed va p)
    | inr (n, k, e) ↦
        rw (e, After, alloc_new_block)
          (open_block-After size align va (Flushed-resized k p) fresh pow n)
  ]

  pub try_alloc_new_block-TryAfter : TryAfter a size align (try_alloc_new_block os size align f)
  unfolding try_alloc_new_block
  try_alloc_new_block-TryAfter = elim (next_block_for-cases size align f) [
    | inl over ↦ rw (over, TryAfter, try_alloc_new_block) (Flushed-Failed va p)
    | inr (n, k, e) ↦
        rw (e, TryAfter, try_alloc_new_block)
          (try_open_block-TryAfter size align va (Flushed-resized k p) fresh pow n)
  ]
