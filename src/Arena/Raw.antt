-- ===== src/Arena/Raw.antt =====
-- What `alloc_raw` and `try_alloc_raw` promise their callers.
use fastarena_rs.Base.{
  ℕ, ◌+◌, ◌≤◌, ◌<◌, ◌≡◌, ◌⊎◌, inl, inr, arith, true, false, Option, some, Outcome, ok, panicked,
  is_power_of_two, align_not_power_of_two, Bool-cases, ◌==◌, ==→eq,
}
use fastarena_rs.Base.Pow2.{IsPow2-of_is_power_of_two}
use fastarena_rs.Block.{Os}
use fastarena_rs.Arena.{Arena, block_at}
use fastarena_rs.Arena.Alloc.{alloc_raw, try_alloc_raw, dangling}
use fastarena_rs.Arena.Valid.{IsValid, IsFresh}
use fastarena_rs.Arena.Grown.{Grown, Used, Allocated}
use fastarena_rs.Arena.Safety.{After, TryAfter}
use fastarena_rs.Arena.Paths.{alloc_raw-After, try_alloc_raw-TryAfter}
use native.Mathlib.Decide.{dec_lt}

-- The outcomes of `alloc_raw`: the guard's panic and the dangling pointer of a request for nothing
-- leave the arena alone; all else is an allocation.
abbrev pub RawAfter : Arena → ℕ → ℕ → Outcome ℕ × Arena → Type 0
RawAfter a size align out =
    ((is_power_of_two align ≡ false) × (out ≡ (panicked align_not_power_of_two, a)))
    ⊎ ((is_power_of_two align ≡ true) × (size ≡ 0) × (out ≡ (ok dangling, a)))
    ⊎ ((is_power_of_two align ≡ true) × (0 < size) × After a size align out)

abbrev pub TryRawAfter : Arena → ℕ → ℕ → Outcome (Option ℕ) × Arena → Type 0
TryRawAfter a size align out =
    ((is_power_of_two align ≡ false) × (out ≡ (panicked align_not_power_of_two, a)))
    ⊎ ((is_power_of_two align ≡ true) × (size ≡ 0) × (out ≡ (ok (some dangling), a)))
    ⊎ ((is_power_of_two align ≡ true) × (0 < size) × TryAfter a size align out)

module _ {a : Arena} (os : Os) (size align : ℕ) (v : IsValid a) (fresh : IsFresh os a.blocks) where
  -- In a valid arena, if the system allocator keeps its promises and returns memory apart from
  -- the blocks of the arena, alloc_raw panics at an alignment that is no power of two and returns
  -- the dangling pointer for a size of zero, both without a change; otherwise it hands out an
  -- aligned range that ends at the bump pointer of a valid arena, or panics and leaves a valid
  -- arena in which nothing that was in use is lost. The bytes that stats counts grow by those of
  -- the current block, or, in a block entered by the slow path, by twice what is in use of it.
  pub alloc_raw_lem : RawAfter a size align (alloc_raw os size align a)
  unfolding alloc_raw
  alloc_raw_lem = elim (Bool-cases (is_power_of_two align)) [
    | inr odd ↦ inl (odd, rw odd)
    | inl two ↦ elim (Bool-cases (size == 0)) [
      | inl empty ↦ inr (inl (two, ==→eq size 0 empty, rw (two, empty)))
      | inr more ↦
          let pos : 0 < size = ground arith in
          inr (
            inr (
              two,
              pos,
              alloc_raw-After os size align v fresh (IsPow2-of_is_power_of_two align two) two pos,
            ))
    ]
  ]

  -- Under the conditions of alloc_raw_lem, try_alloc_raw has the outcomes of alloc_raw and one
  -- more: None, from a valid arena with the same position, in which nothing that was in use is
  -- lost and the bytes of the current block may have been counted once more.
  pub try_alloc_raw_lem : TryRawAfter a size align (try_alloc_raw os size align a)
  unfolding try_alloc_raw
  try_alloc_raw_lem = elim (Bool-cases (is_power_of_two align)) [
    | inr odd ↦ inl (odd, rw odd)
    | inl two ↦ elim (Bool-cases (size == 0)) [
      | inl empty ↦ inr (inl (two, ==→eq size 0 empty, rw (two, empty)))
      | inr more ↦
          let pos : 0 < size = ground arith in
          inr (
            inr (
              two,
              pos,
              try_alloc_raw-TryAfter os size align v fresh (IsPow2-of_is_power_of_two align two) two
                  pos,
            ))
    ]
  ]

-- The current block lies apart from every passed one.
current_apart :
    {a : Arena} (i x : ℕ)
    → IsValid a
    → i < a.current
    → (block_at a.blocks i).base ≤ x
    → x < (block_at a.blocks i).base + (block_at a.blocks i).capacity
    → a.cur_base ≤ x
    → x < a.cur_end
    → ⊥
current_apart {a} i x v lt from to here there =
    ground (arith, v.layout.apart i a.current lt v.layout.in_range)

-- What was in use stays in use.
pub Used-mono : {a a' : Arena} (x : ℕ) → IsValid a → IsValid a' → Grown a a' → Used a x → Used a' x
Used-mono x v v' g (inl (i, lt, from, to)) =
    let e = g.below i lt in inl (i, omega (arith, g.forward), rw e from, rw e to)
Used-mono {a} {a'} x v v' g (inr (from, to)) =
    let frame = g.frame a.current v.layout.in_range in
    elim (dec_lt a.current a'.current) [
      | yes lt ↦
          inl (
            a.current,
            lt,
            omega (arith, frame.base, v.base),
            omega (arith, frame.base, g.passed lt),
          )
      | no ge ↦
          let e : a'.current ≡ a.current = omega (arith, g.forward) in
          let base : a'.cur_base ≡ (block_at a'.blocks a.current).base = rw (← e) (v'.base) in
          inr (omega (arith, frame.base, v.base), omega (arith, g.here e))
    ]

-- A range that has just been handed out holds no address that was in use.
Allocated-unused :
    {a a' : Arena} {size align p : ℕ} (x : ℕ)
    → IsValid a
    → Allocated a size align p a'
    → p ≤ x
    → x < p + size
    → Used a x
    → ⊥
Allocated-unused {a} {a'} x v h from to (inl (i, lt, above, below)) =
    let frame = h.grown.frame i (omega (arith, v.layout.in_range)) in
    let within = (v.layout.valid i (omega (arith, v.layout.in_range))).within in
    current_apart i x h.valid (omega (arith, h.grown.forward)) (omega (arith, frame.base))
      (omega (arith, frame.base, frame.capacity)) (omega (arith, h.start))
      (omega (arith, h.end, h.valid.ptr_within))
Allocated-unused {a} {a'} x v h from to (inr (above, below)) = elim h.place [
  | inl (same, after, _) ↦ omega arith
  | inr (lt, _) ↦
      let frame = h.grown.frame a.current v.layout.in_range in
      current_apart a.current x h.valid lt (omega (arith, frame.base, v.base))
        (omega (arith, frame.base, frame.capacity, v.base, v.end, v.ptr_within))
        (omega (arith, h.start)) (omega (arith, h.end, h.valid.ptr_within))
]

-- Every byte that an allocation hands out was not in use before, and is in use after.
pub Allocated-fresh :
    {a a' : Arena} {size align p : ℕ} (x : ℕ)
    → IsValid a
    → Allocated a size align p a'
    → p ≤ x
    → x < p + size
    → (Used a x → ⊥) × Used a' x
Allocated-fresh x v h from to =
    (Allocated-unused x v h from to, inr (omega (arith, h.start), omega (arith, h.end)))

-- In a valid arena, if the system allocator keeps its promises and returns memory apart from the
-- blocks of the arena: when alloc_raw returns a pointer to size bytes, size not zero, each of
-- them was free before and is in use after, and every address that was in use before still is.
pub alloc_raw-fresh :
    {a a' : Arena} (os : Os) (size align p x y : ℕ)
    → IsValid a
    → IsFresh os a.blocks
    → 0 < size
    → alloc_raw os size align a ≡ (ok p, a')
    → p ≤ x
    → x < p + size
    → Used a y
    → (Used a x → ⊥) × Used a' x × Used a' y
alloc_raw-fresh {a} {a'} os size align p x y v fresh pos e from to used =
    elim (alloc_raw_lem os size align v fresh) [
      | inl (odd, e') ↦ absurd (ground arith)
      | inr (inl (two, empty, e')) ↦ absurd (omega arith)
      | inr (inr (two, pos', after)) ↦
          let h : Allocated a size align p a' = rw e at after in
          let (free, taken) = Allocated-fresh x v h from to in
          (free, taken, Used-mono y v h.valid h.grown used)
    ]
