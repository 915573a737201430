-- ===== src/Arena/BlockList.antt =====
-- arena/allocator.rs: the list of the blocks is an `InlineVec`, which may find no memory when it has
-- to grow. Only `alloc_new_block` and `try_alloc_new_block` push to it; here they are with the vector
-- beside the list that it stands for.
pub mod Laws
mod Tests
use fastarena_rs.Base.{
  ℕ, ◌-◌, length, ◌≡◌, refl, sym, subst, ◌⊎◌, inl, inr, Option, none, some, List, ◌++◌, [], ◌∷◌,
  add_usize, sub_usize, checked_add, saturating_add, min, ◌/◌, Panic, Outcome, ok, panicked,
  unsatisfied, size_overflow, and_then, M, arith, Option-cases,
}
use fastarena_rs.Block
use fastarena_rs.Block.{Block, Bump, Os}
use fastarena_rs.InlineVec as Inline
use fastarena_rs.InlineVec.{InlineVec}
use fastarena_rs.InlineVec.Laws.{Holds}
use fastarena_rs.InlineVec.Push.{Refused, push_lem}
use fastarena_rs.Arena.{Arena, max_block_size}
use fastarena_rs.Arena.Valid.{set_current_block-Pointed}
use fastarena_rs.Arena.Alloc as Alloc
use fastarena_rs.Arena.Alloc.{next_block_for, push_block, with_block, rounded_size}

-- `BLOCKS_INLINE_CAP`, and the size and the alignment of `Block`.
abbrev pub blocks_inline_cap : ℕ
blocks_inline_cap = 8

abbrev pub block_bytes : ℕ
block_bytes = 40

abbrev pub block_bytes_align : ℕ
block_bytes_align = 8

abbrev pub Listed : Type 0
Listed = Arena × InlineVec Block

-- The counts, which are changed before the block is pushed.
abbrev pub counted : ℕ → Bump → Arena → Arena
counted block_size r a = record a {
  bytes_reserved = add_usize a.bytes_reserved block_size;
  bytes_allocated = add_usize a.bytes_allocated r.delta;
}

-- `blocks.push(block)`, and what follows it.
abbrev pub pushed :
    {A : Type 0} → A → ℕ → Bump → Arena → Outcome (Unit {0}) × InlineVec Block → Outcome A × Listed
pushed x block_size r a (ok _, v) = (ok x, (push_block block_size r a, v))
pushed x block_size r a (panicked e, v) = (panicked e, (counted block_size r a, v))

-- `next_block_for`, which does not see the list.
abbrev pub sized_block :
    {A : Type 0} → Outcome ℕ × Arena → InlineVec Block → (ℕ → M Listed A) → Outcome A × Listed
sized_block (ok n, a) v f = f n (a, v)
sized_block (panicked e, a) v f = (panicked e, (a, v))

abbrev pub Stands : InlineVec Block → List Block → Type 0
Stands v bs = Holds blocks_inline_cap block_bytes block_bytes_align v bs

module _ (list_os : Os) where
  abbrev pub push_to : {A : Type 0} → A → ℕ → Bump → M Listed A
  push_to x block_size r (a, v) =
      pushed x block_size r a
        (Inline.push list_os block_bytes block_bytes_align blocks_inline_cap r.block v)

  module _ (os : Os) where
    abbrev pub open_block : ℕ → ℕ → ℕ → M Listed ℕ
    open_block size align block_size s = elim (Block.new os block_size align) [
      | panicked e ↦ (panicked e, s)
      | ok block ↦ elim (Block.try_alloc block size align) [
        | none ↦ (panicked unsatisfied, s)
        | some r ↦ push_to r.ptr block_size r s
      ]
    ]

    abbrev pub try_open_block : ℕ → ℕ → ℕ → M Listed (Option ℕ)
    try_open_block size align block_size s = elim (Block.try_new os block_size align) [
      | none ↦ (ok none, s)
      | some block ↦ elim (Block.try_alloc block size align) [
        | none ↦ (ok none, s)
        | some r ↦ push_to (some r.ptr) block_size r s
      ]
    ]

    unfoldable pub alloc_new_block : ℕ → ℕ → M Listed ℕ
    unfolding next_block_for
    alloc_new_block size align (a, v) =
        sized_block (next_block_for size align a) v (open_block size align)

    unfoldable pub try_alloc_new_block : ℕ → ℕ → M Listed (Option ℕ)
    unfolding next_block_for
    try_alloc_new_block size align (a, v) =
        sized_block (next_block_for size align a) v (try_open_block size align)

    -- What the list of blocks makes of a call: the vector still stands for it, and nothing else is
    -- different; or the system has given a block, and the vector was full and could not grow.
    abbrev pub Agrees :
        {A : Type 0} → ℕ → ℕ → Listed → Outcome A × Arena → Outcome A × Listed → Type 0
    Agrees size align s plain out =
        ((out.0 ≡ plain.0) × (out.1.0 ≡ plain.1) × Stands out.1.1 plain.1.blocks)
        ⊎ ((e : Panic) × (block_size : ℕ) × (block : Block) × (r : Bump) × (Block.try_new os
                block_size align
              ≡ some block)
            × (Block.try_alloc block size align ≡ some r)
            × (out.0 ≡ panicked e)
            × (out.1.0.blocks ≡ s.0.blocks)
            × (out.1.1 ≡ s.1)
            × (out.1.0.bytes_reserved ≡ add_usize s.0.bytes_reserved block_size)
            × (out.1.0.bytes_allocated ≡ add_usize s.0.bytes_allocated r.delta)
            × Refused {A = Block} list_os block_bytes block_bytes_align blocks_inline_cap s.1 e)
