-- ===== src/Arena/BlockList/Laws.antt =====
-- A block is opened as over an ideal list, or the vector of the blocks could not grow.
use fastarena_rs.Base.{
  ℕ, ◌-◌, length, ◌≡◌, refl, sym, subst, inl, inr, Option, none, some, List, ◌++◌, [], ◌∷◌,
  sub_usize, checked_add, saturating_add, min, ◌/◌, Outcome, ok, panicked, unsatisfied,
  size_overflow, and_then, arith, Option-cases,
}
use fastarena_rs.Block
use fastarena_rs.Block.{Block, Bump, Os}
use fastarena_rs.InlineVec.{InlineVec}
use fastarena_rs.InlineVec.Push.{push_lem}
use fastarena_rs.Arena.{Arena, max_block_size}
use fastarena_rs.Arena.Valid.{set_current_block-Pointed}
use fastarena_rs.Arena.Alloc as Alloc
use fastarena_rs.Arena.Alloc.{next_block_for, push_block, with_block, rounded_size}
use fastarena_rs.Arena.BlockList.{
  blocks_inline_cap, block_bytes, block_bytes_align, push_to, open_block, try_open_block,
  sized_block, alloc_new_block, try_alloc_new_block, Stands, Agrees,
}

new_made :
    (os : Os) (capacity align : ℕ) (block : Block)
    → Block.new os capacity align ≡ ok block
    → Block.try_new os capacity align ≡ some block
unfolding Block.new
new_made os capacity align block h = elim (Option-cases (Block.try_new os capacity align)) [
  | inl refused ↦ absurd (ground (arith, h, refused))
  | inr (b, made) ↦ ground (arith, h, made)
]

module _ (os list_os : Os) where
  module _ (a : Arena) (v : InlineVec Block) (stands : Stands v a.blocks) where
    -- From another value of `next_block_size`.
    push_to-Agrees :
        {A : Type 0} (x : A) (size align block_size next : ℕ) (block : Block) (r : Bump)
        → Block.try_new os block_size align ≡ some block
        → Block.try_alloc block size align ≡ some r
        → let b = record a { next_block_size = next } in
          Agrees list_os os size align
            (a, v)
            (ok x, push_block block_size r b)
            (push_to list_os x block_size r (b, v))
    push_to-Agrees x size align block_size next block r made fits =
        elim (push_lem list_os block_bytes block_bytes_align blocks_inline_cap r.block (omega arith)
          stands) [
            | inl (v', e, holds) ↦
                let bs = a.blocks ++ (r.block ∷ []) in
                let b = with_block block_size r (record a { next_block_size = next }) in
                let kept = (set_current_block-Pointed (length bs - 1) b).blocks in
                rw e (inl (refl, refl, subst (λ (l : List Block). Stands v' l) (sym kept) holds))
            | inr (e, q, refused) ↦
                rw q
                  (inr (e, block_size, block, r, made, fits, refl, refl, refl, refl, refl, refused))
          ]

    -- `b` is the arena after `next_block_for`.
    module _ (size align block_size next : ℕ) where
      abbrev b : Arena
      b = record a { next_block_size = next }

      bumped-Agrees :
          {A : Type 0} (block : Block) (x : ℕ → A) (otherwise : Outcome A)
          → Block.try_new os block_size align ≡ some block
          → Agrees list_os os {A = A} size align
              (a, v)
              (elim (Block.try_alloc block size align) [
                | none ↦ (otherwise, b)
                | some r ↦ (ok (x r.ptr), push_block block_size r b)
              ])
              (elim (Block.try_alloc block size align) [
                | none ↦ (otherwise, (b, v))
                | some r ↦ push_to list_os (x r.ptr) block_size r (b, v)
              ])
      bumped-Agrees block x otherwise made =
          elim (Option-cases (Block.try_alloc block size align)) [
            | inl small ↦ rw small (inl (refl, refl, stands))
            | inr (r, fits) ↦
                rw fits (push_to-Agrees (x r.ptr) size align block_size next block r made fits)
          ]

      open_block-Agrees :
          Agrees list_os os {A = ℕ} size align
            (a, v)
            (Alloc.open_block os size align block_size b)
            (open_block list_os os size align block_size (b, v))
      open_block-Agrees = by_block (Block.new os block_size align) refl
        where
          by_block :
              (made : Outcome Block)
              → Block.new os block_size align ≡ made
              → Agrees list_os os {A = ℕ} size align
                  (a, v)
                  (elim made [
                    | panicked e ↦ (panicked e, b)
                    | ok block ↦ elim (Block.try_alloc block size align) [
                      | none ↦ (panicked unsatisfied, b)
                      | some r ↦ (ok r.ptr, push_block block_size r b)
                    ]
                  ])
                  (elim made [
                    | panicked e ↦ (panicked e, (b, v))
                    | ok block ↦ elim (Block.try_alloc block size align) [
                      | none ↦ (panicked unsatisfied, (b, v))
                      | some r ↦ push_to list_os r.ptr block_size r (b, v)
                    ]
                  ])
          by_block (panicked e) h = inl (refl, refl, stands)
          by_block (ok block) h =
              bumped-Agrees block (λ p. p) (panicked unsatisfied)
                (new_made os block_size align block h)

      try_open_block-Agrees :
          Agrees list_os os {A = Option ℕ} size align
            (a, v)
            (Alloc.try_open_block os size align block_size b)
            (try_open_block list_os os size align block_size (b, v))
      try_open_block-Agrees = by_block (Block.try_new os block_size align) refl
        where
          by_block :
              (made : Option Block)
              → Block.try_new os block_size align ≡ made
              → Agrees list_os os {A = Option ℕ} size align
                  (a, v)
                  (elim made [
                    | none ↦ (ok none, b)
                    | some block ↦ elim (Block.try_alloc block size align) [
                      | none ↦ (ok none, b)
                      | some r ↦ (ok (some r.ptr), push_block block_size r b)
                    ]
                  ])
                  (elim made [
                    | none ↦ (ok none, (b, v))
                    | some block ↦ elim (Block.try_alloc block size align) [
                      | none ↦ (ok none, (b, v))
                      | some r ↦ push_to list_os (some r.ptr) block_size r (b, v)
                    ]
                  ])
          by_block none h = inl (refl, refl, stands)
          by_block (some block) h = bumped-Agrees block some (ok none) h

    -- What `next_block_for` leads to, for the sum that it computes.
    module _ (size align : ℕ) where
      abbrev sized : Option ℕ → Outcome ℕ × Arena
      sized none = (panicked size_overflow, a)
      sized (some worst) =
          let n = rounded_size a.next_block_size worst align in
          (ok n, record a { next_block_size = min (saturating_add n (n / 2)) max_block_size })

      sized_lem : next_block_for size align a ≡ sized (checked_add size (sub_usize align 1))
      unfolding next_block_for
      sized_lem = by_sum (checked_add size (sub_usize align 1))
        where
          by_sum :
              (sum : Option ℕ)
              → elim sum [
                | none ↦ (panicked size_overflow, a)
                | some worst ↦
                    let n = rounded_size a.next_block_size worst align in
                    (
                      ok n,
                      record a { next_block_size = min (saturating_add n (n / 2)) max_block_size },
                    )
              ]
                ≡ sized sum
          by_sum none = refl
          by_sum (some worst) = refl

      both :
          (sum : Option ℕ)
          → Agrees list_os os {A = ℕ} size align
              (a, v)
              (and_then (sized sum) (Alloc.open_block os size align))
              (sized_block (sized sum) v (open_block list_os os size align))
            × Agrees list_os os {A = Option ℕ} size align
                (a, v)
                (and_then (sized sum) (Alloc.try_open_block os size align))
                (sized_block (sized sum) v (try_open_block list_os os size align))
      both none = (inl (refl, refl, stands), inl (refl, refl, stands))
      both (some worst) =
          let n = rounded_size a.next_block_size worst align in
          let next = min (saturating_add n (n / 2)) max_block_size in
          (open_block-Agrees size align n next, try_open_block-Agrees size align n next)

      -- When the InlineVec of the blocks stands for the list of the blocks: alloc_new_block and
      -- try_alloc_new_block on the vector do what they do on the list, and the vector stands for
      -- the list after it; or, both of them, they panic, since the system has given a block but
      -- the vector was full and could not grow: then the blocks are as they were, and the bytes
      -- of the block that is lost have been added to the counts of reserved and of allocated
      -- bytes.
      pub new_block-Agrees :
          Agrees list_os os size align
            (a, v)
            (Alloc.alloc_new_block os size align a)
            (alloc_new_block list_os os size align (a, v))
          × Agrees list_os os size align
              (a, v)
              (Alloc.try_alloc_new_block os size align a)
              (try_alloc_new_block list_os os size align (a, v))
      unfolding Alloc.alloc_new_block Alloc.try_alloc_new_block alloc_new_block try_alloc_new_block
      new_block-Agrees = rw sized_lem (both (checked_add size (sub_usize align 1)))
