-- ===== src/Arena/Retained.antt =====
-- The scan of the retained blocks, and the move to the block that it finds.
use fastarena_rs.Base.{
  ℕ, suc, ◌+◌, ◌-◌, ◌≤◌, ◌<◌, ◌≡◌, refl, ap, ◌∙◌, ◌≢◌, inl, inr, List, [], ◌∷◌, length, set, ◌%◌,
  usize_mod, drop, arith, Option, some, length-set, length-drop, get_or-drop, leb, Bool-cases,
  Option-cases,
}
use fastarena_rs.Block
use fastarena_rs.Block.{Block, Bump}
use fastarena_rs.Block.Laws.{Bumped}
use fastarena_rs.Arena.{Arena, block_at, no_block}
use fastarena_rs.Arena.Alloc.{scan, find_block}
use fastarena_rs.Arena.Layout.{
  SameFrame, IsLayout, Reframed, Reframed-IsLayout, set-Reframed, block_at-set_self,
  block_at-set_ne,
}
use fastarena_rs.Arena.Valid.{IsValid, Pointed, Pointed-IsValid, Reframed-total}
use fastarena_rs.Arena.Grown.{Grown, Grown-trans, Allocated, Flushed, Flushed-Grown}
use fastarena_rs.Arena.Slow.{flushed_end}

-- The block at `j` has room, and `r` is its bump.
pub record Found (bs : List Block) (from size align j : ℕ) (r : Bump) : Type 0 where
  pub behind : from ≤ j
  pub in_range : j < from + length bs
  pub room : Block.try_alloc (block_at bs (j - from)) size align ≡ some r

Found-cons :
    {bs : List Block} (b : Block) {from size align j : ℕ} {r : Bump}
    → Found bs (from + 1) size align j r
    → Found (b ∷ bs) from size align j r
Found-cons {bs} b {from} {size} {align} {j} {r} f = record {
  behind = omega (arith, f.behind);
  in_range = omega (arith, f.in_range);
  room = let e : j - from ≡ suc (j - (from + 1)) = omega (arith, f.behind) in rw e f.room;
}

Found-head :
    (b : Block) (bs : List Block) {from size align j : ℕ} {r s : Bump}
    → Block.try_alloc b size align ≡ some s
    → ◌≡◌ {A = Option (ℕ × Bump)} (some (from, s)) (some (j, r))
    → Found (b ∷ bs) from size align j r
Found-head b bs {from} {j} {r} {s} room same =
    let e : from ≡ j = cc in
    let e' : s ≡ r = cc in
    let first : j - from ≡ 0 = omega arith in
    record { behind = omega arith; in_range = omega arith; room = rw first (room ∙ ap some e') }

pub scan-Found :
    (bs : List Block) (from size align j : ℕ) (r : Bump)
    → scan bs from size align ≡ some (j, r)
    → Found bs from size align j r
unfolding scan
scan-Found [] from size align j r h = absurd (cc)
scan-Found (b ∷ bs) from size align j r h = elim (Bool-cases (leb align b.align)) [
  | inr small ↦ Found-cons b (scan-Found bs (from + 1) size align j r (rw small at h))
  | inl wide ↦ elim (Option-cases (Block.try_alloc b size align)) [
    | inl full ↦ Found-cons b (scan-Found bs (from + 1) size align j r (rw (wide, full) at h))
    | inr (s, room) ↦ Found-head b bs room (rw (wide, room) at h)
  ]
]

-- The block that `find_block` returns stands behind the current one.
pub find_block-lem :
    (a : Arena) (size align j : ℕ) (r : Bump)
    → find_block size align a ≡ some (j, r)
    → (a.current < j)
      × (j < length a.blocks)
      × (Block.try_alloc (block_at a.blocks j) size align ≡ some r)
unfolding find_block
find_block-lem a size align j r h =
    let h' : scan (drop (a.current + 1) a.blocks) (a.current + 1) size align ≡ some (j, r) =
      ground arith in
    let f = scan-Found (drop (a.current + 1) a.blocks) (a.current + 1) size align j r h' in
    (
      omega (arith, f.behind),
      omega (arith, f.in_range, f.behind, length-drop (a.current + 1) a.blocks),
      rw
          (← get_or-drop (a.current + 1) a.blocks (j - (a.current + 1)) j no_block
            (omega (arith, f.behind)))
          f.room,
    )

module _ {a f : Arena} {i size align : ℕ} {r : Bump} (va : IsValid a) (p : Flushed a f)
    (behind : f.current < i) (in_range : i < length f.blocks)
    (bumped : Bumped (block_at f.blocks i) size align r) where
  bumped_frame : SameFrame (block_at f.blocks i) r.block
  bumped_frame = rw bumped.block (record { base = refl; capacity = refl; align = refl })

  retained-Reframed : Reframed f.blocks (set f.blocks i r.block)
  retained-Reframed = set-Reframed i r.block p.valid.layout bumped_frame bumped.fits

  retained-IsLayout : IsLayout (set f.blocks i r.block) i
  retained-IsLayout = Reframed-IsLayout p.valid.layout retained-Reframed in_range λ j q h.
      rw (block_at-set_ne f.blocks i j r.block (λ e. omega arith))
        (p.valid.layout.idle j (omega arith) h)

  module _ (a' : Arena) (used : Arena) (eb : used.blocks ≡ set f.blocks i r.block)
      (em : used.high_water_mark ≡ f.high_water_mark) (ed : used.txn_depth ≡ f.txn_depth)
      (er : used.bytes_reserved ≡ f.bytes_reserved)
      (ec : used.bytes_allocated ≡ (f.bytes_allocated + r.delta) % usize_mod)
      (q : Pointed i used a') where
    here : block_at used.blocks i ≡ r.block
    here = rw eb (block_at-set_self f.blocks i r.block in_range)

    kept : (j : ℕ) → j ≢ i → block_at a'.blocks j ≡ block_at f.blocks j
    kept j ne = rw (q.blocks, eb) (block_at-set_ne f.blocks i j r.block (λ e. ne (omega arith)))

    retained-Grown : Grown f a'
    retained-Grown = record {
      forward = omega (arith, q.current);
      longer = rw (q.blocks, eb, length-set f.blocks i r.block) (omega arith);
      frame = rw (q.blocks, eb) retained-Reframed.frame;
      below = λ j h. kept j (omega arith);
      here = λ e. absurd (omega (arith, q.current));
      passed = λ h. rw (kept f.current (omega arith)) (flushed_end va p);
    }

    pub retained-Allocated : Allocated a size align r.ptr a'
    retained-Allocated =
        let low = (p.valid.layout.valid i in_range).low in
        let fits = bumped.fits in
        record {
          valid =
              Pointed-IsValid q (rw eb retained-IsLayout)
                (rw (eb, em, length-set f.blocks i r.block) p.valid.mark_in_range)
                (rw (er, eb, Reframed-total retained-Reframed) p.valid.reserved) (omega arith);
          grown = Grown-trans va.layout.in_range (Flushed-Grown va p) retained-Grown;
          multiple = bumped.multiple;
          start =
              omega (
                arith,
                q.cur_base,
                ap (λ (c : Block). c.base) here,
                bumped_frame.base,
                bumped.above,
              );
          end = omega (
            arith,
            q.cur_ptr,
            ap (λ (c : Block). c.base) here,
            ap (λ (c : Block). c.offset) here,
            bumped_frame.base,
            bumped.end,
          );
          depth = q.txn_depth ∙ ed ∙ p.depth;
          place = inr (
            omega (arith, q.current, p.current),
            omega (
              arith,
              q.bytes_allocated,
              q.cur_ptr,
              q.cur_base,
              ap (λ (c : Block). c.base) here,
              ap (λ (c : Block). c.offset) here,
              bumped_frame.base,
              bumped.delta,
              p.valid.layout.idle i behind in_range,
              p.counted,
            ),
          );
        }
