-- ===== src/Arena/Slow.antt =====
-- The steps of the slow path: the flush, a new block, a retained block.
use fastarena_rs.Base.{
  ℕ, ◌+◌, ◌-◌, ◌%◌, ◌≤◌, ◌<◌, ◌≡◌, refl, sym, ap, ◌∙◌, ◌≢◌, inr, [], ◌∷◌, ◌++◌, length, set, arith,
  usize_mod, length-append, length-set, get_or-append_left, get_or-append_last,
}
use fastarena_rs.Block.{Block, Bump}
use fastarena_rs.Block.Laws as BlockLaws
use fastarena_rs.Block.Laws.{Bumped}
use fastarena_rs.Arena.{Arena, block_at, no_block, set_offset, current_used}
use fastarena_rs.Arena.Alloc.{finish_slow_path}
use fastarena_rs.Arena.Layout.{
  Apart, SameFrame, SameFrame-refl, IsLayout, Reframed, Reframed-IsLayout, set-Reframed,
  append-IsLayout, block_at-set_self, block_at-set_ne,
}
use fastarena_rs.Arena.Valid.{IsValid, Pointed, Pointed-IsValid, total_capacity, Reframed-total}
use fastarena_rs.Arena.Grown.{Grown, Grown-trans, count, Allocated, Flushed, Flushed-Grown}

pub current_used_lem : {a : Arena} → IsValid a → current_used a ≡ a.cur_ptr - a.cur_base
unfolding current_used
current_used_lem {a} v =
    let b = v.layout.valid a.current v.layout.in_range in
    let low = b.low in omega (arith, v.ptr_above, v.ptr_within, v.base, v.end)

-- The same arena with the offset of the current block stored.
record Stored (a f : Arena) (b : Block) : Type 0 where
  blocks : f.blocks ≡ set a.blocks a.current b
  current : f.current ≡ a.current
  cur_base : f.cur_base ≡ a.cur_base
  cur_ptr : f.cur_ptr ≡ a.cur_ptr
  cur_end : f.cur_end ≡ a.cur_end
  mark : f.high_water_mark ≡ a.high_water_mark
  reserved : f.bytes_reserved ≡ a.bytes_reserved
  depth : f.txn_depth ≡ a.txn_depth
  counted : f.bytes_allocated ≡ count a

module _ {a f : Arena} {b : Block} (v : IsValid a) (s : Stored a f b)
    (frame : SameFrame (block_at a.blocks a.current) b)
    (offset : b.offset ≡ a.cur_ptr - a.cur_base) where
  Stored-Reframed : Reframed a.blocks (set a.blocks a.current b)
  Stored-Reframed =
      set-Reframed a.current b v.layout frame (omega (arith, v.ptr_above, v.ptr_within, v.end))

  Stored-others :
      (i : ℕ) → i ≢ a.current → block_at (set a.blocks a.current b) i ≡ block_at a.blocks i
  Stored-others i ne = block_at-set_ne a.blocks a.current i b (λ e. ne (omega arith))

  Stored-here : block_at (set a.blocks a.current b) a.current ≡ b
  Stored-here = block_at-set_self a.blocks a.current b v.layout.in_range

  Stored-IsLayout : IsLayout (set a.blocks a.current b) a.current
  Stored-IsLayout =
      Reframed-IsLayout v.layout Stored-Reframed v.layout.in_range
        λ i p h. rw (Stored-others i (omega arith)) (v.layout.idle i p h)

  Stored-IsValid : IsValid f
  Stored-IsValid = record {
    layout = rw (s.blocks, s.current) Stored-IsLayout;
    base = rw (s.blocks, s.current, Stored-here) (s.cur_base ∙ v.base ∙ sym frame.base);
    end =
        rw (s.blocks, s.current, Stored-here)
          (omega (arith, s.cur_end, s.cur_base, v.end, frame.capacity));
    ptr_above = omega (arith, s.cur_base, s.cur_ptr, v.ptr_above);
    ptr_within = omega (arith, s.cur_end, s.cur_ptr, v.ptr_within);
    mark_above = omega (arith, s.current, s.mark, v.mark_above);
    mark_in_range = rw (s.blocks, length-set a.blocks a.current b, s.mark) v.mark_in_range;
    reserved = rw (s.blocks, s.reserved, Reframed-total Stored-Reframed) v.reserved;
    counted = omega (arith, s.counted);
  }

  Stored-Flushed : Flushed a f
  Stored-Flushed = record {
    valid = Stored-IsValid;
    blocks = rw s.blocks Stored-Reframed;
    others = rw s.blocks Stored-others;
    offset = rw (s.blocks, Stored-here) offset;
    current = s.current;
    cur_ptr = s.cur_ptr;
    cur_base = s.cur_base;
    counted = s.counted;
    depth = s.depth;
  }

-- `finish_slow_path` keeps the invariant and stores the offset of the current block.
pub finish_slow_path-Flushed : {a : Arena} → IsValid a → Flushed a (finish_slow_path a)
unfolding finish_slow_path set_offset
finish_slow_path-Flushed {a} v =
    Stored-Flushed {b = record (block_at a.blocks a.current) { offset = current_used a }} v
      (record {
        blocks = refl;
        current = refl;
        cur_base = refl;
        cur_ptr = refl;
        cur_end = refl;
        mark = refl;
        reserved = refl;
        depth = refl;
        counted = omega (arith, current_used_lem v);
      })
      (record { base = refl; capacity = refl; align = refl }) (current_used_lem v)

-- After the flush the stored offset ends where the bump pointer stands.
pub flushed_end :
    {a f : Arena}
    → IsValid a
    → Flushed a f
    → f.cur_ptr ≤ (block_at f.blocks f.current).base + (block_at f.blocks f.current).offset
flushed_end {a} {f} v p =
    let frame = p.blocks.frame a.current v.layout.in_range in
    rw p.current (omega (arith, frame.base, p.offset, p.cur_ptr, v.base, v.ptr_above))

-- A new block with its first allocation.
module _ {a f : Arena} {b : Block} {size align : ℕ} {r : Bump} (va : IsValid a) (p : Flushed a f)
    (v : BlockLaws.IsValid b) (empty : b.offset ≡ 0) (bumped : Bumped b size align r)
    (apart : (i : ℕ) → i < length f.blocks → Apart (block_at f.blocks i) b) where
  bumped_block-IsValid : BlockLaws.IsValid r.block
  bumped_block-IsValid = rw bumped.block (record {
    nonempty = v.nonempty;
    non_null = v.non_null;
    within = bumped.fits;
    low = v.low;
    min_align = v.min_align;
    aligned = v.aligned;
  })

  push_block-IsLayout : IsLayout (f.blocks ++ (r.block ∷ [])) (length f.blocks)
  push_block-IsLayout =
      append-IsLayout r.block p.valid.layout bumped_block-IsValid λ i h. rw bumped.block (apart i h)

  module _ (a' : Arena) (pushed : Arena) (eb : pushed.blocks ≡ f.blocks ++ (r.block ∷ []))
      (em : pushed.high_water_mark ≡ f.high_water_mark) (ed : pushed.txn_depth ≡ f.txn_depth)
      (er : pushed.bytes_reserved ≡ total_capacity (f.blocks ++ (r.block ∷ [])) % usize_mod)
      (ec : pushed.bytes_allocated ≡ (f.bytes_allocated + r.delta) % usize_mod)
      (q : Pointed (length f.blocks) pushed a') where
    last : block_at pushed.blocks (length f.blocks) ≡ r.block
    last = rw eb (get_or-append_last f.blocks r.block no_block (length f.blocks) refl)

    kept : (i : ℕ) → i < length f.blocks → block_at a'.blocks i ≡ block_at f.blocks i
    kept i h = rw (q.blocks, eb) (get_or-append_left f.blocks (r.block ∷ []) i no_block h)

    push-Grown : Grown f a'
    push-Grown = record {
      forward = omega (arith, q.current, p.valid.layout.in_range);
      longer = rw (q.blocks, eb) (omega (arith, length-append f.blocks (r.block ∷ [])));
      frame = λ i h. rw (kept i h) (SameFrame-refl (block_at f.blocks i));
      below = λ i h. kept i (omega (arith, p.valid.layout.in_range));
      here = λ e. absurd (omega (arith, q.current, p.valid.layout.in_range));
      passed = λ h. rw (kept f.current p.valid.layout.in_range) (flushed_end va p);
    }

    pub push-Allocated : Allocated a size align r.ptr a'
    push-Allocated =
        let low = v.low in
        let fits = bumped.fits in
        let kept_base : r.block.base ≡ b.base = rw bumped.block in
        record {
          valid =
              Pointed-IsValid q (rw eb push_block-IsLayout)
                (rw (eb, em)
                  (omega (arith, length-append f.blocks (r.block ∷ []), p.valid.mark_in_range)))
                (rw (er, eb)) (omega arith);
          grown = Grown-trans va.layout.in_range (Flushed-Grown va p) push-Grown;
          multiple = bumped.multiple;
          start = omega (arith, q.cur_base, ap (λ (c : Block). c.base) last, bumped.above);
          end = omega (
            arith,
            q.cur_ptr,
            ap (λ (c : Block). c.base) last,
            ap (λ (c : Block). c.offset) last,
            bumped.end,
          );
          depth = q.txn_depth ∙ ed ∙ p.depth;
          place = inr (
            omega (arith, q.current, p.current, p.valid.layout.in_range),
            omega (
              arith,
              q.bytes_allocated,
              q.cur_ptr,
              q.cur_base,
              ap (λ (c : Block). c.base) last,
              ap (λ (c : Block). c.offset) last,
              bumped.delta,
              p.counted,
            ),
          );
        }
