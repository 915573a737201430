-- ===== src/Arena/Restore.antt =====
-- A checkpoint undoes what came after it.
use fastarena_rs.Base.{
  ℕ, ◌+◌, ◌-◌, ◌≤◌, ◌<◌, ◌≡◌, ◌↔◌, ◌∙◌, inl, inr, length, arith, ok, panicked, usize_mod,
  checkpoint_out_of_range, le→ltb,
}
use fastarena_rs.Arena.{Arena, Checkpoint, block_at, checkpoint, stats, rewind}
use fastarena_rs.Arena.Layout.{SameFrame, SameFrame-trans}
use fastarena_rs.Arena.Valid.{IsValid}
use fastarena_rs.Arena.Grown.{Grown, Used}
use fastarena_rs.Arena.Slow.{current_used_lem}
use fastarena_rs.Arena.Rewind.{IsCheckpoint, Rewound, rewind-Rewound}

-- The same position, the same count, and the same addresses in use.
pub record Restored (a a'' : Arena) : Type 0 where
  pub valid : IsValid a''
  pub current : a''.current ≡ a.current
  pub cur_base : a''.cur_base ≡ a.cur_base
  pub cur_ptr : a''.cur_ptr ≡ a.cur_ptr
  pub cur_end : a''.cur_end ≡ a.cur_end
  pub counted : (stats a'').bytes_allocated ≡ (stats a).bytes_allocated
  pub below : (i : ℕ) → i < a.current → block_at a''.blocks i ≡ block_at a.blocks i
  pub longer : length a.blocks ≤ length a''.blocks
  pub frame :
      (i : ℕ) → i < length a.blocks → SameFrame (block_at a.blocks i) (block_at a''.blocks i)

checkpoint-offset : {a : Arena} → IsValid a → (checkpoint a).offset ≡ a.cur_ptr - a.cur_base
unfolding checkpoint
checkpoint-offset v = current_used_lem v

pub checkpoint-IsCheckpoint :
    {a a' : Arena} → IsValid a → IsValid a' → Grown a a' → IsCheckpoint (checkpoint a) a'
unfolding checkpoint
checkpoint-IsCheckpoint {a} v v' g = record {
  reached = g.forward;
  within = omega (
    arith,
    current_used_lem v,
    (g.frame a.current v.layout.in_range).capacity,
    v.ptr_above,
    v.ptr_within,
    v.end,
  );
}

checkpoint-lt : (a : Arena) → (checkpoint a).bytes_allocated < usize_mod
unfolding checkpoint
checkpoint-lt a = omega arith

Rewound-Restored :
    {a a' a'' : Arena} → IsValid a → Grown a a' → Rewound (checkpoint a) a' a'' → Restored a a''
unfolding checkpoint stats
Rewound-Restored {a} {a'} {a''} v g r =
    let here : a''.current ≡ a.current = r.current in
    let there = g.frame a.current v.layout.in_range in
    let kept = r.frame a.current (omega (arith, g.longer, v.layout.in_range)) in
    let base : a''.cur_base ≡ (block_at a''.blocks a.current).base = rw (← here) (r.valid.base) in
    let end : a''.cur_end ≡ a''.cur_base + (block_at a''.blocks a.current).capacity =
      rw (← here) (r.valid.end) in
    let same_base : a''.cur_base ≡ a.cur_base =
      omega (arith, base, kept.base, there.base, v.base) in
    record {
      valid = r.valid;
      current = here;
      cur_base = same_base;
      cur_ptr = omega (arith, r.cur_ptr, same_base, current_used_lem v, v.ptr_above);
      cur_end = omega (arith, end, same_base, kept.capacity, there.capacity, v.end);
      counted = r.counted;
      below = λ i lt. r.below i lt ∙ g.below i lt;
      longer = omega (arith, r.same_length, g.longer);
      frame = λ i h. SameFrame-trans (g.frame i h) (r.frame i (omega (arith, g.longer)));
    }

-- When an arena has become another valid one without losing memory in use, as by allocations,
-- rewinding that one to a checkpoint of the first, valid one succeeds and gives back the
-- position, the count of stats and the passed blocks as they were.
pub rewind-checkpoint :
    {a a' : Arena}
    → IsValid a
    → IsValid a'
    → Grown a a'
    → (a'' : Arena) × (rewind (checkpoint a) a' ≡ (ok tt, a''))
      × Restored a a''
      × (a''.txn_depth ≡ a'.txn_depth)
rewind-checkpoint {a} {a'} v v' g =
    let (a'', done, r) = rewind-Rewound v' (checkpoint-IsCheckpoint v v' g) (checkpoint-lt a) in
    (a'', done, Rewound-Restored v g r, r.depth)

-- Two arenas at the same position, over the same passed blocks, have the same addresses in use.
pub Restored-Used : {a a'' : Arena} (x : ℕ) → Restored a a'' → Used a'' x ↔ Used a x
Restored-Used {a} {a''} x r = (down, up)
  where
    down : Used a'' x → Used a x
    down (inl (i, lt, from, to)) =
        let lt' : i < a.current = omega (arith, r.current) in
        inl (i, lt', rw (r.below i lt') at from, rw (r.below i lt') at to)
    down (inr (from, to)) = inr (omega (arith, r.cur_base), omega (arith, r.cur_ptr))

    up : Used a x → Used a'' x
    up (inl (i, lt, from, to)) =
        inl (i, omega (arith, r.current), rw (r.below i lt) from, rw (r.below i lt) to)
    up (inr (from, to)) = inr (omega (arith, r.cur_base), omega (arith, r.cur_ptr))

-- A checkpoint of a block that the arena does not have is refused, and the arena is left as it is.
pub rewind_out_of_range :
    (cp : Checkpoint) (a : Arena)
    → length a.blocks ≤ cp.block_idx
    → rewind cp a ≡ (panicked checkpoint_out_of_range, a)
unfolding rewind
rewind_out_of_range cp a h = rw (le→ltb cp.block_idx (length a.blocks) h)

pub Restored-Grown : {a a'' : Arena} → Restored a a'' → Grown a a''
Restored-Grown {a} {a''} r = record {
  forward = omega (arith, r.current);
  longer = r.longer;
  frame = r.frame;
  below = r.below;
  here = λ _. omega (arith, r.cur_ptr);
  passed = λ h. absurd (omega (arith, r.current));
}
