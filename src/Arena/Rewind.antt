-- ===== src/Arena/Rewind.antt =====
-- `rewind` and `reset`: the invariant, and what they give back.
use fastarena_rs.Base.{
  ℕ, ◌+◌, ◌-◌, ◌^◌, ◌≤◌, ◌<◌, ◌≡◌, ◌∙◌, inl, inr, List, length, arith, ok, lt→ltb, sub_usize,
  usize_mod,
}
use fastarena_rs.Block.{Block}
use fastarena_rs.Arena.{
  Arena, Checkpoint, block_at, clear_offsets, current_used, stats, rewind, rewound,
  set_current_block,
}
use fastarena_rs.Arena.Layout.{SameFrame, IsLayout, Reframed, Reframed-trans, Reframed-IsLayout}
use fastarena_rs.Arena.Valid.{
  IsValid, Pointed, Pointed-IsValid, set_current_block-Pointed, Reframed-total,
}
use fastarena_rs.Arena.Clear.{
  IsLayout-Within, Reframed-Within, set_offset-Reframed, clear_offsets-Reframed,
  block_at-clear_offsets_out, offset-clear_offsets_in, block_at-set_offset_self,
  block_at-set_offset_ne,
}
use native.Mathlib.Decide.{dec_lt}

-- A checkpoint that an arena may be rewound to: of a block that has been reached, with an offset
-- inside it.
pub record IsCheckpoint (cp : Checkpoint) (a : Arena) : Type 0 where
  pub reached : cp.block_idx ≤ a.current
  pub within : cp.offset ≤ (block_at a.blocks cp.block_idx).capacity

-- The subtraction in `rewind` and the addition in `stats` cancel, also where they wrap.
rewound_count :
    (a : Arena) (cp : Checkpoint) (b : Block)
    → cp.bytes_allocated < usize_mod
    → cp.offset ≤ b.capacity
    → a.bytes_allocated ≡ sub_usize cp.bytes_allocated cp.offset
    → a.cur_ptr ≡ a.cur_base + cp.offset
    → b.base + b.capacity ≤ 2 ^ 63
    → (stats a).bytes_allocated ≡ cp.bytes_allocated
unfolding stats current_used
rewound_count a cp b fits within e moved low = omega arith

module _ {a : Arena} {cp : Checkpoint} (v : IsValid a) (c : IsCheckpoint cp a) where
  in_range : cp.block_idx < length a.blocks
  in_range = omega (arith, c.reached, v.layout.in_range)

  abbrev swept : List Block
  swept = clear_offsets (cp.block_idx + 1) (a.current - cp.block_idx) a.blocks

  swept-Reframed : Reframed a.blocks swept
  swept-Reframed =
      clear_offsets-Reframed (cp.block_idx + 1) (a.current - cp.block_idx) a.blocks
        (IsLayout-Within v.layout)

  rewound-Reframed : Reframed a.blocks (rewound cp a).blocks
  rewound-Reframed = Reframed-trans swept-Reframed (
      set_offset-Reframed swept cp.block_idx cp.offset (Reframed-Within swept-Reframed)
        (rw (swept-Reframed.frame cp.block_idx in_range).capacity c.within))

  rewound-idle :
      (i : ℕ)
      → cp.block_idx < i
      → i < length a.blocks
      → (block_at (rewound cp a).blocks i).offset ≡ 0
  rewound-idle i lt h =
      rw (block_at-set_offset_ne swept cp.block_idx i cp.offset (λ e. omega arith))
        (elim (dec_lt a.current i) [
          | yes behind ↦
              rw
                (block_at-clear_offsets_out (cp.block_idx + 1) (a.current - cp.block_idx) a.blocks i
                  (inr (omega (arith, c.reached))))
                (v.layout.idle i behind h)
          | no ahead ↦
              offset-clear_offsets_in (cp.block_idx + 1) (a.current - cp.block_idx) a.blocks i
                (omega arith) (omega (arith, c.reached)) h
        ])

  -- Below the checkpoint's block nothing changes.
  rewound-below :
      (i : ℕ) → i < cp.block_idx → block_at (rewound cp a).blocks i ≡ block_at a.blocks i
  rewound-below i lt =
      block_at-set_offset_ne swept cp.block_idx i cp.offset (λ e. omega arith)
      ∙ block_at-clear_offsets_out (cp.block_idx + 1) (a.current - cp.block_idx) a.blocks i
          (inl (omega arith))

  rewound-IsLayout : IsLayout (rewound cp a).blocks cp.block_idx
  rewound-IsLayout = Reframed-IsLayout v.layout rewound-Reframed in_range rewound-idle

  rewound-offset : (block_at (rewound cp a).blocks cp.block_idx).offset ≡ cp.offset
  rewound-offset =
      block_at-set_offset_self swept cp.block_idx cp.offset (rw swept-Reframed.same_length in_range)

  abbrev back : Arena
  back = set_current_block cp.block_idx (rewound cp a)

  rewind-ok : rewind cp a ≡ (ok tt, back)
  unfolding rewind
  rewind-ok = rw (lt→ltb cp.block_idx (length a.blocks) in_range)

  abbrev pointed : Pointed cp.block_idx (rewound cp a) back
  pointed = set_current_block-Pointed cp.block_idx (rewound cp a)

  back-IsValid : IsValid back
  back-IsValid =
      Pointed-IsValid pointed rewound-IsLayout (rw rewound-Reframed.same_length v.mark_in_range)
        (rw (Reframed-total rewound-Reframed) v.reserved) (omega arith)

-- The arena after a rewind: the checkpoint's position and count, the memory that it had and the
-- blocks below the checkpoint's.
pub record Rewound (cp : Checkpoint) (a a' : Arena) : Type 0 where
  pub valid : IsValid a'
  pub current : a'.current ≡ cp.block_idx
  pub cur_ptr : a'.cur_ptr ≡ a'.cur_base + cp.offset
  pub counted : (stats a').bytes_allocated ≡ cp.bytes_allocated
  pub bytes_reserved : a'.bytes_reserved ≡ a.bytes_reserved
  pub same_length : length a'.blocks ≡ length a.blocks
  pub frame : (i : ℕ) → i < length a.blocks → SameFrame (block_at a.blocks i) (block_at a'.blocks i)
  pub below : (i : ℕ) → i < cp.block_idx → block_at a'.blocks i ≡ block_at a.blocks i
  pub depth : a'.txn_depth ≡ a.txn_depth
  pub next_block_size : a'.next_block_size ≡ a.next_block_size

-- Rewinding a valid arena to a checkpoint of a block that it has reached, with an offset inside
-- that block and a count that fits a word, succeeds: the arena is valid, its bump pointer stands
-- at the checkpoint, stats counts the bytes of the checkpoint, every block is kept, and the
-- blocks below are as they were.
pub rewind-Rewound :
    {a : Arena} {cp : Checkpoint}
    → IsValid a
    → IsCheckpoint cp a
    → cp.bytes_allocated < usize_mod
    → (a' : Arena) × (rewind cp a ≡ (ok tt, a')) × Rewound cp a a'
rewind-Rewound {a} {cp} v c fits =
    let p = pointed v c in
    let b = back-IsValid v c in
    let frame = rewound-Reframed v c in
    let at_offset = rewound-offset v c in
    let low = (v.layout.valid cp.block_idx (in_range v c)).low in
    let here = frame.frame cp.block_idx (in_range v c) in
    let moved : (back v c).cur_ptr ≡ (back v c).cur_base + cp.offset =
      omega (arith, p.cur_ptr, p.cur_base, at_offset, here.base, here.capacity, c.within) in
    (
      back v c,
      rewind-ok v c,
      record {
        valid = b;
        current = p.current;
        cur_ptr = moved;
        counted =
            rewound_count (back v c) cp (block_at a.blocks cp.block_idx) fits (c.within)
              p.bytes_allocated moved low;
        bytes_reserved = p.bytes_reserved;
        same_length = rw p.blocks frame.same_length;
        frame = rw p.blocks frame.frame;
        below = rw p.blocks (rewound-below v c);
        depth = p.txn_depth;
        next_block_size = p.next_block_size;
      },
    )
