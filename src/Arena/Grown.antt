-- ===== src/Arena/Grown.antt =====
-- What an allocation may do to an arena, and what a successful one promises.
use fastarena_rs.Base.{
  ℕ, ◌+◌, ◌-◌, ◌%◌, ◌≤◌, ◌<◌, ◌≡◌, ◌*◌, ◌%◌, usize_mod, refl, ◌∙◌, ◌⊎◌, inl, inr, ◌≢◌, length,
  arith,
}
use fastarena_rs.Arena.{Arena, block_at}
use fastarena_rs.Arena.Layout.{SameFrame, SameFrame-refl, SameFrame-trans, Reframed}
use fastarena_rs.Arena.Valid.{IsValid}
use native.Mathlib.Decide.{dec_lt}

-- Memory in use before is in use after: blocks are never lost, moved or taken back.
pub record Grown (a a' : Arena) : Type 0 where
  pub forward : a.current ≤ a'.current
  pub longer : length a.blocks ≤ length a'.blocks
  pub frame : (i : ℕ) → i < length a.blocks → SameFrame (block_at a.blocks i) (block_at a'.blocks i)
  pub below : (i : ℕ) → i < a.current → block_at a'.blocks i ≡ block_at a.blocks i
  pub here : a'.current ≡ a.current → a.cur_ptr ≤ a'.cur_ptr
  pub passed :
      a.current < a'.current
      → a.cur_ptr ≤ (block_at a.blocks a.current).base + (block_at a'.blocks a.current).offset

pub Grown-refl : (a : Arena) → Grown a a
Grown-refl a = record {
  forward = omega arith;
  longer = omega arith;
  frame = λ i h. SameFrame-refl _;
  below = λ i h. refl;
  here = λ e. omega arith;
  passed = λ h. absurd (omega arith);
}

pub Grown-trans : {a b c : Arena} → a.current < length a.blocks → Grown a b → Grown b c → Grown a c
Grown-trans {a} {b} {c} ok p q = record {
  forward = omega (arith, p.forward, q.forward);
  longer = omega (arith, p.longer, q.longer);
  frame = λ i h. SameFrame-trans (p.frame i h) (q.frame i (omega (arith, p.longer)));
  below = λ i h. q.below i (omega (arith, p.forward)) ∙ p.below i h;
  here = λ e. omega (
    arith,
    p.forward,
    q.forward,
    p.here (omega (arith, p.forward, q.forward)),
    q.here (omega (arith, p.forward, q.forward)),
  );
  passed = λ h. elim (dec_lt a.current b.current) [
    | yes lt ↦ rw (q.below a.current lt) (p.passed lt)
    | no ge ↦
        let e : b.current ≡ a.current = omega (arith, p.forward) in
        let f = p.frame a.current ok in
        let frame_base = f.base in
        let reached : b.cur_ptr
            ≤ (block_at b.blocks a.current).base + (block_at c.blocks a.current).offset =
          rw e at (q.passed (rw e h)) in
        omega (arith, p.here e)
  ];
}

-- The addresses in use: of every passed block up to its offset, and of the current one up to the
-- bump pointer.
abbrev pub Used : Arena → ℕ → Type 0
Used a x =
    ((i : ℕ) × (i < a.current)
      × ((block_at a.blocks i).base ≤ x)
      × (x < (block_at a.blocks i).base + (block_at a.blocks i).offset))
    ⊎ ((a.cur_base ≤ x) × (x < a.cur_ptr))

-- The bytes that `stats` counts.
abbrev pub count : Arena → ℕ
count a = (a.bytes_allocated + (a.cur_ptr - a.cur_base)) % usize_mod

-- `size` bytes at `p` have been handed out. In a block that was not the current one, what is in use
-- of it has been counted twice.
pub record Allocated (a : Arena) (size align p : ℕ) (a' : Arena) : Type 0 where
  pub valid : IsValid a'
  pub grown : Grown a a'
  pub multiple : p % align ≡ 0
  pub start : a'.cur_base ≤ p
  pub end : p + size ≡ a'.cur_ptr
  pub depth : a'.txn_depth ≡ a.txn_depth
  pub place :
      ((a'.current ≡ a.current)
        × (a.cur_ptr ≤ p)
        × (count a' ≡ (count a + (a'.cur_ptr - a.cur_ptr)) % usize_mod))
      ⊎ ((a.current < a'.current)
          × (count a' ≡ (count a + 2 * (a'.cur_ptr - a'.cur_base)) % usize_mod))

-- Nothing has been handed out. The bytes of the current block may have been counted once more.
pub record Failed (a a' : Arena) : Type 0 where
  pub valid : IsValid a'
  pub grown : Grown a a'
  pub current : a'.current ≡ a.current
  pub cur_ptr : a'.cur_ptr ≡ a.cur_ptr
  pub same_length : length a'.blocks ≡ length a.blocks
  pub depth : a'.txn_depth ≡ a.txn_depth
  pub counts : (count a' ≡ count a) ⊎ (count a' ≡ (count a + (a.cur_ptr - a.cur_base)) % usize_mod)

pub Failed-refl : {a : Arena} → IsValid a → Failed a a
Failed-refl {a} v = record {
  valid = v;
  grown = Grown-refl a;
  current = refl;
  cur_ptr = refl;
  same_length = refl;
  depth = refl;
  counts = inl refl;
}

-- The state of a slow path after `finish_slow_path`: the offset of the current block is stored.
pub record Flushed (a f : Arena) : Type 0 where
  pub valid : IsValid f
  pub blocks : Reframed a.blocks f.blocks
  pub others : (i : ℕ) → i ≢ a.current → block_at f.blocks i ≡ block_at a.blocks i
  pub offset : (block_at f.blocks a.current).offset ≡ a.cur_ptr - a.cur_base
  pub current : f.current ≡ a.current
  pub cur_ptr : f.cur_ptr ≡ a.cur_ptr
  pub cur_base : f.cur_base ≡ a.cur_base
  pub counted : f.bytes_allocated ≡ count a
  pub depth : f.txn_depth ≡ a.txn_depth

pub Flushed-Grown : {a f : Arena} → IsValid a → Flushed a f → Grown a f
Flushed-Grown {a} {f} v p = record {
  forward = omega (arith, p.current);
  longer = omega (arith, p.blocks.same_length);
  frame = p.blocks.frame;
  below = λ i h. p.others i (omega arith);
  here = λ e. omega (arith, p.cur_ptr);
  passed = λ h. absurd (omega (arith, p.current));
}

pub Flushed-Failed : {a f : Arena} → IsValid a → Flushed a f → Failed a f
Flushed-Failed {a} {f} v p = record {
  valid = p.valid;
  grown = Flushed-Grown v p;
  current = p.current;
  cur_ptr = p.cur_ptr;
  same_length = p.blocks.same_length;
  depth = p.depth;
  counts = inr (omega (arith, p.cur_ptr, p.cur_base, p.counted));
}
