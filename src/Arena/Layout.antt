-- ===== src/Arena/Layout.antt =====
-- The blocks of an arena as a list: valid, apart from one another, idle behind the current one.
use fastarena_rs.Base.{
  ℕ, ◌+◌, ◌≤◌, ◌<◌, ◌≡◌, refl, ◌≢◌, ◌⊎◌, List, [], ◌∷◌, ◌++◌, length, set, arith, length-append,
  length-set, get_or-set_self, get_or-set_ne, get_or-append_left, get_or-append_last,
}
use fastarena_rs.Block.{Block}
use fastarena_rs.Block.Laws as BlockLaws
use fastarena_rs.Arena.{block_at, no_block}
use native.Mathlib.Decide.{ℕ_discrete}

-- No address lies in both.
abbrev pub Apart : Block → Block → Type 0
Apart b c = (b.base + b.capacity ≤ c.base) ⊎ (c.base + c.capacity ≤ b.base)

-- The same memory, perhaps with another offset.
pub record SameFrame (b c : Block) : Type 0 where
  pub base : c.base ≡ b.base
  pub capacity : c.capacity ≡ b.capacity
  pub align : c.align ≡ b.align

pub SameFrame-refl : (b : Block) → SameFrame b b
SameFrame-refl b = record { base = refl; capacity = refl; align = refl }

pub SameFrame-trans : {b c d : Block} → SameFrame b c → SameFrame c d → SameFrame b d
SameFrame-trans p q = ground arith

pub record IsLayout (bs : List Block) (current : ℕ) : Type 0 where
  pub in_range : current < length bs
  pub valid : (i : ℕ) → i < length bs → BlockLaws.IsValid (block_at bs i)
  pub idle : (i : ℕ) → current < i → i < length bs → (block_at bs i).offset ≡ 0
  pub apart : (i j : ℕ) → i < j → j < length bs → Apart (block_at bs i) (block_at bs j)

-- A change of offsets only.
pub record Reframed (bs cs : List Block) : Type 0 where
  pub same_length : length cs ≡ length bs
  pub frame : (i : ℕ) → i < length bs → SameFrame (block_at bs i) (block_at cs i)
  pub within : (i : ℕ) → i < length bs → (block_at cs i).offset ≤ (block_at bs i).capacity

pub Reframed-trans : {bs cs ds : List Block} → Reframed bs cs → Reframed cs ds → Reframed bs ds
Reframed-trans p q = record {
  same_length = omega arith;
  frame = λ i h. SameFrame-trans (p.frame i h) (q.frame i (omega arith));
  within = λ i h. ground (arith, p.frame i h, q.within i);
}

IsValid-of_frame :
    {b c : Block}
    → BlockLaws.IsValid b
    → SameFrame b c
    → c.offset ≤ b.capacity
    → BlockLaws.IsValid c
IsValid-of_frame v f h = record {
  nonempty = ground arith;
  non_null = ground arith;
  within = ground arith;
  low = ground arith;
  min_align = ground arith;
  aligned = ground arith;
}

-- What is left to show of a list after a change of offsets is that the blocks behind are idle.
pub Reframed-IsLayout :
    {bs cs : List Block} {k n : ℕ}
    → IsLayout bs k
    → Reframed bs cs
    → n < length bs
    → ((i : ℕ) → n < i → i < length bs → (block_at cs i).offset ≡ 0)
    → IsLayout cs n
Reframed-IsLayout l r lt idle = record {
  in_range = omega (arith, r.same_length);
  valid = λ i h.
      let h' : i < _ = rw r.same_length at h in
      IsValid-of_frame (l.valid i h') (r.frame i h') (r.within i h');
  idle = λ i p h. idle i p (rw r.same_length at h);
  apart = λ i j p h.
      let h' : j < _ = rw r.same_length at h in
      ground (arith, l.apart i j p h', r.frame i (omega arith), r.frame j h');
}

-- A store at one index.
pub block_at-set_self :
    (bs : List Block) (i : ℕ) (b : Block) → i < length bs → block_at (set bs i b) i ≡ b
block_at-set_self bs i b h = get_or-set_self bs i b no_block h

pub block_at-set_ne :
    (bs : List Block) (i j : ℕ) (b : Block) → i ≢ j → block_at (set bs i b) j ≡ block_at bs j
block_at-set_ne bs i j b h = get_or-set_ne bs i j b no_block h

pub set-Reframed :
    {bs : List Block} {k : ℕ} (i : ℕ) (b : Block)
    → IsLayout bs k
    → SameFrame (block_at bs i) b
    → b.offset ≤ (block_at bs i).capacity
    → Reframed bs (set bs i b)
set-Reframed {bs} i b l f w = record {
  same_length = length-set bs i b;
  frame = λ j h. elim (ℕ_discrete i j) [
    | yes e ↦ rw (← e, block_at-set_self bs i b (rw (← e) at h)) f
    | no ne ↦ rw (block_at-set_ne bs i j b ne) (SameFrame-refl (block_at bs j))
  ];
  within = λ j h. elim (ℕ_discrete i j) [
    | yes e ↦ rw (← e, block_at-set_self bs i b (rw (← e) at h)) w
    | no ne ↦ rw (block_at-set_ne bs i j b ne) ((l.valid j h).within)
  ];
}

-- A new block at the end, as the current one.
pub append-IsLayout :
    {bs : List Block} {k : ℕ} (b : Block)
    → IsLayout bs k
    → BlockLaws.IsValid b
    → ((i : ℕ) → i < length bs → Apart (block_at bs i) b)
    → IsLayout (bs ++ (b ∷ [])) (length bs)
append-IsLayout {bs} b l v apart = record {
  in_range = omega (arith, length-append bs (b ∷ []));
  valid = λ i h. elim (ℕ_discrete i (length bs)) [
    | yes e ↦ rw (get_or-append_last bs b no_block i e) v
    | no ne ↦
        let h' : i < length bs = omega (arith, length-append bs (b ∷ [])) in
        rw (get_or-append_left bs (b ∷ []) i no_block h') (l.valid i h')
  ];
  idle = λ i p h. absurd (omega (arith, length-append bs (b ∷ [])));
  apart = λ i j p h. elim (ℕ_discrete j (length bs)) [
    | yes e ↦
        let h' : i < length bs = omega arith in
        rw (get_or-append_last bs b no_block j e, get_or-append_left bs (b ∷ []) i no_block h')
          (apart i h')
    | no ne ↦
        let h' : j < length bs = omega (arith, length-append bs (b ∷ [])) in
        rw
          (
            get_or-append_left bs (b ∷ []) i no_block (omega arith),
            get_or-append_left bs (b ∷ []) j no_block h',
          )
          (l.apart i j p h')
  ];
}
