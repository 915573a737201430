-- ===== src/Arena/Clear.antt =====
-- The loop that sets a range of offsets to 0.
use fastarena_rs.Base.{
  ℕ, zero, suc, ◌+◌, ◌≤◌, ◌<◌, ◌≡◌, refl, ap, ◌∙◌, ◌≢◌, ◌⊎◌, List, length, arith, length-set,
}
use fastarena_rs.Block.{Block}
use fastarena_rs.Arena.{block_at, set_offset, clear_offsets}
use fastarena_rs.Arena.Layout.{
  SameFrame-refl, IsLayout, Reframed, Reframed-trans, block_at-set_self, block_at-set_ne,
}
use native.Mathlib.Decide.{ℕ_discrete}

-- Every offset lies in its block: what a change of offsets needs and keeps.
abbrev pub Within : List Block → Type 0
Within bs = (i : ℕ) → i < length bs → (block_at bs i).offset ≤ (block_at bs i).capacity

pub IsLayout-Within : {bs : List Block} {k : ℕ} → IsLayout bs k → Within bs
IsLayout-Within l i h = (l.valid i h).within

pub Reframed-Within : {bs cs : List Block} → Reframed bs cs → Within cs
Reframed-Within r i h = let h' = rw r.same_length at h in rw (r.frame i h').capacity (r.within i h')

pub Reframed-refl : (bs : List Block) → Within bs → Reframed bs bs
Reframed-refl bs w = record {
  same_length = refl;
  frame = λ i h. SameFrame-refl (block_at bs i);
  within = w;
}

pub block_at-set_offset_self :
    (bs : List Block) (i n : ℕ) → i < length bs → (block_at (set_offset bs i n) i).offset ≡ n
unfolding set_offset
block_at-set_offset_self bs i n h = rw (block_at-set_self bs i _ h)

pub block_at-set_offset_ne :
    (bs : List Block) (i j n : ℕ) → i ≢ j → block_at (set_offset bs i n) j ≡ block_at bs j
unfolding set_offset
block_at-set_offset_ne bs i j n h = block_at-set_ne bs i j _ h

-- A store of an offset that lies in its block.
pub set_offset-Reframed :
    (bs : List Block) (i n : ℕ)
    → Within bs
    → n ≤ (block_at bs i).capacity
    → Reframed bs (set_offset bs i n)
unfolding set_offset
set_offset-Reframed bs i n w h = record {
  same_length = length-set bs i _;
  frame = λ j p. elim (ℕ_discrete i j) [
    | yes e ↦
        rw (← e, block_at-set_self bs i (record (block_at bs i) { offset = n }) (rw (← e) at p))
          (record { base = refl; capacity = refl; align = refl })
    | no ne ↦ rw (block_at-set_ne bs i j _ ne) (SameFrame-refl (block_at bs j))
  ];
  within = λ j p. elim (ℕ_discrete i j) [
    | yes e ↦
        rw (← e, block_at-set_self bs i (record (block_at bs i) { offset = n }) (rw (← e) at p)) h
    | no ne ↦ rw (block_at-set_ne bs i j _ ne) (w j p)
  ];
}

pub clear_offsets-Reframed :
    (lo n : ℕ) (bs : List Block) → Within bs → Reframed bs (clear_offsets lo n bs)
unfolding clear_offsets
clear_offsets-Reframed lo zero bs w = Reframed-refl bs w
clear_offsets-Reframed lo (suc n) bs w =
    let first = set_offset-Reframed bs lo 0 w (omega arith) in
    Reframed-trans first
      (clear_offsets-Reframed (lo + 1) n (set_offset bs lo 0) (Reframed-Within first))

-- Outside the range nothing changes.
pub block_at-clear_offsets_out :
    (lo n : ℕ) (bs : List Block) (i : ℕ)
    → (i < lo) ⊎ (lo + n ≤ i)
    → block_at (clear_offsets lo n bs) i ≡ block_at bs i
unfolding clear_offsets
block_at-clear_offsets_out lo zero bs i h = refl
block_at-clear_offsets_out lo (suc n) bs i h =
    block_at-clear_offsets_out (lo + 1) n (set_offset bs lo 0) i (omega arith)
    ∙ block_at-set_offset_ne bs lo i 0 (λ e. omega arith)

-- Inside it every offset is 0.
pub offset-clear_offsets_in :
    (lo n : ℕ) (bs : List Block) (i : ℕ)
    → lo ≤ i
    → i < lo + n
    → i < length bs
    → (block_at (clear_offsets lo n bs) i).offset ≡ 0
unfolding clear_offsets set_offset
offset-clear_offsets_in lo zero bs i p q h = absurd (omega arith)
offset-clear_offsets_in lo (suc n) bs i p q h = elim (ℕ_discrete lo i) [
  | yes e ↦
      ap (λ (b : Block). b.offset)
        (block_at-clear_offsets_out (lo + 1) n (set_offset bs lo 0) i (omega arith))
      ∙ rw (← e) (block_at-set_offset_self bs lo 0 (rw (← e) at h))
  | no ne ↦
      offset-clear_offsets_in (lo + 1) n (set_offset bs lo 0) i (omega arith) (omega arith)
        (rw (length-set bs lo _) h)
]
