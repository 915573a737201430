-- ===== src/Arena/Search.antt =====
-- The search for a retained block that is large enough: what `reset` notes for it, and the scan.
use fastarena_rs.Base.{
  ℕ, zero, suc, ◌+◌, ◌≤◌, ◌<◌, ◌≡◌, refl, inl, inr, List, [], ◌∷◌, length, arith, true, some, ltb,
  leb, if◌then◌else◌, Bool-cases, Option-cases,
}
use fastarena_rs.Block
use fastarena_rs.Block.{Block, Bump}
use fastarena_rs.Arena.{block_at, largest_capacity}
use fastarena_rs.Arena.Alloc.{scan}

-- The loop of `reset` finds a capacity that no block exceeds.
largest_capacity-above :
    (bs : List Block) (i max_rem max_idx : ℕ) → max_rem ≤ (largest_capacity bs i max_rem max_idx).0
unfolding largest_capacity
largest_capacity-above [] i max_rem max_idx = omega arith
largest_capacity-above (b ∷ bs) i max_rem max_idx =
    let more =
      largest_capacity-above bs (i + 1) (if ltb max_rem b.capacity then b.capacity else max_rem)
        (if ltb max_rem b.capacity then i else max_idx) in
    ground (arith, more)

pub largest_capacity-each :
    (bs : List Block) (i max_rem max_idx j : ℕ)
    → j < length bs
    → (block_at bs j).capacity ≤ (largest_capacity bs i max_rem max_idx).0
unfolding largest_capacity
largest_capacity-each [] i max_rem max_idx j h = absurd (omega arith)
largest_capacity-each (b ∷ bs) i max_rem max_idx zero h =
    let more =
      largest_capacity-above bs (i + 1) (if ltb max_rem b.capacity then b.capacity else max_rem)
        (if ltb max_rem b.capacity then i else max_idx) in
    ground (arith, more)
largest_capacity-each (b ∷ bs) i max_rem max_idx (suc j) h =
    largest_capacity-each bs (i + 1) (if ltb max_rem b.capacity then b.capacity else max_rem)
      (if ltb max_rem b.capacity then i else max_idx) j (omega arith)

-- The scan finds a block if there is one.
pub scan_finds :
    (bs : List Block) (from size align j : ℕ) (s : Bump)
    → j < length bs
    → leb align (block_at bs j).align ≡ true
    → Block.try_alloc (block_at bs j) size align ≡ some s
    → (i : ℕ) × (r : Bump) × (scan bs from size align ≡ some (i, r))
unfolding scan
scan_finds [] from size align j s h wide room = absurd (omega arith)
scan_finds (b ∷ bs) from size align zero s h wide room = (from, s, rw (wide, room, scan) refl)
scan_finds (b ∷ bs) from size align (suc j) s h wide room =
    let (i, r, found) = scan_finds bs (from + 1) size align j s (omega arith) wide room in
    elim (Bool-cases (leb align b.align)) [
      | inr narrow ↦ (i, r, rw (narrow, scan) found)
      | inl enough ↦ elim (Option-cases (Block.try_alloc b size align)) [
        | inl full ↦ (i, r, rw (enough, full, scan) found)
        | inr (t, here) ↦ (from, t, rw (enough, here, scan) refl)
      ]
    ]
