-- ===== src/Arena/Valid.antt =====
-- The invariant of an arena: its blocks are laid out well, and the cached pointers and counters
-- agree with them.
use fastarena_rs.Base.{
  ℕ, suc, ◌+◌, ◌%◌, ◌≤◌, ◌<◌, ◌≡◌, refl, ◌⊎◌, List, [], ◌∷◌, ◌++◌, length, arith, usize_mod, max,
}
use fastarena_rs.Block.{Block, Os}
use fastarena_rs.Block.Laws as BlockLaws
use fastarena_rs.Arena.{
  Arena, block_at, set_current_block, update_largest, compute_largest_remaining,
}
use fastarena_rs.Arena.Layout.{IsLayout, Reframed}

abbrev pub total_capacity : List Block → ℕ
total_capacity [] = 0
total_capacity (b ∷ bs) = b.capacity + total_capacity bs

pub record IsValid (a : Arena) : Type 0 where
  pub layout : IsLayout a.blocks a.current
  pub base : a.cur_base ≡ (block_at a.blocks a.current).base
  pub end : a.cur_end ≡ a.cur_base + (block_at a.blocks a.current).capacity
  pub ptr_above : a.cur_base ≤ a.cur_ptr
  pub ptr_within : a.cur_ptr ≤ a.cur_end
  pub mark_above : a.current ≤ a.high_water_mark
  pub mark_in_range : a.high_water_mark < length a.blocks
  pub reserved : a.bytes_reserved ≡ total_capacity a.blocks % usize_mod
  pub counted : a.bytes_allocated < usize_mod

-- The system allocator returns memory that the arena does not own yet.
pub record IsFresh (os : Os) (bs : List Block) : Type 0 where
  pub is_os : BlockLaws.IsOs os
  pub apart :
      (size align i : ℕ)
      → 0 < os size align
      → i < length bs
      → ((block_at bs i).base + (block_at bs i).capacity ≤ os size align)
        ⊎ (os size align + size ≤ (block_at bs i).base)

pub total_capacity-append :
    (bs : List Block) (b : Block) → total_capacity (bs ++ (b ∷ [])) ≡ total_capacity bs + b.capacity
total_capacity-append [] b = omega arith
total_capacity-append (c ∷ bs) b = omega (arith, total_capacity-append bs b)

total_of_capacities :
    (bs cs : List Block)
    → length cs ≡ length bs
    → ((i : ℕ) → i < length bs → (block_at cs i).capacity ≡ (block_at bs i).capacity)
    → total_capacity cs ≡ total_capacity bs
total_of_capacities [] [] e h = refl
total_of_capacities [] (c ∷ cs) e h = absurd (omega arith)
total_of_capacities (b ∷ bs) [] e h = absurd (omega arith)
total_of_capacities (b ∷ bs) (c ∷ cs) e h = omega (
  arith,
  h 0 (omega arith),
  total_of_capacities bs cs (omega arith) (λ i p. h (suc i) (omega arith)),
)

pub Reframed-total : {bs cs : List Block} → Reframed bs cs → total_capacity cs ≡ total_capacity bs
Reframed-total {bs} {cs} r = total_of_capacities bs cs r.same_length (λ i h. (r.frame i h).capacity)

-- All of `set_current_block` but the hint for the scan.
pub record Pointed (idx : ℕ) (a a' : Arena) : Type 0 where
  pub blocks : a'.blocks ≡ a.blocks
  pub current : a'.current ≡ idx
  pub next_block_size : a'.next_block_size ≡ a.next_block_size
  pub bytes_allocated : a'.bytes_allocated ≡ a.bytes_allocated
  pub bytes_reserved : a'.bytes_reserved ≡ a.bytes_reserved
  pub txn_depth : a'.txn_depth ≡ a.txn_depth
  pub cur_base : a'.cur_base ≡ (block_at a.blocks idx).base
  pub cur_ptr :
      a'.cur_ptr ≡ ((block_at a.blocks idx).base + (block_at a.blocks idx).offset) % usize_mod
  pub cur_end :
      a'.cur_end ≡ ((block_at a.blocks idx).base + (block_at a.blocks idx).capacity) % usize_mod
  pub mark : a'.high_water_mark ≡ max idx a.high_water_mark

pub set_current_block-Pointed : (idx : ℕ) (a : Arena) → Pointed idx a (set_current_block idx a)
unfolding set_current_block update_largest compute_largest_remaining
set_current_block-Pointed idx a = ground arith

-- `set_current_block` makes an arena valid from its blocks alone.
pub Pointed-IsValid :
    {idx : ℕ} {a a' : Arena}
    → Pointed idx a a'
    → IsLayout a.blocks idx
    → a.high_water_mark < length a.blocks
    → a.bytes_reserved ≡ total_capacity a.blocks % usize_mod
    → a.bytes_allocated < usize_mod
    → IsValid a'
Pointed-IsValid {idx} {a} p l mark reserved counted =
    let v = l.valid idx l.in_range in
    let low = v.low in
    let within = v.within in
    record {
      layout = rw (p.blocks, p.current) l;
      base = rw (p.blocks, p.current) (p.cur_base);
      end = rw (p.blocks, p.current) (omega (arith, p.cur_base, p.cur_end));
      ptr_above = omega (arith, p.cur_base, p.cur_ptr);
      ptr_within = omega (arith, p.cur_ptr, p.cur_end);
      mark_above = omega (arith, p.mark, p.current);
      mark_in_range = rw p.blocks (omega (arith, p.mark, l.in_range));
      reserved = rw (p.blocks, p.bytes_reserved) reserved;
      counted = rw p.bytes_allocated counted;
    }
