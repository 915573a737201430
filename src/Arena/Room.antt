-- ===== src/Arena/Room.antt =====
-- A request for which the current block has room is served from it.
use fastarena_rs.Base.{
  ℕ, ◌+◌, ◌%◌, ◌≤◌, ◌<◌, ◌≡◌, ap, ap₂, ◌∙◌, true, false, some, ok, arith, ltb, leb, ◌==◌, usize_mod,
  add_usize, is_power_of_two,
}
use fastarena_rs.Block.{Os, min_block_align, align_up}
use fastarena_rs.Block.Align.{IsAligned-least}
use fastarena_rs.Arena.{Arena}
use fastarena_rs.Arena.Alloc.{
  alloc_raw, try_alloc_raw, alloc_raw_inner, try_alloc_raw_inner, aligned_ptr, bump,
}
use fastarena_rs.Arena.Valid.{IsValid}
use fastarena_rs.Arena.Paths.{aligned_ptr_lem, cur_ptr-IsAligned}
use fastarena_rs.Base.Pow2.{IsPow2-of_is_power_of_two}

-- The fast path.
pub alloc_raw-fast :
    (a : Arena) (os : Os) (size align : ℕ)
    → IsValid a
    → is_power_of_two align ≡ true
    → align ≤ min_block_align
    → 0 < size
    → align_up a.cur_ptr align + size ≤ a.cur_end
    → (alloc_raw os size align a
        ≡ (ok (align_up a.cur_ptr align), record a { cur_ptr = align_up a.cur_ptr align + size }))
      × (try_alloc_raw os size align a ≡ (
        ok (some (align_up a.cur_ptr align)),
        record a { cur_ptr = align_up a.cur_ptr align + size },
      ))
unfolding alloc_raw try_alloc_raw alloc_raw_inner try_alloc_raw_inner
alloc_raw-fast a os size align v two low pos fits =
    let top = (v.layout.valid a.current v.layout.in_range).low in
    let more : (size == 0) ≡ false = ground arith in
    let small : ltb min_block_align align ≡ false = ground arith in
    let sum : ltb (align_up a.cur_ptr align + size) usize_mod ≡ true =
      ground (arith, v.base, v.end) in
    let within : leb (align_up a.cur_ptr align + size) a.cur_end ≡ true = ground arith in
    let pointer : aligned_ptr a align ≡ align_up a.cur_ptr align =
      aligned_ptr_lem size align v (IsPow2-of_is_power_of_two align two) fits in
    let end : add_usize (align_up a.cur_ptr align) size ≡ align_up a.cur_ptr align + size =
      omega (arith, v.base, v.end) in
    let moved : bump a size align ≡ record a { cur_ptr = align_up a.cur_ptr align + size } =
      ap (λ (k : ℕ). record a { cur_ptr = k }) (ap (λ (k : ℕ). add_usize k size) pointer ∙ end) in
    (
      rw (two, more, small, sum, within) (ap₂ (λ (p : ℕ) (b : Arena). (ok p, b)) pointer moved),
      rw (two, more, small, sum, within)
          (ap₂ (λ (p : ℕ) (b : Arena). (ok (some p), b)) pointer moved),
    )

-- In a valid arena, for a size that is not zero and a power of two up to 64: when the free rest
-- of the current block has size bytes from some multiple of the alignment on, alloc_raw and
-- try_alloc_raw serve the request, whatever the system allocator answers, from a multiple of the
-- alignment that is not behind that one, and only the bump pointer moves, to the end of the
-- range.
pub alloc_raw-room :
    (a : Arena) (os : Os) (size align free : ℕ)
    → IsValid a
    → is_power_of_two align ≡ true
    → align ≤ min_block_align
    → 0 < size
    → free % align ≡ 0
    → a.cur_ptr ≤ free
    → free + size ≤ a.cur_end
    → (p : ℕ) × (p % align ≡ 0)
      × (a.cur_ptr ≤ p)
      × (p ≤ free)
      × (alloc_raw os size align a ≡ (ok p, record a { cur_ptr = p + size }))
      × (try_alloc_raw os size align a ≡ (ok (some p), record a { cur_ptr = p + size }))
alloc_raw-room a os size align free v two low pos multiple above within =
    let aligned = cur_ptr-IsAligned size align v (IsPow2-of_is_power_of_two align two) in
    let first = IsAligned-least free aligned multiple above in
    let (served, try_served) = alloc_raw-fast a os size align v two low pos (omega arith) in
    (align_up a.cur_ptr align, aligned.multiple, aligned.above, first, served, try_served)
