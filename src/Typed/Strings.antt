-- ===== src/Typed/Strings.antt =====
-- The fast path of the strings is a special case of the bump of the arena.
use fastarena_rs.Base.{
  ℕ, ◌+◌, ◌≤◌, ◌≡◌, refl, ap, ◌∙◌, inl, inr, List, length, arith, ◌==◌, true, false, none, some, ok,
  Bool-cases, ltb, leb, usize_mod, isize_max, add_usize, sub_usize,
}
use fastarena_rs.Block.{Os, align_up}
use fastarena_rs.Block.Align.{align_up-IsAligned}
use fastarena_rs.Arena.{Arena}
use fastarena_rs.Arena.Alloc as Alloc
use fastarena_rs.Arena.Alloc.{dangling}
use fastarena_rs.Arena.Valid.{IsValid}
use fastarena_rs.Typed.{
  Store, alloc, try_alloc, alloc_str, alloc_slow_str, try_alloc_str, try_alloc_slow_str,
}

module _ (os : Os) (a : Arena) (n : ℕ) (v : IsValid a) where
  align_one : align_up a.cur_ptr 1 ≡ a.cur_ptr
  align_one =
      let low = (v.layout.valid a.current v.layout.in_range).low in
      let h =
        align_up-IsAligned a.cur_ptr 1 (0, omega arith, refl)
          (omega (arith, v.ptr_within, v.base, v.end, low)) in
      omega (arith, h.above, h.near)

  fast :
      leb (a.cur_ptr + n) a.cur_end ≡ true
      → (Alloc.alloc_raw_inner os n 1 a
          ≡ (ok a.cur_ptr, record a { cur_ptr = add_usize a.cur_ptr n }))
        × (Alloc.try_alloc_raw_inner os n 1 a
            ≡ (ok (some a.cur_ptr), record a { cur_ptr = add_usize a.cur_ptr n }))
  unfolding Alloc.alloc_raw_inner Alloc.try_alloc_raw_inner
  fast fits =
      let low = (v.layout.valid a.current v.layout.in_range).low in
      let sum : ltb (align_up a.cur_ptr 1 + n) usize_mod ≡ true =
        rw align_one (ground (arith, v.base, v.end)) in
      let within : leb (align_up a.cur_ptr 1 + n) a.cur_end ≡ true = rw align_one fits in
      let same : Alloc.aligned_ptr a 1 ≡ a.cur_ptr =
        ap (λ (k : ℕ). add_usize a.cur_ptr (sub_usize k a.cur_ptr)) align_one
        ∙ omega (arith, v.base, v.end, v.ptr_within) in
      (
        rw (sum, within) (ap (λ (k : ℕ). (ok k, record a { cur_ptr = add_usize k n })) same),
        rw (sum, within) (ap (λ (k : ℕ). (ok (some k), record a { cur_ptr = add_usize k n })) same),
      )

  over_end :
      ltb (a.cur_ptr + n) usize_mod ≡ false → Alloc.try_alloc_raw_inner os n 1 a ≡ (ok none, a)
  unfolding Alloc.try_alloc_raw_inner
  over_end over =
      let over_one : ltb (align_up a.cur_ptr 1 + n) usize_mod ≡ false = rw align_one over in
      rw over_one refl

module _ (s : Store) (os : Os) (str : List ℕ) (v : IsValid s.arena) where
  -- In a valid arena, for a length that a slice can have, alloc_str does what alloc does with the
  -- bytes of the string as a value of alignment 1.
  pub alloc_str_lem : length str ≤ isize_max → alloc_str os str s ≡ alloc os (length str) 1 str s
  unfolding alloc_str alloc alloc_slow_str
  alloc_str_lem small = elim (Bool-cases (length str == 0)) [
    | inl empty ↦ rw empty refl
    | inr more ↦ elim (Bool-cases (leb (add_usize s.arena.cur_ptr (length str)) s.arena.cur_end)) [
      | inl fits ↦
          let low = (v.layout.valid s.arena.current v.layout.in_range).low in
          let within : leb (s.arena.cur_ptr + length str) s.arena.cur_end ≡ true =
            ground (arith, fits, v.base, v.end, v.ptr_within) in
          rw (more, fits, (fast os s.arena (length str) v within).0) refl
      | inr full ↦ rw (more, full) refl
    ]
  ]

  -- In a valid arena try_alloc_str does what try_alloc does with the bytes of the string as a
  -- value of alignment 1.
  pub try_alloc_str_lem : try_alloc_str os str s ≡ try_alloc os (length str) 1 str s
  unfolding try_alloc_str try_alloc try_alloc_slow_str
  try_alloc_str_lem = elim (Bool-cases (length str == 0)) [
    | inl empty ↦ rw empty refl
    | inr more ↦ elim (Bool-cases (ltb (s.arena.cur_ptr + length str) usize_mod)) [
      | inr over ↦ rw (more, over, over_end os s.arena (length str) v over) refl
      | inl sum ↦ elim (Bool-cases (leb (s.arena.cur_ptr + length str) s.arena.cur_end)) [
        | inl within ↦ rw (more, sum, within, (fast os s.arena (length str) v within).1) refl
        | inr full ↦ rw (more, sum, full) refl
      ]
    ]
  ]
