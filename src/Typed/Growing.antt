-- ===== src/Typed/Growing.antt =====
-- No allocation of a value, a slice or a string loses anything of the arena.
use fastarena_rs.Base.{
  ℕ, ◌≤◌, refl, inl, inr, arith, ◌==◌, Option, none, some, List, length, Outcome, ok, panicked, M,
  Bool-cases, Option-cases, checked_mul, isize_max, IsPow2,
}
use fastarena_rs.Block.{Os}
use fastarena_rs.Arena.{Arena}
use fastarena_rs.Arena.Alloc as Alloc
use fastarena_rs.Arena.Valid.{IsValid, IsFresh}
use fastarena_rs.Arena.Paths.{alloc_raw_inner-After, try_alloc_raw_inner-TryAfter}
use fastarena_rs.Arena.Preserved.{
  Preserved, Preserved-refl, After-Preserved, TryAfter-Preserved, alloc_raw-Preserved,
}
use fastarena_rs.Typed.{
  Mem, Store, with_ptr, with_try, alloc, try_alloc, alloc_uninit, alloc_slice, try_alloc_slice,
  alloc_slice_copy, try_alloc_slice_copy, alloc_str, try_alloc_str, alloc_zeroed,
}
use fastarena_rs.Typed.Strings.{alloc_str_lem, try_alloc_str_lem}

-- Whatever it returns, the arena is valid after it, and has all that it had.
abbrev pub IsGrowing : {A : Type 0} → Os → M Store A → Type 0
IsGrowing os op =
    (s : Store) → IsValid s.arena → IsFresh os s.arena.blocks → Preserved s.arena (op s).1.arena

with_ptr-Preserved :
    {A : Type 0} {a : Arena} (out : Outcome ℕ × Arena) (m : Mem) (f : ℕ → Mem → Outcome A × Mem)
    → Preserved a out.1
    → Preserved a (with_ptr out m f).1.arena
with_ptr-Preserved (ok p, a') m f h = h
with_ptr-Preserved (panicked e, a') m f h = h

with_try-Preserved :
    {A : Type 0} {a : Arena} (out : Outcome (Option ℕ) × Arena) (m : Mem)
    (f : ℕ → Mem → Outcome (Option A) × Mem)
    → Preserved a out.1
    → Preserved a (with_try out m f).1.arena
with_try-Preserved (ok (some p), a') m f h = h
with_try-Preserved (ok none, a') m f h = h
with_try-Preserved (panicked e, a') m f h = h

module _ (os : Os) (align : ℕ) (pow : IsPow2 align) where
  inner-Preserved :
      (size : ℕ) (a : Arena)
      → IsValid a
      → IsFresh os a.blocks
      → Preserved a (Alloc.alloc_raw_inner os size align a).1
  inner-Preserved size a v fresh =
      After-Preserved size align _ (alloc_raw_inner-After os size align v fresh pow)

  try_inner-Preserved :
      (size : ℕ) (a : Arena)
      → IsValid a
      → IsFresh os a.blocks
      → Preserved a (Alloc.try_alloc_raw_inner os size align a).1
  try_inner-Preserved size a v fresh =
      TryAfter-Preserved size align _ (try_alloc_raw_inner-TryAfter os size align v fresh pow)

  pub alloc-IsGrowing : (size : ℕ) (val : List ℕ) → IsGrowing os (alloc os size align val)
  unfolding alloc
  alloc-IsGrowing size val s v fresh = elim (Bool-cases (size == 0)) [
    | inl nothing ↦ rw (nothing, alloc) (Preserved-refl v)
    | inr something ↦
        rw (something, alloc) (with_ptr-Preserved _ _ _ (inner-Preserved size s.arena v fresh))
  ]

  pub try_alloc-IsGrowing : (size : ℕ) (val : List ℕ) → IsGrowing os (try_alloc os size align val)
  unfolding try_alloc
  try_alloc-IsGrowing size val s v fresh = elim (Bool-cases (size == 0)) [
    | inl nothing ↦ rw (nothing, try_alloc) (Preserved-refl v)
    | inr something ↦
        rw (something, try_alloc)
          (with_try-Preserved _ _ _ (try_inner-Preserved size s.arena v fresh))
  ]

  pub alloc_uninit-IsGrowing : (size : ℕ) → IsGrowing os (alloc_uninit os size align)
  unfolding alloc_uninit
  alloc_uninit-IsGrowing size s v fresh = elim (Bool-cases (size == 0)) [
    | inl nothing ↦ rw (nothing, alloc_uninit) (Preserved-refl v)
    | inr something ↦
        rw (something, alloc_uninit)
          (with_ptr-Preserved _ _ _ (inner-Preserved size s.arena v fresh))
  ]

  pub alloc_slice-IsGrowing :
      (size len : ℕ) (iter : List (List ℕ)) → IsGrowing os (alloc_slice os size align len iter)
  unfolding alloc_slice
  alloc_slice-IsGrowing size len iter s v fresh = elim (Bool-cases (len == 0)) [
    | inl nothing ↦ rw (nothing, alloc_slice) (Preserved-refl v)
    | inr something ↦ elim (Option-cases (checked_mul size len)) [
      | inl over ↦ rw (something, over, alloc_slice) (Preserved-refl v)
      | inr (total, e) ↦
          rw (something, e, alloc_slice)
            (with_ptr-Preserved _ _ _ (inner-Preserved total s.arena v fresh))
    ]
  ]

  pub try_alloc_slice-IsGrowing :
      (size len : ℕ) (iter : List (List ℕ)) → IsGrowing os (try_alloc_slice os size align len iter)
  unfolding try_alloc_slice
  try_alloc_slice-IsGrowing size len iter s v fresh = elim (Bool-cases (len == 0)) [
    | inl nothing ↦ rw (nothing, try_alloc_slice) (Preserved-refl v)
    | inr something ↦ elim (Option-cases (checked_mul size len)) [
      | inl over ↦ rw (something, over, try_alloc_slice) (Preserved-refl v)
      | inr (total, e) ↦
          rw (something, e, try_alloc_slice)
            (with_try-Preserved _ _ _ (try_inner-Preserved total s.arena v fresh))
    ]
  ]

  pub alloc_slice_copy-IsGrowing :
      (size : ℕ) (src : List (List ℕ)) → IsGrowing os (alloc_slice_copy os size align src)
  unfolding alloc_slice_copy
  alloc_slice_copy-IsGrowing size src s v fresh = elim (Bool-cases (length src == 0)) [
    | inl nothing ↦ rw (nothing, alloc_slice_copy) (Preserved-refl v)
    | inr something ↦ elim (Option-cases (checked_mul size (length src))) [
      | inl over ↦ rw (something, over, alloc_slice_copy) (Preserved-refl v)
      | inr (total, e) ↦
          rw (something, e, alloc_slice_copy)
            (with_ptr-Preserved _ _ _ (inner-Preserved total s.arena v fresh))
    ]
  ]

  pub try_alloc_slice_copy-IsGrowing :
      (size : ℕ) (src : List (List ℕ)) → IsGrowing os (try_alloc_slice_copy os size align src)
  unfolding try_alloc_slice_copy
  try_alloc_slice_copy-IsGrowing size src s v fresh = elim (Bool-cases (length src == 0)) [
    | inl nothing ↦ rw (nothing, try_alloc_slice_copy) (Preserved-refl v)
    | inr something ↦ elim (Option-cases (checked_mul size (length src))) [
      | inl over ↦ rw (something, over, try_alloc_slice_copy) (Preserved-refl v)
      | inr (total, e) ↦
          rw (something, e, try_alloc_slice_copy)
            (with_try-Preserved _ _ _ (try_inner-Preserved total s.arena v fresh))
    ]
  ]

byte_align : IsPow2 1
byte_align = (0, omega arith, refl)

module _ (os : Os) where
  pub alloc_str-IsGrowing :
      (str : List ℕ) → length str ≤ isize_max → IsGrowing os (alloc_str os str)
  alloc_str-IsGrowing str short s v fresh =
      rw (alloc_str_lem s os str v short)
        (alloc-IsGrowing os 1 byte_align (length str) str s v fresh)

  pub try_alloc_str-IsGrowing : (str : List ℕ) → IsGrowing os (try_alloc_str os str)
  try_alloc_str-IsGrowing str s v fresh =
      rw (try_alloc_str_lem s os str v)
        (try_alloc-IsGrowing os 1 byte_align (length str) str s v fresh)

  pub alloc_zeroed-IsGrowing : (size align : ℕ) → IsGrowing os (alloc_zeroed os size align)
  unfolding alloc_zeroed
  alloc_zeroed-IsGrowing size align s v fresh = elim (Bool-cases (size == 0)) [
    | inl nothing ↦ rw (nothing, alloc_zeroed) (Preserved-refl v)
    | inr something ↦
        rw (something, alloc_zeroed)
          (with_ptr-Preserved _ _ _ (alloc_raw-Preserved os size align v fresh))
  ]
