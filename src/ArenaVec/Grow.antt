-- ===== src/ArenaVec/Grow.antt =====
-- Growth keeps the elements, in place and by moving.
use fastarena_rs.Base.{
  ℕ, ◌*◌, ◌≤◌, ◌<◌, ◌≡◌, inl, inr, List, arith, true, ltb, ◌==◌, Option, none, some, Outcome, ok,
  panicked, usize_mod, Bool-cases, is_power_of_two, ==→eq,
}
use fastarena_rs.Block.{Os}
use fastarena_rs.Arena.Alloc as Alloc
use fastarena_rs.Arena.Valid.{IsFresh}
use fastarena_rs.Arena.Safety.{After, TryAfter}
use fastarena_rs.Arena.Paths.{alloc_raw-After, try_alloc_raw-TryAfter}
use fastarena_rs.ArenaVec.{
  ArenaVec, try_grow_to, try_relocated, grow_to, extends_in_place, relocated,
}
use fastarena_rs.ArenaVec.Frame.{Holds}
use native.Mathlib.Nat.{mul-pos}
use fastarena_rs.Base.Pow2.{IsPow2-of_is_power_of_two}
use fastarena_rs.Arena.{Arena}
use fastarena_rs.ArenaVec.InPlace.{extended-Resized}
use fastarena_rs.ArenaVec.Resize.{
  Reaches, GrowAfter, TryGrowAfter, moved-Resized, Failed-Resized, zero-Resized, unchanged-Resized,
}

module _ (size : ℕ) {v : ArenaVec} {xs : List (List ℕ)} (h : Holds size v xs) (os : Os) (align : ℕ)
    (fresh : IsFresh os v.store.arena.blocks) (two : is_power_of_two align ≡ true) where
  relocated-Resized :
      (new_cap : ℕ) (out : Outcome ℕ × Arena)
      → v.len ≤ new_cap
      → After v.store.arena (new_cap * size) align out
      → GrowAfter size v xs new_cap (relocated size new_cap out v)
  relocated-Resized new_cap (ok p, a) enough k = moved-Resized size h align new_cap p enough k
  relocated-Resized new_cap (panicked e, a) enough k = Failed-Resized size h a k

  -- Growth to at least the length leaves the elements as they are, whether it moves them or not.
  pub grow_to_lem :
      (new_cap : ℕ)
      → 0 < new_cap
      → v.len ≤ new_cap
      → Reaches size v new_cap
      → GrowAfter size v xs new_cap (grow_to size os align new_cap v)
  unfolding grow_to
  grow_to_lem new_cap pos enough reaches = elim (Bool-cases (size == 0)) [
    | inl nothing ↦
        rw (nothing, GrowAfter, grow_to) (zero-Resized size h new_cap (==→eq size 0 nothing))
    | inr something ↦ elim (Bool-cases (extends_in_place size new_cap v)) [
      | inl fits ↦
          rw (something, fits, GrowAfter, grow_to) (extended-Resized size h new_cap reaches fits)
      | inr moves ↦ elim (Bool-cases (ltb (new_cap * size) usize_mod)) [
        | inr over ↦ rw (something, moves, over, GrowAfter, grow_to) (unchanged-Resized size h)
        | inl representable ↦
            rw (something, moves, representable, GrowAfter, grow_to)
              (relocated-Resized new_cap (Alloc.alloc_raw os (new_cap * size) align v.store.arena)
                enough
                (alloc_raw-After os (new_cap * size) align h.vec.valid fresh
                  (IsPow2-of_is_power_of_two align two) two (mul-pos pos (ground arith))))
      ]
    ]
  ]

  try_relocated-Resized :
      (new_cap : ℕ) (out : Outcome (Option ℕ) × Arena)
      → v.len ≤ new_cap
      → TryAfter v.store.arena (new_cap * size) align out
      → TryGrowAfter size v xs new_cap (try_relocated size new_cap out v)
  try_relocated-Resized new_cap (ok (some p), a) enough k =
      moved-Resized size h align new_cap p enough k
  try_relocated-Resized new_cap (ok none, a) enough k = Failed-Resized size h a k
  try_relocated-Resized new_cap (panicked e, a) enough k = Failed-Resized size h a k

  pub try_grow_to_lem :
      (new_cap : ℕ)
      → 0 < new_cap
      → v.len ≤ new_cap
      → Reaches size v new_cap
      → TryGrowAfter size v xs new_cap (try_grow_to size os align new_cap v)
  unfolding try_grow_to
  try_grow_to_lem new_cap pos enough reaches = elim (Bool-cases (size == 0)) [
    | inl nothing ↦
        rw (nothing, TryGrowAfter, try_grow_to) (zero-Resized size h new_cap (==→eq size 0 nothing))
    | inr something ↦ elim (Bool-cases (extends_in_place size new_cap v)) [
      | inl fits ↦
          rw (something, fits, TryGrowAfter, try_grow_to)
            (extended-Resized size h new_cap reaches fits)
      | inr moves ↦ elim (Bool-cases (ltb (new_cap * size) usize_mod)) [
        | inr over ↦
            rw (something, moves, over, TryGrowAfter, try_grow_to) (unchanged-Resized size h)
        | inl representable ↦
            rw (something, moves, representable, TryGrowAfter, try_grow_to)
              (try_relocated-Resized new_cap
                (Alloc.try_alloc_raw os (new_cap * size) align v.store.arena) enough
                (try_alloc_raw-TryAfter os (new_cap * size) align h.vec.valid fresh
                  (IsPow2-of_is_power_of_two align two) two (mul-pos pos (ground arith))))
      ]
    ]
  ]
