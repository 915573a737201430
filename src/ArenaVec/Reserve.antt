-- ===== src/ArenaVec/Reserve.antt =====
-- `with_capacity` and the reservations: room for more elements, and the same elements.
use fastarena_rs.Base.{
  ℕ, ◌+◌, ◌≤◌, ◌<◌, ◌≡◌, refl, inl, inr, List, [], arith, min, true, ltb, ◌&&◌, ◌==◌, if◌then◌else◌,
  Outcome, ok, panicked, usize_mod, usize_max, Bool-cases, is_power_of_two, Result, done, failed,
  ==→eq,
}
use fastarena_rs.Base.Pow2.{IsPow2-of_is_power_of_two, IsPow2-lt, IsPow2-pos}
use fastarena_rs.Block.{Os}
use fastarena_rs.Arena.Valid.{IsFresh, IsValid}
use fastarena_rs.Typed.{Store}
use fastarena_rs.ArenaVec.{
  ArenaVec, TryReserveError, grow_to, try_grow_to, new, with_capacity, reserve, reserve_exact,
  try_reserve, try_reserve_exact,
}
use fastarena_rs.ArenaVec.Frame.{Holds, Became}
use fastarena_rs.ArenaVec.Resize.{
  Reaches, GrowAfter, TryGrowAfter, zero-Resized, unchanged-Resized, zero-Resized,
}
use fastarena_rs.ArenaVec.Grow.{grow_to_lem, try_grow_to_lem}
use fastarena_rs.ArenaVec.Push.{Resized-Became}

module _ (size : ℕ) where
  -- The capacity is there, or the vector has the one that it had; the elements are the same.
  abbrev pub ReserveAfter : ArenaVec → List (List ℕ) → ℕ → Outcome (Unit {0}) × ArenaVec → Type 0
  ReserveAfter v xs required (ok _, w) = Became size v xs w × (required ≤ w.cap) × (v.cap ≤ w.cap)
  ReserveAfter v xs required (panicked e, w) = Became size v xs w × (w.cap ≡ v.cap)

  abbrev pub TryReserveAfter :
      ArenaVec → List (List ℕ) → ℕ → Outcome (Result (Unit {0}) TryReserveError) × ArenaVec → Type 0
  TryReserveAfter v xs required (ok (done _), w) =
      Became size v xs w × (required ≤ w.cap) × (v.cap ≤ w.cap)
  TryReserveAfter v xs required (ok (failed e), w) = Became size v xs w × (w.cap ≡ v.cap)
  TryReserveAfter v xs required (panicked e, w) = Became size v xs w × (w.cap ≡ v.cap)

  GrowAfter-ReserveAfter :
      (v : ArenaVec) (xs : List (List ℕ)) (required : ℕ) (out : Outcome (Unit {0}) × ArenaVec)
      → v.cap < required
      → GrowAfter size v xs required out
      → ReserveAfter v xs required out
  GrowAfter-ReserveAfter v xs required (ok _, w) more r =
      (Resized-Became size r, omega (arith, r.cap), omega (arith, r.cap))
  GrowAfter-ReserveAfter v xs required (panicked e, w) more r = (Resized-Became size r, r.cap)

  TryGrowAfter-TryReserveAfter :
      (v : ArenaVec) (xs : List (List ℕ)) (required : ℕ)
      (out : Outcome (Result (Unit {0}) TryReserveError) × ArenaVec)
      → v.cap < required
      → TryGrowAfter size v xs required out
      → TryReserveAfter v xs required out
  TryGrowAfter-TryReserveAfter v xs required (ok (done _), w) more r =
      (Resized-Became size r, omega (arith, r.cap), omega (arith, r.cap))
  TryGrowAfter-TryReserveAfter v xs required (ok (failed e), w) more r =
      (Resized-Became size r, r.cap)
  TryGrowAfter-TryReserveAfter v xs required (panicked e, w) more r = (Resized-Became size r, r.cap)

  module _ {v : ArenaVec} {xs : List (List ℕ)} (h : Holds size v xs) (os : Os) (align : ℕ)
      (fresh : IsFresh os v.store.arena.blocks) (two : is_power_of_two align ≡ true) where
    unchanged_vec : Became size v xs v
    unchanged_vec = Resized-Became size (unchanged-Resized size h)

    grown_to :
        (required : ℕ)
        → v.len ≤ required
        → Reaches size v required
        → ReserveAfter v xs required
            (if ltb v.cap required then grow_to size os align required v else (ok tt, v))
    grown_to required more reaches = elim (Bool-cases (ltb v.cap required)) [
      | inr enough ↦ rw (enough, ReserveAfter) (unchanged_vec, ground arith, omega arith)
      | inl short ↦
          rw (short, ReserveAfter)
            (GrowAfter-ReserveAfter v xs required _ (ground arith)
              (grow_to_lem size h os align fresh two required (ground arith) more reaches))
    ]

    try_grown_to :
        (required : ℕ)
        → v.len ≤ required
        → Reaches size v required
        → TryReserveAfter v xs required
            (if ltb v.cap required then try_grow_to size os align required v else (ok (done tt), v))
    try_grown_to required more reaches = elim (Bool-cases (ltb v.cap required)) [
      | inr enough ↦ rw (enough, TryReserveAfter) (unchanged_vec, ground arith, omega arith)
      | inl short ↦
          rw (short, TryReserveAfter)
            (TryGrowAfter-TryReserveAfter v xs required _ (ground arith)
              (try_grow_to_lem size h os align fresh two required (ground arith) more reaches))
    ]

    module _ (additional : ℕ) (usize : v.len < usize_mod) where
      pub reserve_lem :
          Reaches size v (min (v.len + additional) usize_max)
          → ReserveAfter v xs
              (min (v.len + additional) usize_max)
              (reserve size os align additional v)
      unfolding reserve
      reserve_lem reaches = grown_to (min (v.len + additional) usize_max) (omega arith) reaches

      pub try_reserve_lem :
          Reaches size v (min (v.len + additional) usize_max)
          → TryReserveAfter v xs
              (min (v.len + additional) usize_max)
              (try_reserve size os align additional v)
      unfolding try_reserve
      try_reserve_lem reaches =
          try_grown_to (min (v.len + additional) usize_max) (omega arith) reaches

    pub reserve_exact_lem :
        (additional : ℕ)
        → Reaches size v (v.len + additional)
        → ReserveAfter v xs (v.len + additional) (reserve_exact size os align additional v)
    unfolding reserve_exact
    reserve_exact_lem additional reaches = elim (Bool-cases (ltb (v.len + additional) usize_mod)) [
      | inr over ↦ rw (over, ReserveAfter, reserve_exact) (unchanged_vec, refl)
      | inl representable ↦
          rw (representable, reserve_exact) (grown_to (v.len + additional) (omega arith) reaches)
    ]

    pub try_reserve_exact_lem :
        (additional : ℕ)
        → Reaches size v (v.len + additional)
        → TryReserveAfter v xs (v.len + additional) (try_reserve_exact size os align additional v)
    unfolding try_reserve_exact
    try_reserve_exact_lem additional reaches =
        elim (Bool-cases (ltb (v.len + additional) usize_mod)) [
          | inr over ↦ rw (over, TryReserveAfter, try_reserve_exact) (unchanged_vec, refl)
          | inl representable ↦
              rw (representable, try_reserve_exact)
                (try_grown_to (v.len + additional) (omega arith) reaches)
        ]

  -- A new vector holds nothing, and its first memory is new.
  pub new-Holds :
      (align : ℕ) (s : Store)
      → is_power_of_two align ≡ true
      → IsValid s.arena
      → Holds size (new align s) []
  unfolding new
  new-Holds align s two v =
      let pow = IsPow2-of_is_power_of_two align two in
      record {
        vec = record {
          valid = v;
          room = λ pos. omega arith;
          owned = λ x from to. absurd (omega arith);
          low = omega (arith, IsPow2-lt pow);
          non_null = omega (arith, IsPow2-pos pow);
        };
        holds = refl;
      }

  pub with_capacity_lem :
      (os : Os) (align n : ℕ) (s : Store)
      → IsValid s.arena
      → IsFresh os s.arena.blocks
      → is_power_of_two align ≡ true
      → GrowAfter size (new align s) [] n (with_capacity size os align n s)
  unfolding with_capacity new
  with_capacity_lem os align n s v fresh two = elim (Bool-cases (ltb 0 n && ltb 0 size)) [
    | inl both ↦
        rw (both, with_capacity)
          (grow_to_lem size (new-Holds align s two v) os align fresh two n (ground arith)
            (omega arith) (inl refl))
    | inr not_both ↦ elim (Bool-cases (size == 0)) [
      | inl nothing ↦
          rw (not_both, nothing, GrowAfter, with_capacity)
            (zero-Resized size (new-Holds align s two v) n (==→eq size 0 nothing))
      | inr something ↦
          let e : n ≡ 0 = ground arith in
          rw (not_both, something, GrowAfter, with_capacity, e)
            (unchanged-Resized size (new-Holds align s two v))
    ]
  ]
