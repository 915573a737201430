-- ===== src/ArenaVec/Bulk/Room.antt =====
-- Within the capacity no push asks the arena, and a reservation makes that capacity.
use fastarena_rs.Base.{
  ℕ, ◌+◌, ◌*◌, ◌≤◌, ◌<◌, ◌≡◌, refl, List, [], ◌∷◌, length, arith, false, ltb, ◌==◌, Outcome, ok,
  panicked, usize_mod, usize_max, min, inl, inr, Bool-cases, ap, sym,
}
use fastarena_rs.Block.{Os}
use fastarena_rs.Arena.{Arena}
use fastarena_rs.Arena.Alloc as Alloc
use fastarena_rs.ArenaVec.{ArenaVec, write_end, push, reserve, grow_to, relocated, extends_in_place}
use fastarena_rs.ArenaVec.Bulk.{extend}

module _ (size align : ℕ) where
  -- A capacity that has been reached is the one that was asked for.
  abbrev CapAfter : ArenaVec → ℕ → Outcome (Unit {0}) × ArenaVec → Type 0
  CapAfter v n (ok _, w) = (w.cap ≡ n) × (w.len ≡ v.len)
  CapAfter v n (panicked e, w) = Unit {0}

  relocated-cap :
      (v : ArenaVec) (n : ℕ) (out : Outcome ℕ × Arena) → CapAfter v n (relocated size n out v)
  relocated-cap v n (ok p, a) = (refl, refl)
  relocated-cap v n (panicked e, a) = tt

  grow_to-cap : (os : Os) (n : ℕ) (v : ArenaVec) → CapAfter v n (grow_to size os align n v)
  unfolding grow_to
  grow_to-cap os n v = elim (Bool-cases (size == 0)) [
    | inl nothing ↦ rw (nothing, CapAfter, grow_to) (refl, refl)
    | inr something ↦ elim (Bool-cases (extends_in_place size n v)) [
      | inl fits ↦ rw (something, fits, CapAfter, grow_to) (refl, refl)
      | inr moves ↦ elim (Bool-cases (ltb (n * size) usize_mod)) [
        | inr over ↦ rw (something, moves, over, CapAfter, grow_to) tt
        | inl representable ↦
            rw (something, moves, representable, CapAfter, grow_to)
              (relocated-cap v n (Alloc.alloc_raw os (n * size) align v.store.arena))
      ]
    ]
  ]

  reserve-cap :
      (os : Os) (additional : ℕ) (v w : ArenaVec)
      → v.len + additional < usize_mod
      → reserve size os align additional v ≡ (ok tt, w)
      → w.len + additional ≤ w.cap
  unfolding reserve
  reserve-cap os additional v w small e =
      elim (Bool-cases (ltb v.cap (min (v.len + additional) usize_max))) [
        | inr enough ↦
            let same : w ≡ v =
              sym (ap (λ (r : Outcome (Unit {0}) × ArenaVec). r.1) (rw (enough, reserve) at e)) in
            rw same (ground arith)
        | inl short ↦
            let grown : grow_to size os align (min (v.len + additional) usize_max) v ≡ (ok tt, w) =
              rw (short, reserve) at e in
            let (reached, kept) : CapAfter v (min (v.len + additional) usize_max) (ok tt, w) =
              rw grown at (grow_to-cap os (min (v.len + additional) usize_max) v) in
            omega arith
      ]

  -- The vector has the memory that it had.
  abbrev pub SameRoom : ArenaVec → Outcome (Unit {0}) × ArenaVec → Type 0
  SameRoom v out =
      (out.0 ≡ ok tt)
      × (out.1.cap ≡ v.cap)
      × (out.1.ptr ≡ v.ptr)
      × (out.1.store.arena ≡ v.store.arena)

  extend-room :
      (iter : List (Os × List ℕ)) (v : ArenaVec)
      → v.len + length iter ≤ v.cap
      → SameRoom v (extend size align iter v)
  unfolding extend push
  extend-room [] v fits = (refl, refl, refl, refl)
  extend-room ((os, x) ∷ iter) v fits =
      let room : (v.len == v.cap) ≡ false = ground arith in
      rw (room, extend, push) (extend-room iter (write_end size x v) (omega arith))

  -- When reserve returns, with no overflow of the length that is asked for, then extending the
  -- vector by at most as many elements as were reserved returns, and asks the arena for nothing:
  -- pointer, capacity and arena are as they were.
  pub extend-reserve :
      (os : Os) (additional : ℕ) (iter : List (Os × List ℕ)) (v w : ArenaVec)
      → v.len + additional < usize_mod
      → length iter ≤ additional
      → reserve size os align additional v ≡ (ok tt, w)
      → SameRoom w (extend size align iter w)
  extend-reserve os additional iter v w small fits e =
      extend-room iter w (omega (arith, reserve-cap os additional v w small e))
