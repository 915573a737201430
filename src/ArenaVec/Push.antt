-- ===== src/ArenaVec/Push.antt =====
-- `push` and `try_push`: one more element at the end, or the same elements and a panic or an error.
use fastarena_rs.Base.{
  ℕ, ◌+◌, ◌*◌, ◌≤◌, ◌<◌, ◌≡◌, refl, sym, ap, ap₂, ◌∙◌, ◌⊎◌, inl, inr, List, [], ◌∷◌, ◌++◌, length,
  arith, true, false, ◌==◌, some, Outcome, ok, panicked, Bool-cases, is_power_of_two, Result, done,
  failed, Option-cases, ==→eq,
}
use fastarena_rs.Block.{Os}
use fastarena_rs.Arena.Valid.{IsFresh}
use fastarena_rs.Arena.Grown.{Grown-refl}
use fastarena_rs.Typed.{write}
use fastarena_rs.Typed.Memory.{read, read-write, write_outside}
use fastarena_rs.Typed.Elements.{elements_ext, elements-snoc}
use fastarena_rs.ArenaVec.{
  ArenaVec, TryReserveError, next_cap, grow, try_grow, write_end, push, push_grown, try_push,
  try_push_grown,
}
use fastarena_rs.ArenaVec.Frame.{Became, Became-trans, IsVec, Holds}
use fastarena_rs.ArenaVec.Resize.{
  Resized, Reaches, GrowAfter, TryGrowAfter, mul_mono, unchanged-Resized,
}
use fastarena_rs.ArenaVec.Grow.{grow_to_lem, try_grow_to_lem}
use native.Mathlib.Decide.{dec_lt}
use native.Mathlib.Nat.{suc-mul, mul_right_comm}

module _ (size : ℕ) where
  pub Resized-Became :
      {v v' : ArenaVec} {xs : List (List ℕ)} {new_cap : ℕ}
      → Resized size v xs new_cap v'
      → Became size v xs v'
  Resized-Became r = record { holds = r.holds; framed = r.framed }

  -- A panic leaves the elements as they were.
  abbrev pub PushAfter :
      ArenaVec → List (List ℕ) → List (List ℕ) → Outcome (Unit {0}) × ArenaVec → Type 0
  PushAfter v xs ys (ok _, v') = Became size v (xs ++ ys) v'
  PushAfter v xs ys (panicked e, v') = Became size v xs v'

  abbrev pub TryPushAfter :
      ArenaVec → List (List ℕ) → List ℕ → Outcome (Result (Unit {0}) (List ℕ)) × ArenaVec → Type 0
  TryPushAfter v xs x (ok (done _), v') = Became size v (xs ++ (x ∷ [])) v'
  TryPushAfter v xs x (ok (failed y), v') = (y ≡ x) × Became size v xs v'
  TryPushAfter v xs x (panicked e, v') = Became size v xs v'

  -- The memory of the first elements is within that of the vector.
  pub slots_within : (cap n : ℕ) → (0 < size → n ≤ cap) → n * size ≤ cap * size
  slots_within cap n h = elim (dec_lt 0 size) [
    | yes some_bytes ↦ mul_mono n cap size (h some_bytes)
    | no nothing ↦ let e : size ≡ 0 = omega arith in omega (arith, ap (λ (k : ℕ). n * k) e)
  ]

  pub write_end-Became :
      {v : ArenaVec} {xs : List (List ℕ)} (x : List ℕ)
      → Holds size v xs
      → (0 < size → v.len < v.cap)
      → length x ≡ size
      → Became size v (xs ++ (x ∷ [])) (write_end size x v)
  write_end-Became {v} {xs} x h spare sized =
      let within = slots_within v.cap (v.len + 1) (λ pos. omega (arith, spare pos)) in
      let step = suc-mul v.len size in
      let last = v.ptr + v.len * size in
      let m' = write v.store.mem last x in
      let apart : (y : ℕ)
          → (y < last) ⊎ (last + length x ≤ y)
          → write v.store.mem last x y ≡ v.store.mem y =
        λ y. write_outside v.store.mem last x y in
      record {
        holds = record {
          vec = record {
            valid = h.vec.valid;
            room = λ pos. omega (arith, spare pos);
            owned = h.vec.owned;
            low = h.vec.low;
            non_null = h.vec.non_null;
          };
          holds =
              elements-snoc m' v.ptr size v.len
              ∙ ap₂ ◌++◌
                  (elements_ext v.store.mem m' v.ptr size v.len
                      (λ y from to. apart y (inl (omega arith)))
                    ∙ h.holds)
                  (ap (λ (r : List ℕ). r ∷ [])
                    (ap (λ (k : ℕ). read m' last k) (sym sized) ∙ read-write v.store.mem last x));
        };
        framed = record {
          grown = Grown-refl v.store.arena;
          depth = refl;
          outside = λ y used out. out;
          kept = λ y used out.
              apart y (elim out [ inl below ↦ inl (omega arith) | inr behind ↦ inr (omega arith) ]);
        };
      }

  -- There is room for one more element; a panic comes before it.
  abbrev ReadyAfter : ArenaVec → List (List ℕ) → Outcome (Unit {0}) × ArenaVec → Type 0
  ReadyAfter v xs (ok _, v') = Became size v xs v' × (0 < size → v'.len < v'.cap)
  ReadyAfter v xs (panicked e, v') = Became size v xs v'

  abbrev TryReadyAfter :
      ArenaVec → List (List ℕ) → Outcome (Result (Unit {0}) TryReserveError) × ArenaVec → Type 0
  TryReadyAfter v xs (ok (done _), v') = Became size v xs v' × (0 < size → v'.len < v'.cap)
  TryReadyAfter v xs (ok (failed e), v') = Became size v xs v'
  TryReadyAfter v xs (panicked e, v') = Became size v xs v'

  Resized-ReadyAfter :
      (v : ArenaVec) (xs : List (List ℕ)) (new_cap : ℕ) (out : Outcome (Unit {0}) × ArenaVec)
      → v.len < new_cap
      → GrowAfter size v xs new_cap out
      → ReadyAfter v xs out
  Resized-ReadyAfter v xs new_cap (ok _, v') more r =
      (Resized-Became r, λ pos. omega (arith, r.len, r.cap))
  Resized-ReadyAfter v xs new_cap (panicked e, v') more r = Resized-Became r

  Resized-TryReadyAfter :
      (v : ArenaVec) (xs : List (List ℕ)) (new_cap : ℕ)
      (out : Outcome (Result (Unit {0}) TryReserveError) × ArenaVec)
      → v.len < new_cap
      → TryGrowAfter size v xs new_cap out
      → TryReadyAfter v xs out
  Resized-TryReadyAfter v xs new_cap (ok (done _), v') more r =
      (Resized-Became r, λ pos. omega (arith, r.len, r.cap))
  Resized-TryReadyAfter v xs new_cap (ok (failed e), v') more r = Resized-Became r
  Resized-TryReadyAfter v xs new_cap (panicked e, v') more r = Resized-Became r

  -- Doubling a vector in the lower half of the address space does not leave it.
  next_cap_lem :
      {v : ArenaVec} (new_cap : ℕ)
      → IsVec size v
      → next_cap v.cap ≡ some new_cap
      → (v.cap < new_cap) × Reaches size v new_cap
  next_cap_lem {v} new_cap vec e = elim (dec_lt 0 v.cap) [
    | no empty ↦ (ground arith, inl (omega arith))
    | yes some_room ↦
        let double : new_cap ≡ v.cap * 2 = ground arith in
        let twice : new_cap * size ≡ 2 * (v.cap * size) =
          omega (arith, ap (λ (k : ℕ). k * size) double, mul_right_comm v.cap 2 size) in
        (omega arith, inr (omega (arith, vec.low, vec.non_null)))
  ]

  module _ (os : Os) (align : ℕ) {v : ArenaVec} {xs : List (List ℕ)} (x : List ℕ)
      (h : Holds size v xs) (fresh : IsFresh os v.store.arena.blocks)
      (two : is_power_of_two align ≡ true) where
    grow_lem : v.len ≡ v.cap → ReadyAfter v xs (grow size os align v)
    unfolding grow
    grow_lem full = elim (Option-cases (next_cap v.cap)) [
      | inl over ↦ rw (over, ReadyAfter, grow) (Resized-Became (unchanged-Resized size h))
      | inr (new_cap, e) ↦
          let (more, reaches) = next_cap_lem new_cap h.vec e in
          rw (e, ReadyAfter, grow)
            (Resized-ReadyAfter v xs new_cap _ (omega arith)
              (grow_to_lem size h os align fresh two new_cap (omega arith) (omega arith) reaches))
    ]

    try_grow_lem : v.len ≡ v.cap → TryReadyAfter v xs (try_grow size os align v)
    unfolding try_grow
    try_grow_lem full = elim (Option-cases (next_cap v.cap)) [
      | inl over ↦ rw (over, TryReadyAfter, try_grow) (Resized-Became (unchanged-Resized size h))
      | inr (new_cap, e) ↦
          let (more, reaches) = next_cap_lem new_cap h.vec e in
          rw (e, TryReadyAfter, try_grow)
            (Resized-TryReadyAfter v xs new_cap _ (omega arith) (
              try_grow_to_lem size h os align fresh two new_cap (omega arith) (omega arith)
                reaches))
    ]

    pushed :
        (out : Outcome (Unit {0}) × ArenaVec)
        → length x ≡ size
        → ReadyAfter v xs out
        → PushAfter v xs (x ∷ []) (push_grown size x out)
    pushed (ok _, v') sized (became, spare) =
        Became-trans size h.vec became (write_end-Became x became.holds spare sized)
    pushed (panicked e, v') sized became = became

    try_pushed :
        (out : Outcome (Result (Unit {0}) TryReserveError) × ArenaVec)
        → length x ≡ size
        → TryReadyAfter v xs out
        → TryPushAfter v xs x (try_push_grown size x out)
    try_pushed (ok (done _), v') sized (became, spare) =
        Became-trans size h.vec became (write_end-Became x became.holds spare sized)
    try_pushed (ok (failed e), v') sized became = (refl, became)
    try_pushed (panicked e, v') sized became = became

    with_room : (v.len == v.cap) ≡ false → Became size v xs v × (0 < size → v.len < v.cap)
    with_room e = (Resized-Became (unchanged-Resized size h), λ pos. ground (arith, h.vec.room pos))

    -- The element comes behind the old ones, or push panics and the vector stands for what it
    -- stood for.
    pub push_lem : length x ≡ size → PushAfter v xs (x ∷ []) (push size os align x v)
    unfolding push
    push_lem sized = elim (Bool-cases (v.len == v.cap)) [
      | inl full ↦
          rw (full, PushAfter, push)
            (pushed (grow size os align v) sized (grow_lem (==→eq _ _ full)))
      | inr room ↦ rw (room, PushAfter, push) (pushed (ok tt, v) sized (with_room room))
    ]

    -- The element comes behind the old ones, or it is handed back.
    pub try_push_lem : length x ≡ size → TryPushAfter v xs x (try_push size os align x v)
    unfolding try_push
    try_push_lem sized = elim (Bool-cases (v.len == v.cap)) [
      | inl full ↦
          rw (full, TryPushAfter, try_push)
            (try_pushed (try_grow size os align v) sized (try_grow_lem (==→eq _ _ full)))
      | inr room ↦
          rw (room, TryPushAfter, try_push) (try_pushed (ok (done tt), v) sized (with_room room))
    ]
