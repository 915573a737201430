-- ===== src/ArenaVec/Cost.antt =====
-- vec/arena_vec.rs: how many elements `push` writes, also where it moves the vector, and how far
-- the capacity is from the length.
use fastarena_rs.Base.{
  ℕ, ◌+◌, ◌*◌, ◌≤◌, ◌<◌, ◌≡◌, refl, ap, ◌∙◌, ◌⊎◌, inl, inr, List, [], ◌∷◌, length, arith, ltb, ◌==◌,
  some, Outcome, ok, panicked, checked_mul, Bool-cases, Option-cases, ==→eq,
}
use fastarena_rs.Block.{Os}
use fastarena_rs.Arena.{Arena}
use fastarena_rs.Arena.Alloc as Alloc
use fastarena_rs.Typed.{Mem, Store, write}
use fastarena_rs.Typed.Memory.{read, write_outside}
use fastarena_rs.Typed.Elements.{length-read}
use fastarena_rs.ArenaVec.{
  ArenaVec, new, next_cap, grow, grow_to, extends_in_place, push, relocated, moved, push_grown,
  slot,
}

-- At most `n` bytes differ: those from some address on.
abbrev pub WritesWithin : ℕ → Mem → Mem → Type 0
WritesWithin n m m' = (start : ℕ) × ((x : ℕ) → (x < start) ⊎ (start + n ≤ x) → m' x ≡ m x)

module _ (size align : ℕ) where
  -- A sequence of pushes, each with the system allocator as it is then. It goes on after one that
  -- panics.
  unfoldable pub push_all : List (Os × List ℕ) → ArenaVec → ArenaVec
  push_all [] v = v
  push_all ((os, x) ∷ rest) v = push_all rest (push size os align x v).1

  -- The pushes change the memory of at most `n` elements altogether.
  abbrev pub Written : List (Os × List ℕ) → ArenaVec → ℕ → Type 0
  Written [] v n = n ≡ 0
  Written ((os, x) ∷ rest) v n =
      let v' = (push size os align x v).1 in
      (k m : ℕ) × (n ≡ k + m) × WritesWithin (k * size) v.store.mem v'.store.mem × Written rest v' m

  abbrev pub Sized : List (Os × List ℕ) → Type 0
  Sized [] = Unit
  Sized ((os, x) ∷ rest) = (length x ≡ size) × Sized rest

  -- Nothing has been written for an empty vector, or so little that the capacity and the length pay
  -- for it; and the capacity is not much more than twice the length.
  abbrev Paid : ArenaVec → ℕ → Type 0
  Paid v n =
      ((v.cap ≡ 0) × (v.len ≡ 0) × (n ≡ 0)) ⊎ ((n + 4 ≤ v.cap + v.len) × (v.cap ≤ 2 * v.len + 2))

  zero_more : (n : ℕ) → n + 0 ≡ n
  zero_more n = omega arith

  -- What growth does: it keeps the length, and writes only from the new place of the vector on, as
  -- many elements as the vector has, or nothing.
  abbrev Grows : ArenaVec → ℕ → Outcome (Unit {0}) × ArenaVec → Type 0
  Grows v new_cap (ok _, v') =
      (v'.len ≡ v.len)
      × (v'.cap ≡ new_cap)
      × ((x : ℕ) → (x < v'.ptr) ⊎ (v'.ptr + v.len * size ≤ x) → v'.store.mem x ≡ v.store.mem x)
  Grows v new_cap (panicked e, v') =
      (v'.len ≡ v.len) × (v'.cap ≡ v.cap) × (v'.store.mem ≡ v.store.mem)

  moved_mem :
      (v : ArenaVec) (new_cap p : ℕ) (a : Arena) (x : ℕ)
      → (x < p) ⊎ (p + v.len * size ≤ x)
      → (moved size new_cap p a v).store.mem x ≡ v.store.mem x
  moved_mem v new_cap p a x h = elim (Bool-cases (ltb 0 v.len)) [
    | inr empty ↦ rw empty refl
    | inl some_len ↦ rw some_len (
        write_outside v.store.mem p (read v.store.mem v.ptr (v.len * size)) x
          (rw (length-read v.store.mem v.ptr (v.len * size)) h))
  ]

  relocated-Grows :
      (v : ArenaVec) (new_cap : ℕ) (out : Outcome ℕ × Arena)
      → Grows v new_cap (relocated size new_cap out v)
  relocated-Grows v new_cap (ok p, a) = (refl, refl, moved_mem v new_cap p a)
  relocated-Grows v new_cap (panicked e, a) = (refl, refl, refl)

  module _ (os : Os) where
    grow_to-Grows : (v : ArenaVec) (new_cap : ℕ) → Grows v new_cap (grow_to size os align new_cap v)
    unfolding grow_to
    grow_to-Grows v new_cap = elim (Bool-cases (size == 0)) [
      | inl nothing ↦ rw (nothing, grow_to) (refl, refl, λ x h. refl)
      | inr something ↦ elim (Bool-cases (extends_in_place size new_cap v)) [
        | inl here ↦ rw (something, here, grow_to) (refl, refl, λ x h. refl)
        | inr elsewhere ↦ elim (Option-cases (checked_mul new_cap size)) [
          | inl over ↦ rw (something, elsewhere, over, grow_to) (refl, refl, refl)
          | inr (bytes, e) ↦
              rw (something, elsewhere, e, grow_to)
                (relocated-Grows v new_cap (Alloc.alloc_raw os bytes align v.store.arena))
        ]
      ]
    ]

    -- A push has written `k` elements, which are paid for.
    abbrev Pays : ArenaVec → ℕ → ArenaVec → Type 0
    Pays v n v' = (k : ℕ) × WritesWithin (k * size) v.store.mem v'.store.mem × Paid v' (n + k)

    nothing_written :
        (n : ℕ) (v v' : ArenaVec)
        → v'.store.mem ≡ v.store.mem
        → WritesWithin n v.store.mem v'.store.mem
    nothing_written n v v' same = (0, λ x h. ap (λ (m : Mem). m x) same)

    -- The new element lies behind the others.
    grown-Writes :
        (v v' : ArenaVec) (x : List ℕ)
        → length x ≡ size
        → v'.len ≡ v.len
        → ((y : ℕ) → (y < v'.ptr) ⊎ (v'.ptr + v.len * size ≤ y) → v'.store.mem y ≡ v.store.mem y)
        → WritesWithin ((v.len + 1) * size) v.store.mem (write v'.store.mem (slot size v' v'.len) x)
    grown-Writes v v' x sized len same =
        let all : (v.len + 1) * size ≡ v.len * size + size = omega arith in
        (
          v'.ptr,
          λ y h.
              let far : (y < slot size v' v'.len) ⊎ (slot size v' v'.len + length x ≤ y) =
                rw (len, sized) (ground (arith, all)) in
              let outside : (y < v'.ptr) ⊎ (v'.ptr + v.len * size ≤ y) = ground (arith, all) in
              write_outside v'.store.mem (slot size v' v'.len) x y far ∙ same y outside,
        )

    grown-Pays :
        (v : ArenaVec) (n new_cap : ℕ) (x : List ℕ) (out : Outcome (Unit {0}) × ArenaVec)
        → length x ≡ size
        → v.len ≡ v.cap
        → next_cap v.cap ≡ some new_cap
        → Paid v n
        → Grows v new_cap out
        → Pays v n (push_grown size x out).1
    grown-Pays v n new_cap x (panicked e, v') sized full next paid (len, capacity, same) =
        (0, nothing_written (0 * size) v v' same, ground (arith, paid))
    grown-Pays v n new_cap x (ok _, v') sized full next paid (len, capacity, same) =
        (v.len + 1, grown-Writes v v' x sized len same, enough paid)
      where
        enough : Paid v n → Paid (push_grown size x (ok tt, v')).1 (n + (v.len + 1))
        enough (inl (none_yet, empty, nothing)) =
            let first : new_cap ≡ 4 = ground arith in inr (omega arith, omega arith)
        enough (inr (within, small)) =
            let double : new_cap ≡ v.cap * 2 = ground arith in inr (omega arith, omega arith)

    grow-Pays :
        (v : ArenaVec) (n : ℕ) (x : List ℕ)
        → length x ≡ size
        → v.len ≡ v.cap
        → Paid v n
        → Pays v n (push_grown size x (grow size os align v)).1
    unfolding grow
    grow-Pays v n x sized full paid = elim (Option-cases (next_cap v.cap)) [
      | inl over ↦ rw (over, grow) ((0, nothing_written (0 * size) v v refl, rw (zero_more n) paid))
      | inr (new_cap, e) ↦
          rw (e, grow)
            (grown-Pays v n new_cap x (grow_to size os align new_cap v) sized full e paid
              (grow_to-Grows v new_cap))
    ]

    push-Pays :
        (v : ArenaVec) (n : ℕ) (x : List ℕ)
        → length x ≡ size
        → Paid v n
        → Pays v n (push size os align x v).1
    unfolding push
    push-Pays v n x sized paid = elim (Bool-cases (v.len == v.cap)) [
      | inl full ↦ rw (full, push) (grow-Pays v n x sized (==→eq _ _ full) paid)
      | inr room ↦
          rw (room, push)
            (
              1,
              (
                slot size v v.len,
                λ y h.
                    write_outside v.store.mem (slot size v v.len) x y
                      (rw sized (ground (arith, h))),
              ),
              ground (arith, paid, room),
            )
    ]

  push_all-Paid :
      (n : ℕ) (items : List (Os × List ℕ)) (v : ArenaVec)
      → Sized items
      → Paid v n
      → (m : ℕ) × Written items v m × Paid (push_all items v) (n + m)
  unfolding push_all
  push_all-Paid n [] v sized paid = (0, refl, rw (zero_more n) paid)
  push_all-Paid n ((os, x) ∷ rest) v (one, sized) paid =
      let (k, within, more) = push-Pays os v n x one paid in
      let (m, written, last) = push_all-Paid (n + k) rest (push size os align x v).1 sized more in
      let sum : (n + k) + m ≡ n + (k + m) = omega arith in
      (k + m, (k, m, refl, within, written), rw (← sum) last)

  -- In any sequence of pushes of elements of one size into a new vector, some of which may panic,
  -- from any arena and with any system allocator at each: the pushes change the memory of at most
  -- three times as many elements as the vector holds in the end, those that move it to new memory
  -- included, and the capacity is at most two more than twice its length.
  pub push_all-cheap :
      (items : List (Os × List ℕ)) (s : Store)
      → Sized items
      → let v = push_all items (new align s) in
        ((n : ℕ) × Written items (new align s) n × (n ≤ 3 * v.len)) × (v.cap ≤ 2 * v.len + 2)
  unfolding new
  push_all-cheap items s sized =
      let (n, written, paid) = push_all-Paid 0 items (new align s) sized (inl (refl, refl, refl)) in
      ((n, written, ground (arith, paid)), ground (arith, paid))
