-- ===== src/ArenaVec/Dropping/Laws.antt =====
-- Where no destructor panics, each element is dropped once. After one that panics, the owner of the
-- vector drops it with its old length, so elements are dropped that are gone.
use fastarena_rs.Base.{
  Bool-cases, inl, inr, ℕ, ◌-◌, ◌<◌, ◌≡◌, refl, sym, ap, ◌∙◌, subst, lt→ltb, true, List, ◌∷◌, ◌++◌,
  arith, Outcome, ok, panicked, Ending, ended, aborted,
}
use fastarena_rs.DropRegistry.{Elem}
use fastarena_rs.ArenaVec.{ArenaVec, slot}
use fastarena_rs.ArenaVec.IntoIter.{ArenaVecIntoIter}
use fastarena_rs.ArenaVec.Dropping.{
  drop_elements, drop_range, then_len, clear, truncate, drop, unwinding, owner_drops, drop_iter,
}
use fastarena_rs.ArenaVec.Dropping.Loop.{
  Logged, logged, Calm, slots_back, LoopEnded, drop_elements_lem, drop_range_needed, drop_first,
  returns_range,
}

module _ {W : Type 0} (t : Elem W) (v : ArenaVec) where
  -- What has run when the loop from `start` has been followed by the drop by the owner.
  abbrev pub OwnerDropped : ℕ → List ℕ → Ending (Unit {0}) × Logged W → Type 0
  OwnerDropped start l (ended (ok _), (w, l')) = l' ≡ slots_back t.size v start (v.len - start) ++ l
  OwnerDropped start l (ended (panicked e), (w, l')) =
      (later more : List ℕ) × (l'
        ≡ more ++ (slot t.size v 0 ∷ (later ++ (slot t.size v start ∷ l))))
  OwnerDropped start l (aborted, (w, l')) =
      (later more : List ℕ) × (l'
        ≡ more ++ (slot t.size v 0 ∷ (later ++ (slot t.size v start ∷ l))))

  empty_dropped :
      (w : W) (l : List ℕ) → drop (logged t) (record v { len = 0 }) (w, l) ≡ (ok tt, (w, l))
  unfolding drop drop_elements
  empty_dropped w l = elim (Bool-cases t.needs_drop) [
    | inl needed ↦ rw needed refl
    | inr unneeded ↦ rw unneeded refl
  ]

  owner_drops_lem :
      (start : ℕ) (l : List ℕ) (end : Outcome (Unit {0}) × Logged W)
      → t.needs_drop ≡ true
      → 0 < v.len
      → LoopEnded t v start (v.len - start) l end
      → OwnerDropped start l (owner_drops (logged t) (then_len 0 v end))
  owner_drops_lem start l (ok _, (w, l')) needed pos all = rw (empty_dropped w l') all
  owner_drops_lem start l (panicked e, (w, l')) needed pos (later, first) =
      let (more, second) = drop_first t v w l' needed pos in
      again (drop (logged t) v (w, l'))
        (later, more, second ∙ ap (λ (r : List ℕ). more ++ (slot t.size v 0 ∷ r)) first)
    where
      again :
          (out : Outcome (Unit {0}) × Logged W)
          → ((later more : List ℕ) × (out.1.1
                ≡ more ++ (slot t.size v 0 ∷ (later ++ (slot t.size v start ∷ l)))))
          → OwnerDropped start l (unwinding (panicked e) out)
      again (ok _, x) h = h
      again (panicked q, x) h = h

  calm_owner :
      (end : Outcome (Unit {0}) × Logged W)
      → end.0 ≡ ok tt
      → (owner_drops (logged t) (then_len 0 v end)).0 ≡ ended (ok tt)
  calm_owner (ok _, (w, l)) fine = rw (empty_dropped w l) refl
  calm_owner (panicked e, x) fine = absurd (ground (arith, fine))

  from_start :
      (start : ℕ) (w : W) (l : List ℕ)
      → t.needs_drop ≡ true
      → 0 < v.len
      → let end = owner_drops (logged t) (then_len 0 v (drop_range (logged t) v start (w, l))) in
        (Calm t → end.0 ≡ ended (ok tt)) × OwnerDropped start l end
  from_start start w l needed pos =
      let run = drop_range (logged t) v start (w, l) in
      (
        λ calm. calm_owner run (returns_range t v start (w, l) calm),
        owner_drops_lem start l run needed pos (
            subst (λ (r : Outcome (Unit {0}) × Logged W). LoopEnded t v start (v.len - start) l r)
              (sym (drop_range_needed t v start (w, l) needed))
              (drop_elements_lem t v start (v.len - start) w l)),
      )

  -- `clear`, and the drop of the vector by its owner, also when it panics.
  pub clear-OwnerDropped :
      (w : W) (l : List ℕ)
      → t.needs_drop ≡ true
      → 0 < v.len
      → let end = owner_drops (logged t) (clear (logged t) (v, (w, l))) in
        (Calm t → end.0 ≡ ended (ok tt)) × OwnerDropped 0 l end
  unfolding clear
  clear-OwnerDropped w l needed pos = from_start 0 w l needed pos

  -- How `truncate` leaves the vector: shorter, or, when a destructor has panicked, as it was.
  abbrev pub Truncated : ℕ → List ℕ → Outcome (Unit {0}) × (ArenaVec × Logged W) → Type 0
  Truncated n l (ok _, (v', (w, l'))) =
      (v' ≡ record v { len = n }) × (l' ≡ slots_back t.size v n (v.len - n) ++ l)
  Truncated n l (panicked e, (v', (w, l'))) =
      (v' ≡ v) × ((later : List ℕ) × (l' ≡ later ++ (slot t.size v n ∷ l)))

  then_len-Truncated :
      (n : ℕ) (l : List ℕ) (end : Outcome (Unit {0}) × Logged W)
      → LoopEnded t v n (v.len - n) l end
      → Truncated n l (then_len n v end)
  then_len-Truncated n l (ok _, x) h = (refl, h)
  then_len-Truncated n l (panicked e, x) h = (refl, h)

  -- A panic leaves the vector with the elements whose destructors have run.
  pub truncate-Truncated :
      (n : ℕ) (w : W) (l : List ℕ)
      → t.needs_drop ≡ true
      → n < v.len
      → Truncated n l (truncate (logged t) n (v, (w, l)))
  unfolding truncate
  truncate-Truncated n w l needed less = rw (lt→ltb n v.len less) (
      then_len-Truncated n l (drop_range (logged t) v n (w, l)) (
        subst (λ (r : Outcome (Unit {0}) × Logged W). LoopEnded t v n (v.len - n) l r)
          (sym (drop_range_needed t v n (w, l) needed)) (drop_elements_lem t v n (v.len - n) w l)))

-- For a vector that is not empty, of a type that needs drop, with any destructors: if no
-- destructor panics, dropping its owning iterator returns; when it returns, the destructors of
-- the elements that next has not returned have each run once, in order, and no other; when it
-- does not return, the first of these elements has been dropped, and then the drop of the field
-- inner has begun again at the first element of the vector, which next had returned, or which had
-- been dropped before.
pub drop_iter-OwnerDropped :
    {W : Type 0} (t : Elem W) (it : ArenaVecIntoIter) (w : W) (l : List ℕ)
    → t.needs_drop ≡ true
    → 0 < it.inner.len
    → let end = drop_iter (logged t) it (w, l) in
      (Calm t → end.0 ≡ ended (ok tt)) × OwnerDropped t it.inner it.start l end
unfolding drop_iter
drop_iter-OwnerDropped t it w l needed pos = from_start t it.inner it.start w l needed pos
