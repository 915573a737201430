-- ===== src/ArenaVec/Dropping/Loop.antt =====
-- The loop that drops elements from an index on: what has run when it returns, and when it panics.
use fastarena_rs.Base.{
  Bool-cases, inl, inr, ℕ, zero, suc, ◌+◌, ◌-◌, ◌<◌, ◌≡◌, refl, sym, ap, ◌∙◌, Bool, true, List, [],
  ◌∷◌, ◌++◌, append_assoc, arith, Outcome, ok, panicked, M, pure, and_then, if◌then◌else◌,
}
use fastarena_rs.DropRegistry.{Elem}
use fastarena_rs.ArenaVec.{ArenaVec, slot}
use fastarena_rs.ArenaVec.Dropping.{drop_elements, drop_range, drop}

-- The rest of the program, and the addresses whose destructors have run, the last one first.
abbrev pub Logged : Type 0 → Type 0
Logged W = W × List ℕ

module _ {W : Type 0} where
  abbrev pub noted : ℕ → List ℕ → Outcome (Unit {0}) × W → Outcome (Unit {0}) × Logged W
  noted p l (out, w) = (out, (w, p ∷ l))

  -- Any type, its destructor noting where it runs.
  abbrev pub logged : Elem W → Elem (Logged W)
  logged t = record {
    size = t.size;
    needs_drop = t.needs_drop;
    drop_in_place = λ p (w, l). noted p l (t.drop_in_place p w);
  }

  -- No destructor of the type panics.
  abbrev pub Calm : Elem W → Type 0
  Calm t = (p : ℕ) (w : W) → (t.drop_in_place p w).0 ≡ ok tt

-- The addresses of `count` elements from index `from` on, the last one first.
abbrev pub slots_back : ℕ → ArenaVec → ℕ → ℕ → List ℕ
slots_back size v from zero = []
slots_back size v from (suc count) = slots_back size v (from + 1) count ++ (slot size v from ∷ [])

module _ {W : Type 0} (t : Elem W) (v : ArenaVec) where
  -- How the loop ends: all destructors have run, in order; or it has stopped, behind the first.
  abbrev pub LoopEnded : ℕ → ℕ → List ℕ → Outcome (Unit {0}) × Logged W → Type 0
  LoopEnded from count l (ok _, (w, l')) = l' ≡ slots_back t.size v from count ++ l
  LoopEnded from count l (panicked e, (w, l')) =
      (later : List ℕ) × (l' ≡ later ++ (slot t.size v from ∷ l))

  one_more :
      (from count : ℕ) (l : List ℕ) (end : Outcome (Unit {0}) × Logged W)
      → LoopEnded (from + 1) count (slot t.size v from ∷ l) end
      → LoopEnded from (suc count) l end
  one_more from count l (ok _, (w, l')) e =
      e ∙ append_assoc (slots_back t.size v (from + 1) count) (slot t.size v from ∷ []) l
  one_more from count l (panicked e, (w, l')) (later, e') = (
    later ++ (slot t.size v (from + 1) ∷ []),
    e' ∙ append_assoc later (slot t.size v (from + 1) ∷ []) (slot t.size v from ∷ l),
  )

  pub drop_elements_lem :
      (from count : ℕ) (w : W) (l : List ℕ)
      → LoopEnded from count l (drop_elements (logged t) v from count (w, l))
  unfolding drop_elements
  drop_elements_lem from zero w l = refl
  drop_elements_lem from (suc count) w l =
      go (λ x. drop_elements_lem (from + 1) count x (slot t.size v from ∷ l))
        (t.drop_in_place (slot t.size v from) w)
    where
      rest : M (Logged W) (Unit {0})
      rest = drop_elements (logged t) v (from + 1) count

      go :
          ((x : W)
            → LoopEnded
                (from + 1)
                count
                (slot t.size v from ∷ l)
                (rest (x, slot t.size v from ∷ l)))
          → (first : Outcome (Unit {0}) × W)
          → LoopEnded from (suc count) l (and_then (noted (slot t.size v from) l first) (λ _. rest))
      go ih (panicked e, x) = ([], refl)
      go ih (ok _, x) = one_more from count l (rest (x, slot t.size v from ∷ l)) (ih x)

  pub drop_range_needed :
      (from : ℕ) (x : Logged W)
      → t.needs_drop ≡ true
      → drop_range (logged t) v from x ≡ drop_elements (logged t) v from (v.len - from) x
  drop_range_needed from x needed =
      ap (λ (b : Bool). (if b then drop_elements (logged t) v from (v.len - from) else pure tt) x)
        needed

  -- The drop of a vector that is not empty begins at its first element.
  pub drop_first :
      (w : W) (l : List ℕ)
      → t.needs_drop ≡ true
      → 0 < v.len
      → (more : List ℕ) × ((drop (logged t) v (w, l)).1.1 ≡ more ++ (slot t.size v 0 ∷ l))
  unfolding drop
  drop_first w l needed pos =
      rw (drop_range_needed 0 (w, l) needed) (first (v.len - 0) (omega arith))
    where
      run : ℕ → Outcome (Unit {0}) × Logged W
      run n = drop_elements (logged t) v 0 n (w, l)

      ended_at :
          (n : ℕ) (end : Outcome (Unit {0}) × Logged W)
          → LoopEnded 0 (suc n) l end
          → (more : List ℕ) × (end.1.1 ≡ more ++ (slot t.size v 0 ∷ l))
      ended_at n (panicked e, x) h = h
      ended_at n (ok _, (x, l')) h = (
        slots_back t.size v 1 n,
        h ∙ sym (append_assoc (slots_back t.size v 1 n) (slot t.size v 0 ∷ []) l),
      )

      first : (n : ℕ) → 0 < n → (more : List ℕ) × ((run n).1.1 ≡ more ++ (slot t.size v 0 ∷ l))
      first zero h = absurd (omega arith)
      first (suc n) h = ended_at n (run (suc n)) (drop_elements_lem 0 (suc n) w l)

  returns_loop :
      (from count : ℕ) (x : Logged W) → Calm t → (drop_elements (logged t) v from count x).0 ≡ ok tt
  unfolding drop_elements
  returns_loop from zero x calm = refl
  returns_loop from (suc count) (w, l) calm =
      let p = slot t.size v from in
      rw (calm p w) (returns_loop (from + 1) count ((t.drop_in_place p w).1, p ∷ l) calm)

  pub returns_range :
      (from : ℕ) (x : Logged W) → Calm t → (drop_range (logged t) v from x).0 ≡ ok tt
  returns_range from x calm = elim (Bool-cases t.needs_drop) [
    | inl needed ↦
        ap (λ (r : Outcome (Unit {0}) × Logged W). r.0) (drop_range_needed from x needed)
        ∙ returns_loop from (v.len - from) x calm
    | inr unneeded ↦ rw unneeded refl
  ]
