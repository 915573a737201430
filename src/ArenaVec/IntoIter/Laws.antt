-- ===== src/ArenaVec/IntoIter/Laws.antt =====
-- The iterator hands over every element once: by `next`, or to its destructor.
use fastarena_rs.Base.{
  ℕ, zero, suc, ◌+◌, ◌-◌, ◌%◌, ◌≤◌, ◌<◌, ◌≡◌, refl, sym, ap, ◌∙◌, inl, inr, Bool, true, false,
  Option, none, some, List, [], ◌∷◌, append_nil, length, arith, leb, if◌then◌else◌, usize_mod,
  Bool-cases, take, drop, min, leb→le, leb→lt, drop_all,
}
use fastarena_rs.ArenaVec.{ArenaVec, slot}
use fastarena_rs.ArenaVec as Vec
use fastarena_rs.ArenaVec.Frame.{Holds}
use fastarena_rs.ArenaVec.Items.{length-Holds, from_index}
use fastarena_rs.Typed.Memory.{read}
use fastarena_rs.Typed.Elements.{elements}
use native.Mathlib.Decide.{dec_le}
use native.Mathlib.Nat.{suc-mul}
use fastarena_rs.ArenaVec.IntoIter as IntoIter
use fastarena_rs.ArenaVec.IntoIter.{ArenaVecIntoIter, into_iter, next, size_hint}

-- What up to `n` calls of `next` return.
abbrev pub collected :
    List (List ℕ)
    → Option (List ℕ) × ArenaVecIntoIter
    → (ArenaVecIntoIter → List (List ℕ) × ArenaVecIntoIter)
    → List (List ℕ) × ArenaVecIntoIter
collected xs (none, it) more = (xs, it)
collected xs (some x, it) more = (x ∷ (more it).0, (more it).1)

unfoldable pub take_next : ℕ → ℕ → ArenaVecIntoIter → List (List ℕ) × ArenaVecIntoIter
unfolding next
take_next size zero it = ([], it)
take_next size (suc n) it = collected [] (next size it) (take_next size n)

module _ (size : ℕ) {v : ArenaVec} {xs : List (List ℕ)} (h : Holds size v xs) where
  abbrev from : ℕ → ArenaVecIntoIter
  from i = record { inner = v; start = i }

  drop_split :
      (i : ℕ) → i < v.len → drop i xs ≡ read v.store.mem (slot size v i) size ∷ drop (i + 1) xs
  drop_split i inside =
      let m = v.store.mem in
      let left : v.len - i ≡ suc (v.len - (i + 1)) = omega arith in
      let place : slot size v i + size ≡ slot size v (i + 1) = omega (arith, suc-mul i size) in
      sym (from_index size h i (omega arith))
      ∙ ap (λ (n : ℕ). elements m (slot size v i) size n) left
      ∙ ap (λ (r : List (List ℕ)). read m (slot size v i) size ∷ r)
          (ap (λ (k : ℕ). elements m k size (v.len - (i + 1))) place
            ∙ from_index size h (i + 1) (omega arith))

  take_next_lem :
      (k i : ℕ)
      → i ≤ v.len
      → take_next size k (from i) ≡ (take k (drop i xs), from (min (i + k) v.len))
  unfolding take_next next
  take_next_lem zero i inside =
      let e : i ≡ min (i + 0) v.len = omega arith in ap (λ (j : ℕ). ([], from j)) e
  take_next_lem (suc k) i inside = elim (Bool-cases (leb v.len i)) [
    | inl past ↦
        let nothing : drop i xs ≡ [] =
          drop_all i xs (omega (arith, length-Holds size h, leb→le v.len i past)) in
        let e : i ≡ min (i + suc k) v.len = ground arith in
        rw (past, take_next, next, nothing) (ap (λ (j : ℕ). ([], from j)) e)
    | inr before ↦
        let split = drop_split i (leb→lt v.len i before) in
        let rest = take_next_lem k (i + 1) (ground arith) in
        let e : min (i + 1 + k) v.len ≡ min (i + suc k) v.len = omega arith in
        rw (before, take_next, next, split)
          (ap
            (λ (r : List (List ℕ) × ArenaVecIntoIter).
              (read v.store.mem (slot size v i) size ∷ r.0, r.1))
            (rest ∙ ap (λ (j : ℕ). (take k (drop (i + 1) xs), from j)) e))
  ]

  drop_from :
      (needs_drop : Bool) (i : ℕ)
      → i ≤ v.len
      → IntoIter.drop size needs_drop (from i) ≡ (if needs_drop then drop i xs else [], v.store)
  unfolding IntoIter.drop Vec.drop
  drop_from true i inside =
      ap (λ (r : List (List ℕ)). (r, v.store)) (append_nil _ ∙ from_index size h i inside)
  drop_from false i inside = refl

  drop_stop : (k : ℕ) → drop (min (0 + k) v.len) xs ≡ drop k xs
  drop_stop k = elim (dec_le k v.len) [
    | yes less ↦ let e : min (0 + k) v.len ≡ k = omega arith in ap (λ (n : ℕ). drop n xs) e
    | no more ↦
        let count = length-Holds size h in
        drop_all (min (0 + k) v.len) xs (omega arith) ∙ sym (drop_all k xs (omega arith))
  ]

  -- When a vector stands for a list whose length is a word: after any number of calls of next on
  -- its owning iterator, they have returned the first elements of the list in order, size_hint is
  -- the number of the others, and dropping the iterator drops exactly the others, in order, if
  -- the type needs drop, and gives the store back.
  pub into_iter_lem :
      (k : ℕ) (needs_drop : Bool)
      → v.len < usize_mod
      → let it = take_next size k (into_iter v) in
        (it.0 ≡ take k xs)
        × (size_hint it.1 ≡ (length xs - k, some (length xs - k)))
        × (IntoIter.drop size needs_drop it.1 ≡ (if needs_drop then drop k xs else [], v.store))
  unfolding into_iter size_hint
  into_iter_lem k needs_drop small =
      let stop = min (0 + k) v.len in
      let count = length-Holds size h in
      let left : (v.len + usize_mod - stop) % usize_mod ≡ length xs - k = omega arith in
      let e = take_next_lem k 0 (omega arith) in
      (
        ap (λ (r : List (List ℕ) × ArenaVecIntoIter). r.0) e,
        ap (λ (r : List (List ℕ) × ArenaVecIntoIter). size_hint r.1) e
            ∙ ap (λ (n : ℕ). (n, some n)) left,
        ap (λ (r : List (List ℕ) × ArenaVecIntoIter). IntoIter.drop size needs_drop r.1) e
            ∙ drop_from needs_drop stop (omega arith)
            ∙ ap (λ (r : List (List ℕ)). (if needs_drop then r else [], v.store)) (drop_stop k),
      )
