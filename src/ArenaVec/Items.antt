-- ===== src/ArenaVec/Items.antt =====
-- The operations on the elements that a vector holds: `pop`, `truncate`, `clear`, indexing, and the
-- ways in which a vector ends.
use fastarena_rs.Base.{
  take_all, drop_all, set_past, ℕ, ◌+◌, ◌-◌, ◌≤◌, ◌<◌, ◌≡◌, refl, sym, ap, ◌∙◌, inl, inr, List, [],
  ◌∷◌, ◌++◌, length, arith, true, false, ltb, ◌==◌, if◌then◌else◌, Option, none, some, Outcome, ok,
  panicked, index_out_of_bounds, Bool-cases, take, drop, get_elem?, set, get_elem?_past, ltb→lt,
  ==→eq, Bool,
}
use native.Mathlib.Nat.{suc-mul}
use fastarena_rs.Arena.Grown.{Grown-refl}
use fastarena_rs.Typed.{write}
use fastarena_rs.Typed.Memory.{read, write_outside}
use fastarena_rs.Typed.Elements.{
  take-elements, drop-elements, get-elements, set-elements, elements, elements-snoc,
  length-elements,
}
use fastarena_rs.ArenaVec.{ArenaVec, pop, truncate, clear, index, index_set, slot, with_mem}
use fastarena_rs.ArenaVec.Frame.{Holds, Framed-refl, Became}
use fastarena_rs.ArenaVec.Push.{slots_within}

pub same_branches {ℓ} : {A : Type ℓ} (b : Bool) → ◌≡◌ {A = List A} [] (if b then [] else [])
same_branches true = refl
same_branches false = refl

-- What indexing a list gives: the element, or a panic.
abbrev pub element_or_panic : Option (List ℕ) → Outcome (List ℕ)
element_or_panic none = panicked index_out_of_bounds
element_or_panic (some x) = ok x

module _ (size : ℕ) {v : ArenaVec} {xs : List (List ℕ)} (h : Holds size v xs) where
  pub length-Holds : length xs ≡ v.len
  length-Holds = rw (← h.holds) (length-elements v.store.mem v.ptr size v.len)

  pub shortened : (n : ℕ) → n ≤ v.len → Became size v (take n xs) (record v { len = n })
  shortened n shorter = record {
    holds = record {
      vec = record {
        valid = h.vec.valid;
        room = λ pos. omega (arith, h.vec.room pos);
        owned = h.vec.owned;
        low = h.vec.low;
        non_null = h.vec.non_null;
      };
      holds =
          sym (take-elements v.store.mem v.ptr size n v.len shorter)
          ∙ ap (λ (r : List (List ℕ)). take n r) h.holds;
    };
    framed = record {
      grown = Grown-refl v.store.arena;
      depth = refl;
      outside = λ x used out. out;
      kept = λ x used out. refl;
    };
  }

  pub from_index :
      (n : ℕ) → n ≤ v.len → elements v.store.mem (slot size v n) size (v.len - n) ≡ drop n xs
  from_index n shorter =
      sym (drop-elements v.store.mem v.ptr size n v.len shorter)
      ∙ ap (λ (r : List (List ℕ)). drop n r) h.holds

  pub unchanged : Became size v xs v
  unchanged = record { holds = h; framed = Framed-refl size v }

  pub truncate_lem :
      (needs_drop : Bool) (n : ℕ)
      → ((truncate size needs_drop n v).0 ≡ (if needs_drop then drop n xs else []))
        × Became size v (take n xs) (truncate size needs_drop n v).1
  unfolding truncate
  truncate_lem needs_drop n = elim (Bool-cases (ltb n v.len)) [
    | inl shorter ↦
        rw (shorter, truncate)
          (
            ap (λ (r : List (List ℕ)). if needs_drop then r else []) (from_index n (ground arith)),
            shortened n (ground arith),
          )
    | inr longer ↦
        let past : length xs ≤ n = ground (arith, length-Holds) in
        rw (longer, truncate, take_all n xs past, drop_all n xs past)
          (same_branches needs_drop, unchanged)
  ]

  pub clear_lem :
      (needs_drop : Bool)
      → ((clear size needs_drop v).0 ≡ (if needs_drop then xs else []))
        × Became size v [] (clear size needs_drop v).1
  unfolding clear
  clear_lem needs_drop = (
    ap (λ (r : List (List ℕ)). if needs_drop then r else []) (from_index 0 (omega arith)),
    shortened 0 (omega arith),
  )

  pub index_lem : (i : ℕ) → index size i v ≡ element_or_panic (get_elem? xs i)
  unfolding index
  index_lem i = elim (Bool-cases (ltb i v.len)) [
    | inl inside ↦
        let e = get-elements v.store.mem v.ptr size i v.len (ltb→lt i v.len inside) in
        rw (inside, index, ← h.holds, e) refl
    | inr outside ↦
        let e = get_elem?_past xs i (ground (arith, length-Holds)) in rw (outside, index, e) refl
  ]

  replaced :
      (i : ℕ) (x : List ℕ)
      → i < v.len
      → length x ≡ size
      → Became size v (set xs i x) (with_mem (write v.store.mem (slot size v i) x) v)
  replaced i x inside sized =
      let within = slots_within size v.cap (i + 1) (λ pos. omega (arith, h.vec.room pos)) in
      let step = suc-mul i size in
      record {
        holds = record {
          vec = record {
            valid = h.vec.valid;
            room = h.vec.room;
            owned = h.vec.owned;
            low = h.vec.low;
            non_null = h.vec.non_null;
          };
          holds =
              set-elements v.store.mem v.ptr size i v.len x inside sized
              ∙ ap (λ (r : List (List ℕ)). set r i x) h.holds;
        };
        framed = record {
          grown = Grown-refl v.store.arena;
          depth = refl;
          outside = λ y used out. out;
          kept = λ y used out.
              write_outside v.store.mem (slot size v i) x y
                (elim out [ inl below ↦ inl (omega arith) | inr behind ↦ inr (omega arith) ]);
        };
      }

  pub index_set_lem :
      (i : ℕ) (x : List ℕ)
      → length x ≡ size
      → ((index_set size i x v).0
          ≡ (if ltb i (length xs) then ok tt else panicked index_out_of_bounds))
        × Became size v (set xs i x) (index_set size i x v).1
  unfolding index_set
  index_set_lem i x sized = elim (Bool-cases (ltb i v.len)) [
    | inl inside ↦
        let e : ltb i (length xs) ≡ true = ground (arith, length-Holds) in
        rw (inside, e, index_set) (refl, replaced i x (ltb→lt i v.len inside) sized)
    | inr outside ↦
        let e : ltb i (length xs) ≡ false = ground (arith, length-Holds) in
        rw (outside, e, index_set, set_past xs i x (ground (arith, length-Holds))) (refl, unchanged)
  ]

-- What `pop` has done: nothing to the empty list, or it has taken the last element off.
abbrev pub PopAfter : ℕ → ArenaVec → List (List ℕ) → Option (List ℕ) × ArenaVec → Type 0
PopAfter size v xs (none, v') = (xs ≡ []) × (v' ≡ v)
PopAfter size v xs (some x, v') = (ys : List (List ℕ)) × (xs ≡ ys ++ (x ∷ [])) × Became size v ys v'

module _ (size : ℕ) {v : ArenaVec} {xs : List (List ℕ)} (h : Holds size v xs) where
  pub pop_lem : PopAfter size v xs (pop size v)
  unfolding pop
  pop_lem = elim (Bool-cases (v.len == 0)) [
    | inl empty ↦
        rw (empty, PopAfter, pop)
          (sym h.holds ∙ ap (elements v.store.mem v.ptr size) (==→eq v.len 0 empty), refl)
    | inr more ↦
        let n = v.len - 1 in
        let e : v.len ≡ n + 1 = ground arith in
        let last = read v.store.mem (slot size v n) size ∷ [] in
        let split : xs ≡ take n xs ++ last =
          sym h.holds
          ∙ ap (elements v.store.mem v.ptr size) e
          ∙ elements-snoc v.store.mem v.ptr size n
          ∙ ap (λ (r : List (List ℕ)). r ++ last)
              (sym (take-elements v.store.mem v.ptr size n v.len (omega arith))
                ∙ ap (λ (r : List (List ℕ)). take n r) h.holds) in
        rw (more, PopAfter, pop) (take n xs, split, shortened size h n (omega arith))
  ]
