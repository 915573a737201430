-- ===== src/Tracked/Nested.antt =====
-- A nested transaction that tracks destructors: what holds after it has been committed or dropped.
use fastarena_rs.Base.{
  ℕ, ◌+◌, ◌≡◌, Bool, true, refl, sym, ◌∙◌, ap, subst, List, [], ◌∷◌, ◌++◌, append_nil, append_assoc,
  reverse, false, ◌<◌, ◌-◌, arith, usize_max, Outcome,
}
use fastarena_rs.Arena.Valid.{IsValid}
use fastarena_rs.Arena.Preserved.{Preserved, Preserved-trans, with_depth-IsValid, with_depth-Grown}
use fastarena_rs.Arena.Restore.{Restored-Grown}
use fastarena_rs.DropRegistry.{DropSlot}
use fastarena_rs.DropRegistry.Laws.{Registered, run_each}
use fastarena_rs.Typed.{Store}
use fastarena_rs.Tracked.{TrackedArena}
use fastarena_rs.Tracked.Laws.{Since, RewoundAfter, rewind_lem}
use fastarena_rs.Tracked.Stored.{Stores, Stores-Since}
use fastarena_rs.Tracked.Txn.{
  TrackedTransaction, with_txn_depth, new, commit, drop, resume, set_limit,
}

reverse-append {ℓ} : {A : Type ℓ} (xs ys : List A) → reverse (xs ++ ys) ≡ reverse ys ++ reverse xs
reverse-append [] ys = sym (append_nil (reverse ys))
reverse-append {A} (x ∷ xs) ys =
    ap (λ (l : List A). l ++ (x ∷ [])) (reverse-append xs ys)
    ∙ sym (append_assoc (reverse ys) (reverse xs) (x ∷ []))

module _ {W : Type 0} (slot_size slot_align : ℕ) where
  pub record Kept (t : TrackedTransaction W) (xs zs : List (DropSlot W)) (u : TrackedTransaction W)
      : Type 0 where
    pub since : Since slot_size slot_align t.arena xs zs u.arena
    pub checkpoint : u.checkpoint ≡ t.checkpoint
    pub committed : u.committed ≡ t.committed

  Since-trans :
      (a b c : TrackedArena W) (xs zs ss : List (DropSlot W))
      → IsValid a.store.arena
      → Since slot_size slot_align a xs zs b
      → Since slot_size slot_align b (xs ++ reverse zs) ss c
      → Since slot_size slot_align a xs (ss ++ zs) c
  Since-trans a b c xs zs ss valid first second = record {
    arena = Preserved-trans valid first.arena second.arena;
    slots =
        subst (λ (q : List (DropSlot W)). Registered slot_size slot_align c.drop_registry q)
          (sym (
            ap (λ (q : List (DropSlot W)). xs ++ q) (reverse-append ss zs)
            ∙ append_assoc xs (reverse zs) (reverse ss)))
          second.slots;
  }

  Since-refl :
      (a : TrackedArena W) (xs : List (DropSlot W))
      → IsValid a.store.arena
      → Registered slot_size slot_align a.drop_registry xs
      → Since slot_size slot_align a xs [] a
  Since-refl a xs valid before = Stores-Since slot_size slot_align valid before Stores.stop

  -- A nested transaction, when it has come to `c` with the slots `zs` registered since.
  module _ (a : TrackedArena W) (c : TrackedTransaction W) (xs zs : List (DropSlot W))
      (valid : IsValid a.store.arena) (bound : a.store.arena.txn_depth < usize_max)
      (kept : Kept (new a) xs zs c) where
    -- The arena of the child with the counter of the parent.
    lowered :
        (d : ℕ)
        → d ≡ a.store.arena.txn_depth
        → Since slot_size slot_align a xs zs (with_txn_depth d c.arena)
    unfolding new
    lowered d same = record {
      arena = record {
        valid = with_depth-IsValid d kept.since.arena.valid;
        grown = with_depth-Grown a.store.arena.txn_depth d kept.since.arena.grown;
        depth = same;
      };
      slots = kept.since.slots;
    }

    child_depth : c.arena.store.arena.txn_depth ≡ a.store.arena.txn_depth + 1
    unfolding new
    child_depth = omega (arith, kept.since.arena.depth)

    pub commit-Since : Since slot_size slot_align a xs zs (commit c).1
    unfolding commit
    commit-Since = lowered _ (omega (arith, child_depth))

    -- How dropping the child ends.
    abbrev pub DroppedTo : W → Outcome (Unit {0}) × (TrackedArena W × W) → Type 0
    DroppedTo w end =
        Registered slot_size slot_align end.1.0.drop_registry xs
        × RewoundAfter slot_size slot_align a (with_txn_depth a.store.arena.txn_depth c.arena)
            (run_each slot_size slot_align zs w) end

    pub drop-DroppedTo :
        (w : W) → Registered slot_size slot_align a.drop_registry xs → DroppedTo w (drop c w)
    unfolding drop new
    drop-DroppedTo w before =
        let d = c.arena.store.arena.txn_depth - 1 in
        let same : d ≡ a.store.arena.txn_depth = omega (arith, child_depth) in
        rw (kept.committed, kept.checkpoint, same)
          (rewind_lem slot_size slot_align a (with_txn_depth a.store.arena.txn_depth c.arena) xs zs
            w valid before (lowered a.store.arena.txn_depth refl))

  -- A step that replaces the arena only.
  pub Kept-resume :
      {t u : TrackedTransaction W} {xs zs ss : List (DropSlot W)} (b : TrackedArena W)
      → IsValid t.arena.store.arena
      → Kept t xs zs u
      → Since slot_size slot_align u.arena (xs ++ reverse zs) ss b
      → Kept t xs (ss ++ zs) (resume u b)
  Kept-resume {t} {u} {xs} {zs} {ss} b valid k more = record {
    since = Since-trans t.arena u.arena b xs zs ss valid k.since more;
    checkpoint = k.checkpoint;
    committed = k.committed;
  }

  -- Whether the arena is restored or, after a panic, as it was, nothing of before is lost.
  RewoundAfter-Preserved :
      (a a' : TrackedArena W) (r : Bool × W) (end : Outcome (Unit {0}) × (TrackedArena W × W))
      → Preserved a.store.arena a'.store.arena
      → RewoundAfter slot_size slot_align a a' r end
      → Preserved a.store.arena end.1.0.store.arena
  RewoundAfter-Preserved a a' (true, left) (out, (b, w)) kept (_, _, undone) = record {
    valid = undone.restored.valid;
    grown = Restored-Grown undone.restored;
    depth = undone.depth;
  }
  RewoundAfter-Preserved a a' (false, left) (out, (b, w)) kept (_, _, same) =
      subst (λ (s : Store). Preserved a.store.arena s.arena) (sym same) kept

  -- What dropping the child leaves: nothing of it is registered any more.
  pub dropped-Since :
      (a : TrackedArena W) (c : TrackedTransaction W) (xs zs : List (DropSlot W)) (w : W)
      → IsValid a.store.arena
      → a.store.arena.txn_depth < usize_max
      → Kept (new a) xs zs c
      → Registered slot_size slot_align a.drop_registry xs
      → Since slot_size slot_align a xs [] (drop c w).1.0
  dropped-Since a c xs zs w valid bound kept before =
      let (slots, rewound) = drop-DroppedTo a c xs zs valid bound kept w before in
      let child = lowered a c xs zs valid bound kept a.store.arena.txn_depth refl in
      record {
        arena =
            RewoundAfter-Preserved a (with_txn_depth a.store.arena.txn_depth c.arena)
              (run_each slot_size slot_align zs w) (drop c w) child.arena rewound;
        slots =
            subst
              (λ (q : List (DropSlot W)).
                Registered slot_size slot_align (drop c w).1.0.drop_registry q)
              (sym (append_nil xs)) slots;
      }

  pub new-IsValid : (a : TrackedArena W) → IsValid a.store.arena → IsValid (new a).arena.store.arena
  unfolding new
  new-IsValid a valid = with_depth-IsValid _ valid

  pub Kept-refl :
      (t : TrackedTransaction W) (xs : List (DropSlot W))
      → IsValid t.arena.store.arena
      → Registered slot_size slot_align t.arena.drop_registry xs
      → Kept t xs [] t
  Kept-refl t xs valid before = record {
    since = Since-refl t.arena xs valid before;
    checkpoint = refl;
    committed = refl;
  }

  pub set_limit-Kept :
      {t u : TrackedTransaction W} {xs zs : List (DropSlot W)} (bytes : ℕ)
      → Kept t xs zs u
      → Kept t xs zs (set_limit bytes u)
  unfolding set_limit
  set_limit-Kept bytes k = record {
    since = k.since;
    checkpoint = k.checkpoint;
    committed = k.committed;
  }

  pub new-registry :
      (a : TrackedArena W) (xs : List (DropSlot W))
      → Registered slot_size slot_align a.drop_registry xs
      → Registered slot_size slot_align (new a).arena.drop_registry xs
  unfolding new
  new-registry a xs before = before
