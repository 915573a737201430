-- ===== src/Tracked/Slots.antt =====
-- The slots that an allocation adds, and the registration after its store.
use fastarena_rs.Base.{
  Option, none, some, refl, ℕ, ◌<◌, ◌≡◌, sym, inl, inr, true, false, ◌&&◌, List, [], ◌∷◌, ◌++◌,
  append_assoc, reverse, arith, ltb, if◌then◌else◌, Outcome, ok, panicked, subst, lt→ltb,
}
use fastarena_rs.Block.{Os}
use fastarena_rs.Arena.Valid.{IsValid}
use fastarena_rs.Arena.Preserved.{Preserved, Preserved-trans}
use fastarena_rs.Typed.{Store, Slice}
use fastarena_rs.DropRegistry as DropRegistry
use fastarena_rs.DropRegistry.{DropSlot, DropRegistry, Elem, single, range, drop_range_shim}
use fastarena_rs.DropRegistry.Laws.{Registered}
use fastarena_rs.DropRegistry.Register.{register_lem, register_slice_lem}
use fastarena_rs.Tracked.{
  TrackedArena, registered, then_register, then_register_slice, then_try_register,
  then_try_register_slice,
}
use fastarena_rs.Tracked.Laws.{Since}

module _ {W : Type 0} where
  -- The slots after a value, or a slice, has been stored, the last one first.
  abbrev pub value_slots : Elem W → Outcome ℕ → List (DropSlot W) → List (DropSlot W)
  value_slots t (ok p) zs =
      if ltb 0 t.size && t.needs_drop then single p t.drop_in_place ∷ zs else zs
  value_slots t (panicked e) zs = zs

  abbrev pub try_value_slots : Elem W → Outcome (Option ℕ) → List (DropSlot W) → List (DropSlot W)
  try_value_slots t (ok (some p)) zs = value_slots t (ok p) zs
  try_value_slots t (ok none) zs = zs
  try_value_slots t (panicked e) zs = zs

  abbrev pub slice_slots : Elem W → Outcome Slice → List (DropSlot W) → List (DropSlot W)
  slice_slots t (ok s) zs =
      if ltb 0 s.len && t.needs_drop then range s.ptr s.len (drop_range_shim t) ∷ zs else zs
  slice_slots t (panicked e) zs = zs

  abbrev pub try_slice_slots :
      Elem W → Outcome (Option Slice) → List (DropSlot W) → List (DropSlot W)
  try_slice_slots t (ok (some s)) zs = slice_slots t (ok s) zs
  try_slice_slots t (ok none) zs = zs
  try_slice_slots t (panicked e) zs = zs

module _ {W : Type 0} (slot_size slot_align : ℕ) where
  -- One more slot at the end is one more at the head of the reversed list.
  add_slot :
      (r : DropRegistry W) (xs zs : List (DropSlot W)) (s : DropSlot W)
      → Registered slot_size slot_align r ((xs ++ reverse zs) ++ (s ∷ []))
      → Registered slot_size slot_align r (xs ++ reverse (s ∷ zs))
  add_slot r xs zs s h =
      subst (λ (q : List (DropSlot W)). Registered slot_size slot_align r q)
        (sym (append_assoc xs (reverse zs) (s ∷ []))) h

  -- What has been registered is the same for a pointer and an optional one.
  optional_value :
      (heap_os : Os) (p : ℕ) (end : Outcome (Unit {0}) × DropRegistry W) (s : Store) (t : Elem W)
      (zs : List (DropSlot W))
      → ((registered heap_os slot_size slot_align (some p) end s).1
          ≡ (registered heap_os slot_size slot_align p end s).1)
        × (try_value_slots t (registered heap_os slot_size slot_align (some p) end s).0 zs
            ≡ value_slots t (registered heap_os slot_size slot_align p end s).0 zs)
  optional_value heap_os p (ok _, r) s t zs = (refl, refl)
  optional_value heap_os p (panicked e, r) s t zs = (refl, refl)

  optional_slice :
      (heap_os : Os) (x : Slice) (end : Outcome (Unit {0}) × DropRegistry W) (s : Store)
      (t : Elem W) (zs : List (DropSlot W))
      → ((registered heap_os slot_size slot_align (some x) end s).1
          ≡ (registered heap_os slot_size slot_align x end s).1)
        × (try_slice_slots t (registered heap_os slot_size slot_align (some x) end s).0 zs
            ≡ slice_slots t (registered heap_os slot_size slot_align x end s).0 zs)
  optional_slice heap_os x (ok _, r) s t zs = (refl, refl)
  optional_slice heap_os x (panicked e, r) s t zs = (refl, refl)

  module _ (heap_os : Os) (a b : TrackedArena W) (xs zs : List (DropSlot W)) (t : Elem W)
      (valid : IsValid a.store.arena) (since : Since slot_size slot_align a xs zs b) where
    unchanged :
        (s : Store)
        → Preserved b.store.arena s.arena
        → Since slot_size slot_align a xs zs (record { store = s; drop_registry = b.drop_registry })
    unchanged s kept = record {
      arena = Preserved-trans valid since.arena kept;
      slots = since.slots;
    }

    -- The store of an allocation, and the registration after it.
    pub value_registered :
        (out : Outcome ℕ × Store)
        → Preserved b.store.arena out.1.arena
        → 0 < t.size
        → let end = then_register heap_os slot_size slot_align t out b.drop_registry in
          Since slot_size slot_align a xs (value_slots t end.0 zs) end.1
    value_registered (panicked e, s) kept pos = unchanged s kept
    value_registered (ok p, s) kept pos =
        let sized : ltb 0 t.size ≡ true = lt→ltb 0 t.size pos in
        elim (register_lem heap_os slot_size slot_align t p b.drop_registry (xs ++ reverse zs)
          since.slots) [
            | inl (unneeded, e) ↦ rw (e, sized, unneeded) (unchanged s kept)
            | inr (needed, inl (r, e, more)) ↦
                rw (e, sized, needed)
                  (record {
                    arena = Preserved-trans valid since.arena kept;
                    slots = add_slot r xs zs (single p t.drop_in_place) more;
                  })
            | inr (needed, inr (q, e)) ↦ rw e (unchanged s kept)
          ]

    pub slice_registered :
        (out : Outcome Slice × Store)
        → Preserved b.store.arena out.1.arena
        → let end = then_register_slice heap_os slot_size slot_align t out b.drop_registry in
          Since slot_size slot_align a xs (slice_slots t end.0 zs) end.1
    slice_registered (panicked e, s) kept = unchanged s kept
    slice_registered (ok x, s) kept =
        elim (register_slice_lem heap_os slot_size slot_align t x.ptr x.len b.drop_registry
          (xs ++ reverse zs) since.slots) [
            | inl (inl unneeded, e) ↦
                let none_added : (ltb 0 x.len && t.needs_drop) ≡ false = ground arith in
                rw (e, none_added) (unchanged s kept)
            | inl (inr empty, e) ↦
                let none_added : (ltb 0 x.len && t.needs_drop) ≡ false = ground arith in
                rw (e, none_added) (unchanged s kept)
            | inr (needed, pos, inl (r, e, more)) ↦
                let added : (ltb 0 x.len && t.needs_drop) ≡ true = ground arith in
                rw (e, added)
                  (record {
                    arena = Preserved-trans valid since.arena kept;
                    slots = add_slot r xs zs (range x.ptr x.len (drop_range_shim t)) more;
                  })
            | inr (needed, pos, inr (q, e)) ↦ rw e (unchanged s kept)
          ]

    -- With a pointer that may be none.
    pub try_value_registered :
        (out : Outcome (Option ℕ) × Store)
        → Preserved b.store.arena out.1.arena
        → 0 < t.size
        → let end = then_try_register heap_os slot_size slot_align t out b.drop_registry in
          Since slot_size slot_align a xs (try_value_slots t end.0 zs) end.1
    try_value_registered (panicked e, s) kept pos = unchanged s kept
    try_value_registered (ok none, s) kept pos = unchanged s kept
    try_value_registered (ok (some p), s) kept pos =
        let end = DropRegistry.register heap_os slot_size slot_align t p b.drop_registry in
        let (same, slots) = optional_value heap_os p end s t zs in
        rw (same, slots) (value_registered (ok p, s) kept pos)

    pub try_slice_registered :
        (out : Outcome (Option Slice) × Store)
        → Preserved b.store.arena out.1.arena
        → let end = then_try_register_slice heap_os slot_size slot_align t out b.drop_registry in
          Since slot_size slot_align a xs (try_slice_slots t end.0 zs) end.1
    try_slice_registered (panicked e, s) kept = unchanged s kept
    try_slice_registered (ok none, s) kept = unchanged s kept
    try_slice_registered (ok (some x), s) kept =
        let end =
          DropRegistry.register_slice heap_os slot_size slot_align t x.ptr x.len b.drop_registry in
        let (same, slots) = optional_slice heap_os x end s t zs in
        rw (same, slots) (slice_registered (ok x, s) kept)
