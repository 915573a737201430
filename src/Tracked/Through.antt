-- ===== src/Tracked/Through.antt =====
-- The allocations of a transaction that tracks destructors are steps of it.
use fastarena_rs.Base.{
  ℕ, ◌≡◌, refl, ◌&&◌, List, [], ◌++◌, Option, none, some, Outcome, ok, panicked, Bool-cases, inl,
  inr, ltb, IsPow2, saturating_mul,
}
use fastarena_rs.Block.{Os}
use fastarena_rs.Arena.Valid.{IsFresh}
use fastarena_rs.Typed.{Slice}
use fastarena_rs.DropRegistry.{DropSlot, Elem}
use fastarena_rs.Tracked as Tracked
use fastarena_rs.Tracked.Slots.{value_slots, slice_slots, try_value_slots, try_slice_slots}
use fastarena_rs.Tracked.Stored.{Stores}
use fastarena_rs.Tracked.Txn.{
  TrackedTransaction, budget_ok, alloc, try_alloc, alloc_slice, try_alloc_slice,
}
use fastarena_rs.Tracked.Steps.{Steps, store}

module _ {W : Type 0} (t : Elem W) (zs : List (DropSlot W)) where
  value_slots-append : (out : Outcome ℕ) → value_slots t out zs ≡ value_slots t out [] ++ zs
  value_slots-append (panicked e) = refl
  value_slots-append (ok p) = elim (Bool-cases (ltb 0 t.size && t.needs_drop)) [
    | inl needed ↦ rw needed refl
    | inr unneeded ↦ rw unneeded refl
  ]

  slice_slots-append : (out : Outcome Slice) → slice_slots t out zs ≡ slice_slots t out [] ++ zs
  slice_slots-append (panicked e) = refl
  slice_slots-append (ok s) = elim (Bool-cases (ltb 0 s.len && t.needs_drop)) [
    | inl needed ↦ rw needed refl
    | inr unneeded ↦ rw unneeded refl
  ]

  try_value_slots-append :
      (out : Outcome (Option ℕ)) → try_value_slots t out zs ≡ try_value_slots t out [] ++ zs
  try_value_slots-append (panicked e) = refl
  try_value_slots-append (ok none) = refl
  try_value_slots-append (ok (some p)) = value_slots-append (ok p)

  try_slice_slots-append :
      (out : Outcome (Option Slice)) → try_slice_slots t out zs ≡ try_slice_slots t out [] ++ zs
  try_slice_slots-append (panicked e) = refl
  try_slice_slots-append (ok none) = refl
  try_slice_slots-append (ok (some x)) = slice_slots-append (ok x)

module _ {W : Type 0} (slot_size slot_align : ℕ) {t u : TrackedTransaction W} {w v : W}
    {zs : List (DropSlot W)} (os heap_os : Os) (e : Elem W) (align : ℕ)
    (s : Steps slot_size slot_align t w zs u v) (pow : IsPow2 align)
    (fresh : IsFresh os u.arena.store.arena.blocks) where
  pub alloc-Steps :
      (val : List ℕ)
      → let end = alloc heap_os slot_size slot_align os e align val u in
        Steps slot_size slot_align t w (value_slots e end.0 zs) end.1 v
  unfolding alloc
  alloc-Steps val = elim (Bool-cases (budget_ok e.size u)) [
    | inl within ↦
        let end = Tracked.alloc heap_os slot_size slot_align os e align val u.arena in
        rw within (
          store end.1 s (Stores.value os heap_os e align val Stores.stop pow fresh refl refl)
            (value_slots-append e zs end.0) refl)
    | inr over ↦ rw over s
  ]

  pub try_alloc-Steps :
      (val : List ℕ)
      → let end = try_alloc heap_os slot_size slot_align os e align val u in
        Steps slot_size slot_align t w (try_value_slots e end.0 zs) end.1 v
  unfolding try_alloc
  try_alloc-Steps val = elim (Bool-cases (budget_ok e.size u)) [
    | inl within ↦
        let end = Tracked.try_alloc heap_os slot_size slot_align os e align val u.arena in
        rw within (
          store end.1 s (Stores.try_value os heap_os e align val Stores.stop pow fresh refl refl)
            (try_value_slots-append e zs end.0) refl)
    | inr over ↦ rw over s
  ]

  pub alloc_slice-Steps :
      (len : ℕ) (iter : List (List ℕ))
      → let end = alloc_slice heap_os slot_size slot_align os e align len iter u in
        Steps slot_size slot_align t w (slice_slots e end.0 zs) end.1 v
  unfolding alloc_slice
  alloc_slice-Steps len iter = elim (Bool-cases (budget_ok (saturating_mul e.size len) u)) [
    | inl within ↦
        let end = Tracked.alloc_slice heap_os slot_size slot_align os e align len iter u.arena in
        rw within (
          store end.1 s (Stores.slice os heap_os e align len iter Stores.stop pow fresh refl refl)
            (slice_slots-append e zs end.0) refl)
    | inr over ↦ rw over s
  ]

  pub try_alloc_slice-Steps :
      (len : ℕ) (iter : List (List ℕ))
      → let end = try_alloc_slice heap_os slot_size slot_align os e align len iter u in
        Steps slot_size slot_align t w (try_slice_slots e end.0 zs) end.1 v
  unfolding try_alloc_slice
  try_alloc_slice-Steps len iter = elim (Bool-cases (budget_ok (saturating_mul e.size len) u)) [
    | inl within ↦
        let end =
          Tracked.try_alloc_slice heap_os slot_size slot_align os e align len iter u.arena in
        rw within (
          store end.1 s
            (Stores.try_slice os heap_os e align len iter Stores.stop pow fresh refl refl)
            (try_slice_slots-append e zs end.0) refl)
    | inr over ↦ rw over s
  ]
