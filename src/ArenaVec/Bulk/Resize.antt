-- ===== src/ArenaVec/Bulk/Resize.antt =====
-- `resize`: clones fill up what is missing, or the rest is dropped.
use fastarena_rs.Base.{
  ℕ, zero, suc, ◌+◌, ◌-◌, ◌≤◌, ◌<◌, ◌≡◌, refl, sym, ap, ap₂, ◌∙◌, inl, inr, List, [], ◌++◌, length,
  append_nil, arith, Bool, true, ltb, if◌then◌else◌, Outcome, ok, panicked, Bool-cases,
  is_power_of_two, take, drop, replicate, length-replicate, ltb→lt, take_all, drop_all,
}
use fastarena_rs.Block.{Os}
use fastarena_rs.Arena.Valid.{IsFresh}
use fastarena_rs.Typed.{Mem, write, concat}
use fastarena_rs.ArenaVec.{ArenaVec, slot}
use fastarena_rs.ArenaVec.Bulk.{resize, fill_clones}
use fastarena_rs.ArenaVec.Frame.{Holds, Became, Became-trans}
use fastarena_rs.ArenaVec.Resize.{Reaches}
use fastarena_rs.ArenaVec.Items.{same_branches, length-Holds, truncate_lem}
use fastarena_rs.ArenaVec.Bulk.Writes.{
  AllSized-replicate, filled_to, recast, written-Became, join_writes, Roomy, and_then_room,
  room_lem,
}

module _ (size : ℕ) where
  fill_clones_lem :
      (clone : List ℕ → List ℕ) (val : List ℕ) (p n : ℕ) (m : Mem)
      → length (clone val) ≡ size
      → fill_clones size clone val p n m ≡ write m p (concat (replicate n (clone val)))
  unfolding fill_clones
  fill_clones_lem clone val p zero m sized = refl
  fill_clones_lem clone val p (suc n) m sized =
      fill_clones_lem clone val (p + size) n (write m p (clone val)) sized
      ∙ join_writes size p (clone val) (concat (replicate n (clone val))) m sized

  -- The clones fill up what is missing, or the elements past the new length have been dropped.
  abbrev pub ResizeAfter :
      ArenaVec → List (List ℕ) → Bool → ℕ → List ℕ → Outcome (List (List ℕ)) × ArenaVec → Type 0
  ResizeAfter v xs needs_drop new_len x (ok dropped, w) =
      (dropped ≡ (if needs_drop then drop new_len xs else []))
      × Became size v (take new_len xs ++ replicate (new_len - v.len) x) w
  ResizeAfter v xs needs_drop new_len x (panicked e, w) = Became size v xs w

  module _ {v : ArenaVec} {xs : List (List ℕ)} (h : Holds size v xs) (os : Os) (align : ℕ)
      (fresh : IsFresh os v.store.arena.blocks) (two : is_power_of_two align ≡ true) where
    cloned :
        (clone : List ℕ → List ℕ) (needs_drop : Bool) (new_len : ℕ) (val : List ℕ) (w : ArenaVec)
        → length (clone val) ≡ size
        → v.len < new_len
        → Roomy size v xs new_len w
        → ResizeAfter v xs needs_drop new_len (clone val) (
          ok [],
          filled_to
              (fill_clones size clone val (slot size w w.len) (new_len - w.len) w.store.mem)
              new_len
              w,
        )
    cloned clone needs_drop new_len val w sized longer roomy =
        let x = clone val in
        let n = new_len - w.len in
        let short : length xs ≤ new_len = omega (arith, length-Holds size h) in
        let count : length (replicate n x) ≡ n = length-replicate n x in
        let new =
          written-Became size w xs (replicate n x) roomy.became.holds
            (AllSized-replicate size n x sized) (λ pos. omega (arith, roomy.room pos, roomy.len)) in
        let mem = fill_clones_lem clone val (slot size w w.len) n w.store.mem sized in
        let total : w.len + length (replicate n x) ≡ new_len = omega (arith, roomy.len) in
        (
          same_branches needs_drop
              ∙ ap (λ (r : List (List ℕ)). if needs_drop then r else [])
                  (sym (drop_all new_len xs short)),
          Became-trans size h.vec roomy.became (
              recast size w w
                (ap₂ (λ (r : List (List ℕ)) (k : ℕ). r ++ replicate k x)
                  (sym (take_all new_len xs short)) (omega (arith, roomy.len)))
                (sym mem) total new),
        )

    -- Clones come behind the elements up to the new length, or the elements past it are dropped.
    pub resize_lem :
        (clone : List ℕ → List ℕ) (needs_drop : Bool) (new_len : ℕ) (val : List ℕ)
        → length (clone val) ≡ size
        → Reaches size v new_len
        → ResizeAfter v xs needs_drop new_len
            (clone val)
            (resize size os align clone needs_drop new_len val v)
    unfolding resize
    resize_lem clone needs_drop new_len val sized reaches = elim (Bool-cases (ltb v.len new_len)) [
      | inr shorter ↦
          let e : new_len - v.len ≡ 0 = ground arith in
          let cut = truncate_lem size h needs_drop new_len in
          rw (shorter, ResizeAfter, resize) (cut.0, rw (e, append_nil (take new_len xs)) (cut.1))
      | inl longer ↦
          rw (longer, ResizeAfter, resize)
            (and_then_room size (ResizeAfter v xs needs_drop new_len (clone val)) _ _
              (room_lem size h os align fresh two (ltb v.cap new_len) new_len (ground arith)
                (ground arith) reaches (λ e pos. ground arith))
              (λ e w became. became)
              (λ w roomy. cloned clone needs_drop new_len val w sized (ltb→lt _ _ longer) roomy))
    ]
