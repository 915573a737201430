-- ===== src/ArenaVec/Bulk/Laws.antt =====
-- `extend_exact` and `extend_from_slice`: the new elements come behind the old ones.
use fastarena_rs.Base.{
  ℕ, ◌+◌, ◌≤◌, ◌≡◌, refl, sym, inl, inr, List, ◌++◌, length, append_nil, arith, true, ◌&&◌, ltb,
  ◌==◌, Outcome, ok, panicked, usize_mod, Bool-cases, is_power_of_two, take, length-take, ==→eq,
}
use fastarena_rs.Block.{Os}
use fastarena_rs.Arena.Valid.{IsFresh}
use fastarena_rs.Typed.{Mem, write, concat}
use fastarena_rs.Typed.Slices.{AllSized}
use fastarena_rs.ArenaVec.{ArenaVec, slot}
use fastarena_rs.ArenaVec.Bulk.{extend_exact, extend_from_slice, fill_from_iter, filled}
use fastarena_rs.ArenaVec.Frame.{IsVec, Holds, Became, Became-trans}
use fastarena_rs.ArenaVec.Resize.{Reaches}
use fastarena_rs.ArenaVec.Push.{PushAfter}
use fastarena_rs.ArenaVec.Items.{length-Holds, shortened, unchanged}
use fastarena_rs.ArenaVec.Bulk.Writes.{
  AllSized-take, take_append, length-zero, filled_to, recast, written-Became, bulk_lem, BulkAfter,
  Roomy, and_then_room, room_lem,
}

module _ (size : ℕ) where
  -- The reported number of elements is there, or the vector is as it was.
  abbrev pub ExtendAfter :
      ArenaVec → List (List ℕ) → ℕ → List (List ℕ) → Outcome (Unit {0}) × ArenaVec → Type 0
  ExtendAfter v xs add_len iter (ok _, w) =
      (add_len ≤ length iter) × Became size v (xs ++ take add_len iter) w
  ExtendAfter v xs add_len iter (panicked e, w) = Became size v xs w

  written_out :
      (v w : ArenaVec) (xs iter : List (List ℕ)) (add_len : ℕ) (out : Outcome (Unit {0}) × Mem)
      → IsVec size v
      → AllSized size iter
      → Roomy size v xs (v.len + add_len) w
      → BulkAfter size (slot size w w.len) iter add_len w.store.mem out
      → ExtendAfter v xs add_len iter (filled size (v.len + add_len) out w)
  written_out v w xs iter add_len (ok _, m) vec all roomy (enough, e) =
      let count = length-take add_len iter in
      let new =
        written-Became size w xs (take add_len iter) roomy.became.holds
          (AllSized-take size add_len iter all) (λ pos. omega (arith, roomy.room pos, roomy.len)) in
      (
        enough,
        Became-trans size vec roomy.became
            (recast size w w refl (sym e) (omega (arith, roomy.len)) new),
      )
  written_out v w xs iter add_len (panicked _, m) vec all roomy (short, e) =
      let kept = length-Holds size roomy.became.holds in
      let new =
        written-Became size w xs iter roomy.became.holds all
          (λ pos. omega (arith, roomy.room pos, roomy.len)) in
      let old = shortened size new.holds w.len (omega arith) in
      Became-trans size vec roomy.became (
        recast size w w (take_append w.len xs iter kept) (sym e) refl
          (Became-trans size roomy.became.holds.vec new old))

  module _ {v : ArenaVec} {xs : List (List ℕ)} (h : Holds size v xs) (os : Os) (align : ℕ)
      (fresh : IsFresh os v.store.arena.blocks) (two : is_power_of_two align ≡ true) where
    fill_from_iter_lem :
        (add_len : ℕ) (iter : List (List ℕ)) (w : ArenaVec)
        → AllSized size iter
        → Roomy size v xs (v.len + add_len) w
        → ExtendAfter v xs add_len iter (fill_from_iter size (v.len + add_len) add_len iter w)
    fill_from_iter_lem add_len iter w all roomy =
        written_out v w xs iter add_len _ h.vec all roomy
          (bulk_lem size (slot size w w.len) iter add_len w.store.mem all)

    -- Either as many elements as are reported come behind the old ones, or it panics and the
    -- vector stands for what it stood for.
    pub extend_exact_lem :
        (add_len : ℕ) (iter : List (List ℕ))
        → AllSized size iter
        → Reaches size v (v.len + add_len)
        → ExtendAfter v xs add_len iter (extend_exact size os align add_len iter v)
    unfolding extend_exact
    extend_exact_lem add_len iter all reaches = elim (Bool-cases (ltb 0 add_len)) [
      | inr none_asked ↦
          let e : add_len ≡ 0 = ground arith in
          rw (none_asked, ExtendAfter, extend_exact, e)
            (omega arith, rw (append_nil xs) (unchanged size h))
      | inl some_asked ↦ elim (Bool-cases (ltb (v.len + add_len) usize_mod)) [
        | inr over ↦ rw (some_asked, over, ExtendAfter, extend_exact) (unchanged size h)
        | inl representable ↦
            rw (some_asked, representable, ExtendAfter, extend_exact)
              (and_then_room size (ExtendAfter v xs add_len iter) _ _
                (room_lem size h os align fresh two (ltb 0 size && ltb v.cap (v.len + add_len))
                  (v.len + add_len) (ground arith) (omega arith) reaches (λ e pos. ground arith))
                (λ e w became. became) (λ w roomy. fill_from_iter_lem add_len iter w all roomy))
      ]
    ]

    appended :
        (ys : List (List ℕ)) (w : ArenaVec)
        → AllSized size ys
        → Roomy size v xs (v.len + length ys) w
        → Became size v
            (xs ++ ys)
            (filled_to (write w.store.mem (slot size w w.len) (concat ys)) (v.len + length ys) w)
    appended ys w all roomy = Became-trans size h.vec roomy.became (
        recast size w w refl refl (omega (arith, roomy.len)) (
          written-Became size w xs ys roomy.became.holds all
            (λ pos. omega (arith, roomy.room pos, roomy.len))))

    -- Either the elements of the slice come behind the old ones, or it panics and the vector
    -- stands for what it stood for.
    pub extend_from_slice_lem :
        (ys : List (List ℕ))
        → AllSized size ys
        → Reaches size v (v.len + length ys)
        → PushAfter size v xs ys (extend_from_slice size os align ys v)
    unfolding extend_from_slice
    extend_from_slice_lem ys all reaches = elim (Bool-cases (length ys == 0)) [
      | inl none_asked ↦
          rw (none_asked, PushAfter, extend_from_slice)
            (rw (length-zero ys (==→eq (length ys) 0 none_asked), append_nil xs) (unchanged size h))
      | inr some_asked ↦ elim (Bool-cases (ltb (v.len + length ys) usize_mod)) [
        | inr over ↦ rw (some_asked, over, PushAfter, extend_from_slice) (unchanged size h)
        | inl representable ↦
            rw (some_asked, representable, PushAfter, extend_from_slice)
              (and_then_room size (PushAfter size v xs ys) _ _
                (room_lem size h os align fresh two (ltb 0 size && ltb v.cap (v.len + length ys))
                  (v.len + length ys) (ground arith) (omega arith) reaches (λ e pos. ground arith))
                (λ e w became. became) (λ w roomy. appended ys w all roomy))
      ]
    ]
