-- ===== src/ArenaVec/InPlace.antt =====
-- The extension in place: the bump pointer of the arena moves over what the vector takes.
use fastarena_rs.Base.{ℕ, ◌+◌, ◌*◌, ◌-◌, ◌≤◌, ◌<◌, ◌≡◌, refl, inl, inr, List, arith, true}
use fastarena_rs.Arena.Valid.{IsValid}
use fastarena_rs.Arena.Grown.{Allocated}
use fastarena_rs.Arena.Raw.{Used-mono}
use fastarena_rs.ArenaVec.{ArenaVec, extends_in_place, extended, new_end}
use fastarena_rs.ArenaVec.Frame.{Holds}
use native.Mathlib.Decide.{dec_lt}
use fastarena_rs.Arena.{Arena, block_at}
use fastarena_rs.Arena.Layout.{SameFrame-refl}
use fastarena_rs.ArenaVec.Resize.{Reaches, Resized, mul_gap, arena_low, unused_apart}

-- The bump pointer moves forward in its block.
advanced-Allocated :
    (a : Arena) (n : ℕ)
    → IsValid a
    → a.cur_ptr + n ≤ a.cur_end
    → Allocated a n 1 a.cur_ptr (record a { cur_ptr = a.cur_ptr + n })
advanced-Allocated a n v fits = record {
  valid = record {
    layout = v.layout;
    base = v.base;
    end = v.end;
    ptr_above = omega (arith, v.ptr_above);
    ptr_within = omega arith;
    mark_above = v.mark_above;
    mark_in_range = v.mark_in_range;
    reserved = v.reserved;
    counted = v.counted;
  };
  grown = record {
    forward = omega arith;
    longer = omega arith;
    frame = λ i h. SameFrame-refl (block_at a.blocks i);
    below = λ i h. refl;
    here = λ _. omega arith;
    passed = λ h. absurd (omega arith);
  };
  multiple = omega arith;
  start = v.ptr_above;
  end = refl;
  depth = refl;
  place = inl (refl, omega arith, omega (arith, v.ptr_above));
}

module _ (size : ℕ) {v : ArenaVec} {xs : List (List ℕ)} (h : Holds size v xs) where
  -- What the tests of the extension in place have found.
  record InPlace (new_cap : ℕ) : Type 0 where
    more : v.cap < new_cap
    at_end : v.ptr + v.cap * size ≡ v.store.arena.cur_ptr
    moves : new_end size new_cap v ≡ v.store.arena.cur_ptr + (new_cap - v.cap) * size
    fits : v.store.arena.cur_ptr + (new_cap - v.cap) * size ≤ v.store.arena.cur_end

  extends-InPlace :
      (new_cap : ℕ)
      → Reaches size v new_cap
      → extends_in_place size new_cap v ≡ true
      → InPlace new_cap
  unfolding extends_in_place
  extends-InPlace new_cap (inl empty) e = absurd (ground arith)
  extends-InPlace new_cap (inr reaches) e =
      let more : v.cap < new_cap = ground arith in
      let gap = mul_gap v.cap new_cap size (omega arith) in
      let low = h.vec.low in
      let at_end : v.ptr + v.cap * size ≡ v.store.arena.cur_ptr = ground arith in
      let moves : new_end size new_cap v ≡ v.store.arena.cur_ptr + (new_cap - v.cap) * size =
        omega arith in
      let last : new_end size new_cap v ≤ v.store.arena.cur_end = ground arith in
      record { more = more; at_end = at_end; moves = moves; fits = omega arith }

  pub extended-Resized :
      (new_cap : ℕ)
      → Reaches size v new_cap
      → extends_in_place size new_cap v ≡ true
      → Resized size v xs new_cap (extended size new_cap v)
  extended-Resized new_cap reaches e =
      let q = extends-InPlace new_cap reaches e in
      let extra = (new_cap - v.cap) * size in
      let gap = mul_gap v.cap new_cap size (omega (arith, q.more)) in
      let k : Allocated v.store.arena extra 1 v.store.arena.cur_ptr
          (extended size new_cap v).store.arena =
        rw q.moves (advanced-Allocated v.store.arena extra h.vec.valid q.fits) in
      record {
        holds = record {
          vec = record {
            valid = k.valid;
            room = λ pos. omega (arith, h.vec.room pos, q.more);
            owned = λ x from to. elim (dec_lt x v.store.arena.cur_ptr) [
              | yes old ↦
                  Used-mono x h.vec.valid k.valid k.grown
                    (h.vec.owned x from (omega (arith, q.at_end)))
              | no new ↦ inr (omega (arith, k.start), omega (arith, k.end, q.at_end))
            ];
            low = omega (arith, k.end, k.valid.ptr_within, arena_low k.valid, q.at_end);
            non_null = h.vec.non_null;
          };
          holds = h.holds;
        };
        cap = refl;
        len = refl;
        framed = record {
          grown = k.grown;
          depth = k.depth;
          outside = λ x used out. elim out [
            | inl below ↦ inl below
            | inr behind ↦ elim (unused_apart size h 1 extra v.store.arena.cur_ptr x k used) [
              | inl before ↦ absurd (omega (arith, q.at_end))
              | inr after ↦ inr (omega (arith, q.at_end))
            ]
          ];
          kept = λ x used out. refl;
        };
      }
