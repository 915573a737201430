-- ===== src/DropRegistry.antt =====
-- util/drop_registry.rs, with the feature drop-tracking: the destructors that an arena runs, in
-- reverse order of their registration. A destructor acts on the rest of the program, `W`, and may
-- panic.
pub mod Laws
pub mod Register
mod Tests
use fastarena_rs.Base.{
  ℕ, zero, suc, ◌+◌, ◌-◌, ◌*◌, Bool, true, false, Option, none, some, List, [], ◌∷◌, ltb, ◌==◌,
  if◌then◌else◌, Panic, Outcome, ok, panicked, unwrap_none, destructor_panicked, M, ◌>>=◌, ◌>>◌,
  pure, raise, add_usize,
}
use fastarena_rs.Block.{Os}
use fastarena_rs.InlineVec as InlineVec
use fastarena_rs.InlineVec.{InlineVec}

abbrev pub drop_inline_cap : ℕ
drop_inline_cap = 32

pub data DropSlot (W : Type 0) : Type 0 where
  single : (ptr : ℕ) (shim : ℕ → M W (Unit {0})) → DropSlot W
  range : (ptr count : ℕ) (shim : ℕ → ℕ → M W (Unit {0})) → DropSlot W

pub record DropRegistry (W : Type 0) : Type 0 where
  pub slots : InlineVec (DropSlot W)

-- A type: its size, whether it needs to be dropped, and `drop_in_place`.
pub record Elem (W : Type 0) : Type 0 where
  pub size : ℕ
  pub needs_drop : Bool
  pub drop_in_place : ℕ → M W (Unit {0})

module _ {W : Type 0} where
  unfoldable pub new : DropRegistry W
  new = record { slots = InlineVec.new drop_inline_cap }

  -- `for i in 0..count { drop_in_place(ptr.add(i)) }`, from `ptr` on
  unfoldable pub drop_range_shim : Elem W → ℕ → ℕ → M W (Unit {0})
  drop_range_shim t ptr zero = pure tt
  drop_range_shim t ptr (suc count) =
      let rest = drop_range_shim t (add_usize ptr t.size) count in t.drop_in_place ptr >> rest

  -- `slot_size` and `slot_align` are those of `DropSlot`.
  module _ (os : Os) (slot_size slot_align : ℕ) where
    abbrev pub push_slot : DropSlot W → M (DropRegistry W) (Unit {0})
    push_slot s r =
        let (out, slots) = InlineVec.push os slot_size slot_align drop_inline_cap s r.slots in
        (out, record { slots = slots })

    unfoldable pub register : Elem W → ℕ → M (DropRegistry W) (Unit {0})
    register t ptr r = if t.needs_drop then push_slot (single ptr t.drop_in_place) r else (ok tt, r)

    unfoldable pub register_slice : Elem W → ℕ → ℕ → M (DropRegistry W) (Unit {0})
    register_slice t ptr count r =
        if count == 0
        then (ok tt, r)
        else if t.needs_drop
        then push_slot (range ptr count (drop_range_shim t)) r
        else (ok tt, r)

  -- `catch_unwind`: whether the destructor returned, and what it left.
  abbrev pub caught : Outcome (Unit {0}) × W → Bool × W
  caught (ok _, w) = (true, w)
  caught (panicked e, w) = (false, w)

  unfoldable pub run_slot : DropSlot W → W → Bool × W
  run_slot (single ptr shim) w = caught (shim ptr w)
  run_slot (range ptr count shim) w = caught (shim ptr count w)

  -- `self.slots.pop().unwrap()`
  abbrev pub pop_slot : M (DropRegistry W) (DropSlot W)
  pop_slot r = let (out, slots) = InlineVec.pop r.slots in (unwrapped out, record { slots = slots })
    where
      unwrapped : Outcome (Option (DropSlot W)) → Outcome (DropSlot W)
      unwrapped (ok (some s)) = ok s
      unwrapped (ok none) = panicked unwrap_none
      unwrapped (panicked e) = panicked e

  -- One turn of `while self.slots.len() > target_len`; `rest` is what follows it.
  abbrev pub turn :
      ℕ → (DropSlot W → M (DropRegistry W × W) (Unit {0})) → M (DropRegistry W × W) (Unit {0})
  turn target body (r, w) =
      if ltb target r.slots.len then and_body (pop_slot r) else (ok tt, (r, w))
    where
      and_body : Outcome (DropSlot W) × DropRegistry W → Outcome (Unit {0}) × (DropRegistry W × W)
      and_body (ok s, popped) = body s (popped, w)
      and_body (panicked e, popped) = (panicked e, (popped, w))

  abbrev pub drain_body :
      M (DropRegistry W × W) (Unit {0}) → DropSlot W → M (DropRegistry W × W) (Unit {0})
  drain_body rest s (r, w) = rest (r, (run_slot s w).1)

  unfoldable pub drain_loop : ℕ → ℕ → M (DropRegistry W × W) (Unit {0})
  unfolding run_slot
  drain_loop zero target = pure tt
  drain_loop (suc steps) target =
      let rest = drain_loop steps target in turn target (drain_body rest)

  -- Each turn takes one slot, so there are as many as slots above the target.
  unfoldable pub drain_remaining : ℕ → M (DropRegistry W × W) (Unit {0})
  unfolding drain_loop
  drain_remaining target (r, w) = drain_loop (r.slots.len - target) target (r, w)

  -- After the first panic the others are drained, and then it is raised.
  abbrev pub run_body :
      ℕ → M (DropRegistry W × W) (Unit {0}) → DropSlot W → M (DropRegistry W × W) (Unit {0})
  run_body target rest s (r, w) =
      let (returned, left) = run_slot s w in
      if returned
      then rest (r, left)
      else (drain_remaining target >> raise destructor_panicked) (r, left)

  unfoldable pub run_loop : ℕ → ℕ → M (DropRegistry W × W) (Unit {0})
  unfolding run_slot drain_remaining
  run_loop zero target = pure tt
  run_loop (suc steps) target =
      let rest = run_loop steps target in turn target (run_body target rest)

  unfoldable pub run_drops_until : ℕ → M (DropRegistry W × W) (Unit {0})
  unfolding run_loop
  run_drops_until target (r, w) = run_loop (r.slots.len - target) target (r, w)

  unfoldable pub run_all_drops : M (DropRegistry W × W) (Unit {0})
  unfolding run_drops_until
  run_all_drops = run_drops_until 0

  unfoldable pub len : DropRegistry W → ℕ
  len r = r.slots.len
