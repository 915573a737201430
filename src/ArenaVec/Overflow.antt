-- ===== src/ArenaVec/Overflow.antt =====
-- The unchecked product in `grow_to`: a reservation of more bytes than there are addresses.
use fastarena_rs.Base.{
  ℕ, ◌+◌, ◌*◌, ◌-◌, ◌%◌, ◌≤◌, ◌<◌, ◌≡◌, ap, arith, true, false, ltb, leb, ◌==◌, ok, usize_mod,
  usize_max, min,
}
use fastarena_rs.Block.{Os}
use fastarena_rs.ArenaVec.{ArenaVec, grow_to, extends_in_place, reserve, new_end, our_end}
use fastarena_rs.ArenaVec.Frame.{IsVec}
use fastarena_rs.ArenaVec.Resize.{mul_gap}
use native.Mathlib.Nat.{mul-pos}

module _ (size : ℕ) {v : ArenaVec} (vec : IsVec size v) where
  -- When the memory of a vector with elements of at least one byte, which is not empty, ends at
  -- the bump pointer of its valid arena, and the number of bytes that the vector lacks for a
  -- reservation is a multiple of 2^64, reserve returns at once, asks for no memory, and sets the
  -- capacity to the required one, whose bytes are more than the address space has.
  pub reserve-wraps :
      (os : Os) (align additional : ℕ)
      → 0 < size
      → 0 < v.cap
      → v.ptr + v.cap * size ≡ v.store.arena.cur_ptr
      → v.cap < v.len + additional
      → v.len + additional < usize_mod
      → (v.len + additional - v.cap) * size % usize_mod ≡ 0
      → (reserve size os align additional v ≡ (ok tt, record v { cap = v.len + additional }))
        × (usize_mod ≤ (v.len + additional) * size)
  unfolding reserve grow_to extends_in_place
  reserve-wraps os align additional some_bytes some_room last more representable wraps =
      let required = v.len + additional in
      let e : min required usize_max ≡ required = omega arith in
      let short : ltb v.cap required ≡ true = ground arith in
      let sized : (size == 0) ≡ false = ground arith in
      let low = vec.low in
      let within = vec.valid.ptr_within in
      let end : new_end size required v ≡ v.store.arena.cur_ptr = ground arith in
      let a : ltb 0 v.cap ≡ true = ground arith in
      let b : (our_end size v == v.store.arena.cur_ptr) ≡ true = ground arith in
      let c : leb (new_end size required v) v.store.arena.cur_end ≡ true = ground arith in
      let pos : 0 < (required - v.cap) * size = mul-pos (omega arith) some_bytes in
      let gap = mul_gap v.cap required size (omega arith) in
      (
        rw (e, short, sized, a, b, c)
            (ap
              (λ (p : ℕ). (
                ok (tt {0}),
                record v {
                  store = record v.store { arena = record v.store.arena { cur_ptr = p } };
                  cap = required;
                },
              ))
              end),
        omega arith,
      )
