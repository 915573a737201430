-- ===== src/ArenaVec/Resize.antt =====
-- A vector in new memory and one with the memory it had: each keeps the elements.
use fastarena_rs.Base.{
  ℕ, ◌+◌, ◌*◌, ◌-◌, ◌^◌, ◌≤◌, ◌<◌, ◌≡◌, refl, ap, ◌∙◌, ◌⊎◌, inl, inr, List, length, arith, true,
  false, ltb, Outcome, ok, panicked, usize_mod, Result, done, failed,
}
use fastarena_rs.Arena.Valid.{IsValid}
use fastarena_rs.Arena.Grown.{Used, Allocated, Failed, Grown-refl}
use fastarena_rs.Arena.Raw.{Used-mono, Allocated-fresh}
use fastarena_rs.Typed.Memory.{read, write_outside}
use fastarena_rs.Typed.Elements.{elements, elements-copy, length-read}
use fastarena_rs.ArenaVec.{ArenaVec, TryReserveError, moved, with_arena}
use fastarena_rs.ArenaVec.Frame.{Holds, Framed, Framed-refl}
use native.Mathlib.Decide.{dec_lt}
use native.Mathlib.Nat.{mul-le-mul_right, add-mul}
use fastarena_rs.Arena.{Arena}

module _ (size : ℕ) where
  -- An extension in place that does not leave the address space.
  abbrev pub Reaches : ArenaVec → ℕ → Type 0
  Reaches v new_cap = (v.cap ≡ 0) ⊎ (v.ptr + new_cap * size < usize_mod)

  -- The vector has the capacity, the same elements, and has left other memory alone.
  pub record Resized (v : ArenaVec) (xs : List (List ℕ)) (new_cap : ℕ) (v' : ArenaVec)
      : Type 0 where
    pub holds : Holds size v' xs
    pub cap : v'.cap ≡ new_cap
    pub len : v'.len ≡ v.len
    pub framed : Framed size v v'

  -- Growth panics only with the vector as it was.
  abbrev pub GrowAfter : ArenaVec → List (List ℕ) → ℕ → Outcome (Unit {0}) × ArenaVec → Type 0
  GrowAfter v xs new_cap (ok _, v') = Resized v xs new_cap v'
  GrowAfter v xs new_cap (panicked e, v') = Resized v xs v.cap v'

  abbrev pub TryGrowAfter :
      ArenaVec → List (List ℕ) → ℕ → Outcome (Result (Unit {0}) TryReserveError) × ArenaVec → Type 0
  TryGrowAfter v xs new_cap (ok (done _), v') = Resized v xs new_cap v'
  TryGrowAfter v xs new_cap (ok (failed e), v') = Resized v xs v.cap v'
  TryGrowAfter v xs new_cap (panicked e, v') = Resized v xs v.cap v'

pub mul_mono : (m n size : ℕ) → m ≤ n → m * size ≤ n * size
mul_mono m n size h = mul-le-mul_right size h

pub mul_gap : (m n size : ℕ) → m ≤ n → n * size ≡ m * size + (n - m) * size
mul_gap m n size h = ap (λ (k : ℕ). k * size) (omega arith) ∙ add-mul m (n - m) size

pub arena_low : {a : Arena} → IsValid a → a.cur_end ≤ 2 ^ 63
arena_low {a} v =
    let low = (v.layout.valid a.current v.layout.in_range).low in omega (arith, v.base, v.end)

arena_non_null : {a : Arena} → IsValid a → 0 < a.cur_base
arena_non_null {a} v =
    let pos = (v.layout.valid a.current v.layout.in_range).non_null in omega (arith, v.base)

module _ (size : ℕ) {v : ArenaVec} {xs : List (List ℕ)} (h : Holds size v xs) where
  pub unused_apart :
      (align bytes p x : ℕ) {a : Arena}
      → Allocated v.store.arena bytes align p a
      → Used v.store.arena x
      → (x < p) ⊎ (p + bytes ≤ x)
  unused_apart align bytes p x k used = elim (dec_lt x p) [
    | yes below ↦ inl below
    | no above ↦ elim (dec_lt x (p + bytes)) [
      | yes inside ↦ absurd ((Allocated-fresh x h.vec.valid k (omega arith) inside).0 used)
      | no behind ↦ inr (omega arith)
    ]
  ]

  -- The copy into the new memory does not reach what was in use.
  copy_kept :
      (align new_cap p : ℕ) {a : Arena} (x : ℕ)
      → v.len ≤ new_cap
      → Allocated v.store.arena (new_cap * size) align p a
      → Used v.store.arena x
      → (moved size new_cap p a v).store.mem x ≡ v.store.mem x
  copy_kept align new_cap p {a} x enough k used = elim (dec_lt 0 v.len) [
    | no empty ↦ let e : ltb 0 v.len ≡ false = ground arith in rw e refl
    | yes some_elements ↦
        let e : ltb 0 v.len ≡ true = ground arith in
        let bytes : length (read v.store.mem v.ptr (v.len * size)) ≡ v.len * size =
          length-read v.store.mem v.ptr (v.len * size) in
        let apart = unused_apart align (new_cap * size) p x k used in
        rw e (
          write_outside v.store.mem p (read v.store.mem v.ptr (v.len * size)) x
            (ground (arith, mul_mono v.len new_cap size enough)))
  ]

  copy_elements :
      (new_cap p : ℕ) (a : Arena)
      → elements (moved size new_cap p a v).store.mem p size v.len
        ≡ elements v.store.mem v.ptr size v.len
  copy_elements new_cap p a = elim (dec_lt 0 v.len) [
    | yes some_elements ↦
        let e : ltb 0 v.len ≡ true = ground arith in
        rw e (elements-copy v.store.mem v.ptr p size v.len)
    | no empty ↦ let e : v.len ≡ 0 = omega arith in rw e refl
  ]

  pub moved-Resized :
      (align new_cap p : ℕ) {a : Arena}
      → v.len ≤ new_cap
      → Allocated v.store.arena (new_cap * size) align p a
      → Resized size v xs new_cap (moved size new_cap p a v)
  moved-Resized align new_cap p {a} enough k = record {
    holds = record {
      vec = record {
        valid = k.valid;
        room = λ pos. enough;
        owned = λ x from to. inr (omega (arith, k.start), omega (arith, k.end));
        low = omega (arith, k.end, k.valid.ptr_within, arena_low k.valid);
        non_null = omega (arith, k.start, arena_non_null k.valid);
      };
      holds = copy_elements new_cap p a ∙ h.holds;
    };
    cap = refl;
    len = refl;
    framed = record {
      grown = k.grown;
      depth = k.depth;
      outside = λ x used out. unused_apart align (new_cap * size) p x k used;
      kept = λ x used out. copy_kept align new_cap p x enough k used;
    };
  }

  pub Failed-Resized :
      (a : Arena) → Failed v.store.arena a → Resized size v xs v.cap (with_arena a v)
  Failed-Resized a k = record {
    holds = record {
      vec = record {
        valid = k.valid;
        room = h.vec.room;
        owned = λ x from to. Used-mono x h.vec.valid k.valid k.grown (h.vec.owned x from to);
        low = h.vec.low;
        non_null = h.vec.non_null;
      };
      holds = h.holds;
    };
    cap = refl;
    len = refl;
    framed = record {
      grown = k.grown;
      depth = k.depth;
      outside = λ x used out. out;
      kept = λ x used out. refl;
    };
  }

  pub zero-Resized :
      (new_cap : ℕ) → size ≡ 0 → Resized size v xs new_cap (record v { cap = new_cap })
  zero-Resized new_cap none_stored =
      let new_none : new_cap * size ≡ 0 = omega (arith, ap (λ (k : ℕ). new_cap * k) none_stored) in
      let old_none : v.cap * size ≡ 0 = omega (arith, ap (λ (k : ℕ). v.cap * k) none_stored) in
      record {
        holds = record {
          vec = record {
            valid = h.vec.valid;
            room = λ pos. absurd (omega arith);
            owned = λ x from to. absurd (omega arith);
            low = omega (arith, h.vec.low);
            non_null = h.vec.non_null;
          };
          holds = h.holds;
        };
        cap = refl;
        len = refl;
        framed = record {
          grown = Grown-refl v.store.arena;
          depth = refl;
          outside = λ x used out. ground arith;
          kept = λ x used out. refl;
        };
      }

  pub unchanged-Resized : Resized size v xs v.cap v
  unchanged-Resized = record { holds = h; cap = refl; len = refl; framed = Framed-refl size v }
