-- ===== src/Arena/Preserved.antt =====
-- What every operation that allocates leaves as it is, whichever way it ends.
use fastarena_rs.Base.{ℕ, ◌≡◌, refl, ◌∙◌, inl, inr, ok, panicked, Option, none, some, Outcome}
use fastarena_rs.Block.{Os}
use fastarena_rs.Arena.{Arena}
use fastarena_rs.Arena.Alloc.{alloc_raw, try_alloc_raw}
use fastarena_rs.Arena.Valid.{IsValid, IsFresh}
use fastarena_rs.Arena.Grown.{Grown, Grown-refl, Grown-trans}
use fastarena_rs.Arena.Safety.{After, TryAfter}
use fastarena_rs.Arena.Raw.{alloc_raw_lem, try_alloc_raw_lem}

pub record Preserved (a a' : Arena) : Type 0 where
  pub valid : IsValid a'
  pub grown : Grown a a'
  pub depth : a'.txn_depth ≡ a.txn_depth

pub Preserved-refl : {a : Arena} → IsValid a → Preserved a a
Preserved-refl {a} v = record { valid = v; grown = Grown-refl a; depth = refl }

pub Preserved-trans : {a b c : Arena} → IsValid a → Preserved a b → Preserved b c → Preserved a c
Preserved-trans v p q = record {
  valid = q.valid;
  grown = Grown-trans v.layout.in_range p.grown q.grown;
  depth = q.depth ∙ p.depth;
}

pub After-Preserved :
    {a : Arena} (size align : ℕ) (out : Outcome ℕ × Arena)
    → After a size align out
    → Preserved a out.1
After-Preserved size align (ok p, a') h = record {
  valid = h.valid;
  grown = h.grown;
  depth = h.depth;
}
After-Preserved size align (panicked e, a') h = record {
  valid = h.valid;
  grown = h.grown;
  depth = h.depth;
}

pub TryAfter-Preserved :
    {a : Arena} (size align : ℕ) (out : Outcome (Option ℕ) × Arena)
    → TryAfter a size align out
    → Preserved a out.1
TryAfter-Preserved size align (ok (some p), a') h = record {
  valid = h.valid;
  grown = h.grown;
  depth = h.depth;
}
TryAfter-Preserved size align (ok none, a') h = record {
  valid = h.valid;
  grown = h.grown;
  depth = h.depth;
}
TryAfter-Preserved size align (panicked e, a') h = record {
  valid = h.valid;
  grown = h.grown;
  depth = h.depth;
}

module _ {a : Arena} (os : Os) (size align : ℕ) (v : IsValid a) (fresh : IsFresh os a.blocks) where
  pub alloc_raw-Preserved : Preserved a (alloc_raw os size align a).1
  alloc_raw-Preserved = elim (alloc_raw_lem os size align v fresh) [
    | inl (_, e) ↦ rw e (Preserved-refl v)
    | inr (inl (_, _, e)) ↦ rw e (Preserved-refl v)
    | inr (inr (_, _, h)) ↦ After-Preserved size align (alloc_raw os size align a) h
  ]

  pub try_alloc_raw-Preserved : Preserved a (try_alloc_raw os size align a).1
  try_alloc_raw-Preserved = elim (try_alloc_raw_lem os size align v fresh) [
    | inl (_, e) ↦ rw e (Preserved-refl v)
    | inr (inl (_, _, e)) ↦ rw e (Preserved-refl v)
    | inr (inr (_, _, h)) ↦ TryAfter-Preserved size align (try_alloc_raw os size align a) h
  ]

-- The depth counter is no part of the invariant.
abbrev pub with_depth : ℕ → Arena → Arena
with_depth d a = record a { txn_depth = d }

pub with_depth-IsValid : {a : Arena} (d : ℕ) → IsValid a → IsValid (with_depth d a)
with_depth-IsValid d v = record {
  layout = v.layout;
  base = v.base;
  end = v.end;
  ptr_above = v.ptr_above;
  ptr_within = v.ptr_within;
  mark_above = v.mark_above;
  mark_in_range = v.mark_in_range;
  reserved = v.reserved;
  counted = v.counted;
}

-- `Grown` does not see the counter on either side.
pub with_depth-Grown : {a b : Arena} (c d : ℕ) → Grown a b → Grown (with_depth c a) (with_depth d b)
with_depth-Grown c d g = record {
  forward = g.forward;
  longer = g.longer;
  frame = g.frame;
  below = g.below;
  here = g.here;
  passed = g.passed;
}
