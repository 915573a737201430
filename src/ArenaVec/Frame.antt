-- ===== src/ArenaVec/Frame.antt =====
-- What a vector owns of its arena, what it stands for, and what an operation leaves alone.
use fastarena_rs.Base.{ℕ, ◌+◌, ◌*◌, ◌^◌, ◌≤◌, ◌<◌, ◌≡◌, refl, ◌∙◌, ◌⊎◌, List}
use fastarena_rs.Arena.Valid.{IsValid}
use fastarena_rs.Arena.Grown.{Grown, Grown-refl, Grown-trans, Used}
use fastarena_rs.Arena.Raw.{Used-mono}
use fastarena_rs.Typed.Elements.{elements}
use fastarena_rs.ArenaVec.{ArenaVec}

module _ (size : ℕ) where
  -- The address is not in the memory of the vector.
  abbrev pub Outside : ArenaVec → ℕ → Type 0
  Outside v x = (x < v.ptr) ⊎ (v.ptr + v.cap * size ≤ x)

  -- The arena is valid, and the memory of the vector is in use in it. A type of size 0 has no memory.
  pub record IsVec (v : ArenaVec) : Type 0 where
    pub valid : IsValid v.store.arena
    pub room : 0 < size → v.len ≤ v.cap
    pub owned : (x : ℕ) → v.ptr ≤ x → x < v.ptr + v.cap * size → Used v.store.arena x
    pub low : v.ptr + v.cap * size ≤ 2 ^ 63
    pub non_null : 0 < v.ptr

  -- The vector stands for the list of its elements.
  pub record Holds (v : ArenaVec) (xs : List (List ℕ)) : Type 0 where
    pub vec : IsVec v
    pub holds : elements v.store.mem v.ptr size v.len ≡ xs

  -- Memory that is in use outside of the vector is as it was and stays outside.
  pub record Framed (v v' : ArenaVec) : Type 0 where
    pub grown : Grown v.store.arena v'.store.arena
    pub depth : v'.store.arena.txn_depth ≡ v.store.arena.txn_depth
    pub outside : (x : ℕ) → Used v.store.arena x → Outside v x → Outside v' x
    pub kept : (x : ℕ) → Used v.store.arena x → Outside v x → v'.store.mem x ≡ v.store.mem x

  pub Framed-refl : (v : ArenaVec) → Framed v v
  Framed-refl v = record {
    grown = Grown-refl v.store.arena;
    depth = refl;
    outside = λ x used out. out;
    kept = λ x used out. refl;
  }

  pub Framed-trans : {u v w : ArenaVec} → IsVec u → IsVec v → Framed u v → Framed v w → Framed u w
  Framed-trans {u} {v} {w} vu vv f g = record {
    grown = Grown-trans vu.valid.layout.in_range f.grown g.grown;
    depth = g.depth ∙ f.depth;
    outside = λ x used out.
        g.outside x (Used-mono x vu.valid vv.valid f.grown used) (f.outside x used out);
    kept = λ x used out.
        g.kept x (Used-mono x vu.valid vv.valid f.grown used) (f.outside x used out)
        ∙ f.kept x used out;
  }

  -- The vector holds these elements now, and has left other memory alone.
  pub record Became (v : ArenaVec) (xs : List (List ℕ)) (v' : ArenaVec) : Type 0 where
    pub holds : Holds v' xs
    pub framed : Framed v v'

  pub Became-trans :
      {u v w : ArenaVec} {xs ys : List (List ℕ)}
      → IsVec u
      → Became u xs v
      → Became v ys w
      → Became u ys w
  Became-trans vu p q = record {
    holds = q.holds;
    framed = Framed-trans vu p.holds.vec p.framed q.framed;
  }
