-- ===== src/Typed/Laws.antt =====
-- What the allocations of values and strings promise: the value can be read back, and nothing that
-- was in use is overwritten, then and later.
use fastarena_rs.Base.{
  ℕ, ◌+◌, ◌<◌, ◌≡◌, refl, subst, ◌∙◌, ◌⊎◌, inl, inr, List, length, arith, ◌==◌, ==→eq, Option, none,
  some, Outcome, ok, panicked, IsPow2, Bool-cases,
}
use fastarena_rs.Block.{Os}
use fastarena_rs.Arena.{Arena}
use fastarena_rs.Arena.Alloc as Alloc
use fastarena_rs.Arena.Valid.{IsValid, IsFresh}
use fastarena_rs.Arena.Grown.{Used, Allocated, Failed}
use fastarena_rs.Arena.Safety.{After, TryAfter}
use fastarena_rs.Arena.Paths.{alloc_raw_inner-After, try_alloc_raw_inner-TryAfter}
use fastarena_rs.Arena.Raw.{Allocated-fresh}
use fastarena_rs.Typed.{Store, write, with_ptr, with_try, put, try_put, alloc, try_alloc}
use fastarena_rs.Typed.Memory.{read, read-write, read_ext, write_outside}
use native.Mathlib.Decide.{dec_lt}

-- `bytes` have been stored at `p`, in memory that was free, and all memory in use is as it was.
pub record Stored (s : Store) (bytes : List ℕ) (align p : ℕ) (s' : Store) : Type 0 where
  pub allocated : Allocated s.arena (length bytes) align p s'.arena
  pub holds : read s'.mem p (length bytes) ≡ bytes
  pub kept : (x : ℕ) → Used s.arena x → s'.mem x ≡ s.mem x

-- Nothing has been stored.
pub record NotStored (s s' : Store) : Type 0 where
  pub failed : Failed s.arena s'.arena
  pub mem : s'.mem ≡ s.mem

abbrev pub PutAfter : Store → List ℕ → ℕ → Outcome ℕ × Store → Type 0
PutAfter s bytes align (ok p, s') = Stored s bytes align p s'
PutAfter s bytes align (panicked e, s') = NotStored s s'

abbrev pub TryPutAfter : Store → List ℕ → ℕ → Outcome (Option ℕ) × Store → Type 0
TryPutAfter s bytes align (ok (some p), s') = Stored s bytes align p s'
TryPutAfter s bytes align (ok none, s') = NotStored s s'
TryPutAfter s bytes align (panicked e, s') = NotStored s s'

-- What is written at memory that an allocation has handed out.
pub write-Stored :
    {s : Store} {a : Arena} {align p : ℕ} (bytes : List ℕ)
    → IsValid s.arena
    → Allocated s.arena (length bytes) align p a
    → Stored s bytes align p (record { arena = a; mem = write s.mem p bytes })
write-Stored {s} {a} {align} {p} bytes v h = record {
  allocated = h;
  holds = read-write s.mem p bytes;
  kept = λ x used. write_outside s.mem p bytes x (elim (dec_lt x p) [
    | yes below ↦ inl below
    | no above ↦ elim (dec_lt x (p + length bytes)) [
      | yes inside ↦ absurd ((Allocated-fresh x v h (omega arith) inside).0 used)
      | no past ↦ inr (omega arith)
    ]
  ]);
}

pub put-PutAfter :
    (s : Store) (align : ℕ) (bytes : List ℕ) (out : Outcome ℕ × Arena)
    → IsValid s.arena
    → After s.arena (length bytes) align out
    → PutAfter s bytes align (with_ptr out s.mem (put bytes))
put-PutAfter s align bytes (ok p, a) v h = write-Stored bytes v h
put-PutAfter s align bytes (panicked e, a) v h = record { failed = h; mem = refl }

pub try_put-TryPutAfter :
    (s : Store) (align : ℕ) (bytes : List ℕ) (out : Outcome (Option ℕ) × Arena)
    → IsValid s.arena
    → TryAfter s.arena (length bytes) align out
    → TryPutAfter s bytes align (with_try out s.mem (try_put bytes))
try_put-TryPutAfter s align bytes (ok (some p), a) v h = write-Stored bytes v h
try_put-TryPutAfter s align bytes (ok none, a) v h = record { failed = h; mem = refl }
try_put-TryPutAfter s align bytes (panicked e, a) v h = record { failed = h; mem = refl }

module _ {s : Store} (os : Os) (align : ℕ) (val : List ℕ) (v : IsValid s.arena)
    (fresh : IsFresh os s.arena.blocks) (pow : IsPow2 align) where
  -- In a valid arena, if the system allocator keeps its promises and returns memory apart from
  -- the blocks of the arena, and for an alignment that is a power of two, alloc of a value of no
  -- bytes changes nothing. Otherwise it returns an aligned pointer to free memory from which the
  -- value can be read, and leaves a valid arena, all memory in use as it was; or it panics,
  -- stores nothing and leaves a valid arena in which nothing in use is lost.
  pub alloc_lem :
      ((length val ≡ 0) × (alloc os (length val) align val s ≡ (ok align, s)))
      ⊎ ((0 < length val) × PutAfter s val align (alloc os (length val) align val s))
  unfolding alloc
  alloc_lem = elim (Bool-cases (length val == 0)) [
    | inl empty ↦ inl (==→eq (length val) 0 empty, rw empty refl)
    | inr more ↦ inr (
      ground (arith, more),
      rw (more, PutAfter, alloc)
          (put-PutAfter s align val (Alloc.alloc_raw_inner os (length val) align s.arena) v
            (alloc_raw_inner-After os (length val) align v fresh pow)),
    )
  ]

  -- Under the conditions of alloc_lem, try_alloc has the outcomes of alloc and one more: None,
  -- with nothing stored and a valid arena in which nothing in use is lost.
  pub try_alloc_lem :
      ((length val ≡ 0) × (try_alloc os (length val) align val s ≡ (ok (some align), s)))
      ⊎ ((0 < length val) × TryPutAfter s val align (try_alloc os (length val) align val s))
  unfolding try_alloc
  try_alloc_lem = elim (Bool-cases (length val == 0)) [
    | inl empty ↦ inl (==→eq (length val) 0 empty, rw empty refl)
    | inr more ↦ inr (
      ground (arith, more),
      rw (more, TryPutAfter, try_alloc)
          (try_put-TryPutAfter s align val (Alloc.try_alloc_raw_inner os (length val) align s.arena)
            v (try_alloc_raw_inner-TryAfter os (length val) align v fresh pow)),
    )
  ]

-- A value that has been stored can still be read after any later store.
Stored-still_holds :
    {s t u : Store} {bytes later : List ℕ} {align align' p q : ℕ}
    → Stored s bytes align p t
    → Stored t later align' q u
    → read u.mem p (length bytes) ≡ bytes
Stored-still_holds {s} {t} {u} {bytes} {p} h k =
    read_ext t.mem u.mem p (length bytes) (λ x from to.
      k.kept x (inr (omega (arith, h.allocated.start), omega (arith, h.allocated.end))))
    ∙ h.holds

alloc-Stored :
    (s t : Store) (os : Os) (align : ℕ) (val : List ℕ) (p : ℕ)
    → IsValid s.arena
    → IsFresh os s.arena.blocks
    → IsPow2 align
    → 0 < length val
    → alloc os (length val) align val s ≡ (ok p, t)
    → Stored s val align p t
alloc-Stored s t os align val p v fresh pow more e =
    elim (alloc_lem {s = s} os align val v fresh pow) [
      | inl (empty, same) ↦ absurd (omega arith)
      | inr (pos, after) ↦ subst (PutAfter s val align) e after
    ]

-- When two values, neither of no bytes, are allocated one after the other in a valid arena, at
-- alignments that are powers of two, from system allocators that keep their promises and return
-- memory apart from the blocks of the arena, and both calls return, then both can be read, the
-- first one as it was written.
pub alloc-alloc :
    (s t u : Store) (os os' : Os) (align align' : ℕ) (val later : List ℕ) (p q : ℕ)
    → IsValid s.arena
    → IsFresh os s.arena.blocks
    → IsFresh os' t.arena.blocks
    → IsPow2 align
    → IsPow2 align'
    → 0 < length val
    → 0 < length later
    → alloc os (length val) align val s ≡ (ok p, t)
    → alloc os' (length later) align' later t ≡ (ok q, u)
    → (read u.mem p (length val) ≡ val) × (read u.mem q (length later) ≡ later)
alloc-alloc s t u os os' align align' val later p q v fresh fresh' pow pow' more more' e e' =
    let h = alloc-Stored s t os align val p v fresh pow more e in
    let k = alloc-Stored t u os' align' later q h.allocated.valid fresh' pow' more' e' in
    (Stored-still_holds h k, k.holds)
