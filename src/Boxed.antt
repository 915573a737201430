-- ===== src/Boxed.antt =====
-- arena/boxed.rs: a pointer to one value in an arena. It runs no destructor of its own.
mod Tests
use fastarena_rs.Base.{
  ℕ, ◌≡◌, ◌<◌, ◌⊎◌, inl, inr, refl, sym, List, length, Outcome, ok, panicked, M, IsPow2, arith,
  Bool-cases, ◌==◌, ==→eq, subst, ap, [], ◌∷◌, ◌∙◌,
}
use fastarena_rs.Block.{Os}
use fastarena_rs.Arena.Valid.{IsValid, IsFresh}
use fastarena_rs.Typed as Typed
use fastarena_rs.Typed.{Mem, Store, write}
use fastarena_rs.Typed.Memory.{read, read-write}
use fastarena_rs.Typed.Laws.{alloc_lem, PutAfter}

pub record ArenaBox : Type 0 where
  pub ptr : ℕ

abbrev pub boxed : Outcome ℕ × Store → Outcome ArenaBox × Store
boxed (ok p, s) = (ok (record { ptr = p }), s)
boxed (panicked e, s) = (panicked e, s)

unfoldable pub new : Os → ℕ → ℕ → List ℕ → M Store ArenaBox
new os size align val s = boxed (Typed.alloc os size align val s)

-- `Arena::alloc_box`
unfoldable pub alloc_box : Os → ℕ → ℕ → List ℕ → M Store ArenaBox
alloc_box os size align val = new os size align val

-- The value is read out, and the box forgotten.
unfoldable pub into_inner : ℕ → ArenaBox → Mem → List ℕ
into_inner size b m = read m b.ptr size

unfoldable pub deref : ℕ → ArenaBox → Mem → List ℕ
deref size b m = read m b.ptr size

-- `*b = val`
unfoldable pub deref_mut : List ℕ → ArenaBox → Mem → Mem
deref_mut val b m = write m b.ptr val

abbrev pub as_ptr : ArenaBox → ℕ
as_ptr b = b.ptr

-- What can be read through the box that an outcome holds.
abbrev seen : ℕ → Outcome ArenaBox × Store → List ℕ
seen n (ok b, s) = read s.mem b.ptr n
seen n (panicked e, s) = []

seen-boxed :
    (s : Store) (val : List ℕ) (align : ℕ) (out : Outcome ℕ × Store) (b : ArenaBox) (s' : Store)
    → PutAfter s val align out
    → boxed out ≡ (ok b, s')
    → seen (length val) (boxed out) ≡ val
seen-boxed s val align (ok p, t) b s' h e = h.holds
seen-boxed s val align (panicked q, t) b s' h e = absurd (ground (arith, e))

read-nothing : (xs : List ℕ) (m : Mem) (p : ℕ) → length xs ≡ 0 → read m p (length xs) ≡ xs
read-nothing [] m p h = refl
read-nothing (x ∷ xs) m p h = absurd (omega arith)

pub alloc_box-into_inner :
    (s s' : Store) (os : Os) (align : ℕ) (val new_val : List ℕ) (b : ArenaBox)
    → IsValid s.arena
    → IsFresh os s.arena.blocks
    → IsPow2 align
    → length new_val ≡ length val
    → alloc_box os (length val) align val s ≡ (ok b, s')
    → (into_inner (length val) b s'.mem ≡ val)
      × (deref (length val) b s'.mem ≡ val)
      × (into_inner (length val) b (deref_mut new_val b s'.mem) ≡ new_val)
unfolding alloc_box new into_inner deref deref_mut
alloc_box-into_inner s s' os align val new_val b v fresh pow same e =
    let rewritten : read (write s'.mem b.ptr new_val) b.ptr (length val) ≡ new_val =
      ap (λ (n : ℕ). read (write s'.mem b.ptr new_val) b.ptr n) (sym same)
      ∙ read-write s'.mem b.ptr new_val in
    let stored : read s'.mem b.ptr (length val) ≡ val =
      elim (alloc_lem {s = s} os align val v fresh pow) [
        | inl (empty, e') ↦ read-nothing val s'.mem b.ptr empty
        | inr (more, after) ↦
            ap (seen (length val)) (sym e)
            ∙ seen-boxed s val align (Typed.alloc os (length val) align val s) b s' after e
      ] in
    (stored, stored, rewritten)
