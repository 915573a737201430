-- ===== src/ArenaVec/Dropping/Tests.antt =====
-- Destructors that panic: a run that drops an element twice, and the theorems at concrete vectors.
use fastarena_rs.Base.{
  ℕ, ◌≡◌, refl, arith, true, [], ◌∷◌, ◌==◌, if◌then◌else◌, ok, panicked, destructor_panicked, ended,
  ◌&&◌, M,
}
use fastarena_rs.DropRegistry.{Elem}
use fastarena_rs.ArenaVec.{ArenaVec}
use fastarena_rs.ArenaVec.IntoIter.{ArenaVecIntoIter}
use fastarena_rs.ArenaVec.Dropping.{drop_elements, drop_iter, clear, truncate, drop, owner_drops}
use fastarena_rs.ArenaVec.Dropping.Loop.{logged, Calm}
use fastarena_rs.ArenaVec.Dropping.Laws.{
  OwnerDropped, Truncated, clear-OwnerDropped, truncate-Truncated, drop_iter-OwnerDropped,
}
use fastarena_rs.Fixtures.{busy}

-- Three elements of four bytes.
abbrev three : ArenaVec
three = record { store = record { arena = busy; mem = λ x. 0 }; ptr = 65536; len = 3; cap = 4 }

-- The destructor of the last element panics when it runs for the first time.
abbrev once : ℕ → M ℕ (Unit {0})
once p n = if (p == 65544) && (n == 0) then (panicked destructor_panicked, 1) else (ok tt, n)

abbrev fragile : Elem ℕ
fragile = record { size = 4; needs_drop = true; drop_in_place = once }

-- The iterator has handed out the first element.
abbrev rest : ArenaVecIntoIter
rest = record { inner = three; start = 1 }

-- The last element is dropped again, and so are the first, which had been handed out, and the second.
drops_again :
    (drop_iter (logged fragile) rest (0, [])).1.1 ≡ 65544 ∷ 65540 ∷ 65536 ∷ 65544 ∷ 65540 ∷ []
unfolding drop_iter drop drop_elements
drops_again = refl

drop_iter-OwnerDropped_example :
    let end = drop_iter (logged fragile) rest (0, []) in
    (Calm fragile → end.0 ≡ ended (ok tt)) × OwnerDropped fragile three 1 [] end
drop_iter-OwnerDropped_example = drop_iter-OwnerDropped fragile rest 0 [] refl (omega arith)

clears_again :
    let end = owner_drops (logged fragile) (clear (logged fragile) (three, (0, []))) in
    (Calm fragile → end.0 ≡ ended (ok tt)) × OwnerDropped fragile three 0 [] end
clears_again = clear-OwnerDropped fragile three 0 [] refl (omega arith)

truncates_three : Truncated fragile three 1 [] (truncate (logged fragile) 1 (three, (0, [])))
truncates_three = truncate-Truncated fragile three 1 0 [] refl (omega arith)
