-- ===== src/Macros.antt =====
-- macros.rs: the three forms of `arenavec!`. A panic leaves the vector to its destructor.
pub mod Laws
mod Tests
use fastarena_rs.Base.{ℕ, List, [], ◌∷◌, replicate, Outcome, ok, M, ◌>>◌, pure, and_then}
use fastarena_rs.Block.{Os}
use fastarena_rs.Typed.{Store}
use fastarena_rs.ArenaVec.{ArenaVec, new, with_capacity, push}
use fastarena_rs.ArenaVec.Bulk.{extend_exact}

unfoldable pub arenavec_empty : ℕ → Store → ArenaVec
arenavec_empty align arena = new align arena

-- `$( v.push($elem); )*`
unfoldable pub push_each : ℕ → ℕ → List (Os × List ℕ) → M ArenaVec (Unit {0})
push_each size align [] = pure tt
push_each size align ((os, elem) ∷ elems) = push size os align elem >> push_each size align elems

unfoldable pub arenavec_list : ℕ → ℕ → List (Os × List ℕ) → Store → Outcome (Unit {0}) × ArenaVec
arenavec_list size align elems arena = push_each size align elems (new align arena)

-- `repeat` clones the element for each that it yields; `take` reports the count.
unfoldable pub arenavec_repeat :
    ℕ → ℕ → (List ℕ → List ℕ) → Os → Os → List ℕ → ℕ → Store → Outcome (Unit {0}) × ArenaVec
arenavec_repeat size align clone os later_os elem count arena =
    and_then (with_capacity size os align count arena)
      (λ _. extend_exact size later_os align count (replicate count (clone elem)))
