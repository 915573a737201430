-- ===== src/Boxed/Tests.antt =====
-- A box in a concrete store.
use fastarena_rs.Base.{ℕ, List, [], ◌∷◌}
use fastarena_rs.Block
use fastarena_rs.Arena.Alloc as Alloc
use fastarena_rs.Typed as Typed
use fastarena_rs.Typed.{Store}
use fastarena_rs.Boxed.{ArenaBox, alloc_box}
use fastarena_rs.Fixtures.{second_os, busy}

abbrev zeros : Store
zeros = record { arena = busy; mem = λ x. 0 }

abbrev word : List ℕ
word = 1 ∷ 2 ∷ 3 ∷ 4 ∷ []

abbrev other : List ℕ
other = 5 ∷ 6 ∷ 7 ∷ 8 ∷ []

abbrev filled : Store
filled = (alloc_box second_os 4 4 word zeros).1

abbrev word_box : ArenaBox
word_box = record { ptr = 65552 }
