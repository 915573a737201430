-- ===== src/Base/Effect.antt =====
-- Panics as values. A computation on a state returns its result beside the state that it leaves,
-- also where it panics: unwinding runs the destructors on that state.

pub data Panic : Type 0 where
  out_of_memory : Panic
  size_overflow : Panic
  align_not_power_of_two : Panic
  unsatisfied : Panic
  checkpoint_out_of_range : Panic
  budget_exceeded : Panic
  capacity_overflow : Panic
  index_out_of_bounds : Panic
  destructor_panicked : Panic
  unwrap_none : Panic
  -- No panic of the source: a read of memory that holds no value. Theorems show that none occurs.
  undefined : Panic

pub data Outcome {ℓ} (A : Type ℓ) : Type ℓ where
  ok : A → Outcome A
  panicked : Panic → Outcome A

abbrev pub M {ℓ κ} : Type ℓ → Type κ → Type (ℓ ⊔ κ)
M S A = S → Outcome A × S

module _ {ℓ κ μ} {S : Type ℓ} {A : Type κ} {B : Type μ} where
  abbrev pub and_then : Outcome A × S → (A → M S B) → Outcome B × S
  and_then (ok a, s) f = f a s
  and_then (panicked e, s) f = (panicked e, s)

  infixl 5 ◌>>=◌ ◌>>◌
  abbrev pub ◌>>=◌ : M S A → (A → M S B) → M S B
  ◌>>=◌ m f s = and_then (m s) f

  abbrev pub ◌>>◌ : M S A → M S B → M S B
  ◌>>◌ m n s = and_then (m s) (λ _. n)

abbrev pub pure {ℓ κ} : {S : Type ℓ} {A : Type κ} → A → M S A
pure a s = (ok a, s)

abbrev pub raise {ℓ κ} : {S : Type ℓ} {A : Type κ} → Panic → M S A
raise e s = (panicked e, s)

-- `Result` of the standard library; `Ok` is `done` and `Err` is `failed`.
pub data Result (T E : Type 0) : Type 0 where
  done : T → Result T E
  failed : E → Result T E

-- How a function ends in which a destructor may panic while a panic unwinds: this ends the program.
pub data Ending (A : Type 0) : Type 0 where
  ended : Outcome A → Ending A
  aborted : Ending A
