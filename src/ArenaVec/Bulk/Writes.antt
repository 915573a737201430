-- ===== src/ArenaVec/Bulk/Writes.antt =====
-- Many elements written behind the last one, once the vector has the memory for them.
use fastarena_rs.Base.{
  ℕ, zero, suc, ◌+◌, ◌≤◌, ◌<◌, ◌≡◌, refl, sym, ap, subst, ◌∙◌, List, [], ◌∷◌, ◌++◌, length,
  append_assoc, append_nil, arith, Bool, true, false, if◌then◌else◌, Outcome, ok, panicked, Panic,
  is_power_of_two, take, replicate, M, and_then,
}
use native.Mathlib.Nat.{suc-mul}
use fastarena_rs.Block.{Os}
use fastarena_rs.Arena.Valid.{IsFresh}
use fastarena_rs.Typed.{Mem, write, concat, write_slice_bulk}
use fastarena_rs.Typed.Memory.{write-append}
use fastarena_rs.Typed.Slices.{AllSized}
use fastarena_rs.ArenaVec.{ArenaVec, with_mem, slot, grow_to, write_end}
use fastarena_rs.ArenaVec.Frame.{Holds, Became, Became-trans}
use fastarena_rs.ArenaVec.Resize.{Reaches, GrowAfter}
use fastarena_rs.ArenaVec.Grow.{grow_to_lem}
use fastarena_rs.ArenaVec.Push.{Resized-Became, write_end-Became}
use fastarena_rs.ArenaVec.Items.{unchanged}

pub AllSized-take : (size n : ℕ) (xs : List (List ℕ)) → AllSized size xs → AllSized size (take n xs)
AllSized-take size zero xs all = tt
AllSized-take size (suc n) [] all = tt
AllSized-take size (suc n) (x ∷ xs) (sized, all) = (sized, AllSized-take size n xs all)

pub length-zero {ℓ} : {A : Type ℓ} (xs : List A) → length xs ≡ 0 → xs ≡ []
length-zero [] e = refl
length-zero (x ∷ xs) e = absurd (omega arith)

pub take_append {ℓ} : {A : Type ℓ} (n : ℕ) (xs ys : List A) → length xs ≡ n → take n (xs ++ ys) ≡ xs
take_append zero [] ys e = refl
take_append zero (x ∷ xs) ys e = absurd (omega arith)
take_append (suc n) [] ys e = absurd (omega arith)
take_append (suc n) (x ∷ xs) ys e = ap (λ r. x ∷ r) (take_append n xs ys (omega arith))

-- The vector with this memory and length.
abbrev pub filled_to : Mem → ℕ → ArenaVec → ArenaVec
filled_to m n v = record (with_mem m v) { len = n }

module _ (size : ℕ) where
  pub AllSized-replicate : (n : ℕ) (x : List ℕ) → length x ≡ size → AllSized size (replicate n x)
  AllSized-replicate zero x sized = tt
  AllSized-replicate (suc n) x sized = (sized, AllSized-replicate n x sized)

  pub recast :
      (w v : ArenaVec) {xs ys : List (List ℕ)} {m m' : Mem} {n n' : ℕ}
      → xs ≡ ys
      → m ≡ m'
      → n ≡ n'
      → Became size w xs (filled_to m n v)
      → Became size w ys (filled_to m' n' v)
  recast w v {xs} {ys} {m} {m'} {n} {n'} list mem count became =
      subst (λ (k : ℕ). Became size w ys (filled_to m' k v)) count
        (subst (λ (k : Mem). Became size w ys (filled_to k n v)) mem
          (subst (λ (k : List (List ℕ)). Became size w k (filled_to m n v)) list became))

  -- Elements written behind the last one, where the memory reaches.
  pub written-Became :
      (v : ArenaVec) (xs ys : List (List ℕ))
      → Holds size v xs
      → AllSized size ys
      → (0 < size → v.len + length ys ≤ v.cap)
      → Became size v
          (xs ++ ys)
          (filled_to (write v.store.mem (slot size v v.len) (concat ys)) (v.len + length ys) v)
  written-Became v xs [] h all fits =
      recast v v (sym (append_nil xs)) refl (omega arith) (unchanged size h)
  written-Became v xs (y ∷ ys) h (sized, all) fits =
      let step = suc-mul v.len size in
      let w = write_end size y v in
      let bytes = concat ys in
      let first = write_end-Became size y h (λ pos. omega (arith, fits pos)) sized in
      let rest =
        written-Became w (xs ++ (y ∷ [])) ys first.holds all (λ pos. omega (arith, fits pos)) in
      let list : (xs ++ (y ∷ [])) ++ ys ≡ xs ++ (y ∷ ys) = sym (append_assoc xs (y ∷ []) ys) in
      let count : v.len + 1 + length ys ≡ v.len + suc (length ys) = omega arith in
      let place : slot size w w.len ≡ slot size v v.len + length y = omega arith in
      let mem : write w.store.mem (slot size w w.len) bytes
          ≡ write v.store.mem (slot size v v.len) (concat (y ∷ ys)) =
        ap (λ (k : ℕ). write w.store.mem k bytes) place
        ∙ write-append v.store.mem (slot size v v.len) y bytes in
      Became-trans size h.vec first (recast w v list mem count rest)

  -- What the loop of writes leaves: all that was asked for, or a panic after what there was.
  abbrev pub BulkAfter : ℕ → List (List ℕ) → ℕ → Mem → Outcome (Unit {0}) × Mem → Type 0
  BulkAfter p iter n m (ok _, m') = (n ≤ length iter) × (m' ≡ write m p (concat (take n iter)))
  BulkAfter p iter n m (panicked e, m') = (length iter < n) × (m' ≡ write m p (concat iter))

  pub join_writes :
      (p : ℕ) (x bytes : List ℕ) (m : Mem)
      → length x ≡ size
      → write (write m p x) (p + size) bytes ≡ write m p (x ++ bytes)
  join_writes p x bytes m sized =
      ap (λ (k : ℕ). write (write m p x) (p + k) bytes) (sym sized) ∙ write-append m p x bytes

  bulk_step :
      (p : ℕ) (x : List ℕ) (iter : List (List ℕ)) (n : ℕ) (m : Mem) (out : Outcome (Unit {0}) × Mem)
      → length x ≡ size
      → BulkAfter (p + size) iter n (write m p x) out
      → BulkAfter p (x ∷ iter) (suc n) m out
  bulk_step p x iter n m (ok _, m') sized (enough, e) =
      (omega arith, e ∙ join_writes p x (concat (take n iter)) m sized)
  bulk_step p x iter n m (panicked _, m') sized (short, e) =
      (omega arith, e ∙ join_writes p x (concat iter) m sized)

  pub bulk_lem :
      (p : ℕ) (iter : List (List ℕ)) (n : ℕ) (m : Mem)
      → AllSized size iter
      → BulkAfter p iter n m (write_slice_bulk size p iter n m)
  unfolding write_slice_bulk
  bulk_lem p iter zero m all = (omega arith, refl)
  bulk_lem p [] (suc n) m all = (omega arith, refl)
  bulk_lem p (x ∷ iter) (suc n) m (sized, all) =
      bulk_step p x iter n m (write_slice_bulk size (p + size) iter n (write m p x)) sized
        (bulk_lem (p + size) iter n (write m p x) all)

  -- The vector before the new elements are written: as it was, with the memory for them.
  pub record Roomy (v : ArenaVec) (xs : List (List ℕ)) (new_len : ℕ) (w : ArenaVec) : Type 0 where
    pub became : Became size v xs w
    pub len : w.len ≡ v.len
    pub room : 0 < size → new_len ≤ w.cap

  abbrev pub RoomAfter : ArenaVec → List (List ℕ) → ℕ → Outcome (Unit {0}) × ArenaVec → Type 0
  RoomAfter v xs new_len (ok _, w) = Roomy v xs new_len w
  RoomAfter v xs new_len (panicked e, w) = Became size v xs w

  Resized-RoomAfter :
      (v : ArenaVec) (xs : List (List ℕ)) (new_len : ℕ) (out : Outcome (Unit {0}) × ArenaVec)
      → GrowAfter size v xs new_len out
      → RoomAfter v xs new_len out
  Resized-RoomAfter v xs new_len (ok _, w) r = record {
    became = Resized-Became size r;
    len = r.len;
    room = λ pos. omega (arith, r.cap);
  }
  Resized-RoomAfter v xs new_len (panicked e, w) r = Resized-Became size r

  -- A panic while the vector grows leaves it with its elements; after it the writes go on.
  pub and_then_room :
      {A : Type 0} {v : ArenaVec} {xs : List (List ℕ)} {new_len : ℕ}
      (P : Outcome A × ArenaVec → Type 0) (out : Outcome (Unit {0}) × ArenaVec)
      (write_all : Unit {0} → M ArenaVec A)
      → RoomAfter v xs new_len out
      → ((e : Panic) (w : ArenaVec) → Became size v xs w → P (panicked e, w))
      → ((w : ArenaVec) → Roomy v xs new_len w → P (write_all tt w))
      → P (and_then out write_all)
  and_then_room P (ok u, w) write_all roomy failed_case ok_case = ok_case w roomy
  and_then_room P (panicked e, w) write_all became failed_case ok_case = failed_case e w became

  module _ {v : ArenaVec} {xs : List (List ℕ)} (h : Holds size v xs) (os : Os) (align : ℕ)
      (fresh : IsFresh os v.store.arena.blocks) (two : is_power_of_two align ≡ true) where
    -- What stands before the writes, whatever the test for growth is.
    pub room_lem :
        (grows : Bool) (new_len : ℕ)
        → 0 < new_len
        → v.len ≤ new_len
        → Reaches size v new_len
        → (grows ≡ false → 0 < size → new_len ≤ v.cap)
        → RoomAfter v xs new_len (if grows then grow_to size os align new_len v else (ok tt, v))
    room_lem true new_len pos more reaches enough =
        Resized-RoomAfter v xs new_len _
          (grow_to_lem size h os align fresh two new_len pos more reaches)
    room_lem false new_len pos more reaches enough = record {
      became = unchanged size h;
      len = refl;
      room = enough refl;
    }
