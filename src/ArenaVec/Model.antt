-- ===== src/ArenaVec/Model.antt =====
-- A vector in an arena against its specification: a transition system on the list of the elements,
-- in which an operation that grows the list may refuse and leave it as it is.
pub mod Replies
pub mod Refines
use fastarena_rs.Base.{
  ℕ, ◌+◌, ◌-◌, ◌≤◌, ◌≡◌, refl, sym, ap, ◌∙◌, subst, List, [], ◌∷◌, ◌++◌, length, arith, Bool, true,
  false, if◌then◌else◌, Option, none, some, Outcome, ok, panicked, Result, done, failed,
  is_power_of_two, take, drop, replicate, set, get_elem?, ltb, min, usize_max, usize_mod,
}
use fastarena_rs.Block.{Os}
use fastarena_rs.Arena.Valid.{IsFresh}
use fastarena_rs.Typed.Slices.{AllSized}
use fastarena_rs.ArenaVec.{ArenaVec, TryReserveError}
use fastarena_rs.ArenaVec as Vec
use fastarena_rs.ArenaVec.Bulk as Bulk
use fastarena_rs.ArenaVec.Frame.{Holds, Became, Became-trans}
use fastarena_rs.ArenaVec.Resize.{Reaches}
use fastarena_rs.ArenaVec.Push.{PushAfter, TryPushAfter, push_lem, try_push_lem}
use fastarena_rs.ArenaVec.Items.{
  length-Holds, unchanged, PopAfter, pop_lem, truncate_lem, clear_lem, index_lem, index_set_lem,
  element_or_panic,
}
use fastarena_rs.ArenaVec.Reserve.{
  ReserveAfter, TryReserveAfter, reserve_lem, reserve_exact_lem, try_reserve_lem,
  try_reserve_exact_lem,
}
use fastarena_rs.ArenaVec.Bulk.Laws.{ExtendAfter, extend_exact_lem, extend_from_slice_lem}
use fastarena_rs.ArenaVec.Bulk.Resize.{ResizeAfter, resize_lem}

-- The calls that a client can make.
pub data Op : Type 0 where
  call_push : List ℕ → Op
  call_try_push : List ℕ → Op
  call_pop : Op
  call_truncate : Bool → ℕ → Op
  call_clear : Bool → Op
  call_index : ℕ → Op
  call_index_set : ℕ → List ℕ → Op
  call_extend_exact : ℕ → List (List ℕ) → Op
  call_extend_from_slice : List (List ℕ) → Op
  call_resize : (List ℕ → List ℕ) → Bool → ℕ → List ℕ → Op
  call_reserve : ℕ → Op
  call_reserve_exact : ℕ → Op
  call_try_reserve : ℕ → Op
  call_try_reserve_exact : ℕ → Op

-- What a client sees of a call; a panic and an error are one.
pub data Reply : Type 0 where
  returned : Reply
  refused : Reply
  handed_back : List ℕ → Reply
  value : Option (List ℕ) → Reply
  dropped : List (List ℕ) → Reply

abbrev pub unit_reply : Outcome (Unit {0}) × ArenaVec → Reply × ArenaVec
unit_reply (ok _, w) = (returned, w)
unit_reply (panicked e, w) = (refused, w)

abbrev pub try_reply : Outcome (Result (Unit {0}) TryReserveError) × ArenaVec → Reply × ArenaVec
try_reply (ok (done _), w) = (returned, w)
try_reply (ok (failed e), w) = (refused, w)
try_reply (panicked e, w) = (refused, w)

abbrev pub try_push_reply : Outcome (Result (Unit {0}) (List ℕ)) × ArenaVec → Reply × ArenaVec
try_push_reply (ok (done _), w) = (returned, w)
try_push_reply (ok (failed x), w) = (handed_back x, w)
try_push_reply (panicked e, w) = (refused, w)

abbrev pub dropped_reply : Outcome (List (List ℕ)) × ArenaVec → Reply × ArenaVec
dropped_reply (ok xs, w) = (dropped xs, w)
dropped_reply (panicked e, w) = (refused, w)

abbrev pub index_reply : ArenaVec → Outcome (List ℕ) → Reply × ArenaVec
index_reply v (ok x) = (value (some x), v)
index_reply v (panicked e) = (refused, v)

abbrev pub exec : ℕ → ℕ → Os → Op → ArenaVec → Reply × ArenaVec
exec size align os (call_push x) v = unit_reply (Vec.push size os align x v)
exec size align os (call_try_push x) v = try_push_reply (Vec.try_push size os align x v)
exec size align os call_pop v = (value (Vec.pop size v).0, (Vec.pop size v).1)
exec size align os (call_truncate needs_drop n) v =
    (dropped (Vec.truncate size needs_drop n v).0, (Vec.truncate size needs_drop n v).1)
exec size align os (call_clear needs_drop) v =
    (dropped (Vec.clear size needs_drop v).0, (Vec.clear size needs_drop v).1)
exec size align os (call_index i) v = index_reply v (Vec.index size i v)
exec size align os (call_index_set i x) v = unit_reply (Vec.index_set size i x v)
exec size align os (call_extend_exact n iter) v =
    unit_reply (Bulk.extend_exact size os align n iter v)
exec size align os (call_extend_from_slice xs) v =
    unit_reply (Bulk.extend_from_slice size os align xs v)
exec size align os (call_resize clone needs_drop n x) v =
    dropped_reply (Bulk.resize size os align clone needs_drop n x v)
exec size align os (call_reserve n) v = unit_reply (Vec.reserve size os align n v)
exec size align os (call_reserve_exact n) v = unit_reply (Vec.reserve_exact size os align n v)
exec size align os (call_try_reserve n) v = try_reply (Vec.try_reserve size os align n v)
exec size align os (call_try_reserve_exact n) v =
    try_reply (Vec.try_reserve_exact size os align n v)

-- The calls that may ask for memory, and so may refuse.
abbrev pub may_refuse : Op → Bool
may_refuse (call_push x) = true
may_refuse (call_try_push x) = true
may_refuse (call_extend_exact n iter) = true
may_refuse (call_extend_from_slice xs) = true
may_refuse (call_resize clone needs_drop n x) = true
may_refuse (call_reserve n) = true
may_refuse (call_reserve_exact n) = true
may_refuse (call_try_reserve n) = true
may_refuse (call_try_reserve_exact n) = true
may_refuse call_pop = false
may_refuse (call_truncate needs_drop n) = false
may_refuse (call_clear needs_drop) = false
may_refuse (call_index i) = false
may_refuse (call_index_set i x) = false

-- One call on the list: what it answers, and the list after it.
pub data Step : List (List ℕ) → Op → Reply → List (List ℕ) → Type 0 where
  pushes : {xs : List (List ℕ)} {x : List ℕ} → Step xs (call_push x) returned (xs ++ (x ∷ []))
  try_pushes :
      {xs : List (List ℕ)} {x : List ℕ} → Step xs (call_try_push x) returned (xs ++ (x ∷ []))
  hands_back : {xs : List (List ℕ)} {x : List ℕ} → Step xs (call_try_push x) (handed_back x) xs
  pops_none : Step [] call_pop (value none) []
  pops : {ys : List (List ℕ)} {x : List ℕ} → Step (ys ++ (x ∷ [])) call_pop (value (some x)) ys
  truncates :
      {xs : List (List ℕ)} {needs_drop : Bool} {n : ℕ}
      → Step xs
          (call_truncate needs_drop n)
          (dropped (if needs_drop then drop n xs else []))
          (take n xs)
  clears :
      {xs : List (List ℕ)} {needs_drop : Bool}
      → Step xs (call_clear needs_drop) (dropped (if needs_drop then xs else [])) []
  indexes :
      {xs : List (List ℕ)} {i : ℕ} {x : List ℕ}
      → get_elem? xs i ≡ some x
      → Step xs (call_index i) (value (some x)) xs
  index_panics :
      {xs : List (List ℕ)} {i : ℕ} → get_elem? xs i ≡ none → Step xs (call_index i) refused xs
  sets :
      {xs : List (List ℕ)} {i : ℕ} {x : List ℕ}
      → ltb i (length xs) ≡ true
      → Step xs (call_index_set i x) returned (set xs i x)
  set_panics :
      {xs : List (List ℕ)} {i : ℕ} {x : List ℕ}
      → ltb i (length xs) ≡ false
      → Step xs (call_index_set i x) refused xs
  extends :
      {xs iter : List (List ℕ)} {n : ℕ}
      → n ≤ length iter
      → Step xs (call_extend_exact n iter) returned (xs ++ take n iter)
  extends_from_slice :
      {xs ys : List (List ℕ)} → Step xs (call_extend_from_slice ys) returned (xs ++ ys)
  resizes :
      {xs : List (List ℕ)} {clone : List ℕ → List ℕ} {needs_drop : Bool} {n : ℕ} {x : List ℕ}
      → Step xs
          (call_resize clone needs_drop n x)
          (dropped (if needs_drop then drop n xs else []))
          (take n xs ++ replicate (n - length xs) (clone x))
  reserves : {xs : List (List ℕ)} {n : ℕ} → Step xs (call_reserve n) returned xs
  reserves_exact : {xs : List (List ℕ)} {n : ℕ} → Step xs (call_reserve_exact n) returned xs
  try_reserves : {xs : List (List ℕ)} {n : ℕ} → Step xs (call_try_reserve n) returned xs
  try_reserves_exact : {xs : List (List ℕ)} {n : ℕ} → Step xs (call_try_reserve_exact n) returned xs
  refuses : {xs : List (List ℕ)} {op : Op} → may_refuse op ≡ true → Step xs op refused xs

-- A sequence of calls, each with the system allocator as it is then; a client may go on after a
-- panic that it has caught.
abbrev pub run : ℕ → ℕ → List (Os × Op) → ArenaVec → List Reply × ArenaVec
run size align [] v = ([], v)
run size align ((os, op) ∷ ops) v =
    let (reply, w) = exec size align os op v in
    let (replies, u) = run size align ops w in (reply ∷ replies, u)

pub data Steps : List (List ℕ) → List (Os × Op) → List Reply → List (List ℕ) → Type 0 where
  stops : {xs : List (List ℕ)} → Steps xs [] [] xs
  goes_on :
      {xs ys zs : List (List ℕ)} {os : Os} {op : Op} {reply : Reply} {ops : List (Os × Op)}
      {replies : List Reply}
      → Step xs op reply ys
      → Steps ys ops replies zs
      → Steps xs ((os, op) ∷ ops) (reply ∷ replies) zs
