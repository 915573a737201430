-- ===== src/Tracked/Steps.antt =====
-- What may happen inside a transaction that tracks destructors, and what holds after it.
use fastarena_rs.Base.{ℕ, ◌≡◌, List, [], ◌++◌, reverse, ◌<◌, usize_max}
use fastarena_rs.Arena.Valid.{IsValid}
use fastarena_rs.DropRegistry.{DropSlot}
use fastarena_rs.DropRegistry.Laws.{Registered}
use fastarena_rs.Tracked.{TrackedArena}
use fastarena_rs.Tracked.Stored.{Stores, Stores-Since}
use fastarena_rs.Tracked.Txn.{TrackedTransaction, commit, drop, savepoint, resume, set_limit}
use fastarena_rs.Tracked.Nested.{
  Kept, Kept-refl, Kept-resume, set_limit-Kept, new-IsValid, new-registry, commit-Since,
  dropped-Since,
}

module _ {W : Type 0} (slot_size slot_align : ℕ) where
  -- From a transaction and the rest of the program to what they are later. The slots are those that
  -- have been registered and that no nested transaction has run since, the last one first.
  pub data Steps
      : TrackedTransaction W → W → List (DropSlot W) → TrackedTransaction W → W → Type 0 where
    stop : {t : TrackedTransaction W} {w : W} → Steps t w [] t w
    store :
        {t u x : TrackedTransaction W} {w v : W} {zs ss qs : List (DropSlot W)} (b : TrackedArena W)
        → Steps t w zs u v
        → Stores slot_size slot_align u.arena ss b
        → qs ≡ ss ++ zs
        → x ≡ resume u b
        → Steps t w qs x v
    limit :
        {t u x : TrackedTransaction W} {w v : W} {zs : List (DropSlot W)} (bytes : ℕ)
        → Steps t w zs u v
        → x ≡ set_limit bytes u
        → Steps t w zs x v
    keep :
        {t u c x : TrackedTransaction W} {w v v' : W} {zs ss qs : List (DropSlot W)}
        → Steps t w zs u v
        → u.arena.store.arena.txn_depth < usize_max
        → Steps (savepoint u) v ss c v'
        → qs ≡ ss ++ zs
        → x ≡ resume u (commit c).1
        → Steps t w qs x v'
    -- Also where a destructor panics, if the panic is caught.
    undo :
        {t u c x : TrackedTransaction W} {w v v' left : W} {zs ss : List (DropSlot W)}
        → Steps t w zs u v
        → u.arena.store.arena.txn_depth < usize_max
        → Steps (savepoint u) v ss c v'
        → x ≡ resume u (drop c v').1.0
        → left ≡ (drop c v').1.1
        → Steps t w zs x left

  -- After any steps the arena has lost nothing, and of what has been registered since, the slots
  -- of the steps are left.
  pub Steps-Kept :
      {t u : TrackedTransaction W} {w v : W} {xs zs : List (DropSlot W)}
      → IsValid t.arena.store.arena
      → Registered slot_size slot_align t.arena.drop_registry xs
      → Steps t w zs u v
      → Kept slot_size slot_align t xs zs u
  unfolding savepoint
  Steps-Kept {t} {xs} valid before stop = Kept-refl slot_size slot_align t xs valid before
  Steps-Kept {t} {xs} valid before (store {u} {zs} {ss} b s stored q e) =
      let k = Steps-Kept valid before s in
      rw (q, e)
        (Kept-resume slot_size slot_align b valid k
          (Stores-Since slot_size slot_align k.since.arena.valid k.since.slots stored))
  Steps-Kept valid before (limit bytes s e) =
      rw e (set_limit-Kept slot_size slot_align bytes (Steps-Kept valid before s))
  Steps-Kept {t} {xs} valid before (keep {u} {c} {zs} {ss} s bound child q e) =
      let k = Steps-Kept valid before s in
      let there = k.since.arena.valid in
      let inner =
        Steps-Kept (new-IsValid slot_size slot_align u.arena there)
          (new-registry slot_size slot_align u.arena (xs ++ reverse zs) k.since.slots) child in
      rw (q, e)
        (Kept-resume slot_size slot_align (commit c).1 valid k
          (commit-Since slot_size slot_align u.arena c (xs ++ reverse zs) ss there bound inner))
  Steps-Kept {t} {xs} valid before (undo {u} {c} {v'} {zs} {ss} s bound child e _) =
      let k = Steps-Kept valid before s in
      let there = k.since.arena.valid in
      let inner =
        Steps-Kept (new-IsValid slot_size slot_align u.arena there)
          (new-registry slot_size slot_align u.arena (xs ++ reverse zs) k.since.slots) child in
      rw e (
        Kept-resume slot_size slot_align (drop c v').1.0 valid k (
          dropped-Since slot_size slot_align u.arena c (xs ++ reverse zs) ss v' there bound inner
            k.since.slots))
