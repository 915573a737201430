-- ===== src/Format.antt =====
-- The texts that the crate writes for people: the `Display` and `Debug` implementations of
-- arena/allocator.rs, util/transaction.rs and vec/arena_vec.rs, and the message of a refused budget.
pub mod Writing
pub mod Reading
mod Tests
use fastarena_rs.Base.{ℕ, Option, none, some, List, [], ◌∷◌}
use fastarena_rs.Arena.{Arena, Checkpoint, stats}
use fastarena_rs.Txn.{Transaction, TxnStatus, TxnDiff, committed, rolled_back, bytes_used}
use fastarena_rs.ArenaVec.{TryReserveError, capacity_overflow_error, alloc_error}
use fastarena_rs.Format.Writing.{Text, Piece, text, hole, codes, write}

-- "Checkpoint(block={}, offset={}, bytes={})"
abbrev pub checkpoint_format : List Piece
checkpoint_format =
    text (codes "Checkpoint(block=")
    ∷ hole
    ∷ text (codes ", offset=")
    ∷ hole
    ∷ text (codes ", bytes=")
    ∷ hole
    ∷ text (codes ")")
    ∷ []

unfoldable pub fmt_checkpoint : Checkpoint → Text
unfolding write
fmt_checkpoint c = write checkpoint_format (c.block_idx ∷ c.offset ∷ c.bytes_allocated ∷ [])

unfoldable pub fmt_status : TxnStatus → Text
fmt_status TxnStatus.committed = codes "committed"
fmt_status TxnStatus.rolled_back = codes "rolled back"

-- "{} bytes in {} block(s)"
abbrev pub diff_format : List Piece
diff_format = hole ∷ text (codes " bytes in ") ∷ hole ∷ text (codes " block(s)") ∷ []

unfoldable pub fmt_diff : TxnDiff → Text
unfolding write
fmt_diff d = write diff_format (d.bytes_allocated ∷ d.blocks_touched ∷ [])

unfoldable pub fmt_reserve_error : TryReserveError → Text
fmt_reserve_error capacity_overflow_error =
    codes "capacity overflow: requested size exceeds usize::MAX"
fmt_reserve_error alloc_error = codes "arena out of memory"

-- "arena transaction budget exceeded: limit={}, used={}, requested={}"
abbrev pub budget_format : List Piece
budget_format =
    text (codes "arena transaction budget exceeded: limit=")
    ∷ hole
    ∷ text (codes ", used=")
    ∷ hole
    ∷ text (codes ", requested=")
    ∷ hole
    ∷ []

abbrev pub unwrap_or_zero : Option ℕ → ℕ
unwrap_or_zero none = 0
unwrap_or_zero (some n) = n

unfoldable pub budget_panic : ℕ → Transaction → Text
unfolding write bytes_used
budget_panic n t = write budget_format (unwrap_or_zero t.limit ∷ bytes_used t ∷ n ∷ [])

-- What `debug_struct` writes on one line.
abbrev pub arena_format : List Piece
arena_format =
    text (codes "Arena { bytes_allocated: ")
    ∷ hole
    ∷ text (codes ", bytes_reserved: ")
    ∷ hole
    ∷ text (codes ", block_count: ")
    ∷ hole
    ∷ text (codes ", txn_depth: ")
    ∷ hole
    ∷ text (codes " }")
    ∷ []

unfoldable pub debug_arena : Arena → Text
unfolding write stats
debug_arena a =
    let s = stats a in
    write arena_format (s.bytes_allocated ∷ s.bytes_reserved ∷ s.block_count ∷ a.txn_depth ∷ [])
