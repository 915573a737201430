-- ===== src/Lib.antt =====
-- fastarena, an arena allocator: memory is handed out by moving a pointer through large blocks, and
-- is given back all at once, to a checkpoint, or when a transaction is rolled back.
--
-- The parts, and the files that model them:
--   * Block.antt is `Block` of src/arena/block.rs: one allocation of the system, with the offset up
--     to which it is in use. Block/Align.antt is about the rounding of addresses, Block/Laws.antt
--     about creation and bumping.
--   * Arena.antt is the state of `Arena` of src/arena/allocator.rs with construction, checkpoints,
--     `rewind`, `reset` and the statistics (src/arena/stats.rs); Arena/Alloc.antt has the raw
--     allocation paths: the fast path, the scan of the retained blocks and the new block.
--     Arena/Valid.antt has the invariant and Arena/Grown.antt what an allocation may change; the
--     other files under Arena/ are named for what they prove.
--   * Typed.antt has the allocations of `Arena` that write memory, for values, slices, strings and
--     zeroed memory. Its state is an arena with the byte at each address, and a value is the list
--     of its bytes; Typed/Memory.antt and Typed/Elements.antt are about reading and writing, and
--     Typed/Laws.antt, Typed/Slices.antt, Typed/Iterators.antt, Typed/Strings.antt and
--     Typed/Zeroed.antt about the operations; Typed/Growing.antt says that none of them loses
--     anything of the arena.
--   * Tracked.antt is the arena of src/arena/allocator.rs with the feature drop-tracking, over
--     Typed.antt and DropRegistry.antt; Tracked/Slots.antt, Tracked/Registers.antt and
--     Tracked/Stored.antt are about what the allocations register, and Tracked/Laws.antt and
--     Tracked/Reset.antt about what a rewind and a reset run. Tracked/Txn.antt is
--     src/util/transaction.rs with the feature; Tracked/Nested.antt, Tracked/Steps.antt,
--     Tracked/Through.antt and Tracked/Rollback.antt are about its transactions, Tracked/Box.antt
--     about a box.
--   * Txn.antt is `Transaction` of src/util/transaction.rs: savepoints, budgets, commit, rollback
--     and the functions that run a closure. Txn/Steps.antt is the relation of what the holder of a
--     transaction can do with it, Txn/Rollback.antt and Txn/Budget.antt are its contracts.
--     Txn/Typed.antt has the allocations of values, slices and strings through a transaction, and
--     Txn/Through.antt shows that they, and a vector built through `arena_mut`, are steps too.
--   * Boxed.antt is `ArenaBox` of src/arena/boxed.rs.
--   * ArenaVec.antt is `ArenaVec` of src/vec/arena_vec.rs: it holds the arena that it borrows, with
--     its memory. ArenaVec/Bulk.antt has the operations that add many elements,
--     ArenaVec/IntoIter.antt the owning iterator. ArenaVec/Frame.antt says what a vector owns and
--     which list it stands for; ArenaVec/Resize.antt, ArenaVec/InPlace.antt and ArenaVec/Grow.antt
--     are about growth; ArenaVec/Push.antt, ArenaVec/Items.antt, ArenaVec/Reserve.antt,
--     ArenaVec/Views.antt and the files under ArenaVec/Bulk/ are about the operations,
--     ArenaVec/Overflow.antt about a product that is not checked, ArenaVec/Cost.antt about how
--     much is written. ArenaVec/Dropping.antt has the operations that drop
--     elements once more, as effects on the rest of the program, where a destructor may panic.
--     ArenaVec/Model.antt is the specification, a transition system on lists, and the files under
--     it show that a vector refines it.
--   * Macros.antt is `arenavec!` of src/macros.rs.
--   * InlineVec.antt is `InlineVec` of src/util/inline_vec.rs, with its memory as cells that may
--     hold no value; InlineVec/Laws.antt and InlineVec/Push.antt relate it to lists, by
--     InlineVec/Cells.antt; InlineVec/Model.antt is its specification, a transition system on
--     lists.
--   * DropRegistry.antt is `DropRegistry` of src/util/drop_registry.rs as the feature drop-tracking
--     builds it. DropRegistry/Laws.antt is about running the destructors,
--     DropRegistry/Register.antt about registration. A destructor is a function on the rest of the
--     program, which may panic.
--   * Format.antt has the texts that the crate writes, Format/Writing.antt what `write!` does with
--     numbers, and Format/Reading.antt reads them back.
--   * Base.antt and the files under Base/ are shared: Boolean tests, lists over native numbers,
--     64-bit words, powers of two, and the monad of panics. Fixtures.antt has the arenas of the
--     tests; the files named Tests hold runs and the theorems at concrete values.
--
-- How the model corresponds to the code:
--   * A function that takes `&mut self` is a function from the old state to its result and the new
--     state; a panic is a value (`panicked`), with the state that it leaves behind. Functions have
--     the names of the source; `alloc_raw` of a transaction is in Txn.antt, that of an arena in
--     Arena/Alloc.antt.
--   * `usize` has 64 bits, and the operations of the source are written out as they act in a
--     release build: wrapping, checked and saturating. Addresses are numbers, 0 is the null
--     pointer.
--   * The system allocator is a parameter, a function from size and alignment to an address. Each
--     operation calls it at most once; a loop of pushes has one for each push. Where a theorem
--     needs its contract, that is a hypothesis: `IsOs` (pointers are aligned, in the lower half of
--     the address space) and `IsFresh` (what it returns does not overlap the blocks that the arena
--     owns).
--   * `blocks` is a list, which the `InlineVec` of the source stands for; Arena/BlockList.antt has
--     the two functions that push to it once more with the vector, which may find no memory to
--     grow. Loops are structural recursions over this list, over the number of steps of a range, or
--     over the number of slots that a loop of the registry takes, one in each turn; the theorems on
--     these loops hold for this number. The search for a power of two takes at most as many steps
--     as a word has bits.
--   * A transaction holds the arena that it borrows; commit, rollback and drop give it back.
--
-- Not modelled: `utilization` (floating point) and the text of `ArenaStats` that prints it; derived
-- `Debug`; a `Clone` that panics inside an `ArenaVec`; the drop of a value that a function takes and
-- does not store, as `val` of `resize`, or of a value of no bytes in `alloc`; tests, examples,
-- benchmarks.
pub mod Base
pub mod Block
pub mod InlineVec
pub mod Macros
pub mod Format
pub mod DropRegistry
pub mod Arena
pub mod Txn
pub mod Fixtures
pub mod Typed
pub mod Boxed
pub mod ArenaVec
pub mod Tracked
