-- ===== src/Format/Tests.antt =====
-- Texts as they are written, and the theorems on them at concrete values.
use fastarena_rs.Base.{◌≡◌, refl, arith, some, false, [], ◌∷◌}
use fastarena_rs.Arena.{Checkpoint, stats, current_used}
use fastarena_rs.Txn.{Transaction, TxnDiff, TxnStatus, bytes_used}
use fastarena_rs.Format.{
  checkpoint_format, fmt_checkpoint, fmt_diff, budget_panic, debug_arena, fmt_status,
}
use fastarena_rs.Format.Writing.{codes, write, decimal, digits}
use fastarena_rs.Format.Reading.{read_all, read_all-write, digits_enough}
use fastarena_rs.Fixtures.{busy}

abbrev mark : Checkpoint
mark = record { block_idx = 0; offset = 16; bytes_allocated = 1016 }

abbrev change : TxnDiff
change = record { bytes_allocated = 64; blocks_touched = 1 }

abbrev over : Transaction
over = record {
  arena = busy;
  checkpoint = mark;
  committed = false;
  bytes_at_open = 0;
  block_at_open = 0;
  depth = 1;
  limit = some 100;
}

writes_checkpoint : fmt_checkpoint mark ≡ codes "Checkpoint(block=0, offset=16, bytes=1016)"
unfolding fmt_checkpoint write decimal digits
writes_checkpoint = refl

writes_diff : fmt_diff change ≡ codes "64 bytes in 1 block(s)"
unfolding fmt_diff write decimal digits
writes_diff = refl

writes_status : fmt_status TxnStatus.rolled_back ≡ codes "rolled back"
unfolding fmt_status
writes_status = refl

writes_budget :
    budget_panic 128 over
    ≡ codes "arena transaction budget exceeded: limit=100, used=16, requested=128"
unfolding budget_panic write decimal digits bytes_used current_used
writes_budget = refl

writes_arena :
    debug_arena busy
    ≡ codes "Arena { bytes_allocated: 16, bytes_reserved: 64, block_count: 1, txn_depth: 0 }"
unfolding debug_arena write decimal digits stats current_used
writes_arena = refl

writes_largest : decimal 18446744073709551615 ≡ codes "18446744073709551615"
unfolding decimal digits
writes_largest = refl

four_steps : digits 20 1016 ≡ digits 4 1016
four_steps = digits_enough 4 20 1016 (omega arith) (omega arith) (omega arith)

-- The numbers of a text, read with the format string.
reads_checkpoint : read_all checkpoint_format (fmt_checkpoint mark) ≡ 0 ∷ 16 ∷ 1016 ∷ []
unfolding fmt_checkpoint write
reads_checkpoint =
    read_all-write checkpoint_format (0 ∷ 16 ∷ 1016 ∷ []) (refl, (refl, (refl, refl)))
      (omega arith, (omega arith, (omega arith, tt)))
