-- ===== src/Arena/BlockList/Tests.antt =====
-- A ninth block, for which the list of the blocks has to grow.
use fastarena_rs.Base.{
  ◌≡◌, refl, false, some, List, replicate, [], panicked, out_of_memory, is_power_of_two,
  checked_next_power_of_two,
}
use fastarena_rs.Block
use fastarena_rs.Block.{Block}
use fastarena_rs.InlineVec as Inline
use fastarena_rs.InlineVec.{InlineVec, inline}
use fastarena_rs.InlineVec.Laws.{stays_inline}
use fastarena_rs.Arena.{Arena}
use fastarena_rs.Arena.Alloc as Alloc
use fastarena_rs.Arena.BlockList.{Stands, Agrees, alloc_new_block, try_alloc_new_block}
use fastarena_rs.Arena.BlockList.Laws.{new_block-Agrees}
use fastarena_rs.Fixtures.{full_os, second_os, tiny_block, tiny}

abbrev eight_blocks : List Block
eight_blocks = replicate 8 tiny_block

abbrev eight : Arena
eight = record tiny { blocks = eight_blocks; current = 7; bytes_reserved = 512 }

abbrev eight_vec : InlineVec Block
eight_vec = record { storage = inline (replicate 8 (some tiny_block)); len = 8; on_heap = false }

eight-Stands : Stands eight_vec eight_blocks
eight-Stands = stays_inline [] refl refl

-- The fallible call panics, and 192 bytes are counted of a block that is not there.
try_panics :
    let out = try_alloc_new_block full_os second_os 128 8 (eight, eight_vec) in
    (out.0 ≡ panicked out_of_memory)
    × (out.1.0.blocks ≡ eight_blocks)
    × (out.1.0.bytes_reserved ≡ 768)
unfolding try_alloc_new_block Alloc.next_block_for Alloc.rounded_size checked_next_power_of_two
    Block.try_new Block.layout_ok Block.try_alloc Block.align_up is_power_of_two Inline.push
    Inline.push_slow Inline.promote_and_push Inline.doubled Inline.heap_alloc
try_panics = (refl, refl, refl)

new_block-Agrees_example :
    Agrees full_os second_os 128 8
      (eight, eight_vec)
      (Alloc.alloc_new_block second_os 128 8 eight)
      (alloc_new_block full_os second_os 128 8 (eight, eight_vec))
    × Agrees full_os second_os 128 8
        (eight, eight_vec)
        (Alloc.try_alloc_new_block second_os 128 8 eight)
        (try_alloc_new_block full_os second_os 128 8 (eight, eight_vec))
new_block-Agrees_example = new_block-Agrees second_os full_os eight eight_vec eight-Stands 128 8
