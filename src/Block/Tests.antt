-- ===== src/Block/Tests.antt =====
-- Runs of arena/block.rs, after its unit tests, and the theorems at concrete blocks.
use fastarena_rs.Base.{◌+◌, ◌<◌, ◌≡◌, ◌↔◌, refl, none, some, ok, arith, is_power_of_two, IsPow2}
use fastarena_rs.Block.{Block, Bump, Os, align_up, try_new, new, try_alloc, layout_ok, remaining}
use fastarena_rs.Block.Align.{IsAligned, align_up-IsAligned}
use fastarena_rs.Block.Laws.{IsValid, Bumped, try_alloc-Bumped, try_alloc-none_iff}

-- An allocator that answers requests at alignment 64.
abbrev test_os : Os
test_os size align = 65536

align_up_cases :
    (align_up 0 8 ≡ 0) × (align_up 1 8 ≡ 8) × (align_up 9 8 ≡ 16) × (align_up 65 64 ≡ 128)
unfolding align_up
align_up_cases = (refl, refl, refl, refl)

try_new_zero : try_new test_os 0 8 ≡ none
unfolding try_new
try_new_zero = refl

abbrev block_256 : Block
block_256 = record { offset = 0; capacity = 256; base = 65536; ptr = 65536; align = 64 }

new_256 : new test_os 256 8 ≡ ok block_256
unfolding new layout_ok is_power_of_two
new_256 = refl

-- One byte, then eight bytes at alignment 8: 7 bytes of padding.
abbrev one_used : Block
one_used = record block_256 { offset = 1 }

abbrev padded : Bump
padded = record { ptr = 65544; delta = 15; block = record block_256 { offset = 16 } }

alloc_padding_in_delta : try_alloc one_used 8 8 ≡ some padded
unfolding try_alloc align_up
alloc_padding_in_delta = refl

abbrev full : Block
full = record block_256 { offset = 256 }

alloc_none_when_full : (try_alloc full 1 1 ≡ none) × (remaining full ≡ 0)
unfolding try_alloc align_up remaining
alloc_none_when_full = (refl, refl)

eight : IsPow2 8
eight = (3, omega arith, refl)

one_used-IsValid : IsValid one_used
one_used-IsValid = omega arith

align_up-IsAligned_example : IsAligned 65537 8 (align_up 65537 8)
align_up-IsAligned_example = align_up-IsAligned 65537 8 eight (omega arith)

try_alloc-Bumped_example : Bumped one_used 8 8 padded
try_alloc-Bumped_example = try_alloc-Bumped one_used-IsValid 8 8 eight padded alloc_padding_in_delta

try_alloc-none_iff_example : (try_alloc one_used 300 8 ≡ none) ↔ (65792 < align_up 65537 8 + 300)
try_alloc-none_iff_example = try_alloc-none_iff one_used-IsValid 300 8 eight
