-- ===== src/Utils/Padding/Examples.antt =====
-- Sizes in bytes: a small one, and one just below the end of an int64.
use drafter.Base.{ℕ, ◌+◌, ◌%◌, ◌≤◌, ◌<◌, ◌≡◌, refl, arith}
use drafter.Base.Int.{pos}
use drafter.Utils.Padding.{get_block_device_padding}
use drafter.Utils.Padding.Laws.{get_block_device_padding_least}

padding_8193 : get_block_device_padding (pos 8193) ≡ pos 8191
unfolding get_block_device_padding
padding_8193 = refl

padding_8192 : get_block_device_padding (pos 8192) ≡ pos 0
unfolding get_block_device_padding
padding_8192 = refl

get_block_device_padding_least_example :
    (p : ℕ) × (get_block_device_padding (pos 8193) ≡ pos p)
    × ((8193 + p) % 8192 ≡ 0)
    × (p < 8192)
    × (p ≤ 16383)
get_block_device_padding_least_example =
    get_block_device_padding_least 8193 16383 (omega arith) refl
