-- ===== src/Utils/Padding/Laws.antt =====
-- What the padding of pkg/utils/padding.go does for the sizes that an int64 leaves room for.
use drafter.Base.{ℕ, ◌+◌, ◌-◌, ◌*◌, ◌/◌, ◌%◌, ◌^◌, ◌≤◌, ◌<◌, ◌≡◌, arith}
use drafter.Base.Int.{pos}
use drafter.Utils.Padding.{get_block_device_padding}

-- Without overflow the code computes the distance to the next multiple of 8192.
get_block_device_padding_value :
    (n : ℕ)
    → n + 8192 ≤ 2 ^ 63
    → get_block_device_padding (pos n) ≡ pos ((n + 8191) / 8192 * 8192 - n)
unfolding get_block_device_padding
get_block_device_padding_value n h = ground arith

-- For a size of zero or more, at most 2 ^ 63 - 8192, the padding is the least number of bytes that
-- brings the size to a multiple of 8192: it does so, it is below 8192, and it is not more than any
-- other number `q` of bytes that brings the size to a multiple.
pub get_block_device_padding_least :
    (n q : ℕ)
    → n + 8192 ≤ 2 ^ 63
    → (n + q) % 8192 ≡ 0
    → (p : ℕ) × (get_block_device_padding (pos n) ≡ pos p)
      × ((n + p) % 8192 ≡ 0)
      × (p < 8192)
      × (p ≤ q)
get_block_device_padding_least n q h e = (
  (n + 8191) / 8192 * 8192 - n,
  get_block_device_padding_value n h,
  omega arith,
  omega arith,
  omega arith,
)

-- Just above that bound the intermediate sum overflows: the result is more than a whole block
-- too long, and the padded size is no int64 any more.
pub get_block_device_padding_overflow :
    (n : ℕ)
    → 2 ^ 63 < n + 8191
    → n < 2 ^ 63
    → (p : ℕ) × (get_block_device_padding (pos n) ≡ pos p) × (8192 < p) × (2 ^ 63 < n + p)
unfolding get_block_device_padding
get_block_device_padding_overflow n h k =
    (2 ^ 63 + 8192 - n, ground arith, omega arith, omega arith)
