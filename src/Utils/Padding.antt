-- ===== src/Utils/Padding.antt =====
-- pkg/utils/padding.go, on Go's int64.
mod Laws
mod Examples
use drafter.Base.{ℕ, ◌*◌}
use drafter.Base.Int.{ℤ, pos, add64, sub64, scale64, quot64}

abbrev pub maximum_block_size : ℕ
maximum_block_size = 4096

-- `GetBlockDevicePadding`, operation by operation.
pub get_block_device_padding : ℤ → ℤ
get_block_device_padding resource_size =
    sub64
      (scale64
        (scale64
          (quot64 (sub64 (add64 resource_size (pos (maximum_block_size * 2))) (pos 1))
            (maximum_block_size * 2))
          maximum_block_size)
        2)
      resource_size
