-- ===== src/Utils.antt =====
-- pkg/utils: block device padding and loop devices.
pub mod Padding
pub mod Loop
