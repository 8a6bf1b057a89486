-- ===== src/Firecracker.antt =====
-- The runtime for firecracker virtual machines: pkg/runtimes/firecracker.
pub mod Host
pub mod Machine
pub mod Snapshot
pub mod Runtime
pub mod Memory
pub mod Vsock
