-- ===== src/Ipc.antt =====
-- pkg/ipc: how the host and the agent in a VM reach each other.
pub mod Remote
pub mod Liveness
pub mod Client
