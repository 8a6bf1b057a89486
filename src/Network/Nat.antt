-- ===== src/Network/Nat.antt =====
-- pkg/network/nat: the namespaces of a host, made at once and claimed one by one.
pub mod Namespaces
pub mod Create
