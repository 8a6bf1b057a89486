-- ===== src/Network.antt =====
-- pkg/network: address pools, the network namespace of a VM, the NAT of the host, and port forwards.
pub mod Namespace
pub mod IpTable
pub mod NatRules
pub mod Forwarder
pub mod Nat
