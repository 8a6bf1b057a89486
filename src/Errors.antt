-- ===== src/Errors.antt =====
-- Go errors. An `error` is the list of the causes that `errors.Join` has put together, in order:
-- nil is the empty list, and the text of an error is that of its causes, a line each.
-- The sentinels of each package of pkg/ are a type of their own.
mod Firecracker
mod Devices
pub use Firecracker.{FirecrackerError}
pub use Devices.{MigrationError, LivenessError, VsockError, LoopError}
use drafter.Base.{ℕ, String, Bool, true, List, [], ◌∷◌, ◌++◌, ◌||◌, ◌≡◌, refl, is_empty, not, Panic}

-- pkg/common/vm_state.go and dirty_manager.go
pub data CommonError : Type 0 where
  could_not_suspend_and_close_agent_server : CommonError
  could_not_msync_runner : CommonError
  could_not_suspend_and_msync_vm : CommonError

-- pkg/network/namespace.go
pub data NamespaceError : Type 0 where
  could_not_get_original_namespace : NamespaceError
  could_not_new_namespace : NamespaceError
  could_not_add_tap_interface : NamespaceError
  could_not_parse_gateway_subnet : NamespaceError
  could_not_add_address_to_interface : NamespaceError
  could_not_parse_mac_address : NamespaceError
  could_not_set_hardware_address : NamespaceError
  could_not_set_link_up : NamespaceError
  could_not_add_veth_interface : NamespaceError
  could_not_get_veth_interface : NamespaceError
  could_not_set_namespace_pid : NamespaceError
  could_not_parse_internal_veth_subnet : NamespaceError
  could_not_set_original_namespace : NamespaceError
  could_not_parse_external_veth_subnet : NamespaceError
  could_not_parse_default_address : NamespaceError
  could_not_add_route : NamespaceError
  could_not_new_iptable : NamespaceError
  could_not_append_iptable_rule : NamespaceError
  could_not_delete_iptable_rule : NamespaceError
  could_not_delete_route : NamespaceError
  could_not_delete_link : NamespaceError
  could_not_set_link_down : NamespaceError
  could_not_delete_namespace : NamespaceError

-- pkg/network/nat.go
pub data NatRuleError : Type 0 where
  could_not_write_ip_forwarding : NatRuleError
  could_not_create_iptables_instance : NatRuleError
  could_not_append_post_routing_rule : NatRuleError
  could_not_append_forward_rule : NatRuleError
  could_not_delete_forward_rule : NatRuleError
  could_not_delete_post_routing_rule : NatRuleError

-- pkg/network/ipmanager.go
pub data IpError : Type 0 where
  invalid_cidr_size : IpError
  could_not_parse_cidr : IpError
  could_not_create_new_prefix : IpError
  could_not_acquire_ip : IpError
  could_not_release_ip : IpError
  could_not_acquire_child_prefix : IpError
  could_not_release_child_prefix : IpError

-- pkg/network/nat/errors.go
pub data NatError : Type 0 where
  not_enough_available_ips_in_host_cidr : NatError
  not_enough_available_ips_in_namespace_cidr : NatError
  all_namespaces_claimed : NatError
  could_not_find_host_interface : NatError
  could_not_create_nat : NatError
  could_not_open_host_veth_ips : NatError
  could_not_open_namespace_veth_ips : NatError
  could_not_release_host_veth_ip : NatError
  could_not_release_namespace_veth_ip : NatError
  could_not_open_namespace : NatError
  could_not_close_namespace : NatError
  could_not_remove_nat : NatError
  nat_context_cancelled : NatError

-- pkg/network/forwarder/errors.go
pub data ForwarderError : Type 0 where
  could_not_find_internal_host_veth : ForwarderError
  could_not_creating_iptables : ForwarderError
  could_not_split_host_port : ForwarderError
  could_not_resolve_ip_addr : ForwarderError
  could_not_write_file_route_localnet_all : ForwarderError
  could_not_write_file_route_localnet_lo : ForwarderError
  could_not_get_original_ns_handle : ForwarderError
  could_not_set_original_ns_handle : ForwarderError
  could_not_get_ns_handle : ForwarderError
  could_not_set_ns_handle : ForwarderError
  could_not_list_interfaces : ForwarderError
  could_not_get_interface_addresses : ForwarderError
  could_not_append_iptables_filter_forward_d : ForwarderError
  could_not_delete_iptables_filter_forward_d : ForwarderError
  could_not_append_iptables_filter_forward_s : ForwarderError
  could_not_delete_iptables_filter_forward_s : ForwarderError
  could_not_append_iptables_nat_output : ForwarderError
  could_not_delete_iptables_nat_output : ForwarderError
  could_not_append_iptables_nat_prerouting : ForwarderError
  could_not_delete_iptables_nat_prerouting : ForwarderError
  could_not_append_iptables_nat_postrouting : ForwarderError
  could_not_delete_iptables_nat_postrouting : ForwarderError

-- pkg/common/package.go
pub data PackageError : Type 0 where
  missing_device : PackageError
  could_not_open_package_output_file : PackageError
  could_not_create_compressor : PackageError
  could_not_stat_device : PackageError
  could_not_create_tar_header : PackageError
  could_not_write_tar_header : PackageError
  could_not_open_device : PackageError
  could_not_copy_to_archive : PackageError
  could_not_open_package_input_file : PackageError
  could_not_create_uncompressor : PackageError
  could_not_read_next_header : PackageError
  could_not_create_output_dir : PackageError
  could_not_open_output_file : PackageError
  could_not_copy_to_output : PackageError

pub data Cause : Type 0 where
  common : CommonError → Cause
  namespace : NamespaceError → Cause
  nat_rule : NatRuleError → Cause
  ip : IpError → Cause
  nat : NatError → Cause
  forwarder : ForwarderError → Cause
  package_error : PackageError → Cause
  firecracker : FirecrackerError → Cause
  migration : MigrationError → Cause
  liveness : LivenessError → Cause
  vsock : VsockError → Cause
  loop : LoopError → Cause
  -- the process was killed by a signal: the text is "signal: killed"
  signal_killed : Cause
  -- net.ErrClosed, EBADF and io.EOF
  closed_connection bad_descriptor end_of_file : Cause
  -- the error that names the device, of `fmt.Errorf`
  missing_device : String → Cause
  -- an error of a callback or of a library, by a number of its own
  external : ℕ → Cause
  -- a panic of Go itself that was recovered
  panic : Panic → Cause

abbrev pub GoError : Type 0
GoError = List Cause

abbrev pub nil : GoError
nil = []

-- `errors.Join`
abbrev pub join : GoError → GoError → GoError
join e f = e ++ f

-- `err != nil`
abbrev pub failed : GoError → Bool
failed e = not (is_empty e)

-- An error that is joined to anything is an error.
pub failed-join : (e f : GoError) → failed f ≡ true → failed (join e f) ≡ true
failed-join [] f h = h
failed-join (c ∷ e) f h = refl

pub failed-join_either : (e f : GoError) → failed (join e f) ≡ (failed e || failed f)
failed-join_either [] f = refl
failed-join_either (c ∷ e) f = refl
