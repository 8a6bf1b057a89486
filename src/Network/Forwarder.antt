-- ===== src/Network/Forwarder.antt =====
-- pkg/network/forwarder/forward_ports.go, one port. What the calls of net, netns and iptables return
-- is an argument for each port, of its own calls so far: the other ports run at the same time, so
-- that anything may happen between two calls.
pub mod Ports
pub mod Rules
mod Examples
use drafter.Base.{
  ℕ, Bool, true, false, not, ◌&&◌, ◌||◌, List, [], ◌∷◌, ◌++◌, String, Option, none, some,
  if◌then◌else◌,
}
use drafter.Errors.{GoError, nil, failed, Cause, ForwarderError}
use drafter.Script.{Step, attempt, later, mark, Log, Oracle, Done, run_script}
use drafter.Network.Namespace.{Rule, rule}

pub record PortForward : Type 0 where
  pub netns : String
  pub internal_port : String
  pub protocol : String
  pub external_addr : String

-- An address of an interface, by its type in Go; one of a type that the code knows has an IP.
pub data Addr : Type 0 where
  ip_net ip_addr : String → Addr
  other_addr : Addr

pub record Interface : Type 0 where
  pub name : String
  pub addrs : List Addr

-- What the code finds out by the calls that succeed.
pub record Surroundings : Type 0 where
  -- `net.SplitHostPort`
  pub split_host_port : String → String × String
  -- `net.ResolveIPAddr`, as far as the code asks for it: whether the host is a loopback address
  pub host_is_loopback : String → Bool
  -- `net.Interfaces` in a network namespace
  pub interfaces : String → List Interface
  -- `ip.IsLoopback()` and `hostVethCIDR.Contains(ip)`
  pub is_loopback : String → Bool
  pub in_host_veth_cidr : String → Bool
  -- `net.JoinHostPort`
  pub join_host_port : String → String → String

pub data ForwardCall : Type 0 where
  check_context get_ns set_original close_original set_named close_named list_interfaces :
      ForwardCall
  write_route_localnet_all write_route_localnet_lo : ForwardCall
  split_host_port resolve_ip_addr get_from_name interface_addrs : String → ForwardCall
  append_rule delete_rule : Rule → ForwardCall
  on_before_port_unforward : ℕ → ForwardCall

-- What a port leaves behind on its way: a rule to delete, the call of the hook after it was forwarded,
-- and a call of the hook before it is unforwarded.
pub data Note : Type 0 where
  undo : Rule → Note
  forwarded unforward : ℕ → Note

abbrev pub ForwardStep : Type 0
ForwardStep = Step ForwardCall Note

abbrev pub try : ForwardCall → ForwarderError → ForwardStep
try c e = attempt c (Cause.forwarder e ∷ [])

-- An append of a rule, and `addDefer` of its deletion.
abbrev pub append_undone : Rule → ForwarderError → List ForwardStep → List ForwardStep
append_undone r e rest = try (append_rule r) e ∷ mark (undo r) ∷ rest

module _ (sys : Surroundings) where
  -- The first address of an interface that is one of the host's veths.
  pub veth_address : List Addr → Option String
  veth_address [] = none
  veth_address (other_addr ∷ addrs) = veth_address addrs
  veth_address (ip_net ip ∷ addrs) =
      let rest = veth_address addrs in
      if sys.is_loopback ip then rest else (if sys.in_host_veth_cidr ip then some ip else rest)
  veth_address (ip_addr ip ∷ addrs) =
      let rest = veth_address addrs in
      if sys.is_loopback ip then rest else (if sys.in_host_veth_cidr ip then some ip else rest)

  -- The first such address of the interfaces in turn.
  pub host_veth_internal_ip : List Interface → Option String
  unfolding veth_address
  host_veth_internal_ip [] = none
  host_veth_internal_ip (i ∷ is) =
      let rest = host_veth_internal_ip is in
      elim (veth_address i.addrs) [ none ↦ rest | some ip ↦ some ip ]

  -- The loop over the interfaces, up to the one that has it.
  pub address_steps : List Interface → List ForwardStep
  unfolding veth_address
  address_steps [] = []
  address_steps (i ∷ is) =
      let rest = address_steps is in
      try (interface_addrs i.name) ForwarderError.could_not_get_interface_addresses
      ∷ elim (veth_address i.addrs) [ none ↦ rest | some ip ↦ [] ]

  module _ (input : PortForward) where
    abbrev host : String
    host = (sys.split_host_port input.external_addr).0

    abbrev port : String
    port = (sys.split_host_port input.external_addr).1

    -- The callback up to the function that looks for the address.
    pub host_steps : List ForwardStep
    host_steps =
        attempt check_context nil
        ∷ try (ForwardCall.split_host_port input.external_addr)
            ForwarderError.could_not_split_host_port
        ∷ try (resolve_ip_addr host) ForwarderError.could_not_resolve_ip_addr
        ∷ (if sys.host_is_loopback host
            then try write_route_localnet_all ForwarderError.could_not_write_file_route_localnet_all
              ∷ try write_route_localnet_lo ForwarderError.could_not_write_file_route_localnet_lo
              ∷ []
            else [])

    -- That function, in the network namespace.
    pub netns_steps : List ForwardStep
    unfolding address_steps
    netns_steps =
        try get_ns ForwarderError.could_not_get_original_ns_handle
        ∷ later close_original
        ∷ later set_original
        ∷ try (get_from_name input.netns) ForwarderError.could_not_get_ns_handle
        ∷ later close_named
        ∷ try set_named ForwarderError.could_not_set_ns_handle
        ∷ try list_interfaces ForwarderError.could_not_list_interfaces
        ∷ address_steps (sys.interfaces input.netns)

    module _ (index : ℕ) (ip : String) where
      abbrev destination : String
      destination = sys.join_host_port ip input.internal_port

      abbrev pub forward_to_rule : Rule
      forward_to_rule = rule "filter" "FORWARD" ("-d" ∷ ip ∷ "-j" ∷ "ACCEPT" ∷ [])

      abbrev pub forward_from_rule : Rule
      forward_from_rule = rule "filter" "FORWARD" ("-s" ∷ ip ∷ "-j" ∷ "ACCEPT" ∷ [])

      abbrev pub output_rule : Rule
      output_rule = rule "nat" "OUTPUT" (
          "-p" ∷ input.protocol ∷ "-d" ∷ host ∷ "--dport" ∷ port ∷ "-j" ∷ "DNAT"
          ∷ "--to-destination" ∷ destination ∷ [])

      abbrev pub prerouting_rule : Rule
      prerouting_rule = rule "nat" "PREROUTING" (
          "-p" ∷ input.protocol ∷ "--dport" ∷ port ∷ "-d" ∷ host ∷ "-j" ∷ "DNAT"
          ∷ "--to-destination" ∷ destination ∷ [])

      abbrev pub postrouting_rule : Rule
      postrouting_rule = rule "nat" "POSTROUTING" (
          "-p" ∷ input.protocol ∷ "-d" ∷ ip ∷ "--dport" ∷ input.internal_port ∷ "-j" ∷ "MASQUERADE"
          ∷ [])

      -- The rules for the address and the port, each with its deletion; and the hooks.
      pub nat_steps : List ForwardStep
      nat_steps =
          attempt check_context nil
          ∷ append_undone output_rule ForwarderError.could_not_append_iptables_nat_output (
              append_undone prerouting_rule ForwarderError.could_not_append_iptables_nat_prerouting
                (append_undone postrouting_rule
                  ForwarderError.could_not_append_iptables_nat_postrouting
                  (mark (forwarded index) ∷ mark (unforward index) ∷ [])))

      -- The callback from where the address is known.
      pub rule_steps : List ForwardStep
      unfolding nat_steps
      rule_steps =
          attempt check_context nil
          ∷ (if sys.host_is_loopback host
              then nat_steps
              else append_undone forward_to_rule
                  ForwarderError.could_not_append_iptables_filter_forward_d
                  (append_undone forward_from_rule
                    ForwarderError.could_not_append_iptables_filter_forward_s nat_steps))

  -- The callback of `concurrentMap` for one port: its error, what it leaves behind, newest first, and
  -- its calls.
  pub forward_port : Oracle ForwardCall → ℕ → PortForward → Done ForwardCall Note
  unfolding host_steps netns_steps rule_steps host_veth_internal_ip
  forward_port reply index input =
      let resolved = run_script reply (host_steps input) [] in
      let looked = run_script reply (netns_steps input) resolved.calls in
      if failed resolved.error
      then resolved
      else (if failed looked.error
          then looked
          else elim (host_veth_internal_ip (sys.interfaces input.netns)) [
            | none ↦ record {
              error = Cause.forwarder ForwarderError.could_not_find_internal_host_veth ∷ [];
              marks = [];
              calls = looked.calls;
            }
            | some ip ↦ run_script reply (rule_steps input index ip) looked.calls
          ])
