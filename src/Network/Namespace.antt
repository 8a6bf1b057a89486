-- ===== src/Network/Namespace.antt =====
-- pkg/network/namespace.go. The kernel, netlink, netns and iptables are not part of the repository:
-- what their calls return is an argument. A text that the code prints as "%s/%d" is kept as the
-- pair, and so is "0.0.0.0/0"; locking the thread changes no state and is left out.
pub mod Ids
pub mod Rules
mod Examples
use Prim.Native.String.{◌++◌ as append_text}
use drafter.Base.{ℕ, Bool, true, false, List, [], ◌∷◌, ◌++◌, String, if◌then◌else◌}
use drafter.Errors.{GoError, nil, Cause, NamespaceError}
use drafter.Script.{Step, attempt, later, mark, Log, Oracle, Done, run_script}

-- `PairMask` of ipmanager.go.
abbrev pub pair_mask : ℕ
pair_mask = 30

pub record NamespaceConfig : Type 0 where
  pub host_interface : String
  pub namespace_interface : String
  pub namespace_interface_gateway : String
  pub namespace_interface_netmask : ℕ
  pub host_veth_internal_ip : String
  pub host_veth_external_ip : String
  pub namespace_interface_ip : String
  pub namespace_veth_ip : String
  pub blocked_subnet : String
  pub namespace_interface_mac : String
  pub allow_incoming_traffic : Bool

pub record Namespace : Type 0 where
  pub id : String
  pub config : NamespaceConfig
  pub open config use *
  pub veth0 : String
  pub veth1 : String
  -- whether the address is set, that is, not nil
  pub parsed_external_addr : Bool
  pub parsed_default_address : Bool

-- `NewNamespace`
pub new_namespace : String → NamespaceConfig → Namespace
new_namespace id conf = record {
  id = id;
  config = conf;
  veth0 = append_text id "-veth0";
  veth1 = append_text id "-veth1";
  parsed_external_addr = false;
  parsed_default_address = false;
}

-- `GetID`
abbrev pub get_id : Namespace → String
get_id n = n.id

-- A rule as `iptables.Append` and `iptables.Delete` take it.
pub record Rule : Type 0 where
  pub table : String
  pub chain : String
  pub spec : List String

abbrev pub rule : String → String → List String → Rule
rule table chain spec = record { table = table; chain = chain; spec = spec }

pub data NsHandle : Type 0 where
  original named : NsHandle

pub data NetCall : Type 0 where
  get_ns new_iptables : NetCall
  new_named get_from_name delete_named : String → NetCall
  set_ns close_handle : NsHandle → NetCall
  link_add_tap link_by_name link_set_up link_set_down link_del : String → NetCall
  link_add_veth : String → String → NetCall
  parse_addr : String → ℕ → NetCall
  addr_add : String → String → ℕ → NetCall
  parse_mac : String → NetCall
  link_set_hardware_addr : String → String → NetCall
  link_set_ns_pid : String → ℕ → NetCall
  route_add route_del : String → ℕ → String → NetCall
  append_rule delete_rule : Rule → NetCall

-- The fields that `Open` assigns on its way: the address that was parsed, or nil.
pub data Parsed : Type 0 where
  default_address external_addr : Bool → Parsed

abbrev pub NetStep : Type 0
NetStep = Step NetCall Parsed

abbrev pub try : NetCall → NamespaceError → NetStep
try c e = attempt c (Cause.namespace e ∷ [])

-- The rules of a namespace.
module _ (n : Namespace) where
  abbrev pub snat_rule : Rule
  snat_rule = rule "nat" "POSTROUTING" (
      "-o" ∷ n.veth0 ∷ "-s" ∷ n.namespace_interface_ip ∷ "-j" ∷ "SNAT" ∷ "--to"
      ∷ n.namespace_veth_ip ∷ [])

  abbrev pub dnat_rule : Rule
  dnat_rule = rule "nat" "PREROUTING" (
      "-i" ∷ n.veth0 ∷ "-d" ∷ n.namespace_veth_ip ∷ "-j" ∷ "DNAT" ∷ "--to"
      ∷ n.namespace_interface_ip ∷ [])

  abbrev pub incoming_dnat_rule : Rule
  incoming_dnat_rule = rule "nat" "PREROUTING" (
      "-d" ∷ n.host_veth_internal_ip ∷ "-j" ∷ "DNAT" ∷ "--to-destination" ∷ n.namespace_interface_ip
      ∷ [])

  abbrev pub incoming_masquerade_rule : Rule
  incoming_masquerade_rule =
      rule "nat" "POSTROUTING" ("-d" ∷ n.namespace_interface_ip ∷ "-j" ∷ "MASQUERADE" ∷ [])

  abbrev pub forward_rule : Rule
  forward_rule =
      rule "filter" "FORWARD" ("-i" ∷ n.veth1 ∷ "-o" ∷ n.host_interface ∷ "-j" ∷ "ACCEPT" ∷ [])

  abbrev pub drop_from_blocked_rule : Rule
  drop_from_blocked_rule =
      rule "filter" "FORWARD"
        ("-s" ∷ n.blocked_subnet ∷ "-d" ∷ n.host_veth_external_ip ∷ "-j" ∷ "DROP" ∷ [])

  abbrev pub drop_to_blocked_rule : Rule
  drop_to_blocked_rule =
      rule "filter" "FORWARD"
        ("-s" ∷ n.host_veth_external_ip ∷ "-d" ∷ n.blocked_subnet ∷ "-j" ∷ "DROP" ∷ [])

  -- The two rules for traffic from outside: `Open` appends them, and so does `Close`.
  incoming_steps : List NetStep
  incoming_steps =
      if n.allow_incoming_traffic
      then try (append_rule incoming_dnat_rule) NamespaceError.could_not_append_iptable_rule
        ∷ try (append_rule incoming_masquerade_rule) NamespaceError.could_not_append_iptable_rule
        ∷ []
      else []

  -- `Open` up to the default route, in the new namespace and for a while in the original one.
  open_links : List NetStep
  open_links =
      try get_ns NamespaceError.could_not_get_original_namespace
      ∷ later (close_handle original)
      ∷ later (set_ns original)
      ∷ try (new_named n.id) NamespaceError.could_not_new_namespace
      ∷ later (close_handle named)
      ∷ try (link_add_tap n.namespace_interface) NamespaceError.could_not_add_tap_interface
      ∷ try (parse_addr n.namespace_interface_gateway n.namespace_interface_netmask)
          NamespaceError.could_not_parse_gateway_subnet
      ∷ try
          (addr_add n.namespace_interface n.namespace_interface_gateway
            n.namespace_interface_netmask)
          NamespaceError.could_not_add_address_to_interface
      ∷ try (parse_mac n.namespace_interface_mac) NamespaceError.could_not_parse_mac_address
      ∷ try (link_set_hardware_addr n.namespace_interface n.namespace_interface_mac)
          NamespaceError.could_not_set_hardware_address
      ∷ try (link_set_up n.namespace_interface) NamespaceError.could_not_set_link_up
      ∷ try (link_add_veth n.veth0 n.veth1) NamespaceError.could_not_add_veth_interface
      ∷ try (link_by_name n.veth1) NamespaceError.could_not_get_veth_interface
      ∷ try (link_set_ns_pid n.veth1 1) NamespaceError.could_not_set_namespace_pid
      ∷ try (parse_addr n.host_veth_internal_ip pair_mask)
          NamespaceError.could_not_parse_internal_veth_subnet
      ∷ try (addr_add n.veth0 n.host_veth_internal_ip pair_mask)
          NamespaceError.could_not_add_address_to_interface
      ∷ try (link_set_up n.veth0) NamespaceError.could_not_set_link_up
      ∷ try (set_ns original) NamespaceError.could_not_set_original_namespace
      ∷ try (parse_addr n.host_veth_external_ip pair_mask)
          NamespaceError.could_not_parse_external_veth_subnet
      ∷ try (link_by_name n.veth1) NamespaceError.could_not_get_veth_interface
      ∷ try (addr_add n.veth1 n.host_veth_external_ip pair_mask)
          NamespaceError.could_not_add_address_to_interface
      ∷ try (link_set_up n.veth1) NamespaceError.could_not_set_link_up
      ∷ try (set_ns named) NamespaceError.could_not_set_original_namespace
      ∷ []

  -- The routes and rules of `Open`, in the namespace and then in the original one.
  open_routes : List NetStep
  open_routes =
      mark (default_address false)
        ∷ try (parse_addr "0.0.0.0" 0) NamespaceError.could_not_parse_default_address
        ∷ mark (default_address true)
        ∷ try (route_add "0.0.0.0" 0 n.host_veth_external_ip) NamespaceError.could_not_add_route
        ∷ try new_iptables NamespaceError.could_not_new_iptable
        ∷ try (append_rule snat_rule) NamespaceError.could_not_append_iptable_rule
        ∷ try (append_rule dnat_rule) NamespaceError.could_not_append_iptable_rule
        ∷ incoming_steps
      ++ (try (set_ns original) NamespaceError.could_not_set_original_namespace
          ∷ mark (external_addr false)
          ∷ try (parse_addr n.namespace_veth_ip 32)
              NamespaceError.could_not_parse_external_veth_subnet
          ∷ mark (external_addr true)
          ∷ try (route_add n.namespace_veth_ip 32 n.host_veth_internal_ip)
              NamespaceError.could_not_add_route
          ∷ try (append_rule forward_rule) NamespaceError.could_not_append_iptable_rule
          ∷ try (append_rule drop_from_blocked_rule) NamespaceError.could_not_append_iptable_rule
          ∷ try (append_rule drop_to_blocked_rule) NamespaceError.could_not_append_iptable_rule
          ∷ [])

  open_steps : List NetStep
  unfolding open_links open_routes incoming_steps
  open_steps = open_links ++ open_routes

  -- A route is deleted if its address is set.
  del_route : Bool → String → ℕ → String → List NetStep
  del_route set dst mask gw =
      if set then try (route_del dst mask gw) NamespaceError.could_not_delete_route ∷ [] else []

  -- `Close` in the original namespace.
  close_host : List NetStep
  unfolding del_route
  close_host =
      try new_iptables NamespaceError.could_not_new_iptable
      ∷ try (delete_rule drop_from_blocked_rule) NamespaceError.could_not_delete_iptable_rule
      ∷ try (delete_rule drop_to_blocked_rule) NamespaceError.could_not_delete_iptable_rule
      ∷ try (delete_rule forward_rule) NamespaceError.could_not_delete_iptable_rule
      ∷ del_route n.parsed_external_addr n.namespace_veth_ip 32 n.host_veth_internal_ip

  -- `Close` in the namespace: its rules and its default route.
  close_named : List NetStep
  unfolding del_route incoming_steps
  close_named =
      try get_ns NamespaceError.could_not_get_original_namespace
        ∷ later (close_handle original)
        ∷ later (set_ns original)
        ∷ try (get_from_name n.id) NamespaceError.could_not_new_namespace
        ∷ later (close_handle named)
        ∷ try (set_ns named) NamespaceError.could_not_set_original_namespace
        ∷ incoming_steps
      ++ try (delete_rule dnat_rule) NamespaceError.could_not_delete_iptable_rule
        ∷ try (delete_rule snat_rule) NamespaceError.could_not_delete_iptable_rule
        ∷ del_route n.parsed_default_address "0.0.0.0" 0 n.host_veth_external_ip

  -- `Close` of the links and of the namespace, whose own error comes back bare.
  close_links : List NetStep
  close_links =
      try (set_ns original) NamespaceError.could_not_set_original_namespace
      ∷ try (link_by_name n.veth1) NamespaceError.could_not_get_veth_interface
      ∷ try (link_del n.veth1) NamespaceError.could_not_delete_link
      ∷ try (set_ns named) NamespaceError.could_not_set_original_namespace
      ∷ try (link_by_name n.namespace_interface) NamespaceError.could_not_add_tap_interface
      ∷ try (link_set_down n.namespace_interface) NamespaceError.could_not_set_link_down
      ∷ try (link_del n.namespace_interface) NamespaceError.could_not_delete_link
      ∷ attempt (delete_named n.id) nil
      ∷ []

  close_steps : List NetStep
  unfolding close_host close_named close_links
  close_steps = close_host ++ close_named ++ close_links

abbrev pub assign : List Parsed → Namespace → Namespace
assign [] n = n
assign (default_address set ∷ ms) n = record (assign ms n) { parsed_default_address = set }
assign (external_addr set ∷ ms) n = record (assign ms n) { parsed_external_addr = set }

-- `Open`: its error, the namespace with the fields assigned, and the log.
pub open_namespace : Oracle NetCall → Namespace → Log NetCall → GoError × Namespace × Log NetCall
unfolding open_steps
open_namespace reply n log =
    let done = run_script reply (open_steps n) log in (done.error, assign done.marks n, done.calls)

-- `Close`
pub close_namespace : Oracle NetCall → Namespace → Log NetCall → GoError × Log NetCall
unfolding close_steps
close_namespace reply n log =
    let done = run_script reply (close_steps n) log in (done.error, done.calls)
