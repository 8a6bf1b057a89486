-- ===== src/Network/Nat/Create/Examples.antt =====
-- A host on which every call succeeds, and a state with a pair and an address to release.
use Prim.Native.String.{◌++◌}
use drafter.Base.{ℕ, zero, suc, true, false, [], ◌∷◌, String}
use drafter.Errors.{nil}
use drafter.Network.IpTable.{
  ok, IpamCall, IpamLog, Fallible, Ipamer, new_prefix, acquire_child_prefix, acquire_ip,
}
use drafter.Network.Nat.Create.{TranslationConfiguration, Host, NatState}

grant : IpamLog → IpamCall → Fallible String
grant log (acquire_child_prefix prefix size) = ok "10.0.8.0/30"
grant log (new_prefix prefix) = ok prefix
grant (acquire_ip prefix ∷ log) (acquire_ip prefix') = ok "10.0.8.2"
grant log c = ok "10.0.8.1"

abbrev generous : Ipamer
generous = record {
  acquire = grant;
  release = λ log c. nil;
  usage = λ log prefix. record { available_smallest_prefixes = 64; available_ips = 4 };
  parse_cidr = λ cidr. ok 24;
}

-- A name for each number: the prefix with so many strokes.
strokes : String → ℕ → String
strokes prefix zero = prefix
strokes prefix (suc n) = strokes prefix n ++ "|"

abbrev host : Host
host = record {
  interface_by_name = λ name. nil;
  nat_reply = λ log c. nil;
  net_reply = λ log c. nil;
  host_ipam = generous;
  veth_ipam = generous;
  context = λ i k. nil;
  close_turns = λ i k. 0;
  id_of = strokes;
  has_on_before_create_namespace = true;
  has_on_before_remove_namespace = false;
}

abbrev conf : TranslationConfiguration
conf = record {
  host_interface = "eth0";
  host_veth_cidr = "10.0.8.0/22";
  namespace_veth_cidr = "10.0.15.0/24";
  blocked_subnet_cidr = "10.0.15.0/24";
  namespace_interface = "tap0";
  namespace_interface_gateway = "172.16.0.1";
  namespace_interface_netmask = 30;
  namespace_interface_ip = "172.16.0.2";
  namespace_interface_mac = "02:0e:d9:fd:68:3d";
  namespace_prefix = "ark";
  allow_incoming_traffic = true;
}

abbrev busy : NatState
busy = record {
  host_veths =
      record { first_ip = "10.0.8.1"; second_ip = "10.0.8.2"; child_prefix = "10.0.8.0/30" } ∷ [];
  namespace_veths = "10.0.15.1" ∷ [];
  namespaces = [];
  closed = false;
  host_log = [];
  veth_log = [];
  net_log = [];
  nat_log = [];
  hook_calls = [];
  close_parts = 0;
  close_errs = nil;
}
