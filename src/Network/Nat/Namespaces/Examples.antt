-- ===== src/Network/Nat/Namespaces/Examples.antt =====
-- Two namespaces, one of them claimed.
use drafter.Base.{true, false, List, [], ◌∷◌, String, ◌≡◌, refl, arith, eq_iff}
use drafter.Network.Namespace.{NamespaceConfig, Namespace}
use drafter.Network.Nat.Namespaces.{Namespaces, claim_namespace, claimed_id}
use drafter.Network.Nat.Namespaces.Claims.{Visits}
use drafter.Network.Nat.Namespaces.Exclusive.{
  Use, InUse, Request, claim, release, serve_all, serve_all-InUse,
}

abbrev config : NamespaceConfig
config = record {
  host_interface = "eth0";
  namespace_interface = "tap0";
  namespace_interface_gateway = "172.16.0.1";
  namespace_interface_netmask = 30;
  host_veth_internal_ip = "10.0.8.1";
  host_veth_external_ip = "10.0.8.2";
  namespace_interface_ip = "172.16.0.2";
  namespace_veth_ip = "10.0.15.1";
  blocked_subnet = "10.0.15.0/24";
  namespace_interface_mac = "02:0e:d9:fd:68:3d";
  allow_incoming_traffic = false;
}

abbrev ark : String → Namespace
ark id = record {
  id = id;
  config = config;
  veth0 = "v0";
  veth1 = "v1";
  parsed_external_addr = true;
  parsed_default_address = true;
}

abbrev two : Namespaces
two =
    ("ark0", record { namespace = ark "ark0"; claimed = true })
    ∷ ("ark1", record { namespace = ark "ark1"; claimed = false })
    ∷ []

abbrev order : List String
order = "ark0" ∷ "ark1" ∷ []

two_run : claim_namespace order two ≡ (
  claimed_id "ark1",
  ("ark0", record { namespace = ark "ark0"; claimed = true })
      ∷ ("ark1", record { namespace = ark "ark1"; claimed = true })
      ∷ [],
)
unfolding claim_namespace
two_run = refl

two-Visits : Visits order two
two-Visits k c found = ground (arith, eq_iff "ark0" k, eq_iff "ark1" k)

abbrev requests : List Request
requests = claim order ∷ release "ark0" ∷ claim order ∷ claim order ∷ []

abbrev one_held : Use
one_held = record { namespaces = two; held = "ark0" ∷ [] }

one_held-InUse : InUse one_held
one_held-InUse = record { keyed = (refl, (refl, tt)); exclusive = (refl, tt); claimed = (refl, tt) }

serve_all-InUse_example : InUse (serve_all requests one_held)
serve_all-InUse_example = serve_all-InUse requests one_held one_held-InUse
