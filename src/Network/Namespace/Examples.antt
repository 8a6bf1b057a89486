-- ===== src/Network/Namespace/Examples.antt =====
-- A namespace that allows incoming traffic, opened and closed where every call succeeds.
use drafter.Base.{◌+◌, ◌*◌, Bool, true, [], ◌≡◌, refl}
use drafter.Errors.{nil}
use drafter.Script.{Log, Oracle, run_steps, run_deferred}
use drafter.Script.Laws.{succeeded}
use drafter.Network.Namespace.{
  NamespaceConfig, Namespace, NetCall, Rule, new_namespace, open_namespace, close_namespace,
}
use drafter.Network.Namespace.Rules.{appends, deletes, incoming, open-close_rules}

abbrev obliging : Oracle NetCall
obliging log c = nil

abbrev exposed : NamespaceConfig
exposed = record {
  host_interface = "eth0";
  namespace_interface = "tap0";
  namespace_interface_gateway = "172.16.0.1";
  namespace_interface_netmask = 30;
  host_veth_internal_ip = "10.0.8.1";
  host_veth_external_ip = "10.0.8.2";
  namespace_interface_ip = "172.16.0.2";
  namespace_veth_ip = "10.0.15.1";
  blocked_subnet = "10.0.15.0/24";
  namespace_interface_mac = "02:0e:d9:fd:68:3d";
  allow_incoming_traffic = true;
}

abbrev vm : Namespace
vm = new_namespace "ark0" exposed

abbrev any_rule : Rule → Bool
any_rule r = true

-- The log after `Open` and `Close`.
abbrev closed_log : Log NetCall
closed_log =
    (close_namespace obliging (open_namespace obliging vm []).1 (open_namespace obliging vm []).2).1

-- Nine rules are appended and five deleted.
open-close_rules_example :
    succeeded (appends any_rule) closed_log + 0
    ≡ succeeded (deletes any_rule) closed_log + 0 + 2 * incoming any_rule vm
unfolding new_namespace open_namespace close_namespace run_steps run_deferred
open-close_rules_example = open-close_rules obliging vm [] refl refl any_rule

rules_of_closed :
    (succeeded (appends any_rule) closed_log ≡ 9) × (succeeded (deletes any_rule) closed_log ≡ 5)
unfolding new_namespace open_namespace close_namespace run_steps run_deferred
rules_of_closed = (refl, refl)
