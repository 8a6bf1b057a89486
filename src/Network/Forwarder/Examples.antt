-- ===== src/Network/Forwarder/Examples.antt =====
-- Two ports of one namespace, the rule of the second refused; and its error, lost.
use drafter.Base.{ℕ, Bool, true, false, List, [], ◌∷◌, ◌≡◌, refl, if◌then◌else◌, suc, str_eq}
use drafter.Errors.{nil, failed, Cause}
use drafter.Script.{Oracle, run_steps, run_deferred}
use drafter.Network.Namespace.{Rule}
use drafter.Network.Forwarder.{
  PortForward, Surroundings, ip_net, ip_addr, other_addr, ForwardCall, append_rule, forward_port,
}
use drafter.Network.Forwarder.Ports.{
  Worker, forward_ports, close_ports, all_notes, run_closers, joined,
}
use drafter.Network.Forwarder.Rules.{deletions, appended, forward_ports-deletes}

abbrev surroundings : Surroundings
surroundings = record {
  split_host_port = λ addr. ("127.0.0.1", "8080");
  host_is_loopback = λ host. true;
  interfaces = λ netns.
      record { name = "lo"; addrs = ip_net "127.0.0.1" ∷ [] }
      ∷ record { name = "eth0"; addrs = other_addr ∷ ip_addr "10.0.8.1" ∷ [] }
      ∷ [];
  is_loopback = λ ip. str_eq ip "127.0.0.1";
  in_host_veth_cidr = λ ip. true;
  join_host_port = λ host port. "10.0.8.1:80";
}

abbrev http : PortForward
http = record {
  netns = "ark0";
  internal_port = "80";
  protocol = "tcp";
  external_addr = "127.0.0.1:8080";
}

-- The second port may not append a rule.
abbrev replies : ℕ → Oracle ForwardCall
replies (suc i) log (append_rule r) = Cause.external 1 ∷ []
replies i log c = nil

abbrev obliging : Oracle ForwardCall
obliging log c = nil

abbrev workers : Bool → List Worker
workers late =
    record { index = 0; input = http; late = false }
    ∷ record { index = 1; input = http; late = late }
    ∷ []

abbrev any_rule : Rule → Bool
any_rule r = true

forward_ports-deletes_example :
    let fw = forward_ports surroundings replies nil obliging (workers false) in
    (deletions any_rule fw.closing ≡ (if failed fw.error then appended any_rule fw.ports else 0))
    × (deletions any_rule (close_ports obliging fw).1 ≡ appended any_rule fw.ports)
forward_ports-deletes_example =
    forward_ports-deletes any_rule surroundings replies nil obliging obliging (workers false)

three_deleted :
    deletions any_rule (forward_ports surroundings replies nil obliging (workers false)).closing ≡ 3
unfolding forward_ports forward_port run_steps run_deferred all_notes run_closers joined
three_deleted = refl

-- The error of the second port comes too late, and `ForwardPorts` returns nil.
error_lost : failed (forward_ports surroundings replies nil obliging (workers true)).error ≡ false
unfolding forward_ports forward_port run_steps run_deferred all_notes run_closers joined
error_lost = refl
