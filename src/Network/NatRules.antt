-- ===== src/Network/NatRules.antt =====
-- pkg/network/nat.go: the rules of the host for all its namespaces.
mod Laws
use drafter.Base.{List, [], ◌∷◌, String}
use drafter.Errors.{GoError, Cause, NatRuleError}
use drafter.Script.{Step, attempt, Log, Oracle, run_script}
use drafter.Network.Namespace.{Rule, rule}

pub data NatCall : Type 0 where
  write_ip_forward new_iptables : NatCall
  append_rule delete_rule : Rule → NatCall

abbrev pub NatStep : Type 0
NatStep = Step NatCall Unit

abbrev pub try : NatCall → NatRuleError → NatStep
try c e = attempt c (Cause.nat_rule e ∷ [])

module _ (host_interface : String) where
  abbrev pub masquerade_rule : Rule
  masquerade_rule = rule "nat" "POSTROUTING" ("-o" ∷ host_interface ∷ "-j" ∷ "MASQUERADE" ∷ [])

  abbrev pub established_rule : Rule
  established_rule =
      rule "filter" "FORWARD"
        ("-m" ∷ "conntrack" ∷ "--ctstate" ∷ "RELATED,ESTABLISHED" ∷ "-j" ∷ "ACCEPT" ∷ [])

  pub create_steps : List NatStep
  create_steps =
      try write_ip_forward NatRuleError.could_not_write_ip_forwarding
      ∷ try new_iptables NatRuleError.could_not_create_iptables_instance
      ∷ try (append_rule masquerade_rule) NatRuleError.could_not_append_post_routing_rule
      ∷ try (append_rule established_rule) NatRuleError.could_not_append_forward_rule
      ∷ []

  pub remove_steps : List NatStep
  remove_steps =
      try new_iptables NatRuleError.could_not_create_iptables_instance
      ∷ try (delete_rule established_rule) NatRuleError.could_not_delete_forward_rule
      ∷ try (delete_rule masquerade_rule) NatRuleError.could_not_delete_post_routing_rule
      ∷ []

  -- `CreateNAT` of pkg/network
  unfoldable pub create_rules : Oracle NatCall → Log NatCall → GoError × Log NatCall
  unfolding create_steps
  create_rules reply log = let done = run_script reply create_steps log in (done.error, done.calls)

  -- `RemoveNAT`
  unfoldable pub remove_rules : Oracle NatCall → Log NatCall → GoError × Log NatCall
  unfolding remove_steps
  remove_rules reply log = let done = run_script reply remove_steps log in (done.error, done.calls)
