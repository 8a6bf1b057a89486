-- ===== src/Network/Nat/Create/Rounds.antt =====
-- `CreateNAT` of pkg/network/nat/nat.go: its checks, and its loop. Between its steps the goroutine may run
-- parts of its `Close`; where the loop stops, by `panic` or by a nil pointer that it reads, it runs the rest.
use drafter.Base.{
  ℕ, zero, suc, ◌+◌, false, ◌&&◌, ◌==◌, [], ◌∷◌, ◌++◌, String, if◌then◌else◌, ltb, nil_pointer,
  none, some,
}
use drafter.Base.Int.{ℤ, bits64}
use drafter.Errors.{GoError, nil, join, failed, Cause, NatError}
use drafter.Network.Namespace.{
  NamespaceConfig, Namespace, new_namespace, open_namespace, close_namespace,
}
use drafter.Network.IpTable.{
  ok, err, IpPair, IpTable, new_ip_table, open_table, available_pairs, available_ips, get_ip,
  get_pair,
}
use drafter.Network.NatRules.{create_rules}
use drafter.Network.Nat.Namespaces.{add_namespace}
use drafter.Network.Nat.Create.{
  TranslationConfiguration, on_before_create_namespace, Host, NatState, because, run_close,
  wait_host_veths, wait_namespace_veths,
}

-- How a part of the loop ends: it goes on, or it panics with an error.
pub data Turn : Type 0 where
  goes_on : NatState → Turn
  stops : GoError → NatState → Turn

abbrev pub and_then : Turn → (NatState → Turn) → Turn
and_then (goes_on st) next = next st
and_then (stops e st) next = stops e st

-- The prefix of a table that is open.
abbrev pub prefix_of : IpTable → String
prefix_of t = elim t.prefix [ none ↦ "" | some p ↦ p ]

-- The panic of Go where a nil pointer is read, as an error.
abbrev pub nil_dereference : GoError
nil_dereference = Cause.panic nil_pointer ∷ []

abbrev pub namespace_config : TranslationConfiguration → IpPair → String → NamespaceConfig
namespace_config conf pair ip = record {
  host_interface = conf.host_interface;
  namespace_interface = conf.namespace_interface;
  namespace_interface_gateway = conf.namespace_interface_gateway;
  namespace_interface_netmask = conf.namespace_interface_netmask;
  host_veth_internal_ip = pair.first_ip;
  host_veth_external_ip = pair.second_ip;
  namespace_interface_ip = conf.namespace_interface_ip;
  namespace_veth_ip = ip;
  blocked_subnet = conf.blocked_subnet_cidr;
  namespace_interface_mac = conf.namespace_interface_mac;
  allow_incoming_traffic = conf.allow_incoming_traffic;
}

-- How many namespaces there will be.
unfoldable pub namespace_count : ℕ → ℤ → ℕ
namespace_count available max_created =
    let m = bits64 max_created in if ltb m available then m else available

-- `addNamespace` of the namespace that was opened.
abbrev pub add_opened : String → Namespace → NatState → NatState
add_opened id ns st = record st { namespaces = add_namespace id ns st.namespaces }

module _ (sys : Host) (conf : TranslationConfiguration) where
  -- A round of the loop once it has a pair and an address: the namespace.
  unfoldable pub open_and_add : ℕ → IpPair → String → NatState → Turn
  unfolding run_close
  open_and_add i pair ip st =
      let id = sys.id_of conf.namespace_prefix i in
      let hooked : NatState = record st {
        hook_calls =
            if sys.has_on_before_create_namespace
            then on_before_create_namespace id ∷ st.hook_calls
            else st.hook_calls;
      } in
      let (e, ns, log) =
        open_namespace sys.net_reply (new_namespace id (namespace_config conf pair ip))
          st.net_log in
      let (e', log') = close_namespace sys.net_reply ns log in
      if failed (sys.context i 2)
      then stops (join (because NatError.could_not_open_namespace) (sys.context i 2)) st
      else (if failed e
          then stops
              (join (because NatError.could_not_open_namespace) (
                if failed e'
                then join (because NatError.could_not_open_namespace) (join e e')
                else e))
              (record hooked { net_log = log' })
          else goes_on (
              add_opened id ns
                (run_close sys conf (sys.close_turns i 3) (record hooked { net_log = log }))))

  -- The same, behind what Close does in between.
  unfoldable pub make_namespace : ℕ → IpPair → String → NatState → Turn
  unfolding open_and_add run_close
  make_namespace i pair ip st = open_and_add i pair ip (run_close sys conf (sys.close_turns i 2) st)

  -- The address for the namespace. Where there is none, `ReleaseIP` reads the nil that `GetIP` returned.
  unfoldable pub take_locked_ip : String → ℕ → IpPair → NatState → Turn
  unfolding make_namespace
  take_locked_ip veth_prefix i pair st =
      let (got, log) = get_ip sys.veth_ipam veth_prefix st.veth_log in
      if failed (sys.context i 1)
      then stops (join (because NatError.could_not_open_namespace_veth_ips) (sys.context i 1)) st
      else elim got [
        | err c cs ↦ stops nil_dereference (record st { veth_log = log })
        | ok ip ↦
            make_namespace i pair ip
              (record st { veth_log = log; namespace_veths = st.namespace_veths ++ ip ∷ [] })
      ]

  -- The same, behind what Close does in between, and the wait for the lock.
  unfoldable pub take_ip : String → ℕ → IpPair → NatState → Turn
  unfolding take_locked_ip run_close wait_namespace_veths
  take_ip veth_prefix i pair st =
      take_locked_ip veth_prefix i pair
        (wait_namespace_veths sys conf (run_close sys conf (sys.close_turns i 1) st))

  -- A round: the pair of addresses for the host first. Where there is none, `ReleasePair` reads the nil
  -- that `GetPair` returned.
  unfoldable pub make_locked_round : String → String → ℕ → NatState → Turn
  unfolding take_ip
  make_locked_round host_prefix veth_prefix i st =
      let (got, log) = get_pair sys.host_ipam host_prefix st.host_log in
      if failed (sys.context i 0)
      then stops (join (because NatError.could_not_open_host_veth_ips) (sys.context i 0)) st
      else elim got [
        | err c cs ↦ stops nil_dereference (record st { host_log = log })
        | ok pair ↦
            take_ip veth_prefix i pair
              (record st { host_log = log; host_veths = st.host_veths ++ pair ∷ [] })
      ]

  -- The same, behind what Close does in between, and the wait for the lock.
  unfoldable pub make_round : String → String → ℕ → NatState → Turn
  unfolding make_locked_round run_close wait_host_veths
  make_round host_prefix veth_prefix i st =
      make_locked_round host_prefix veth_prefix i
        (wait_host_veths sys conf (run_close sys conf (sys.close_turns i 0) st))

  -- The loop: so many rounds, from a number on.
  unfoldable pub make_rounds : String → String → ℕ → ℕ → NatState → Turn
  unfolding make_round run_close
  make_rounds host_prefix veth_prefix zero i st =
      goes_on (run_close sys conf (sys.close_turns i 0) st)
  make_rounds host_prefix veth_prefix (suc n) i st =
      and_then (make_round host_prefix veth_prefix i st)
        (make_rounds host_prefix veth_prefix n (i + 1))

  -- What the goroutine panics with once its Close has ended, if that has failed.
  abbrev pub close_panic : NatState → GoError
  close_panic st =
      if st.close_parts == 3 && failed st.close_errs
      then join (because NatError.nat_context_cancelled) st.close_errs
      else nil

  -- What follows the loop: where it has stopped, the goroutine runs what is left of `Close`.
  unfoldable pub finish : Turn → GoError × NatState
  unfolding run_close
  finish (goes_on st) = (close_panic st, st)
  finish (stops e st) = let st' = run_close sys conf 3 st in (join e (close_panic st'), st')

  -- `CreateNAT` from where the tables are open.
  unfoldable pub fill : String → String → ℤ → NatState → GoError × NatState
  unfolding make_rounds namespace_count finish
  fill host_prefix veth_prefix max_created st =
      let available = available_ips sys.veth_ipam veth_prefix st.veth_log in
      if ltb (available_pairs sys.host_ipam host_prefix st.host_log) available
      then (because NatError.not_enough_available_ips_in_host_cidr, st)
      else (if ltb available 1
          then (because NatError.not_enough_available_ips_in_namespace_cidr, st)
          else finish
              (make_rounds host_prefix veth_prefix (namespace_count available max_created) 0 st))

  abbrev new_state : NatState
  new_state = record {
    host_veths = [];
    namespace_veths = [];
    namespaces = [];
    closed = false;
    host_log = [];
    veth_log = [];
    net_log = [];
    nat_log = [];
    hook_calls = [];
    close_parts = 0;
    close_errs = nil;
  }

  -- `CreateNAT` behind the opening of the first table, whose prefix is the one given.
  unfoldable pub open_veths : String → ℤ → NatState → GoError × NatState
  unfolding fill
  open_veths host_prefix max_created st =
      let (opened, log) =
        open_table sys.veth_ipam (new_ip_table conf.namespace_veth_cidr) st.veth_log in
      elim opened [
        | err c cs ↦ (
          join (because NatError.could_not_open_namespace_veth_ips) (c ∷ cs),
          record st { veth_log = log },
        )
        | ok table ↦ fill host_prefix (prefix_of table) max_created (record st { veth_log = log })
      ]

  -- `CreateNAT`: its error, and the variables as they are when it returns.
  unfoldable pub create_nat : ℤ → GoError × NatState
  unfolding open_veths
  create_nat max_created =
      let (e, nat_log) = create_rules conf.host_interface sys.nat_reply [] in
      let (opened, log) = open_table sys.host_ipam (new_ip_table conf.host_veth_cidr) [] in
      let ruled : NatState = record new_state { nat_log = nat_log } in
      if failed (sys.interface_by_name conf.host_interface)
      then (
        join (because NatError.could_not_find_host_interface)
            (sys.interface_by_name conf.host_interface),
        new_state,
      )
      else (if failed e
          then (join (because NatError.could_not_create_nat) e, ruled)
          else elim opened [
            | err c cs ↦ (
              join (because NatError.could_not_open_host_veth_ips) (c ∷ cs),
              record ruled { host_log = log },
            )
            | ok table ↦ open_veths (prefix_of table) max_created (record ruled { host_log = log })
          ])
