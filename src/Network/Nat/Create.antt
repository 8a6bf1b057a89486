-- ===== src/Network/Nat/Create.antt =====
-- pkg/network/nat/nat.go: the namespaces of a host, created in one loop and closed together. What the
-- calls of net, iptables, netns and go-ipam return is an argument, as are the checks of the context, and
-- when the goroutine that waits for the end of the context runs its `Close`, part by part, between the loop's.
-- `Close` walks the namespaces in the order of the dictionary, where Go has an order of its own.
pub mod Rounds
pub mod Closing
pub mod Filling
pub mod Created
mod Examples
use drafter.Base.{
  ℕ, zero, suc, ◌+◌, Bool, true, false, List, [], ◌∷◌, ◌++◌, String, Option, none, some,
  if◌then◌else◌, ltb, leb, ◌==◌, Panic,
}
use drafter.Base.Int.{ℤ, bits64}
use drafter.Errors.{GoError, nil, join, failed, Cause, NatError}
use drafter.Script.{Log, Oracle}
use drafter.Network.Namespace.{
  NamespaceConfig, Namespace, NetCall, new_namespace, get_id, open_namespace, close_namespace,
}
use drafter.Network.IpTable.{
  Fallible, ok, err, Ipamer, IpamLog, IpTable, IpPair, new_ip_table, open_table, available_pairs,
  available_ips, get_ip, release_ip_of, get_pair, release_pair,
}
use drafter.Network.NatRules.{NatCall, create_rules, remove_rules}
use drafter.Network.Nat.Namespaces.{ClaimableNamespace, Namespaces, add_namespace}

pub record TranslationConfiguration : Type 0 where
  pub host_interface : String
  pub host_veth_cidr : String
  pub namespace_veth_cidr : String
  pub blocked_subnet_cidr : String
  pub namespace_interface : String
  pub namespace_interface_gateway : String
  pub namespace_interface_netmask : ℕ
  pub namespace_interface_ip : String
  pub namespace_interface_mac : String
  pub namespace_prefix : String
  pub allow_incoming_traffic : Bool

pub data HookCall : Type 0 where
  on_before_create_namespace on_before_remove_namespace : String → HookCall

pub record Host : Type 0 where
  -- `net.InterfaceByName`
  pub interface_by_name : String → GoError
  pub nat_reply : Oracle NatCall
  pub net_reply : Oracle NetCall
  -- the address managers of the two tables
  pub host_ipam : Ipamer
  pub veth_ipam : Ipamer
  -- `ctx.Err()` at one of the three checks of a round of the loop
  pub context : ℕ → ℕ → GoError
  -- how many parts of its Close the goroutine that waits for the end of the context runs at one of the
  -- four points of a round, and behind the loop at the first point of a round that is not made
  pub close_turns : ℕ → ℕ → ℕ
  -- `fmt.Sprintf("%v%v", prefix, i)`
  pub id_of : String → ℕ → String
  -- whether the hooks are set
  pub has_on_before_create_namespace : Bool
  pub has_on_before_remove_namespace : Bool

-- The variables that the loop and `Close` share, and the calls that were made.
pub record NatState : Type 0 where
  pub host_veths : List IpPair
  pub namespace_veths : List String
  pub namespaces : Namespaces
  pub closed : Bool
  pub host_log : IpamLog
  pub veth_log : IpamLog
  pub net_log : Log NetCall
  pub nat_log : Log NatCall
  -- newest first
  pub hook_calls : List HookCall
  -- how many of its three parts the Close of the goroutine has run, and the error of a Close so far
  pub close_parts : ℕ
  pub close_errs : GoError

abbrev because : NatError → GoError
because e = Cause.nat e ∷ []

-- `errs = errors.Join(errs, sentinel, err)` behind `if err != nil`.
abbrev pub also : GoError → NatError → GoError → GoError
also errs e error = if failed error then join errs (join (because e) error) else errs

module _ (sys : Host) where
  -- The three loops of `Close`.
  unfoldable pub release_host_veths : List IpPair → GoError × IpamLog → GoError × IpamLog
  release_host_veths [] r = r
  release_host_veths (pair ∷ pairs) (errs, log) =
      let (e, log') = release_pair sys.host_ipam pair log in
      release_host_veths pairs (also errs NatError.could_not_release_host_veth_ip e, log')

  unfoldable pub release_namespace_veths : List String → GoError × IpamLog → GoError × IpamLog
  release_namespace_veths [] r = r
  release_namespace_veths (ip ∷ ips) (errs, log) =
      let (e, log') = release_ip_of sys.veth_ipam ip log in
      release_namespace_veths ips (also errs NatError.could_not_release_namespace_veth_ip e, log')

  unfoldable pub close_namespaces :
      Namespaces → GoError × Log NetCall × List HookCall → GoError × Log NetCall × List HookCall
  close_namespaces [] r = r
  close_namespaces ((id, c) ∷ m) (errs, log, hooks) =
      let (e, log') = close_namespace sys.net_reply c.namespace log in
      close_namespaces m (
        also errs NatError.could_not_close_namespace e,
        log',
        (if sys.has_on_before_remove_namespace
            then on_before_remove_namespace (get_id c.namespace) ∷ hooks
            else hooks),
      )

  -- The first part of `Namespaces.Close`, which takes the lock of the pairs until the end.
  unfoldable pub close_host_veths : NatState → NatState
  unfolding release_host_veths
  close_host_veths st =
      let (errs, log) = release_host_veths st.host_veths (st.close_errs, st.host_log) in
      record st { host_veths = []; host_log = log; close_errs = errs }

  -- The second, which takes the lock of the addresses until the end.
  unfoldable pub close_namespace_veths : NatState → NatState
  unfolding release_namespace_veths
  close_namespace_veths st =
      let (errs, log) = release_namespace_veths st.namespace_veths (st.close_errs, st.veth_log) in
      record st { namespace_veths = []; veth_log = log; close_errs = errs }

  -- The third, under the lock of the namespaces.
  unfoldable pub close_claimable : TranslationConfiguration → NatState → NatState
  unfolding close_namespaces
  close_claimable conf st =
      let (errs, net_log, hooks) =
        close_namespaces st.namespaces (st.close_errs, st.net_log, st.hook_calls) in
      let (e, nat_log) = remove_rules conf.host_interface sys.nat_reply st.nat_log in
      record st {
        namespaces = [];
        closed = true;
        net_log = net_log;
        nat_log = if st.closed then st.nat_log else nat_log;
        hook_calls = hooks;
        close_errs = if st.closed then errs else also errs NatError.could_not_remove_nat e;
      }

  -- `Namespaces.Close`, where nothing comes between its parts.
  unfoldable pub close_nat : TranslationConfiguration → NatState → GoError × NatState
  unfolding close_host_veths close_namespace_veths close_claimable
  close_nat conf st =
      let st' =
        close_claimable conf
          (close_namespace_veths (close_host_veths (record st { close_errs = nil }))) in
      (st'.close_errs, record st' { close_errs = nil })

  -- The part that is next, of a number of parts that were run.
  unfoldable pub close_part : TranslationConfiguration → ℕ → NatState → NatState
  unfolding close_host_veths close_namespace_veths close_claimable
  close_part conf zero st = close_host_veths (record st { close_parts = 1; close_errs = nil })
  close_part conf (suc zero) st = close_namespace_veths (record st { close_parts = 2 })
  close_part conf (suc (suc zero)) st = close_claimable conf (record st { close_parts = 3 })
  close_part conf (suc (suc (suc n))) st = st

  -- So many parts of the Close of the goroutine, of those that are left.
  unfoldable pub run_close : TranslationConfiguration → ℕ → NatState → NatState
  unfolding close_part
  run_close conf zero st = st
  run_close conf (suc n) st = run_close conf n (close_part conf st.close_parts st)

  -- The loop waits for the lock of the pairs, or of the addresses, where Close has it.
  unfoldable pub wait_host_veths : TranslationConfiguration → NatState → NatState
  unfolding run_close
  wait_host_veths conf st =
      let ended = run_close conf 2 st in if st.close_parts == 0 then st else ended

  unfoldable pub wait_namespace_veths : TranslationConfiguration → NatState → NatState
  unfolding run_close
  wait_namespace_veths conf st =
      let ended = run_close conf 1 st in if leb st.close_parts 1 then st else ended
