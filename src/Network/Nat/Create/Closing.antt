-- ===== src/Network/Nat/Create/Closing.antt =====
-- `Close` of the NAT.
use drafter.Base.{true, List, [], ◌∷◌, ◌≡◌, refl, arith, String, Bool-cases, inl, inr}
use drafter.Errors.{GoError, nil, join, failed, Cause, NatError, failed-join_either}
use drafter.Script.{Log}
use drafter.Network.Namespace.{NetCall, close_namespace}
use drafter.Network.Nat.Namespaces.{Namespaces}
use drafter.Network.IpTable.{IpamLog, IpPair, release_ip_of, release_pair}
use drafter.Network.IpTable.Laws.{release_pair-failed}
use drafter.Network.Nat.Create.{
  TranslationConfiguration, HookCall, Host, NatState, also, close_nat, release_host_veths,
  release_namespace_veths, close_namespaces,
}

module _ (sys : Host) (conf : TranslationConfiguration) (st : NatState) where
  -- After `Close`, whatever its calls return, a second one returns nil and makes no call.
  pub close_nat_again :
      close_nat sys conf (close_nat sys conf st).1 ≡ (nil, (close_nat sys conf st).1)
  unfolding close_nat
  close_nat_again = refl

failed-also :
    (errs : GoError) (e : NatError) (error : GoError)
    → failed errs ≡ true
    → failed (also errs e error) ≡ true
failed-also errs e error h = ground (arith, failed-join_either errs (join (Cause.nat e ∷ []) error))

module _ (sys : Host) where
  failed-release_host_veths :
      (pairs : List IpPair) (errs : GoError) (log : IpamLog)
      → failed errs ≡ true
      → failed (release_host_veths sys pairs (errs, log)).0 ≡ true
  unfolding release_host_veths
  failed-release_host_veths [] errs log h = h
  failed-release_host_veths (pair ∷ pairs) errs log h =
      failed-release_host_veths pairs _ _
        (failed-also errs _ (release_pair sys.host_ipam pair log).0 h)

  failed-release_namespace_veths :
      (ips : List String) (errs : GoError) (log : IpamLog)
      → failed errs ≡ true
      → failed (release_namespace_veths sys ips (errs, log)).0 ≡ true
  unfolding release_namespace_veths
  failed-release_namespace_veths [] errs log h = h
  failed-release_namespace_veths (ip ∷ ips) errs log h =
      failed-release_namespace_veths ips _ _
        (failed-also errs _ (release_ip_of sys.veth_ipam ip log).0 h)

  failed-close_namespaces :
      (m : Namespaces) (errs : GoError) (log : Log NetCall) (hooks : List HookCall)
      → failed errs ≡ true
      → failed (close_namespaces sys m (errs, log, hooks)).0 ≡ true
  unfolding close_namespaces
  failed-close_namespaces [] errs log hooks h = h
  failed-close_namespaces ((id, c) ∷ m) errs log hooks h =
      failed-close_namespaces m _ _ _
        (failed-also errs _ (close_namespace sys.net_reply c.namespace log).0 h)

  release_host_veths-some :
      (pair : IpPair) (pairs : List IpPair) (log : IpamLog)
      → failed (release_host_veths sys (pair ∷ pairs) (nil, log)).0 ≡ true
  unfolding release_host_veths
  release_host_veths-some pair pairs log =
      failed-release_host_veths pairs _ _
        (ground (arith, release_pair-failed sys.host_ipam pair log))

  -- `Close` returns an error wherever there is a pair of addresses to release, even if each of its calls
  -- succeeds.
  pub close_nat-failed :
      (conf : TranslationConfiguration) (st : NatState) (pair : IpPair) (pairs : List IpPair)
      → st.host_veths ≡ pair ∷ pairs
      → failed (close_nat sys conf st).0 ≡ true
  unfolding close_nat
  close_nat-failed conf st pair pairs e = elim (Bool-cases st.closed) [
    | inl again ↦ rw again all_failed
    | inr first ↦ rw first (failed-also _ _ _ all_failed)
  ]
    where
      pairs_failed : failed (release_host_veths sys st.host_veths (nil, st.host_log)).0 ≡ true
      pairs_failed = simp e (release_host_veths-some pair pairs st.host_log)

      all_failed :
          failed
            (close_namespaces sys st.namespaces (
              (release_namespace_veths sys st.namespace_veths
                  ((release_host_veths sys st.host_veths (nil, st.host_log)).0, st.veth_log)).0,
              st.net_log,
              st.hook_calls,
            )).0
          ≡ true
      all_failed =
          failed-close_namespaces st.namespaces _ st.net_log st.hook_calls
            (failed-release_namespace_veths st.namespace_veths _ st.veth_log pairs_failed)
