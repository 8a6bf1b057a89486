-- ===== src/Network/Nat/Create/Created.antt =====
-- What `CreateNAT` returns.
use drafter.Base.{ℕ, true, false, [], String, ◌≡◌, str_eq, ◌⊎◌}
use drafter.Base.Int.{ℤ}
use drafter.Errors.{GoError, failed}
use drafter.Network.IpTable.{
  Fallible, ok, err, IpTable, available_ips, IpamLog, open_table, new_ip_table,
}
use drafter.Network.Nat.Create.{TranslationConfiguration, Host, NatState}
use drafter.Network.Nat.Create.Rounds.{namespace_count, prefix_of}
use drafter.Network.Nat.Create.Filling.{IsFilled}

-- No pair, address or namespace is registered.
abbrev pub IsEmpty : NatState → Type 0
IsEmpty st = (st.host_veths ≡ []) × (st.namespace_veths ≡ []) × (st.namespaces ≡ [])

-- How a creation ends: with nil, as the predicate says; or with an error and nothing registered.
abbrev pub Ends : (NatState → Type 0) → GoError × NatState → Type 0
Ends P (e, st) = ((failed e ≡ false) × P st) ⊎ ((failed e ≡ true) × IsEmpty st)

module _ (sys : Host) (conf : TranslationConfiguration)
    (apart : (i j : ℕ)
      → str_eq (sys.id_of conf.namespace_prefix i) (sys.id_of conf.namespace_prefix j) ≡ true
      → i ≡ j)
    (calm : (i k : ℕ) → sys.close_turns i k ≡ 0) where
  -- The prefix of the table of the namespaces, once it is open, and the calls that have opened it, behind those of
  -- a log.
  abbrev pub opened_veths : IpamLog → Fallible IpTable × IpamLog
  opened_veths log = open_table sys.veth_ipam (new_ip_table conf.namespace_veth_cidr) log

  abbrev pub opened_prefix : Fallible IpTable → String
  opened_prefix (ok table) = prefix_of table
  opened_prefix (err c cs) = ""

  -- As many namespaces as `AvailableIPs` of that table says, with the limit.
  abbrev pub FillsBehind : IpamLog → ℤ → NatState → Type 0
  FillsBehind log max_created st =
      let opened = opened_veths log in
      IsFilled
        (namespace_count (available_ips sys.veth_ipam (opened_prefix opened.0) opened.1)
          max_created)
        st

  abbrev pub Fills : ℤ → NatState → Type 0
  Fills = FillsBehind []

  -- As many as the table says at some time.
  abbrev FillsAt : String → IpamLog → ℤ → NatState → Type 0
  FillsAt veth_prefix log max_created st =
      IsFilled (namespace_count (available_ips sys.veth_ipam veth_prefix log) max_created) st
