-- ===== src/Network/Nat/Create/Filling.antt =====
-- The loop that creates the namespaces.
use drafter.Base.{
  ℕ, zero, suc, ◌+◌, ◌≤◌, true, false, [], ◌∷◌, ◌++◌, String, none, ◌≡◌, refl, sym, if◌then◌else◌,
  ap, ◌∙◌, subst, arith, length, str_eq, Bool-cases, inl, inr, length-append,
}
use drafter.Base.Dict.{lookup, insert}
use drafter.Base.Dict.Laws.{lookup-insert, length-insert_new, count-insert_new, All-insert_new}
use drafter.Errors.{GoError, failed}
use drafter.Script.{Log}
use drafter.Network.Namespace.{Namespace, NetCall, get_id, new_namespace, open_namespace}
use drafter.Network.Namespace.Ids.{get_id-new_namespace, get_id-open_namespace}
use drafter.Network.IpTable.Laws.{Fallible-cases}
use drafter.Network.IpTable.{IpPair, get_pair, get_ip}
use drafter.Network.Nat.Namespaces.{ClaimableNamespace, add_namespace}
use drafter.Network.Nat.Namespaces.Claims.{is_claimed, IsKeyed, claims}
use drafter.Network.Nat.Create.{
  TranslationConfiguration, Host, NatState, run_close, wait_host_veths, wait_namespace_veths,
  on_before_create_namespace,
}
use drafter.Network.Nat.Create.Rounds.{
  Turn, goes_on, stops, and_then, namespace_config, make_namespace, open_and_add, take_ip,
  take_locked_ip, make_round, make_locked_round, make_rounds,
}

-- The variables after `n` rounds: as many pairs, addresses and namespaces, each listed under its
-- id and free.
pub record IsFilled (n : ℕ) (st : NatState) : Type 0 where
  pub pairs : length st.host_veths ≡ n
  pub ips : length st.namespace_veths ≡ n
  pub made : length st.namespaces ≡ n
  pub keyed : IsKeyed st.namespaces
  pub free : claims st.namespaces ≡ 0
  -- the goroutine has not begun its Close
  pub idle : st.close_parts ≡ 0

-- How a part of the loop ends: with an error that is not nil, or as the predicate says, and in both cases
-- before the goroutine has begun its Close.
abbrev pub Keeps : (NatState → Type 0) → Turn → Type 0
Keeps P (goes_on st) = P st
Keeps P (stops e st) = (failed e ≡ true) × (st.close_parts ≡ 0)

Keeps-and_then :
    (P Q : NatState → Type 0) (t : Turn) (next : NatState → Turn)
    → Keeps P t
    → ((st : NatState) → P st → Keeps Q (next st))
    → Keeps Q (and_then t next)
Keeps-and_then P Q (goes_on st) next h k = k st h
Keeps-and_then P Q (stops e st) next h k = h

module _ (sys : Host) (conf : TranslationConfiguration)
    (apart : (i j : ℕ)
      → str_eq (sys.id_of conf.namespace_prefix i) (sys.id_of conf.namespace_prefix j) ≡ true
      → i ≡ j)
    (calm : (i k : ℕ) → sys.close_turns i k ≡ 0) where
  -- Where Close has not begun and does not, the loop goes on as it is.
  undisturbed : (i k : ℕ) (st : NatState) → run_close sys conf (sys.close_turns i k) st ≡ st
  unfolding run_close
  undisturbed i k st = rw (calm i k) refl

  no_wait_host_veths :
      (i : ℕ) (st : NatState)
      → st.close_parts ≡ 0
      → wait_host_veths sys conf (run_close sys conf (sys.close_turns i 0) st) ≡ st
  unfolding wait_host_veths
  no_wait_host_veths i st h = rw (undisturbed i 0 st) (ground (arith, h))

  no_wait_namespace_veths :
      (i : ℕ) (st : NatState)
      → st.close_parts ≡ 0
      → wait_namespace_veths sys conf (run_close sys conf (sys.close_turns i 1) st) ≡ st
  unfolding wait_namespace_veths
  no_wait_namespace_veths i st h = rw (undisturbed i 1 st) (ground (arith, h))

  -- With the ids of the rounds to come still unused.
  pub record IsOpen (n : ℕ) (st : NatState) : Type 0 where
    pub filled : IsFilled n st
    pub unused : (j : ℕ) → n ≤ j → lookup (sys.id_of conf.namespace_prefix j) st.namespaces ≡ none

  -- In a round, when the pair and the address are there.
  record IsTaken (n : ℕ) (st : NatState) : Type 0 where
    pub pairs : length st.host_veths ≡ n + 1
    pub ips : length st.namespace_veths ≡ n + 1
    pub made : length st.namespaces ≡ n
    pub keyed : IsKeyed st.namespaces
    pub free : claims st.namespaces ≡ 0
    pub idle : st.close_parts ≡ 0
    pub unused : (j : ℕ) → n ≤ j → lookup (sys.id_of conf.namespace_prefix j) st.namespaces ≡ none

  open_and_add-Keeps :
      (n : ℕ) (pair : IpPair) (ip : String) (st : NatState)
      → IsTaken n st
      → Keeps (IsOpen (n + 1)) (open_and_add sys conf n pair ip st)
  unfolding open_and_add add_namespace
  open_and_add-Keeps n pair ip st t = elim (Bool-cases (failed (sys.context n 2))) [
    | inl done ↦ rw done (refl, t.idle)
    | inr going ↦ elim (Bool-cases (failed opened.0)) [
      | inl bad ↦ rw (going, bad) (refl, t.idle)
      | inr good ↦
          rw (going, good, undisturbed n 3 ready)
            (record {
              filled = record {
                pairs = t.pairs;
                ips = t.ips;
                made = length-insert_new id entry st.namespaces unused_id ∙ ap (λ l. l + 1) t.made;
                keyed = All-insert_new id entry _ st.namespaces unused_id entry_id t.keyed;
                free = ground (
                  arith,
                  count-insert_new id entry (λ e. is_claimed e.1) st.namespaces unused_id,
                  t.free,
                );
                idle = t.idle;
              };
              unused = unused_later;
            })
    ]
  ]
    where
      id : String
      id = sys.id_of conf.namespace_prefix n

      opened : GoError × Namespace × Log NetCall
      opened =
          open_namespace sys.net_reply (new_namespace id (namespace_config conf pair ip)) st.net_log

      ready : NatState
      ready = record st {
        net_log = (opened.2);
        hook_calls =
            if sys.has_on_before_create_namespace
            then on_before_create_namespace (sys.id_of conf.namespace_prefix n) ∷ st.hook_calls
            else st.hook_calls;
      }

      entry : ClaimableNamespace
      entry = record { namespace = opened.1; claimed = false }

      unused_id : lookup id st.namespaces ≡ none
      unused_id = t.unused n (omega arith)

      entry_id : get_id opened.1 ≡ id
      entry_id =
          get_id-open_namespace sys.net_reply (new_namespace id (namespace_config conf pair ip))
            st.net_log
          ∙ get_id-new_namespace id (namespace_config conf pair ip)

      unused_later :
          (j : ℕ)
          → n + 1 ≤ j
          → lookup (sys.id_of conf.namespace_prefix j) (insert id entry st.namespaces) ≡ none
      unused_later j later =
          let different =
            λ (e : str_eq id (sys.id_of conf.namespace_prefix j) ≡ true). apart n j e in
          lookup-insert (sys.id_of conf.namespace_prefix j) id entry st.namespaces
          ∙ (elim (Bool-cases (str_eq id (sys.id_of conf.namespace_prefix j))) [
            | inl same ↦ absurd (omega (arith, apart n j same, later))
            | inr other ↦ rw other (t.unused j (omega arith))
          ])

  make_namespace-Keeps :
      (n : ℕ) (pair : IpPair) (ip : String) (st : NatState)
      → IsTaken n st
      → Keeps (IsOpen (n + 1)) (make_namespace sys conf n pair ip st)
  unfolding make_namespace
  make_namespace-Keeps n pair ip st t =
      subst (λ st'. Keeps (IsOpen (n + 1)) (open_and_add sys conf n pair ip st'))
        (sym (undisturbed n 2 st)) (open_and_add-Keeps n pair ip st t)

  take_ip-Keeps :
      (veth_prefix : String) (n : ℕ) (pair : IpPair) (st : NatState)
      → length st.host_veths ≡ n + 1
      → length st.namespace_veths ≡ n
      → length st.namespaces ≡ n
      → IsKeyed st.namespaces
      → claims st.namespaces ≡ 0
      → st.close_parts ≡ 0
      → ((j : ℕ) → n ≤ j → lookup (sys.id_of conf.namespace_prefix j) st.namespaces ≡ none)
      → Keeps (IsOpen (n + 1)) (
          take_locked_ip sys conf veth_prefix n pair
            (wait_namespace_veths sys conf (run_close sys conf (sys.close_turns n 1) st)))
  unfolding take_locked_ip
  take_ip-Keeps veth_prefix n pair st pairs ips made keyed free idle unused =
      subst (λ st'. Keeps (IsOpen (n + 1)) (take_locked_ip sys conf veth_prefix n pair st'))
        (sym (no_wait_namespace_veths n st idle))
        (elim (Bool-cases (failed (sys.context n 1))) [
          | inl done ↦ rw done (refl, idle)
          | inr going ↦ elim (Fallible-cases (get_ip sys.veth_ipam veth_prefix st.veth_log).0) [
            | inl (ip, got) ↦
                rw (going, got)
                  (make_namespace-Keeps n pair ip
                    (record st {
                      veth_log = (get_ip sys.veth_ipam veth_prefix st.veth_log).1;
                      namespace_veths = st.namespace_veths ++ ip ∷ [];
                    })
                    (record {
                      pairs = pairs;
                      ips = length-append st.namespace_veths (ip ∷ []) ∙ ap (λ l. l + 1) ips;
                      made = made;
                      keyed = keyed;
                      free = free;
                      idle = idle;
                      unused = unused;
                    }))
            | inr (c, cs, lost) ↦ rw (going, lost) (refl, idle)
          ]
        ])

  make_locked_round-Keeps :
      (host_prefix veth_prefix : String) (n : ℕ) (st : NatState)
      → IsOpen n st
      → Keeps (IsOpen (n + 1)) (make_locked_round sys conf host_prefix veth_prefix n st)
  unfolding make_locked_round take_ip
  make_locked_round-Keeps host_prefix veth_prefix n st v =
      elim (Bool-cases (failed (sys.context n 0))) [
        | inl done ↦ rw done (refl, v.filled.idle)
        | inr going ↦ elim (Fallible-cases (get_pair sys.host_ipam host_prefix st.host_log).0) [
          | inl (pair, got) ↦
              rw (going, got)
                (take_ip-Keeps veth_prefix n pair
                  (record st {
                    host_log = (get_pair sys.host_ipam host_prefix st.host_log).1;
                    host_veths = st.host_veths ++ pair ∷ [];
                  })
                  (length-append st.host_veths (pair ∷ []) ∙ ap (λ l. l + 1) v.filled.pairs)
                  v.filled.ips v.filled.made v.filled.keyed v.filled.free v.filled.idle v.unused)
          | inr (c, cs, lost) ↦ rw (going, lost) (refl, v.filled.idle)
        ]
      ]

  make_round-Keeps :
      (host_prefix veth_prefix : String) (n : ℕ) (st : NatState)
      → IsOpen n st
      → Keeps (IsOpen (n + 1)) (make_round sys conf host_prefix veth_prefix n st)
  unfolding make_round
  make_round-Keeps host_prefix veth_prefix n st v =
      subst
        (λ st'. Keeps (IsOpen (n + 1)) (make_locked_round sys conf host_prefix veth_prefix n st'))
        (sym (no_wait_host_veths n st v.filled.idle))
        (make_locked_round-Keeps host_prefix veth_prefix n st v)

  up : (n : ℕ) → n ≡ 0 + n
  up n = omega arith

  across : (k n : ℕ) → k + (n + 1) ≡ suc k + n
  across k n = omega arith

  pub make_rounds-Keeps :
      (host_prefix veth_prefix : String) (k n : ℕ) (st : NatState)
      → IsOpen n st
      → Keeps (IsOpen (k + n)) (make_rounds sys conf host_prefix veth_prefix k n st)
  unfolding make_rounds
  make_rounds-Keeps host_prefix veth_prefix zero n st v =
      rw (undisturbed n 0 st) (subst (λ m. IsOpen m st) (up n) v)
  make_rounds-Keeps host_prefix veth_prefix (suc k) n st v =
      Keeps-and_then (IsOpen (n + 1)) _ (make_round sys conf host_prefix veth_prefix n st) _
        (make_round-Keeps host_prefix veth_prefix n st v)
        (λ st' v'.
          subst (λ m. Keeps (IsOpen m) (make_rounds sys conf host_prefix veth_prefix k (n + 1) st'))
            (across k n) (make_rounds-Keeps host_prefix veth_prefix k (n + 1) st' v'))
