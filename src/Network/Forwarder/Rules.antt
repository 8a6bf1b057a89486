-- ===== src/Network/Forwarder/Rules.antt =====
-- What the forwarder leaves behind in the rule tables.
use drafter.Base.{
  ℕ, ◌+◌, Bool, true, false, not, ◌&&◌, ◌||◌, List, [], ◌∷◌, ◌++◌, map, ◌≡◌, refl, ◌∙◌, arith,
  count, String, if◌then◌else◌, inl, inr, Bool-cases, Option-cases,
}
use drafter.Errors.{GoError, nil, failed, failed-join_either}
use drafter.Script.{Log, Oracle, Done, run_script}
use drafter.Script.Laws.{same_refl, succeeded, balanced, balanced-run_steps}
use drafter.Network.Namespace.{Rule}
use drafter.Network.Forwarder.{
  PortForward, Surroundings, Interface, ForwardCall, Note, undo, forwarded, unforward, append_rule,
  delete_rule, forward_port, host_steps, netns_steps, rule_steps, address_steps,
  host_veth_internal_ip, host, nat_steps, output_rule, prerouting_rule, postrouting_rule,
  forward_to_rule, forward_from_rule,
}
use drafter.Network.Forwarder.Ports.{
  Worker, run_closers, all_notes, work, joined, forward_ports, close_ports,
}

count-none : {A : Type 0} (xs : List A) → count (λ x. false) xs ≡ 0
count-none [] = refl
count-none (x ∷ xs) = count-none xs

module _ (p : Rule → Bool) where
  -- The calls that append, or delete, a rule of a kind, and the notes to delete one.
  abbrev pub appends : ForwardCall → Bool
  appends (append_rule r) = p r
  appends _ = false

  abbrev pub deletes : ForwardCall → Bool
  deletes (delete_rule r) = p r
  deletes _ = false

  abbrev pub undoes : Note → Bool
  undoes (undo r) = p r
  undoes _ = false

  module _ (sys : Surroundings) where
    balanced-address_steps :
        (q : Note → Bool) (is : List Interface)
        → balanced appends q false (address_steps sys is) ≡ true
    unfolding address_steps
    balanced-address_steps q [] = refl
    balanced-address_steps q (i ∷ is) = ground (arith, balanced-address_steps q is)

    balanced-host_steps :
        (q : Note → Bool) (input : PortForward)
        → balanced appends q false (host_steps sys input) ≡ true
    unfolding host_steps
    balanced-host_steps q input = ground arith

    balanced-netns_steps :
        (q : Note → Bool) (input : PortForward)
        → balanced appends q false (netns_steps sys input) ≡ true
    unfolding netns_steps
    balanced-netns_steps q input = balanced-address_steps q (sys.interfaces input.netns)

    balanced-nat_steps :
        (input : PortForward) (index : ℕ) (ip : String)
        → balanced appends undoes false (nat_steps sys input index ip) ≡ true
    unfolding nat_steps
    balanced-nat_steps input index ip = rw (
      same_refl (p (output_rule sys input index ip)),
      same_refl (p (prerouting_rule sys input index ip)),
      same_refl (p (postrouting_rule sys input index ip)),
    )

    balanced-rule_steps :
        (input : PortForward) (index : ℕ) (ip : String)
        → balanced appends undoes false (rule_steps sys input index ip) ≡ true
    unfolding rule_steps
    balanced-rule_steps input index ip = elim (Bool-cases (sys.host_is_loopback (host sys input))) [
      | inl loops ↦ rw loops (balanced-nat_steps input index ip)
      | inr outside ↦
          rw
            (
              outside,
              same_refl (p (forward_to_rule sys input index ip)),
              same_refl (p (forward_from_rule sys input index ip)),
            )
            (balanced-nat_steps input index ip)
    ]

    -- Whatever the calls return, a port leaves a note to delete a rule of a kind for each rule of
    -- that kind that it has appended, and no other.
    pub forward_port-balanced :
        (reply : Oracle ForwardCall) (index : ℕ) (input : PortForward)
        → succeeded appends (forward_port sys reply index input).calls
          ≡ count undoes (forward_port sys reply index input).marks
    unfolding forward_port
    forward_port-balanced reply index input = elim (Bool-cases (failed resolved.error)) [
      | inl bad ↦ rw bad (
          balanced-run_steps appends undoes reply false (host_steps sys input) [] [] [] refl
            (balanced-host_steps undoes input) refl)
      | inr fine ↦ elim (Bool-cases (failed looked.error)) [
        | inl bad ↦
            rw (fine, bad)
              (balanced-run_steps appends undoes reply false (netns_steps sys input) [] []
                resolved.calls refl (balanced-netns_steps undoes input) before_netns)
        | inr found ↦ elim (Option-cases (host_veth_internal_ip sys (sys.interfaces input.netns))) [
          | inl nowhere ↦ rw (fine, found, nowhere) before_rules
          | inr (ip, at) ↦
              rw (fine, found, at)
                (balanced-run_steps appends undoes reply false (rule_steps sys input index ip) [] []
                  looked.calls refl (balanced-rule_steps input index ip) before_rules)
        ]
      ]
    ]
      where
        resolved : Done ForwardCall Note
        resolved = run_script reply (host_steps sys input) []

        looked : Done ForwardCall Note
        looked = run_script reply (netns_steps sys input) resolved.calls

        before_netns : succeeded appends resolved.calls ≡ 0
        before_netns =
            balanced-run_steps appends (λ m. false) reply false (host_steps sys input) [] [] [] refl
              (balanced-host_steps (λ m. false) input) refl
            ∙ count-none resolved.marks

        before_rules : succeeded appends looked.calls ≡ 0
        before_rules =
            balanced-run_steps appends (λ m. false) reply false (netns_steps sys input) [] []
              resolved.calls refl (balanced-netns_steps (λ m. false) input) before_netns
            ∙ count-none looked.marks

count-append :
    {A : Type 0} (q : A → Bool) (xs ys : List A) → count q (xs ++ ys) ≡ count q xs + count q ys
count-append q [] ys = ground arith
count-append q (x ∷ xs) ys = ground (arith, count-append q xs ys)

module _ (p : Rule → Bool) where
  -- The deletions of rules of a kind that were tried.
  abbrev pub deletions : Log ForwardCall → ℕ
  deletions log = count (λ e. deletes p e.0) log

  deletions-run_closers :
      (reply : Oracle ForwardCall) (notes : List Note) (errs : GoError) (log : Log ForwardCall)
      → deletions (run_closers reply notes errs log).1 ≡ count (undoes p) notes + deletions log
  unfolding run_closers
  deletions-run_closers reply [] errs log = ground arith
  deletions-run_closers reply (undo r ∷ notes) errs log =
      deletions-run_closers reply notes _ _ ∙ ground arith
  deletions-run_closers reply (forwarded i ∷ notes) errs log =
      deletions-run_closers reply notes errs log
  deletions-run_closers reply (unforward i ∷ notes) errs log =
      deletions-run_closers reply notes errs _

  -- The rules of a kind that the ports have appended.
  abbrev pub appended : List (Done ForwardCall Note) → ℕ
  appended [] = 0
  appended (d ∷ ds) = succeeded (appends p) d.calls + appended ds

  module _ (sys : Surroundings) (replies : ℕ → Oracle ForwardCall) where
    count-all_notes :
        (ws : List Worker)
        → count (undoes p) (all_notes (map (work sys replies) ws))
          ≡ appended (map (work sys replies) ws)
    unfolding all_notes
    count-all_notes [] = refl
    count-all_notes (w ∷ ws) = omega (
      arith,
      count-all_notes ws,
      count-append (undoes p) (all_notes (map (work sys replies) ws)) (work sys replies w).marks,
      forward_port-balanced p sys (replies w.index) w.index w.input,
    )

    -- Whatever the calls return, and in whatever order the ports finish: either `ForwardPorts` has
    -- returned nil and deleted nothing, or it has returned an error and has tried to delete rules of
    -- each kind as often as its ports have appended them. `Close` of what it returned tries that, too.
    pub forward_ports-deletes :
        (new_iptables : GoError) (reply closing : Oracle ForwardCall) (ws : List Worker)
        → let fw = forward_ports sys replies new_iptables reply ws in
          (deletions fw.closing ≡ (if failed fw.error then appended fw.ports else 0))
          × (deletions (close_ports closing fw).1 ≡ appended fw.ports)
    unfolding forward_ports
    forward_ports-deletes new_iptables reply closing ws =
        let deleted = λ (r : Oracle ForwardCall).
          deletions-run_closers r (all_notes (map (work sys replies) ws)) nil [] in
        ground (arith, count-all_notes ws, deleted reply, deleted closing)

module _ (sys : Surroundings) (replies : ℕ → Oracle ForwardCall) where
  -- Whether a port has failed whose error was joined in time.
  abbrev pub fails_in_time : List Worker → Bool
  fails_in_time [] = false
  fails_in_time (w ∷ ws) = (not w.late && failed (work sys replies w).error) || fails_in_time ws

  failed-joined :
      (ws : List Worker) (errs : GoError)
      → failed (joined sys replies ws errs) ≡ (failed errs || fails_in_time ws)
  unfolding joined
  failed-joined [] errs = ground arith
  failed-joined (w ∷ ws) errs =
      failed-joined ws _ ∙ ground (arith, failed-join_either errs (work sys replies w).error)

  -- `ForwardPorts` returns an error exactly if there is no iptables or a port has failed whose error
  -- was joined in time, before the last `wg.Done`.
  pub forward_ports-failed :
      (new_iptables : GoError) (reply : Oracle ForwardCall) (ws : List Worker)
      → failed (forward_ports sys replies new_iptables reply ws).error
        ≡ (failed new_iptables || fails_in_time ws)
  unfolding forward_ports
  forward_ports-failed new_iptables reply ws = ground (arith, failed-joined ws nil)
