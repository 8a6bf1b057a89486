-- ===== src/Peer/Groups.antt =====
-- The device groups of a peer.
use drafter.Base.{
  ℕ, ◌≤◌, ◌<◌, Bool, false, List, [], ◌∷◌, Option, none, some, ◌≡◌, refl, sym, subst, arith, count,
  ◌==◌, ◌⊎◌, inl, inr, returned, Option-cases, Bool-cases,
}
use drafter.Script.{Oracle}
use drafter.Peer.{
  PeerCall, Peer, close_all, runtime_close, asked, answer, start_peer, close_dg, close_runtime,
  close_peer, close_rest, resume,
}
use drafter.Peer.Operations.{
  VmCallback, suspend, flush_data, Operation, closes, closes_runtime, resumes, takes_err,
  migrates_from, transfers, migrates_to, reports, run_operation, migrate_from, monitor,
  run_callback, run_callbacks, migrate_to, Lives, started, goes_on, waits_for,
}

abbrev pub is_close : ℕ → PeerCall → Bool
is_close g (close_all h) = h == g
is_close g _ = false

-- How often a group was closed.
abbrev pub closings : ℕ → Peer → ℕ
closings g peer = count (λ e. is_close g e.0) peer.calls

-- A group that the peer may have is one that was made, and if it is this one, it is open.
abbrev pub Current : ℕ → ℕ → ℕ → Option ℕ → Type 0
Current g made closed none = Unit
Current g made closed (some h) = (h < made) × (((h == g) ≡ false) ⊎ (closed ≡ 0))

-- A group is closed once at most, not while the peer has it, and not before it is made.
pub record Once (g : ℕ) (peer : Peer) : Type 0 where
  pub at_most : closings g peer ≤ 1
  pub made_before : (closings g peer ≡ 0) ⊎ (g < peer.made)
  pub current : Current g peer.made (closings g peer) peer.dg

pub returned_same : {A : Type 0} {x y : A} → returned x ≡ returned y → x ≡ y
returned_same e = ground arith

module _ (reply : Oracle PeerCall) (g : ℕ) where
  start_peer-Once :
      (log_set met_set : Bool) (peer : Peer)
      → (start_peer reply log_set met_set).1 ≡ some peer
      → Once g peer
  unfolding start_peer
  start_peer-Once log_set met_set peer e = ground arith

  close_rest-Once : (e : _) (peer : Peer) → Once g peer → Once g (close_rest reply e peer).1
  unfolding close_rest close_dg
  close_rest-Once e peer v = elim (Option-cases peer.dg) [
    | inl gone ↦ ground (arith, gone, v.current)
    | inr (h, there) ↦ ground (arith, there, v.current)
  ]

  resume-Once : (peer : Peer) → Once g peer → Once g (resume reply peer).1
  unfolding resume
  resume-Once peer v = ground arith

  -- What does not close a group, nor make one, keeps this.
  carry :
      (peer peer' : Peer)
      → Once g peer
      → peer'.dg ≡ peer.dg
      → peer'.made ≡ peer.made
      → closings g peer' ≡ closings g peer
      → Once g peer'
  carry peer peer' v same_dg same_made same_closings = record {
    at_most = ground (arith, v.at_most);
    made_before = ground (arith, v.made_before);
    current = subst (Current g peer'.made (closings g peer')) (sym same_dg) (
        subst (λ m. Current g m (closings g peer') peer.dg) (sym same_made)
          (subst (λ n. Current g peer.made n peer.dg) (sym same_closings) v.current));
  }

  migrate_from-Once :
      (readers writers : ℕ) (on_requested on_completed : Bool) (peer : Peer)
      → Once g peer
      → Once g (migrate_from reply readers writers on_requested on_completed peer).1
  unfolding migrate_from
  migrate_from-Once readers writers on_requested on_completed peer v = ground arith

  monitor-Once :
      (on_completed : Bool) (h : ℕ) (peer : Peer)
      → Once g peer
      → Once g (monitor reply on_completed h peer)
  unfolding monitor
  monitor-Once on_completed h peer v = carry peer _ v (ground arith) (ground arith) (ground arith)

  run_callbacks-Once :
      (cs : List VmCallback) (peer : Peer) → Once g peer → Once g (run_callbacks reply cs peer)
  unfolding run_callbacks run_callback
  run_callbacks-Once [] peer v = v
  run_callbacks-Once (suspend ∷ cs) peer v =
      run_callbacks-Once cs (run_callback reply suspend peer)
        (carry peer _ v (ground arith) (ground arith) (ground arith))
  run_callbacks-Once (flush_data ∷ cs) peer v =
      run_callbacks-Once cs (run_callback reply flush_data peer)
        (carry peer _ v (ground arith) (ground arith) (ground arith))

  migrate_to-Once :
      (cs : List VmCallback) (peer : Peer) → Once g peer → Once g (migrate_to reply cs peer).1
  unfolding migrate_to
  migrate_to-Once cs peer v =
      carry (run_callbacks reply cs (record peer { migrating_to = 1 })) _
        (run_callbacks-Once cs (record peer { migrating_to = 1 }) (carry peer _ v refl refl refl))
        refl refl (ground arith)

  -- `Close` where it does not panic.
  close_peer-Once :
      (peer peer' : Peer)
      → Once g peer
      → run_operation reply closes peer ≡ returned peer'
      → Once g peer'
  unfolding run_operation close_peer
  close_peer-Once peer peer' v e =
      let asked_peer = asked reply (runtime_close peer.dg) peer in
      let err = answer reply (runtime_close peer.dg) peer in
      let same : (close_rest reply err asked_peer).1 ≡ peer' = ground (arith, e) in
      subst (Once g) same
        (close_rest-Once err asked_peer (carry peer asked_peer v refl refl (ground arith)))

  run_operation-Once :
      (op : Operation) (peer peer' : Peer)
      → Once g peer
      → run_operation reply op peer ≡ returned peer'
      → Once g peer'
  unfolding run_operation close_runtime
  run_operation-Once closes peer peer' v e = close_peer-Once peer peer' v e
  run_operation-Once closes_runtime peer peer' v e =
      let same : asked reply (runtime_close peer.dg) peer ≡ peer' = ground (arith, e) in
      subst (Once g) same (carry peer _ v refl refl (ground arith))
  run_operation-Once resumes peer peer' v e = subst (Once g) (returned_same e) (resume-Once peer v)
  run_operation-Once takes_err peer peer' v e =
      subst (Once g) (returned_same e) (carry peer _ v refl refl refl)
  run_operation-Once (migrates_from readers writers on_requested on_completed) peer peer' v e =
      subst (Once g) (returned_same e)
        (migrate_from-Once readers writers on_requested on_completed peer v)
  run_operation-Once (transfers on_completed h) peer peer' v e =
      elim (Bool-cases (waits_for h peer.monitored)) [
        | inl waits ↦
            let same : monitor reply on_completed h peer ≡ peer' = ground (arith, waits, e) in
            subst (Once g) same (monitor-Once on_completed h peer v)
        | inr idle ↦ let same : peer ≡ peer' = ground (arith, idle, e) in subst (Once g) same v
      ]
  run_operation-Once (migrates_to cs) peer peer' v e =
      subst (Once g) (returned_same e) (migrate_to-Once cs peer v)
  run_operation-Once (reports err) peer peer' v e =
      subst (Once g) (returned_same e) (carry peer _ v (ground arith) (ground arith) (ground arith))

  Lives-Once : {start peer : Peer} → Once g start → Lives reply start peer → Once g peer
  Lives-Once v started = v
  Lives-Once v (goes_on op life e) = run_operation-Once op _ _ (Lives-Once v life) e

  -- Whatever the calls return, in the life of a peer, by any sequence of its operations, each device
  -- group is closed once at most, none before it was made, and the one that the peer has is open.
  pub groups_closed-Once :
      (log_set met_set : Bool) {start peer : Peer}
      → (start_peer reply log_set met_set).1 ≡ some start
      → Lives reply start peer
      → Once g peer
  groups_closed-Once log_set met_set e life = Lives-Once (start_peer-Once log_set met_set _ e) life
