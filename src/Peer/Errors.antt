-- ===== src/Peer/Errors.antt =====
-- What a peer reports: the errors of its `Close`, those in the background, and whether the VM runs.
use drafter.Base.{
  ℕ, ◌≤◌, Bool, true, false, not, ◌&&◌, List, [], ◌∷◌, Option, none, some, ◌≡◌, refl, ◌∙◌, sym,
  subst, arith, length, length-append, Outcome, returned, panicked, nil_pointer, Option-cases, inl,
  inr,
}
use drafter.Errors.{GoError, nil, join, failed}
use drafter.Script.{Oracle}
use drafter.Peer.{
  PeerCall, Peer, background_capacity, offer_err, start_peer, close_dg, close_runtime, close_peer,
  close_rest, resume, runtime_close, close_all, answer, asked, wait_for_completion, wait_for_ready,
}
use drafter.Peer.Groups.{returned_same}
use drafter.Peer.Operations.{
  VmCallback, suspend, flush_data, Operation, closes, closes_runtime, resumes, takes_err,
  migrates_from, transfers, migrates_to, reports, run_operation, migrate_from, monitor,
  run_callback, run_callbacks, migrate_to, Lives, started, goes_on, take_err,
}

-- The error of the device group, or nil where there is none.
abbrev group_error : Oracle PeerCall → Peer → Option ℕ → GoError
group_error reply peer none = nil
group_error reply peer (some g) =
    answer reply (close_all g) (asked reply (runtime_close peer.dg) peer)

-- How `Close` ends: by a panic where the runtime could not be closed and there is no logger; otherwise
-- with the error of the runtime joined with that of the device group, and no group left.
abbrev pub ClosedPeer : Oracle PeerCall → Peer → Outcome (GoError × Peer) → Type 0
ClosedPeer reply peer (panicked p) =
    (p ≡ nil_pointer)
    × (failed (answer reply (runtime_close peer.dg) peer) ≡ true)
    × (peer.log_set ≡ false)
ClosedPeer reply peer (returned (e, rest)) =
    ((failed (answer reply (runtime_close peer.dg) peer) && not peer.log_set) ≡ false)
    × (e ≡ join (answer reply (runtime_close peer.dg) peer) (group_error reply peer peer.dg))
    × (rest.dg ≡ none)
    × (rest.made ≡ peer.made)

-- `Close` panics exactly where the runtime cannot be closed and there is no logger. Otherwise it returns
-- the error of the runtime joined with that of the device group, and the peer has no group left.
pub close_peer-ClosedPeer :
    (reply : Oracle PeerCall) (peer : Peer) → ClosedPeer reply peer (close_peer reply peer)
unfolding close_peer close_rest close_dg
close_peer-ClosedPeer reply peer = elim (Option-cases peer.dg) [
  | inl gone ↦ ground (arith, gone)
  | inr (g, there) ↦ ground (arith, there)
]

-- The buffer of the channel holds no more than the channel can.
abbrev Fits : Peer → Type 0
Fits peer = length peer.background_err ≤ background_capacity

offer_err-Fits : (e : GoError) (peer : Peer) → Fits peer → Fits (offer_err e peer)
offer_err-Fits e peer h = ground (arith, length-append peer.background_err (e ∷ []))

take_err-le : (es : List GoError) → length (take_err es) ≤ length es
take_err-le [] = omega arith
take_err-le (e ∷ es) = omega arith

module _ (reply : Oracle PeerCall) where
  run_callbacks-quiet :
      (cs : List VmCallback) (peer : Peer)
      → (run_callbacks reply cs peer).background_err ≡ peer.background_err
  unfolding run_callbacks run_callback
  run_callbacks-quiet [] peer = refl
  run_callbacks-quiet (suspend ∷ cs) peer = run_callbacks-quiet cs _ ∙ ground arith
  run_callbacks-quiet (flush_data ∷ cs) peer = run_callbacks-quiet cs _ ∙ ground arith

  monitor-Fits :
      (on_completed : Bool) (g : ℕ) (peer : Peer)
      → Fits peer
      → Fits (monitor reply on_completed g peer)
  unfolding monitor
  monitor-Fits on_completed g peer h = ground (
    arith,
    length-append peer.background_err (answer reply (wait_for_completion g) peer ∷ []),
    length-append peer.background_err
        (answer reply (wait_for_ready g) (asked reply (wait_for_completion g) peer) ∷ []),
  )

  close_peer-quiet :
      (peer peer' : Peer)
      → run_operation reply closes peer ≡ returned peer'
      → peer'.background_err ≡ peer.background_err
  unfolding run_operation close_peer close_rest close_dg
  close_peer-quiet peer peer' e = elim (Option-cases peer.dg) [
    | inl gone ↦ ground (arith, gone, e)
    | inr (g, there) ↦ ground (arith, there, e)
  ]

  run_operation-Fits :
      (op : Operation) (peer peer' : Peer)
      → Fits peer
      → run_operation reply op peer ≡ returned peer'
      → Fits peer'
  unfolding run_operation close_runtime resume migrate_from migrate_to
  run_operation-Fits closes peer peer' v e =
      subst (λ es. length es ≤ background_capacity) (sym (close_peer-quiet peer peer' e)) v
  run_operation-Fits closes_runtime peer peer' v e = ground (arith, v, e)
  run_operation-Fits resumes peer peer' v e = ground (arith, v, e)
  run_operation-Fits takes_err peer peer' v e =
      subst Fits (returned_same e) (omega (arith, take_err-le peer.background_err, v))
  run_operation-Fits (migrates_from readers writers on_requested on_completed) peer peer' v e =
      ground (arith, v, e)
  run_operation-Fits (transfers on_completed g) peer peer' v e =
      ground (arith, monitor-Fits on_completed g peer v, v, e)
  run_operation-Fits (migrates_to cs) peer peer' v e = subst Fits (returned_same e) (
      subst (λ es. length es ≤ background_capacity)
        (sym (run_callbacks-quiet cs (record peer { migrating_to = 1 }))) v)
  run_operation-Fits (reports err) peer peer' v e =
      subst Fits (returned_same e) (offer_err-Fits err peer v)

  Lives-Fits : {start peer : Peer} → Fits start → Lives reply start peer → Fits peer
  Lives-Fits v started = v
  Lives-Fits v (goes_on op life e) = run_operation-Fits op _ _ (Lives-Fits v life) e

  start_peer-Fits :
      (log_set met_set : Bool) (peer : Peer)
      → (start_peer reply log_set met_set).1 ≡ some peer
      → Fits peer
  unfolding start_peer
  start_peer-Fits log_set met_set peer e = ground arith

  -- In the life of a peer, by any sequence of its operations, the channel of background errors never
  -- holds more than its twelve.
  pub background_err_bounded :
      (log_set met_set : Bool) {start peer : Peer}
      → (start_peer reply log_set met_set).1 ≡ some start
      → Lives reply start peer
      → length peer.background_err ≤ background_capacity
  background_err_bounded log_set met_set e life =
      Lives-Fits (start_peer-Fits log_set met_set _ e) life
