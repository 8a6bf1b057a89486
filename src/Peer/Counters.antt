-- ===== src/Peer/Counters.antt =====
-- The counters that `MigrateTo` keeps.
use drafter.Base.{
  ℕ, ◌+◌, ◌≤◌, Bool, true, false, List, [], ◌∷◌, ◌≡◌, refl, arith, if◌then◌else◌, ltb,
}
use drafter.Script.{Oracle}
use drafter.Script.Laws.{succeeded}
use drafter.Peer.{PeerCall, Peer, runtime_suspend, runtime_flush_data}
use drafter.Peer.Operations.{
  VmCallback, suspend, flush_data, run_callback, run_callbacks, migrate_to,
}

abbrev pub is_suspend : PeerCall → Bool
is_suspend (runtime_suspend dg) = true
is_suspend c = false

abbrev pub is_flush : PeerCall → Bool
is_flush (runtime_flush_data dg) = true
is_flush c = false

-- The suspends, and the flushes, of the runtime that have returned nil.
abbrev pub suspends : Peer → ℕ
suspends peer = succeeded is_suspend peer.calls

abbrev pub flushes : Peer → ℕ
flushes peer = succeeded is_flush peer.calls

module _ (reply : Oracle PeerCall) where
  -- What the callbacks do to the counters, by the calls that have returned nil.
  record Counted (peer peer' : Peer) : Type 0 where
    pub grows : suspends peer ≤ suspends peer'
    pub flushed : peer'.flush_data_ops + flushes peer ≡ peer.flush_data_ops + flushes peer'
    pub running :
        peer'.vm_running ≡ (if ltb (suspends peer) (suspends peer') then 0 else peer.vm_running)

  run_callbacks-Counted :
      (cs : List VmCallback) (peer : Peer) → Counted peer (run_callbacks reply cs peer)
  unfolding run_callbacks run_callback
  run_callbacks-Counted [] peer = ground arith
  run_callbacks-Counted (suspend ∷ cs) peer =
      ground (arith, run_callbacks-Counted cs (run_callback reply suspend peer))
  run_callbacks-Counted (flush_data ∷ cs) peer =
      ground (arith, run_callbacks-Counted cs (run_callback reply flush_data peer))

  -- Whichever callbacks `MigrateToPipe` makes and whatever they return, after `MigrateTo` the peer is not
  -- migrating any more, has counted the flushes that returned nil, and has its VM as not running if a
  -- suspend returned nil, and as it was otherwise.
  pub migrate_to_counts :
      (cs : List VmCallback) (peer : Peer)
      → let peer' = (migrate_to reply cs peer).1 in
        (peer'.migrating_to ≡ 0)
        × (peer'.flush_data_ops + flushes peer ≡ peer.flush_data_ops + flushes peer')
        × (peer'.vm_running ≡ (if ltb (suspends peer) (suspends peer') then 0 else peer.vm_running))
  unfolding migrate_to
  migrate_to_counts cs peer =
      let c = run_callbacks-Counted cs (record peer { migrating_to = 1 }) in
      (refl, ground (arith, c.flushed), ground (arith, c.running))
