-- ===== src/Peer.antt =====
-- pkg/peer/peer.go. The runtime, the migrations of pkg/common/migrations.go and the device groups of
-- Silo are calls whose results are an argument. A device group is named by its number, in the order in
-- which they were made. Prometheus gauges repeat the counters and are left out, as are times.
pub mod Operations
pub mod Groups
pub mod Errors
pub mod Counters
mod Examples
use drafter.Base.{
  ℕ, ◌+◌, Bool, true, false, not, ◌&&◌, List, [], ◌∷◌, ◌++◌, Option, none, some, if◌then◌else◌, ltb,
  length, Outcome, returned, panicked, Panic,
}
use drafter.Errors.{GoError, nil, join, failed}
use drafter.Script.{Log, Oracle}

pub data PeerCall : Type 0 where
  runtime_start migrate_from_pipe migrate_from_fs remove_all_id : PeerCall
  on_local_all_devices_requested on_completion : PeerCall
  -- with the device group that the peer has at that time, or none
  runtime_close runtime_resume runtime_suspend runtime_flush_data migrate_to_pipe :
      Option ℕ → PeerCall
  close_all wait_for_completion wait_for_ready : ℕ → PeerCall

pub record Peer : Type 0 where
  -- whether the logger, and the metrics of Silo, are set
  pub log_set : Bool
  pub met_set : Bool
  pub dg : Option ℕ
  -- how many device groups were made
  pub made : ℕ
  -- the groups whose transfer a goroutine waits for
  pub monitored : List ℕ
  -- the buffer of the channel, oldest first
  pub background_err : List GoError
  pub flush_data_ops : ℕ
  pub vm_running : ℕ
  pub migrating_to : ℕ
  pub migrating_from : ℕ
  pub migrating_from_wait_ready : ℕ
  pub calls : Log PeerCall

abbrev pub background_capacity : ℕ
background_capacity = 12

-- `select { case peer.backgroundErr <- err: default: }`
abbrev pub offer_err : GoError → Peer → Peer
offer_err e peer =
    if ltb (length peer.background_err) background_capacity
    then record peer { background_err = peer.background_err ++ e ∷ [] }
    else peer

-- `setDG`, of a group that was just made.
abbrev pub set_dg : Peer → Peer
set_dg peer = record peer { dg = some peer.made; made = peer.made + 1 }

module _ (reply : Oracle PeerCall) where
  abbrev pub answer : PeerCall → Peer → GoError
  answer c peer = reply peer.calls c

  abbrev pub asked : PeerCall → Peer → Peer
  asked c peer = record peer { calls = (c, reply peer.calls c) ∷ peer.calls }

  -- A hook, if it is set.
  abbrev pub hook : Bool → PeerCall → Peer → Peer
  hook set c peer = if set then asked c peer else peer

  -- `StartPeer`
  unfoldable pub start_peer : Bool → Bool → GoError × Option Peer
  start_peer log_set met_set =
      let e = reply [] runtime_start in
      let peer : Peer = record {
        log_set = log_set;
        met_set = met_set;
        dg = none;
        made = 0;
        monitored = [];
        background_err = [];
        flush_data_ops = 0;
        vm_running = 0;
        migrating_to = 0;
        migrating_from = 0;
        migrating_from_wait_ready = 0;
        calls = (runtime_start, e) ∷ [];
      } in
      if failed e then (e, none) else (nil, some peer)

  -- `closeDG`
  unfoldable pub close_dg : Peer → GoError × Peer
  close_dg peer = elim peer.dg [
    | none ↦ (nil, peer)
    | some g ↦ (answer (close_all g) peer, record (asked (close_all g) peer) { dg = none })
  ]

  -- `CloseRuntime`, which logs an error without a look at whether there is a logger.
  unfoldable pub close_runtime : Peer → Outcome (GoError × Peer)
  close_runtime peer =
      let e = answer (runtime_close peer.dg) peer in
      if failed e && not peer.log_set
      then panicked Panic.nil_pointer
      else returned (e, asked (runtime_close peer.dg) peer)

  -- `Close` once the runtime is closed.
  unfoldable pub close_rest : GoError → Peer → GoError × Peer
  unfolding close_dg
  close_rest e peer =
      let (e', closed) = close_dg peer in (join e e', hook closed.met_set remove_all_id closed)

  -- `Close`
  unfoldable pub close_peer : Peer → Outcome (GoError × Peer)
  unfolding close_rest close_runtime
  close_peer peer =
      let e = answer (runtime_close peer.dg) peer in
      if failed e && not peer.log_set
      then panicked Panic.nil_pointer
      else returned (close_rest e (asked (runtime_close peer.dg) peer))

  -- `Resume`
  unfoldable pub resume : Peer → GoError × Peer
  resume peer =
      let e = answer (runtime_resume peer.dg) peer in
      let peer' = asked (runtime_resume peer.dg) peer in
      if failed e then (e, peer') else (nil, record peer' { vm_running = 1 })
