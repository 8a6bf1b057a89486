-- ===== src/Peer/Examples.antt =====
-- A peer with and without a logger, on a runtime that obliges and on one that cannot be closed.
use drafter.Base.{Bool, true, false, [], ◌∷◌, none, some, ◌≡◌, refl, panicked, nil_pointer}
use drafter.Errors.{nil, Cause}
use drafter.Script.{Oracle}
use drafter.Peer.{
  PeerCall, Peer, runtime_close, runtime_start, close_all, start_peer, close_peer, close_rest,
  close_dg,
}
use drafter.Peer.Operations.{
  closes, migrates_from, run_operation, migrate_from, Lives, started, goes_on,
}
use drafter.Peer.Groups.{Once, groups_closed-Once}
use drafter.Peer.Errors.{ClosedPeer, close_peer-ClosedPeer}

abbrev obliging : Oracle PeerCall
obliging log c = nil

abbrev stuck : Oracle PeerCall
stuck log (runtime_close dg) = Cause.external 1 ∷ []
stuck log c = nil

abbrev new_peer : Bool → Peer
new_peer log_set = record {
  log_set = log_set;
  met_set = false;
  dg = none;
  made = 0;
  monitored = [];
  background_err = [];
  flush_data_ops = 0;
  vm_running = 0;
  migrating_to = 0;
  migrating_from = 0;
  migrating_from_wait_ready = 0;
  calls = (runtime_start, nil) ∷ [];
}

-- All devices are local, and the peer is closed.
abbrev closed_peer : Peer
closed_peer = record (new_peer true) {
  made = 1;
  calls =
      (close_all 0, nil)
      ∷ (runtime_close (some 0), nil)
      ∷ (PeerCall.migrate_from_fs, nil)
      ∷ (runtime_start, nil)
      ∷ [];
}

life : Lives obliging (new_peer true) closed_peer
unfolding run_operation migrate_from close_peer close_rest close_dg
life = goes_on closes (goes_on (migrates_from 0 0 false false) started refl) refl

groups_closed-Once_example : Once 0 closed_peer
unfolding start_peer
groups_closed-Once_example = groups_closed-Once obliging 0 true false refl life

close_peer-ClosedPeer_example : ClosedPeer stuck (new_peer true) (close_peer stuck (new_peer true))
close_peer-ClosedPeer_example = close_peer-ClosedPeer stuck (new_peer true)

-- An error of the runtime is logged to a logger that is not there.
no_logger : close_peer stuck (new_peer false) ≡ panicked nil_pointer
unfolding close_peer
no_logger = refl

-- A second `MigrateFrom` replaces the device group of the first, which is then never closed.
replaced_group : Lives obliging (new_peer true) (record closed_peer {
  made = 2;
  calls =
      (close_all 1, nil)
      ∷ (runtime_close (some 1), nil)
      ∷ (PeerCall.migrate_from_fs, nil)
      ∷ (PeerCall.migrate_from_fs, nil)
      ∷ (runtime_start, nil)
      ∷ [];
})
unfolding run_operation migrate_from close_peer close_rest close_dg
replaced_group =
    goes_on closes
      (goes_on (migrates_from 0 0 false false)
        (goes_on (migrates_from 0 0 false false) started refl) refl)
      refl
