-- ===== src/Firecracker/Snapshot/Cleanup.antt =====
-- How `CreateSnapshot` of pkg/runtimes/firecracker/snapshotter.go leaves the machine that it has started.
use drafter.Base.{
  ℕ, Bool, true, false, List, ◌∷◌, String, ◌≡◌, refl, arith, ◌⊎◌, inl, inr, Bool-cases,
}
use drafter.Errors.{FirecrackerError, GoError, failed, failed-join}
use drafter.Script.{Log, Oracle}
use drafter.Action.{World, ◌⨾◌, doing, dropped, deferring}
use drafter.Action.Laws.{milestones}
use drafter.Common.Package.{Content, FileSystem}
use drafter.Firecracker.Machine.{because, VmConfiguration, NetworkConfiguration}
use drafter.Firecracker.Snapshot.{
  SnapshotDevice, SnapshotCall, make_chroot_base_dir, start_machine, close_machine, remove_vm_dir,
}
use drafter.Firecracker.Snapshot.Create.{create_snapshot}

abbrev pub starts : SnapshotCall → Bool
starts start_machine = true
starts c = false

module _ (reply : Oracle SnapshotCall) (cut : Content → Content) (vm_file : String → String)
    (written : FileSystem → FileSystem) (devices : List SnapshotDevice) (is_sync : Bool)
    (vm : VmConfiguration) (net : NetworkConfiguration) (port : ℕ) where
  -- Whatever its calls return: when CreateSnapshot returns, it has either started no machine, and returns
  -- an error; or its last two calls have closed the machine and removed the directory of the machine.
  pub create_snapshot-cleans :
      (w : World SnapshotCall FileSystem)
      → let r = create_snapshot reply cut vm_file written devices is_sync vm net port w in
        ((milestones starts r.1.calls ≡ milestones starts w.calls) × (failed r.0 ≡ true))
        ⊎ ((e e' : GoError) × (log : Log SnapshotCall) × (r.1.calls
              ≡ (remove_vm_dir, e) ∷ (close_machine, e') ∷ log))
  unfolding create_snapshot ◌⨾◌ doing dropped deferring
  create_snapshot-cleans w = elim (Bool-cases (failed (reply w.calls make_chroot_base_dir))) [
    | inl bad ↦ inl (
      ground (arith, bad),
      ground (
        arith,
        bad,
        failed-join (because FirecrackerError.could_not_create_chroot_base_directory)
            (reply w.calls make_chroot_base_dir),
      ),
    )
    | inr made ↦
        let log : Log SnapshotCall =
          (make_chroot_base_dir, reply w.calls make_chroot_base_dir) ∷ w.calls in
        elim (Bool-cases (failed (reply log start_machine))) [
          | inl bad ↦ inl (
            ground (arith, made, bad),
            ground (
              arith,
              made,
              bad,
              failed-join (because FirecrackerError.could_not_start_firecracker_server)
                  (reply log start_machine),
            ),
          )
          | inr started ↦ inr (rw (made, started) (_, _, _, refl))
        ]
  ]
