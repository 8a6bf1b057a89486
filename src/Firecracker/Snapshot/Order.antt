-- ===== src/Firecracker/Snapshot/Order.antt =====
-- What `CreateSnapshot` of pkg/runtimes/firecracker/snapshotter.go has done when it returns, and in which
-- order.
use mathlib.Core.List.{append_assoc}
use drafter.Base.{
  ℕ, Bool, true, false, List, [], ◌∷◌, ◌++◌, map, reverse, String, if◌then◌else◌, ◌≡◌, refl, ap,
  ◌∙◌, subst, ltb, length, Bool-cases, inl, inr, is_empty,
}
use drafter.Base.Text.{codes, trim_space}
use drafter.Errors.{failed}
use drafter.Script.{Oracle}
use drafter.Action.{World}
use drafter.Action.Laws.{
  milestones, Reaches, Reaches-Quiet, Reaches-done, Reaches-set_state, Reaches-by_state,
  Reaches-seq, Reaches-skip, Reaches-under, Reaches-on_failure, Reaches-deferring, Quiet-seq,
  Reaches-doing, Quiet-dropped, Reaches-each,
}
use drafter.Common.Package.{Content, FileSystem, read_file}
use drafter.Firecracker.Machine.{
  VmConfiguration, NetworkConfiguration, ApiCall, ApiStep, start_vm_steps, drive_steps,
  create_snapshot_steps, io_engine_sync, io_engine_async, put_boot_source, put_drive,
  put_machine_configuration, put_vsock, put_network_interface, start_instance, pause_vm,
}
use drafter.Firecracker.Snapshot.{
  SnapshotDevice, SnapshotCall, SnapshotAction, api_steps, start_machine, api, receive_and_close,
  wait_ready, get_remote, before_suspend, close_agent, by_call, server_error, vsock_name,
}
use drafter.Firecracker.Snapshot.Files.{
  copy_file, pad, padding_length, copy_device, copy_snapshot_files, create_final_snapshot,
}
use drafter.Firecracker.Snapshot.Create.{
  copy_inputs, disks, suspend_and_copy, run_vm, with_machine, create_snapshot, vsock_cid_guest,
}

-- The calls by which the machine and its guest are led; the calls on files, on the servers that are
-- opened, and those that are deferred are left out.
abbrev pub leads : SnapshotCall → Bool
leads start_machine = true
leads (api c) = true
leads receive_and_close = true
leads wait_ready = true
leads get_remote = true
leads before_suspend = true
leads (close_agent by_call) = true
leads server_error = true
leads c = false

abbrev Leads : SnapshotAction → List SnapshotCall → Type 0
Leads = Reaches leads

abbrev trace : List ApiStep → List SnapshotCall
trace steps = reverse (map (λ (s : ApiStep). api s.0) steps)

abbrev engine : Bool → String
engine is_sync = if is_sync then io_engine_sync else io_engine_async

module _ (devices : List SnapshotDevice) (is_sync : Bool) (vm : VmConfiguration)
    (net : NetworkConfiguration) where
  -- The calls by which a VM is configured and started, in order.
  abbrev pub start_calls : List SnapshotCall
  start_calls =
      api (put_boot_source "kernel" vm.boot_args)
        ∷ map (λ disk. api (put_drive disk (engine is_sync))) (disks devices)
      ++ api (put_machine_configuration vm.cpu_count vm.memory_size vm.cpu_template)
        ∷ api (put_vsock 3 "vsock.sock")
        ∷ api (put_network_interface net.interface_name net.mac)
        ∷ api start_instance
        ∷ []

module _ (reply : Oracle SnapshotCall) (cut : Content → Content) (vm_file : String → String)
    (written : FileSystem → FileSystem) where
  api_steps-Leads : (steps : List ApiStep) → Leads (api_steps reply steps) (trace steps)
  api_steps-Leads = Reaches-each leads reply api (λ c. refl)

  copy_file-Leads : (src dst : String) → Leads (copy_file reply cut src dst) []
  unfolding copy_file
  copy_file-Leads src dst = Reaches-seq leads (Reaches-doing leads reply _ _ _ _) (
      Reaches-seq leads (Reaches-on_failure leads _ (Reaches-doing leads reply _ _ _ _)) (
        Reaches-seq leads
          (Reaches-on_failure leads _ (
            Reaches-deferring leads (Quiet-dropped leads reply _ refl)
              (Reaches-doing leads reply _ _ _ _)))
          (Reaches-seq leads (Reaches-doing leads reply _ _ _ _)
            (Reaches-doing leads reply _ _ _ _))))

  pad-Leads : (path : String) (n : ℕ) → Leads (pad reply cut path n) []
  unfolding pad
  pad-Leads path n = elim (Bool-cases (ltb 0 n)) [
    | inl more ↦ rw more (Reaches-on_failure leads _ (Reaches-doing leads reply _ _ _ _))
    | inr none_due ↦ rw none_due (Reaches-done leads)
  ]

  copy_device-Leads : (d : SnapshotDevice) → Leads (copy_device reply cut vm_file d) []
  unfolding copy_device
  copy_device-Leads d = Reaches-seq leads (Reaches-doing leads reply _ _ _ _) (
      Reaches-seq leads (Reaches-doing leads reply _ _ _ _) (
        Reaches-seq leads (Reaches-on_failure leads _ (Reaches-doing leads reply _ _ _ _)) (
          Reaches-seq leads
            (Reaches-on_failure leads _ (
              Reaches-deferring leads (Quiet-dropped leads reply _ refl)
                (Reaches-doing leads reply _ _ _ _)))
            (Reaches-seq leads
              (Reaches-by_state leads
                (λ fs. pad-Leads d.output (padding_length (length (read_file d.output fs)))))
              (Reaches-doing leads reply _ _ _ _)))))

  copy_snapshot_files-Leads :
      (ds : List SnapshotDevice) → Leads (copy_snapshot_files reply cut vm_file ds) []
  unfolding copy_snapshot_files
  copy_snapshot_files-Leads [] = Reaches-done leads
  copy_snapshot_files-Leads (d ∷ ds) =
      Reaches-skip leads (copy_device-Leads d) (copy_snapshot_files-Leads ds)

  copy_inputs-Leads :
      (ds : List SnapshotDevice) → Leads (copy_inputs reply cut vm_file written ds) []
  unfolding copy_inputs
  copy_inputs-Leads [] = Reaches-done leads
  copy_inputs-Leads (d ∷ ds) = elim (Bool-cases (is_empty (trim_space (codes d.input)))) [
    | inl blank ↦ rw blank (Reaches-skip leads (Reaches-done leads) (copy_inputs-Leads ds))
    | inr given ↦ rw given (
        Reaches-skip leads (Reaches-under leads _ (copy_file-Leads d.input (vm_file d.name)))
          (copy_inputs-Leads ds))
  ]

  create_final_snapshot-Leads :
      (port : ℕ)
      → Leads
          (create_final_snapshot reply cut vm_file written port)
          (api (ApiCall.create_snapshot "memory" "state" "Full") ∷ api pause_vm ∷ [])
  unfolding create_final_snapshot create_snapshot_steps
  create_final_snapshot-Leads port = Reaches-seq leads (Reaches-under leads _ (api_steps-Leads _)) (
      Reaches-seq leads (Reaches-set_state leads written) (
        Reaches-seq leads (Reaches-doing leads reply _ _ _ _) (
          Reaches-seq leads (Reaches-doing leads reply _ _ _ _) (
            Reaches-seq leads (Reaches-on_failure leads _ (Reaches-doing leads reply _ _ _ _)) (
              Reaches-seq leads (Reaches-doing leads reply _ _ _ _)
                (Reaches-doing leads reply _ _ _ _))))))

  -- What the guest and its machine have been led through behind the start, the last first.
  abbrev suspended : List SnapshotCall
  suspended =
      server_error
      ∷ api (ApiCall.create_snapshot "memory" "state" "Full")
      ∷ api pause_vm
      ∷ close_agent by_call
      ∷ before_suspend
      ∷ get_remote
      ∷ wait_ready
      ∷ receive_and_close
      ∷ []

  suspend_and_copy-Leads :
      (ds : List SnapshotDevice) (port : ℕ)
      → Leads (suspend_and_copy reply cut vm_file written ds port) suspended
  unfolding suspend_and_copy
  suspend_and_copy-Leads ds port = Reaches-seq leads (Reaches-doing leads reply _ _ _ _) (
      Reaches-seq leads (Reaches-Quiet leads (Quiet-dropped leads reply _ refl)) (
        Reaches-seq leads (Reaches-doing leads reply _ _ _ _) (
          Reaches-seq leads (Reaches-doing leads reply _ _ _ _) (
            Reaches-seq leads (Reaches-doing leads reply _ _ _ _) (
              Reaches-seq leads (Reaches-doing leads reply _ _ _ _) (
                Reaches-seq leads (create_final_snapshot-Leads port) (
                  Reaches-seq leads (copy_snapshot_files-Leads ds)
                    (Reaches-doing leads reply _ _ _ _))))))))

  module _ (devices : List SnapshotDevice) (is_sync : Bool) (vm : VmConfiguration)
      (net : NetworkConfiguration) (port : ℕ) where
    drive_calls :
        (ds : List String) (rest : List ApiStep)
        → map (λ (s : ApiStep). api s.0) (drive_steps ds (engine is_sync) ++ rest)
          ≡ map (λ disk. api (put_drive disk (engine is_sync))) ds
            ++ map (λ (s : ApiStep). api s.0) rest
    unfolding drive_steps
    drive_calls [] rest = refl
    drive_calls (d ∷ ds) rest =
        ap (λ l. api (put_drive d (engine is_sync)) ∷ l) (drive_calls ds rest)

    abbrev start_steps : List ApiStep
    start_steps =
        start_vm_steps "kernel" (disks devices) (engine is_sync) vm net vsock_name vsock_cid_guest

    start_steps-trace : trace start_steps ≡ reverse (start_calls devices is_sync vm net)
    unfolding start_vm_steps
    start_steps-trace =
        ap (λ l. reverse (api (put_boot_source "kernel" vm.boot_args) ∷ l))
          (drive_calls (disks devices) _)

    run_vm-Leads :
        Leads
          (run_vm reply cut vm_file written devices is_sync vm net port)
          (suspended ++ reverse (start_calls devices is_sync vm net))
    unfolding run_vm
    run_vm-Leads = Reaches-skip leads (copy_inputs-Leads devices) (
        Reaches-seq leads
          (Reaches-under leads _ (
            subst (Leads (api_steps reply start_steps)) start_steps-trace
              (api_steps-Leads start_steps)))
          (Reaches-deferring leads (Quiet-dropped leads reply _ refl)
            (suspend_and_copy-Leads devices port)))

    with_machine-Leads :
        Leads
          (with_machine reply cut vm_file written devices is_sync vm net port)
          (suspended ++ reverse (start_calls devices is_sync vm net))
    unfolding with_machine
    with_machine-Leads = Reaches-skip leads (Reaches-doing leads reply _ _ _ _) (
        Reaches-skip leads (Reaches-doing leads reply _ _ _ _) (
          Reaches-deferring leads (Quiet-dropped leads reply _ refl) (
            Reaches-skip leads (Reaches-doing leads reply _ _ _ _) (
              Reaches-skip leads (Reaches-doing leads reply _ _ _ _)
                (Reaches-deferring leads (Quiet-dropped leads reply _ refl) run_vm-Leads)))))

    create_snapshot-Leads :
        Leads
          (create_snapshot reply cut vm_file written devices is_sync vm net port)
          ((suspended ++ reverse (start_calls devices is_sync vm net)) ++ start_machine ∷ [])
    unfolding create_snapshot
    create_snapshot-Leads = Reaches-skip leads (Reaches-doing leads reply _ _ _ _) (
        Reaches-seq leads (Reaches-doing leads reply _ _ _ _) (
          Reaches-deferring leads
            (Quiet-seq leads (Quiet-dropped leads reply _ refl) (Quiet-dropped leads reply _ refl))
            with_machine-Leads))

    -- If CreateSnapshot returns nil, then of the calls by which a machine and its guest are led exactly
    -- these have succeeded, in this order: the machine is started, configured with the disks and started
    -- as a VM; the guest has reported, the caller is ready, and the guest has prepared its suspension;
    -- its connection is closed; and only then is the VM paused and its snapshot made. At the end the
    -- machine had reported no error.
    pub create_snapshot-order :
        (w : World SnapshotCall FileSystem)
        → failed (create_snapshot reply cut vm_file written devices is_sync vm net port w).0 ≡ false
        → milestones leads
            (create_snapshot reply cut vm_file written devices is_sync vm net port w).1.calls
          ≡ server_error
              ∷ api (ApiCall.create_snapshot "memory" "state" "Full")
              ∷ api pause_vm
              ∷ close_agent by_call
              ∷ before_suspend
              ∷ get_remote
              ∷ wait_ready
              ∷ receive_and_close
              ∷ reverse (start_calls devices is_sync vm net)
            ++ start_machine ∷ milestones leads w.calls
    create_snapshot-order w h =
        create_snapshot-Leads.reached w h
        ∙ append_assoc (suspended ++ reverse (start_calls devices is_sync vm net))
            (start_machine ∷ []) (milestones leads w.calls)
