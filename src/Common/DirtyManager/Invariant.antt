-- ===== src/Common/DirtyManager/Invariant.antt =====
-- The invariant of pkg/common/dirty_manager.go through each of its handlers.
use drafter.Base.{
  inl, inr, ℕ, true, false, String, some, Returns, Returns-bind, ◌==◌, ◌≡◌, refl, arith, All-map,
  All-both, Bool-cases, inl, inr, sym, ◌∙◌, length, length,
}
use drafter.Base.Dict.{lookup, modify, contains}
use drafter.Base.Dict.Laws.{All-lookup, All-count, lookup-modify_self}
use drafter.Errors.{GoError}
use drafter.Common.VmState.{
  Callbacks, VmStateMgr, authority_transfer, msync_func, log_call, suspend_and_msync,
}
use drafter.Common.VmState.Laws.{Attempted, suspend_and_msync-Attempted}
use drafter.Common.DirtyManager.{
  DeviceStatus, DirtyManager, mark_ready_device_sent_dirty, transfer_authority, all_sent,
  note_suspended, pre_get_dirty, pre_get_dirty_of, post_get_dirty, post_get_dirty_of,
  post_migrate_enter, post_migrate_cycle, post_migrate_suspend, finish_suspension, count_cycle,
  run_segment, Segment, pre_get, post_get, migrate_enter, migrate_cycle, migrate_suspend,
}
use drafter.Common.DirtyManager.Readiness.{
  IsSound, is_ready, mark_device_ready-IsSound, write-IsSound, sent-IsSound, all_sent-All,
}

module _ (dm : DirtyManager) (v : IsSound dm) (s : dm.vm_state.suspended ≡ true) where
  -- The transfer, once everything was sent and the suspension is complete.
  transferred-IsSound :
      all_sent dm.devices ≡ true
      → dm.suspend_completed ≡ true
      → dm.authority_transfer_completed ≡ false
      → IsSound (record dm {
        authority_transfer_completed = true;
        vm_state = log_call authority_transfer dm.vm_state;
      })
  transferred-IsSound sent completed first = record {
    consistent = record { channel = v.consistent.channel };
    closed = v.closed;
    distinct = v.distinct;
    counted = v.counted;
    sound =
        All-map _ _ (λ e h. ground arith) dm.devices
          (All-both _ _ dm.devices v.sound (all_sent-All dm.devices sent));
    transferred = ground arith;
    permitted = inr (completed, s);
  }

  transfer_authority-IsSound :
      (cb : Callbacks) → all_sent dm.devices ≡ true → IsSound (transfer_authority cb dm).1
  unfolding transfer_authority
  transfer_authority-IsSound cb sent = ground (arith, transferred-IsSound sent)

module _ (cb : Callbacks) (name : String) (dm : DirtyManager) (v : IsSound dm) where
  pub mark_ready_device_sent_dirty-IsSound :
      dm.vm_state.suspended ≡ true → IsSound (mark_ready_device_sent_dirty cb name dm).1
  unfolding mark_ready_device_sent_dirty
  mark_ready_device_sent_dirty-IsSound s = elim (Bool-cases (contains name dm.ready_devices)) [
    | inr absent ↦ rw absent v
    | inl present ↦
        let sent = sent-IsSound dm v name s present in
        ground (arith, sent, transfer_authority-IsSound _ sent s cb)
  ]

  noted-IsSound :
      IsSound
        (record dm { devices = modify name (note_suspended dm.vm_state.suspended) dm.devices })
  noted-IsSound = write-IsSound dm v name _ (λ d. ground arith)

  module _ (di : DeviceStatus) (found : lookup name dm.devices ≡ some di) where
    synced-IsSound : IsSound (record dm {
      devices = modify name (note_suspended dm.vm_state.suspended) dm.devices;
      vm_state = log_call msync_func dm.vm_state;
    })
    synced-IsSound = record {
      consistent = record { channel = v.consistent.channel };
      closed = v.closed;
      distinct = noted-IsSound.distinct;
      counted = noted-IsSound.counted;
      sound = noted-IsSound.sound;
      transferred = v.transferred;
      permitted = v.permitted;
    }

    pre_get_dirty_of-IsSound : IsSound (pre_get_dirty_of cb name di dm).1
    unfolding pre_get_dirty_of
    pre_get_dirty_of-IsSound = ground (
      arith,
      noted-IsSound,
      synced-IsSound,
      mark_device_ready-IsSound _ noted-IsSound name (note_suspended dm.vm_state.suspended di)
          (lookup-modify_self name _ dm.devices found),
    )

    post_get_dirty_of-IsSound : (blocks : ℕ) → IsSound (post_get_dirty_of cb name blocks di dm).1
    unfolding post_get_dirty_of
    post_get_dirty_of-IsSound blocks =
        ground
          (arith, All-lookup _ name dm.devices v.sound found, mark_ready_device_sent_dirty-IsSound)

    post_migrate_enter-IsSound : Returns (λ r. IsSound r.1) (post_migrate_enter cb name dm)
    unfolding post_migrate_enter
    post_migrate_enter-IsSound = ground (
      arith,
      found,
      All-lookup _ name dm.devices v.sound found,
      mark_ready_device_sent_dirty-IsSound,
    )

    counted-IsSound :
        (blocks : ℕ) → IsSound (record dm { devices = modify name (count_cycle blocks) dm.devices })
    counted-IsSound blocks =
        write-IsSound dm v name (count_cycle blocks) (λ d. unfold count_cycle in ground arith)

    post_migrate_cycle-IsSound : (blocks : ℕ) → Returns IsSound (post_migrate_cycle name blocks dm)
    unfolding post_migrate_cycle
    post_migrate_cycle-IsSound blocks = ground (
      arith,
      found,
      counted-IsSound blocks,
      mark_device_ready-IsSound _ (counted-IsSound blocks) name (count_cycle blocks di)
          (lookup-modify_self name _ dm.devices found),
    )

    pre_get_dirty-IsSound : Returns (λ r. IsSound r.1) (pre_get_dirty cb name dm)
    unfolding pre_get_dirty
    pre_get_dirty-IsSound = ground (arith, found, pre_get_dirty_of-IsSound)

    post_get_dirty-IsSound :
        (blocks : ℕ) → Returns (λ r. IsSound r.1) (post_get_dirty cb name blocks dm)
    unfolding post_get_dirty
    post_get_dirty-IsSound blocks = ground (arith, found, post_get_dirty_of-IsSound blocks)

module _ (dm : DirtyManager) (v : IsSound dm) where
  -- The suspension, successful or not, once as many devices are ready as there are.
  finish_suspension-IsSound :
      length dm.ready_devices ≡ length dm.devices
      → dm.suspend_completed ≡ false
      → (r : GoError × VmStateMgr) → Attempted dm.vm_state r
      → Returns (λ q. IsSound q.1) (finish_suspension r dm)
  unfolding finish_suspension
  finish_suspension-IsSound full first (err, sm) a = rw (v.closed ∙ first) (record {
    consistent = a.consistent;
    closed = refl;
    distinct = v.distinct;
    counted = v.counted;
    sound =
        All-map _ _ (λ e h. ground arith) dm.devices
          (All-both _ _ dm.devices v.sound
            (All-count (λ e. is_ready e.1) dm.devices (sym v.counted ∙ full)));
    transferred = a.untransferred ∙ v.transferred;
    permitted = inl (ground (arith, v.permitted, first));
  })

  post_migrate_suspend-IsSound :
      (cb : Callbacks) → Returns (λ r. IsSound r.1) (post_migrate_suspend cb dm)
  unfolding post_migrate_suspend
  post_migrate_suspend-IsSound cb = elim (Bool-cases dm.suspend_completed) [
    | inl again ↦ ground arith
    | inr first ↦ elim (Bool-cases (length dm.ready_devices == length dm.devices)) [
      | inr missing ↦ ground arith
      | inl full ↦
          simp (full, first)
            (Returns-bind (Attempted dm.vm_state) _ (suspend_and_msync cb dm.vm_state) _
              (suspend_and_msync-Attempted cb dm.vm_state v.consistent)
              (finish_suspension-IsSound (ground arith) first))
    ]
  ]

-- The device that a segment names is one of the manager's.
abbrev pub Knows : DirtyManager → String → Type 0
Knows dm name = (di : DeviceStatus) × (lookup name dm.devices ≡ some di)

abbrev pub KnowsAll : DirtyManager → Segment → Type 0
KnowsAll dm (pre_get name) = Knows dm name
KnowsAll dm (post_get name blocks) = Knows dm name
KnowsAll dm (migrate_enter name) = Knows dm name
KnowsAll dm (migrate_cycle name blocks) = Knows dm name
KnowsAll dm migrate_suspend = Unit

-- A segment that names a device of the manager returns, without a panic, and keeps the invariant:
-- no channel is closed twice and no nil pointer is read.
pub run_segment-IsSound :
    (cb : Callbacks) (seg : Segment) (dm : DirtyManager)
    → IsSound dm
    → KnowsAll dm seg
    → Returns IsSound (run_segment cb seg dm)
unfolding run_segment
run_segment-IsSound cb (pre_get name) dm v (di, found) =
    Returns-bind _ _ (pre_get_dirty cb name dm) _ (pre_get_dirty-IsSound cb name dm v di found)
      (λ r h. h)
run_segment-IsSound cb (post_get name blocks) dm v (di, found) =
    Returns-bind _ _ (post_get_dirty cb name blocks dm) _
      (post_get_dirty-IsSound cb name dm v di found blocks) (λ r h. h)
run_segment-IsSound cb (migrate_enter name) dm v (di, found) =
    Returns-bind _ _ (post_migrate_enter cb name dm) _
      (post_migrate_enter-IsSound cb name dm v di found) (λ r h. h)
run_segment-IsSound cb (migrate_cycle name blocks) dm v (di, found) =
    post_migrate_cycle-IsSound cb name dm v di found blocks
run_segment-IsSound cb migrate_suspend dm v k =
    Returns-bind _ _ (post_migrate_suspend cb dm) _ (post_migrate_suspend-IsSound dm v cb)
      (λ r h. h)
