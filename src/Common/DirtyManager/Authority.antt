-- ===== src/Common/DirtyManager/Authority.antt =====
-- Authority over the devices: pkg/common/dirty_manager.go under every interleaving of its handlers.
use drafter.Base.{
  ℕ, true, false, [], ◌∷◌, String, none, Outcome, Returns, subst, sym, returned, Returns-returned,
  ◌≡◌, refl, arith, All, All-map, Option-cases, Bool-cases, ◌⊎◌, inl, inr, count,
}
use drafter.Base.Dict.{Dict, lookup, Distinct}
use drafter.Common.VmState.{Callbacks, VmStateMgr}
use drafter.Common.VmState.Laws.{IsConsistent, transfers}
use drafter.Common.DirtyManager.{
  DeviceStatus, DirtyManager, new_dirty_manager, run_segment, Segment, pre_get, post_get,
  migrate_enter, migrate_cycle, migrate_suspend, pre_get_dirty, post_get_dirty, post_migrate_enter,
  post_migrate_cycle,
}
use drafter.Common.DirtyManager.Readiness.{IsSound, is_ready}
use drafter.Common.DirtyManager.Invariant.{Knows, KnowsAll, run_segment-IsSound}

-- The states that the segments of the devices' handlers lead to, in whatever order they run.
pub data Reach (cb : Callbacks) (start : DirtyManager) : DirtyManager → Type 0 where
  here : Reach cb start start
  next :
      {dm dm' : DirtyManager} (seg : Segment)
      → Reach cb start dm
      → run_segment cb seg dm ≡ returned dm'
      → Reach cb start dm'

-- A segment for a device that the manager does not have panics or leaves all as it was.
module _ (cb : Callbacks) (name : String) {dm dm' : DirtyManager}
    (missing : lookup name dm.devices ≡ none) where
  pre_get-missing : run_segment cb (pre_get name) dm ≡ returned dm' → dm' ≡ dm
  unfolding run_segment pre_get_dirty
  pre_get-missing e = ground (arith, missing)

  post_get-missing :
      (blocks : ℕ) → run_segment cb (post_get name blocks) dm ≡ returned dm' → dm' ≡ dm
  unfolding run_segment post_get_dirty
  post_get-missing blocks e = ground (arith, missing)

  migrate_enter-missing : run_segment cb (migrate_enter name) dm ≡ returned dm' → dm' ≡ dm
  unfolding run_segment post_migrate_enter
  migrate_enter-missing e = ground (arith, missing)

  migrate_cycle-missing :
      (blocks : ℕ) → run_segment cb (migrate_cycle name blocks) dm ≡ returned dm' → dm' ≡ dm
  unfolding run_segment post_migrate_cycle
  migrate_cycle-missing blocks e = ground (arith, missing)

-- Either way a segment that returns keeps the invariant.
by_device :
    (name : String) {dm dm' : DirtyManager} (m : Outcome DirtyManager)
    → IsSound dm
    → m ≡ returned dm'
    → (lookup name dm.devices ≡ none → dm' ≡ dm)
    → (Knows dm name → Returns IsSound m)
    → IsSound dm'
by_device name {dm} m v e absent known = elim (Option-cases (lookup name dm.devices)) [
  | inl missing ↦ subst IsSound (sym (absent missing)) v
  | inr found ↦ Returns-returned IsSound m (known found) e
]

run_segment-keeps :
    (cb : Callbacks) (seg : Segment) {dm dm' : DirtyManager}
    → IsSound dm
    → run_segment cb seg dm ≡ returned dm'
    → IsSound dm'
run_segment-keeps cb (pre_get name) v e =
    by_device name _ v e (λ m. pre_get-missing cb name m e) (run_segment-IsSound cb _ _ v)
run_segment-keeps cb (post_get name blocks) v e =
    by_device name _ v e (λ m. post_get-missing cb name m blocks e) (run_segment-IsSound cb _ _ v)
run_segment-keeps cb (migrate_enter name) v e =
    by_device name _ v e (λ m. migrate_enter-missing cb name m e) (run_segment-IsSound cb _ _ v)
run_segment-keeps cb (migrate_cycle name blocks) v e =
    by_device name _ v e (λ m. migrate_cycle-missing cb name m blocks e)
      (run_segment-IsSound cb _ _ v)
run_segment-keeps cb migrate_suspend v e =
    Returns-returned IsSound _ (run_segment-IsSound cb migrate_suspend _ v tt) e

Reach-IsSound :
    (cb : Callbacks) {start dm : DirtyManager} → IsSound start → Reach cb start dm → IsSound dm
Reach-IsSound cb v here = v
Reach-IsSound cb v (next seg r e) = run_segment-keeps cb seg (Reach-IsSound cb v r) e

-- What `MigrateToPipe` starts with: no authority was transferred, and no device has a flag set.
pub record IsFresh (sm : VmStateMgr) (devices : Dict DeviceStatus) : Type 0 where
  pub consistent : IsConsistent sm
  pub untransferred : transfers sm ≡ 0
  pub distinct : Distinct devices
  pub unset :
      All
        (λ e.
          (e.1.ready ≡ false)
          × (e.1.ready_and_sent_dirty ≡ false)
          × (e.1.suspended_at_pre_get_dirty ≡ false))
        devices

count-unready :
    (ds : Dict DeviceStatus)
    → All
        (λ e.
          (e.1.ready ≡ false)
          × (e.1.ready_and_sent_dirty ≡ false)
          × (e.1.suspended_at_pre_get_dirty ≡ false))
        ds
    → 0 ≡ count (λ e. is_ready e.1) ds
count-unready [] h = refl
count-unready (e ∷ ds) h = ground (arith, count-unready ds h.1)

new_dirty_manager-IsSound :
    (sm : VmStateMgr) (devices : Dict DeviceStatus)
    → IsFresh sm devices
    → IsSound (new_dirty_manager sm devices)
unfolding new_dirty_manager
new_dirty_manager-IsSound sm devices f = record {
  consistent = f.consistent;
  closed = refl;
  distinct = f.distinct;
  counted = count-unready devices f.unset;
  sound = All-map _ _ (λ e h. ground arith) devices f.unset;
  transferred = f.untransferred;
  permitted = inl refl;
}

module _ (cb : Callbacks) (sm : VmStateMgr) (devices : Dict DeviceStatus) (f : IsFresh sm devices)
    {dm : DirtyManager} (r : Reach cb (new_dirty_manager sm devices) dm) where
  reached : IsSound dm
  reached = Reach-IsSound cb (new_dirty_manager-IsSound sm devices f) r

  -- Whatever the callbacks return and however the handlers interleave, from fresh devices: either
  -- authority was not transferred; or it was transferred once, the VM is suspended, its suspension
  -- is recorded as complete, and every device is ready and has sent its dirty blocks.
  pub authority_transfer_once :
      (transfers dm.vm_state ≡ 0)
      ⊎ ((transfers dm.vm_state ≡ 1)
          × (dm.vm_state.suspended ≡ true)
          × (dm.suspend_completed ≡ true)
          × All (λ e. (e.1.ready ≡ true) × (e.1.ready_and_sent_dirty ≡ true)) dm.devices)
  authority_transfer_once = elim (Bool-cases dm.authority_transfer_completed) [
    | inr early ↦ inl (ground (arith, reached.transferred))
    | inl done ↦ inr (
      ground (arith, reached.transferred),
      ground (arith, reached.permitted, done),
      ground (arith, reached.permitted, done),
      All-map _ _ (λ e h. ground arith) dm.devices reached.sound,
    )
  ]

  -- However the handlers interleave, a device that is marked to have sent its dirty blocks is so
  -- marked on a suspended VM, and the VM's suspension was tried only when every device was ready.
  pub suspended_when_sent :
      All
        (λ e.
          ((e.1.ready_and_sent_dirty ≡ false) ⊎ (dm.vm_state.suspended ≡ true))
          × ((dm.suspend_completed ≡ false) ⊎ (e.1.ready ≡ true)))
        dm.devices
  suspended_when_sent = All-map _ _ (λ e h. ground arith) dm.devices reached.sound

  -- In every state that the handlers reach, a segment for a known device returns without a panic.
  pub reached_no_panic : (seg : Segment) → KnowsAll dm seg → Returns IsSound (run_segment cb seg dm)
  reached_no_panic seg k = run_segment-IsSound cb seg dm reached k
