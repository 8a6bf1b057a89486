-- ===== src/Common/DirtyManager/Finality.antt =====
-- What a failed suspension leaves behind in pkg/common/dirty_manager.go.
use drafter.Base.{ℕ, true, false, String, returned, ◌≡◌, refl, ◌∙◌, arith, Option-cases, inl, inr}
use drafter.Base.Dict.{Dict, lookup}
use drafter.Common.VmState.{Callbacks, VmStateMgr}
use drafter.Common.VmState.Laws.{transfers}
use drafter.Common.DirtyManager.{
  DeviceStatus, DirtyManager, new_dirty_manager, run_segment, Segment, pre_get, post_get,
  migrate_enter, migrate_cycle, migrate_suspend, pre_get_dirty, post_get_dirty, post_migrate_enter,
  post_migrate_cycle, post_migrate_suspend, mark_device_ready, mark_ready_device_sent_dirty,
  transfer_authority,
}
use drafter.Common.DirtyManager.Authority.{Reach, here, next, IsFresh, authority_transfer_once}

-- The suspension was tried, and the VM is as it was then.
record Settled (dm dm' : DirtyManager) : Type 0 where
  pub completed : dm'.suspend_completed ≡ true
  pub unchanged : dm'.vm_state.suspended ≡ dm.vm_state.suspended

module _ (cb : Callbacks) {dm dm' : DirtyManager} (tried : dm.suspend_completed ≡ true) where
  pre_get-Settled :
      (name : String) → run_segment cb (pre_get name) dm ≡ returned dm' → Settled dm dm'
  unfolding run_segment pre_get_dirty mark_device_ready
  pre_get-Settled name e = elim (Option-cases (lookup name dm.devices)) [
    | inl missing ↦ ground (arith, missing)
    | inr (di, found) ↦ ground (arith, found)
  ]

  post_get-Settled :
      (name : String) (blocks : ℕ)
      → run_segment cb (post_get name blocks) dm ≡ returned dm'
      → Settled dm dm'
  unfolding run_segment post_get_dirty mark_ready_device_sent_dirty transfer_authority
  post_get-Settled name blocks e = elim (Option-cases (lookup name dm.devices)) [
    | inl missing ↦ ground (arith, missing)
    | inr (di, found) ↦ ground (arith, found)
  ]

  migrate_enter-Settled :
      (name : String) → run_segment cb (migrate_enter name) dm ≡ returned dm' → Settled dm dm'
  unfolding run_segment post_migrate_enter mark_ready_device_sent_dirty transfer_authority
  migrate_enter-Settled name e = elim (Option-cases (lookup name dm.devices)) [
    | inl missing ↦ ground (arith, missing)
    | inr (di, found) ↦ ground (arith, found)
  ]

  migrate_cycle-Settled :
      (name : String) (blocks : ℕ)
      → run_segment cb (migrate_cycle name blocks) dm ≡ returned dm'
      → Settled dm dm'
  unfolding run_segment post_migrate_cycle mark_device_ready
  migrate_cycle-Settled name blocks e = elim (Option-cases (lookup name dm.devices)) [
    | inl missing ↦ ground (arith, missing)
    | inr (di, found) ↦ ground (arith, found)
  ]

  migrate_suspend-Settled : run_segment cb migrate_suspend dm ≡ returned dm' → Settled dm dm'
  unfolding run_segment post_migrate_suspend
  migrate_suspend-Settled e = ground arith

run_segment-Settled :
    (cb : Callbacks) (seg : Segment) {dm dm' : DirtyManager}
    → dm.suspend_completed ≡ true
    → run_segment cb seg dm ≡ returned dm'
    → Settled dm dm'
run_segment-Settled cb (pre_get name) tried e = pre_get-Settled cb tried name e
run_segment-Settled cb (post_get name blocks) tried e = post_get-Settled cb tried name blocks e
run_segment-Settled cb (migrate_enter name) tried e = migrate_enter-Settled cb tried name e
run_segment-Settled cb (migrate_cycle name blocks) tried e =
    migrate_cycle-Settled cb tried name blocks e
run_segment-Settled cb migrate_suspend tried e = migrate_suspend-Settled cb tried e

Reach-Settled :
    (cb : Callbacks) {dm dm' : DirtyManager}
    → dm.suspend_completed ≡ true
    → Reach cb dm dm'
    → Settled dm dm'
Reach-Settled cb tried here = record { completed = tried; unchanged = refl }
Reach-Settled cb tried (next seg r e) =
    let before = Reach-Settled cb tried r in
    let step = run_segment-Settled cb seg before.completed e in
    record { completed = step.completed; unchanged = step.unchanged ∙ before.unchanged }

Reach-onward :
    (cb : Callbacks) {start dm dm' : DirtyManager}
    → Reach cb start dm
    → Reach cb dm dm'
    → Reach cb start dm'
Reach-onward cb r here = r
Reach-onward cb r (next seg r' e) = next seg (Reach-onward cb r r') e

-- Once the suspension was tried and the VM still runs, that is, once the attempt has failed, then
-- however the handlers go on from there, the VM is never suspended and authority never transferred.
pub failed_suspension_final :
    (cb : Callbacks) (sm : VmStateMgr) (devices : Dict DeviceStatus) {dm dm' : DirtyManager}
    → IsFresh sm devices
    → Reach cb (new_dirty_manager sm devices) dm
    → dm.suspend_completed ≡ true
    → dm.vm_state.suspended ≡ false
    → Reach cb dm dm'
    → (dm'.vm_state.suspended ≡ false) × (transfers dm'.vm_state ≡ 0)
failed_suspension_final cb sm devices fresh r tried runs r' =
    let still = (Reach-Settled cb tried r').unchanged ∙ runs in
    (
      still,
      elim (authority_transfer_once cb sm devices fresh (Reach-onward cb r r')) [
        | inl none_yet ↦ none_yet
        | inr (once, suspended, done, sent) ↦ absurd (ground (arith, still, suspended))
      ],
    )
