-- ===== src/Common/VmState/Laws.antt =====
-- The contract of pkg/common/vm_state.go.
use drafter.Base.{
  ℕ, zero, suc, ◌≤◌, Bool, true, false, not, List, [], ◌∷◌, ◌++◌, Outcome, returned, Returns, ◌≡◌,
  refl, arith, count, if◌then◌else◌, Returns-bind, ◌>>=◌, ◌⊎◌,
}
use drafter.Errors.{
  GoError, nil, failed, join, Cause, could_not_suspend_and_close_agent_server,
  could_not_msync_runner,
}
use drafter.Common.VmState.{
  Callback, Callbacks, VmStateMgr, suspend_and_msync, new_vm_state_mgr, suspend_func, msync_func,
  on_before_suspend, on_after_suspend, authority_transfer,
}

-- The channel is closed exactly when the VM is suspended.
pub record IsConsistent (sm : VmStateMgr) : Type 0 where
  pub channel : sm.suspended_ch_closed ≡ sm.suspended

pub new_vm_state_mgr-IsConsistent : (b a : Bool) → IsConsistent (new_vm_state_mgr b a)
unfolding new_vm_state_mgr
new_vm_state_mgr-IsConsistent b a = record { channel = refl }

abbrev pub is_transfer : Callback → Bool
is_transfer authority_transfer = true
is_transfer _ = false

abbrev pub transfers : VmStateMgr → ℕ
transfers sm = count is_transfer sm.calls

-- What one call leaves behind: the manager is consistent, the call has returned nil exactly when
-- the VM is suspended afterwards, a VM that was suspended before is left as it was, and authority
-- was not transferred.
pub record Attempted (sm : VmStateMgr) (r : GoError × VmStateMgr) : Type 0 where
  pub consistent : IsConsistent r.1
  pub reported : failed r.0 ≡ not r.1.suspended
  pub kept : (sm.suspended ≡ false) ⊎ (r.1 ≡ sm)
  pub untransferred : transfers r.1 ≡ transfers sm

-- On a consistent manager, whatever the callbacks return, `suspend_and_msync` returns without a
-- panic, leaves the manager consistent, returns nil exactly when the VM is suspended afterwards,
-- changes nothing, callbacks included, if the VM was suspended before, and never transfers authority.
pub suspend_and_msync-Attempted :
    (cb : Callbacks) (sm : VmStateMgr)
    → IsConsistent sm
    → Returns (Attempted sm) (suspend_and_msync cb sm)
unfolding suspend_and_msync
suspend_and_msync-Attempted cb sm h = ground arith

abbrev hook : Bool → Callback → List Callback
hook set c = if set then c ∷ [] else []

-- On a VM that runs, the callbacks are made in the order before-hook, suspend, msync, after-hook,
-- the log being newest first; an error of suspend stops before msync, an error of either stops
-- before the after-hook, and the error comes back behind its sentinel.
pub suspend_and_msync_order :
    (cb : Callbacks) (sm : VmStateMgr)
    → IsConsistent sm
    → sm.suspended ≡ false
    → let before = hook sm.has_on_before_suspend on_before_suspend ++ sm.calls in
      let suspend_err = cb before suspend_func in
      let msync_err = cb (suspend_func ∷ before) msync_func in
      let sent = msync_func ∷ suspend_func ∷ before in
      Returns
        (λ r.
          (r.1.calls ≡ (
            if failed suspend_err
            then suspend_func ∷ before
            else if failed msync_err
            then sent
            else hook sm.has_on_after_suspend on_after_suspend ++ sent))
          × (r.0 ≡ (
              if failed suspend_err
              then join (Cause.common could_not_suspend_and_close_agent_server ∷ []) suspend_err
              else if failed msync_err
              then join (Cause.common could_not_msync_runner ∷ []) msync_err
              else nil)))
        (suspend_and_msync cb sm)
unfolding suspend_and_msync
suspend_and_msync_order cb sm h running = ground arith

abbrev is_after_suspend : Callback → Bool
is_after_suspend on_after_suspend = true
is_after_suspend _ = false

abbrev pub after_suspends : VmStateMgr → ℕ
after_suspends sm = count is_after_suspend sm.calls

-- The after-hook has run once at most, and not at all while the VM runs.
pub record HookedOnce (sm : VmStateMgr) : Type 0 where
  pub consistent : IsConsistent sm
  pub once : after_suspends sm ≤ 1
  pub running : (sm.suspended ≡ true) ⊎ (after_suspends sm ≡ 0)

suspend_and_msync-HookedOnce :
    (cb : Callbacks) (sm : VmStateMgr)
    → HookedOnce sm
    → Returns (λ r. HookedOnce r.1) (suspend_and_msync cb sm)
unfolding suspend_and_msync
suspend_and_msync-HookedOnce cb sm h = ground arith

-- `n` callers one after the other, as the lock of the manager lets them in.
pub attempts : Callbacks → ℕ → VmStateMgr → Outcome VmStateMgr
attempts cb zero sm = returned sm
attempts cb (suc n) sm = suspend_and_msync cb sm >>= λ r. attempts cb n r.1

attempts-keep :
    (cb : Callbacks) (n : ℕ) (sm : VmStateMgr)
    → HookedOnce sm
    → Returns HookedOnce (attempts cb n sm)
unfolding attempts
attempts-keep cb zero sm h = h
attempts-keep cb (suc n) sm h =
    Returns-bind _ _ (suspend_and_msync cb sm) _ (suspend_and_msync-HookedOnce cb sm h)
      (λ r k. attempts-keep cb n r.1 k)

-- However often a new manager is asked to suspend, no call panics, the after-hook runs once at
-- most, and not before the VM is suspended.
pub attempts-HookedOnce :
    (cb : Callbacks) (n : ℕ) (before after : Bool)
    → Returns HookedOnce (attempts cb n (new_vm_state_mgr before after))
attempts-HookedOnce cb n before after =
    attempts-keep cb n _ (unfold new_vm_state_mgr in ground arith)
