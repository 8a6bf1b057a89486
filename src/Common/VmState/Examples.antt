-- ===== src/Common/VmState/Examples.antt =====
-- Managers whose callbacks all return nil, and one whose runner cannot be synced.
use drafter.Base.{true, [], ◌∷◌, Returns, ◌≡◌, refl}
use drafter.Errors.{nil, Cause}
use drafter.Common.VmState.{
  Callbacks, new_vm_state_mgr, new_dummy_vm_state_mgr, dummy_callbacks, suspend_and_msync,
  msync_func, check_suspended_vm,
}
use drafter.Common.VmState.Laws.{
  Attempted, HookedOnce, attempts, suspend_and_msync-Attempted, attempts-HookedOnce,
  new_vm_state_mgr-IsConsistent,
}

abbrev broken_msync : Callbacks
broken_msync calls msync_func = Cause.external 5 ∷ []
broken_msync calls c = nil

dummy_suspends :
    Returns
      (λ r. check_suspended_vm r.1 ≡ true)
      (suspend_and_msync dummy_callbacks new_dummy_vm_state_mgr)
unfolding suspend_and_msync new_dummy_vm_state_mgr
dummy_suspends = refl

suspend_and_msync-Attempted_example :
    Returns
      (Attempted (new_vm_state_mgr true true))
      (suspend_and_msync broken_msync (new_vm_state_mgr true true))
suspend_and_msync-Attempted_example =
    suspend_and_msync-Attempted broken_msync (new_vm_state_mgr true true)
      (new_vm_state_mgr-IsConsistent true true)

attempts-HookedOnce_example :
    Returns HookedOnce (attempts dummy_callbacks 3 (new_vm_state_mgr true true))
attempts-HookedOnce_example = attempts-HookedOnce dummy_callbacks 3 true true
