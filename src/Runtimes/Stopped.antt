-- ===== src/Runtimes/Stopped.antt =====
-- That the mock of pkg/runtimes/mock_runtime.go does not write once it is suspended.
use drafter.Base.{ℕ, true, List, String, ◌≡◌, refl}
use drafter.Errors.{nil}
use drafter.Script.{Oracle}
use drafter.Action.{World, set_state}
use drafter.Runtimes.Mock.{
  MockCall, MockRuntimeProvider, mock_runtime, mock_suspend, mock_turn, mock_runtime-IsRuntime,
}
use drafter.Runtimes.Quiet.{Operation, live, without_resume, quiet_after_suspend}

-- In any life of a mock that starts without a goroutine, with its operations and the rounds of its
-- goroutines in any order and whatever the calls return: Suspend returns nil, and behind it, whatever
-- operations other than Resume follow, a round that would write makes no call and changes nothing.
pub mock_suspend-quiet :
    (reply : Oracle MockCall) (before after : List (Operation (String × ℕ)))
    (w : World MockCall MockRuntimeProvider) (device : String) (offset : ℕ)
    → w.state.writers ≡ 0
    → without_resume after ≡ true
    → let r = mock_suspend reply (live (mock_runtime reply) before w) in
      let w' = live (mock_runtime reply) after r.1 in
      (r.0 ≡ nil) × (mock_turn reply (device, offset) w' ≡ (nil, w'))
unfolding mock_runtime mock_suspend set_state
mock_suspend-quiet reply before after w device offset none calm = (
  refl,
  quiet_after_suspend (mock_runtime-IsRuntime reply) before after w (device, offset) (λ h. none)
      refl calm,
)
