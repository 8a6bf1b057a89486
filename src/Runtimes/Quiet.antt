-- ===== src/Runtimes/Quiet.antt =====
-- What a user of any runtime of pkg/runtimes has once a Suspend has returned nil.
use drafter.Base.{Bool, true, false, List, [], ◌∷◌, ◌≡◌, arith, sym, subst}
use drafter.Errors.{nil, failed}
use drafter.Action.{World, Action}
use drafter.Action.Invariants.{Keeps}
use drafter.Runtimes.{RuntimeProvider, IsRuntime}

-- An operation of a runtime, or a turn of its goroutines.
pub data Operation (T : Type 0) : Type 0 where
  starts resumes suspends flushes flushes_devices closes : Operation T
  turns : T → Operation T

module _ {C S T : Type 0} (rp : RuntimeProvider C S T) where
  abbrev pub operate : Operation T → Action C S
  operate starts = rp.start
  operate resumes = rp.resume
  operate suspends = rp.suspend
  operate flushes = rp.flush_data
  operate flushes_devices = rp.flush_devices
  operate closes = rp.close
  operate (turns t) = rp.turn t

  -- The operations, one after the other, whatever each returns.
  unfoldable pub live : List (Operation T) → World C S → World C S
  live [] w = w
  live (op ∷ ops) w = live ops (operate op w).1

-- Whether no operation is a Resume.
abbrev pub without_resume : {T : Type 0} → List (Operation T) → Bool
without_resume [] = true
without_resume (resumes ∷ ops) = false
without_resume (op ∷ ops) = without_resume ops

module _ {C S T : Type 0} {rp : RuntimeProvider C S T} {Sound : S → Type 0} {runs : S → Bool}
    (h : IsRuntime rp Sound runs) where
  operate-Sound : (op : Operation T) → Keeps Sound (operate rp op)
  operate-Sound starts = h.start-Sound
  operate-Sound resumes = h.resume-Sound
  operate-Sound suspends = h.suspend-Sound
  operate-Sound flushes = h.flush_data-Sound
  operate-Sound flushes_devices = h.flush_devices-Sound
  operate-Sound closes = h.close-Sound
  operate-Sound (turns t) = h.turn-Sound t

  pub live-Sound :
      (ops : List (Operation T)) (w : World C S) → Sound w.state → Sound (live rp ops w).state
  unfolding live
  live-Sound [] w s = s
  live-Sound (op ∷ ops) w s = live-Sound ops (operate rp op w).1 ((operate-Sound op).kept w s)

  turn-Idle :
      (t : T) (w : World C S)
      → Sound w.state
      → runs w.state ≡ false
      → runs (rp.turn t w).1.state ≡ false
  turn-Idle t w s idle = subst (λ r. runs r.1.state ≡ false) (sym (h.turn-idle t w s idle)) idle

  live-Idle :
      (ops : List (Operation T)) (w : World C S)
      → without_resume ops ≡ true
      → Sound w.state
      → runs w.state ≡ false
      → runs (live rp ops w).state ≡ false
  unfolding live
  live-Idle [] w none s idle = idle
  live-Idle (starts ∷ ops) w none s idle =
      live-Idle ops _ none (h.start-Sound.kept w s) (h.start-Idle.kept w idle)
  live-Idle (resumes ∷ ops) w none s idle = absurd (ground (arith, none))
  live-Idle (suspends ∷ ops) w none s idle =
      live-Idle ops _ none (h.suspend-Sound.kept w s) (h.suspend-Idle.kept w idle)
  live-Idle (flushes ∷ ops) w none s idle =
      live-Idle ops _ none (h.flush_data-Sound.kept w s) (h.flush_data-Idle.kept w idle)
  live-Idle (flushes_devices ∷ ops) w none s idle =
      live-Idle ops _ none (h.flush_devices-Sound.kept w s) (h.flush_devices-Idle.kept w idle)
  live-Idle (closes ∷ ops) w none s idle =
      live-Idle ops _ none (h.close-Sound.kept w s) (h.close-Idle.kept w idle)
  live-Idle (turns t ∷ ops) w none s idle =
      live-Idle ops _ none ((h.turn-Sound t).kept w s) (turn-Idle t w s idle)

  -- A turn of a goroutine does nothing once a Suspend has returned nil, until there is a Resume.
  pub quiet_after_suspend :
      (before after : List (Operation T)) (w : World C S) (t : T)
      → Sound w.state
      → failed (rp.suspend (live rp before w)).0 ≡ false
      → without_resume after ≡ true
      → let w' = live rp after (rp.suspend (live rp before w)).1 in rp.turn t w' ≡ (nil, w')
  quiet_after_suspend before after w t s good none =
      let reached = live-Sound before w s in
      let suspended = h.suspend-Sound.kept (live rp before w) reached in
      h.turn-idle t (live rp after (rp.suspend (live rp before w)).1) (live-Sound after _ suspended)
        (live-Idle after _ none suspended (h.suspend-stops (live rp before w) reached good))
