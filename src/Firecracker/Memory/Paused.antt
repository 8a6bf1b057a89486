-- ===== src/Firecracker/Memory/Paused.antt =====
-- Whether a VM is left paused by the two ways to grab its memory in pkg/runtimes/firecracker/runtime.go.
use drafter.Base.{
  if◌then◌else◌, ℕ, zero, suc, ◌+◌, ◌-◌, Bool, true, false, List, [], ◌∷◌, ltb, ◌≡◌, ◌∙◌, sym,
  arith, inl, inr, Bool-cases,
}
use drafter.Errors.{failed}
use drafter.Script.{Log, Oracle}
use drafter.Action.{World, ◌⨾◌, doing, dropped, deferring}
use drafter.Action.Invariants.{
  Keeps, Keeps-done, Keeps-set_state, Keeps-by_state, Keeps-if, Keeps-seq, Keeps-call, Keeps-doing,
}
use drafter.Firecracker.Memory.{
  MemoryRange, MemoryCall, GrabOptions, Grabber, GrabAction, same_bytes, lock, unlock, resume,
  clear_soft_dirty, resume_process, get_memory_range, pause_process, close_process,
}
use drafter.Firecracker.Memory.Failsafe.{
  check_length, update_block, grab_block, grab_from, grab_ranges, grab_paused, grab_failsafe,
  failsafe_block_size,
}

abbrev IsPaused : Grabber → Type 0
IsPaused g = g.paused ≡ true

-- An error leaves a process that was paused as it is; otherwise the process is resumed.
record LeftPaused (a : GrabAction) : Type 0 where
  pub left :
      (w : World MemoryCall Grabber) → IsPaused w.state → (a w).1.state.paused ≡ failed (a w).0

module _ (reply : Oracle MemoryCall) (stuck : Log MemoryCall → Bool) (short : Log MemoryCall → Bool)
    (garble : (ℕ → ℕ) → ℕ → ℕ) (memory : ℕ → ℕ) (options : GrabOptions) where
  grab_block-IsPaused :
      (n o off : ℕ) → Keeps IsPaused (grab_block reply stuck short garble memory options n o off)
  unfolding grab_block check_length update_block
  grab_block-IsPaused n o off = Keeps-seq IsPaused (Keeps-call IsPaused reply _ _) (
      Keeps-seq IsPaused (Keeps-call IsPaused reply _ _) (
        Keeps-seq IsPaused (record { kept = λ w h. ground arith })
          (Keeps-by_state IsPaused (λ g.
            Keeps-if IsPaused (same_bytes n memory g.provider o off) (Keeps-done IsPaused) (
              Keeps-seq IsPaused (Keeps-set_state IsPaused _ (λ g h. ground arith)) (
                Keeps-if IsPaused options.update_memory
                  (Keeps-doing IsPaused reply _ _ _ _ (λ g h. h) (λ g h. h))
                  (Keeps-done IsPaused)))))))

  grab_from-IsPaused :
      (block_size fuel o : ℕ) (r : MemoryRange)
      → Keeps IsPaused (grab_from reply stuck short garble memory options block_size fuel o r)
  unfolding grab_from
  grab_from-IsPaused block_size zero o r = Keeps-done IsPaused
  grab_from-IsPaused block_size (suc fuel) o r =
      Keeps-if IsPaused (ltb o r.end)
        (Keeps-seq IsPaused (grab_block-IsPaused _ _ _)
          (grab_from-IsPaused block_size fuel (o + block_size) r))
        (Keeps-done IsPaused)

  grab_ranges-IsPaused :
      (block_size : ℕ) (rs : List MemoryRange)
      → Keeps IsPaused (grab_ranges reply stuck short garble memory options block_size rs)
  unfolding grab_ranges
  grab_ranges-IsPaused block_size [] = Keeps-done IsPaused
  grab_ranges-IsPaused block_size (r ∷ rs) =
      Keeps-seq IsPaused (grab_from-IsPaused block_size (r.end - r.begin) r.begin r)
        (grab_ranges-IsPaused block_size rs)

  seq_left :
      {a b : GrabAction}
      → Keeps IsPaused a
      → LeftPaused b
      → (w : World MemoryCall Grabber) → IsPaused w.state
      → ((a ⨾ b) w).1.state.paused ≡ failed ((a ⨾ b) w).0
  unfolding ◌⨾◌
  seq_left {a} {b} k l w h = elim (Bool-cases (failed (a w).0)) [
    | inl bad ↦ rw bad (k.kept w h ∙ sym bad)
    | inr good ↦ rw good (l.left (a w).1 (k.kept w h))
  ]

  seq-LeftPaused : {a b : GrabAction} → Keeps IsPaused a → LeftPaused b → LeftPaused (a ⨾ b)
  seq-LeftPaused k l = record { left = seq_left k l }

  deferring-LeftPaused :
      {a : GrabAction} → LeftPaused a → LeftPaused (deferring (dropped reply close_process) a)
  unfolding deferring dropped
  deferring-LeftPaused l = record { left = λ w h. l.left w h }

  module _ (resumes : (log : Log MemoryCall) → failed (reply log resume_process) ≡ false) where
    unlock-LeftPaused : LeftPaused (unlock reply stuck)
    unfolding unlock resume ◌⨾◌ doing
    unlock-LeftPaused = record {
      left = λ w h.
          ground (arith, resumes ((clear_soft_dirty, reply w.calls clear_soft_dirty) ∷ w.calls));
    }

    grab_paused-LeftPaused :
        (ranges : List MemoryRange)
        → LeftPaused (grab_paused reply stuck short garble memory options ranges)
    unfolding grab_paused
    grab_paused-LeftPaused ranges = seq-LeftPaused (Keeps-call IsPaused reply _ _) (
        deferring-LeftPaused
          (seq-LeftPaused (grab_ranges-IsPaused failsafe_block_size ranges) unlock-LeftPaused))

    -- A process that runs is to be grabbed by comparison, where ResumeProcess never fails. If its ranges are
    -- not found, it runs. If PauseProcess fails, it is as that leaves it. Otherwise it is left paused exactly
    -- if the grabbing returns an error: none of the errors behind the pause resumes it.
    pub grab_failsafe-paused :
        (ranges : List MemoryRange) (w : World MemoryCall Grabber)
        → w.state.paused ≡ false
        → let found = (get_memory_range, reply w.calls get_memory_range) ∷ w.calls in
          let r = grab_failsafe reply stuck short garble memory options ranges w in
          r.1.state.paused ≡ (
            if failed (reply w.calls get_memory_range)
            then false
            else if failed (reply found pause_process)
            then stuck found
            else failed r.0)
    unfolding grab_failsafe lock ◌⨾◌ doing
    grab_failsafe-paused ranges w h =
        let found : Log MemoryCall = (get_memory_range, reply w.calls get_memory_range) ∷ w.calls in
        let paused : World MemoryCall Grabber = record {
          calls = (pause_process, reply found pause_process) ∷ found;
          state = record w.state { paused = true };
        } in
        ground (arith, (grab_paused-LeftPaused ranges).left paused)
