-- ===== src/Firecracker/Memory/Resumed.antt =====
-- How `grabMemoryChangesSoftDirty` of pkg/runtimes/firecracker/runtime.go leaves the process.
use drafter.Base.{ℕ, Bool, true, false, not, ◌&&◌, List, [], ◌∷◌, if◌then◌else◌, ◌≡◌, arith}
use drafter.Errors.{failed, nil}
use drafter.Script.{Log, Oracle}
use drafter.Action.{World, ◌⨾◌, done, call, doing, on_failure}
use drafter.Action.Invariants.{Keeps, Keeps-done, Keeps-set_state, Keeps-if, Keeps-seq, Keeps-doing}
use drafter.Firecracker.Memory.{
  MemoryRange, MemoryCall, GrabOptions, Trackers, Grabber, lock, unlock, resume, get_memory_range,
  pause_process, clear_soft_dirty, resume_process, read_soft_dirty,
}
use drafter.Firecracker.Memory.SoftDirty.{
  DirtyRange, SoftDirty, mark_changes, mark_all_changes, read_changes, copy_changes, apply_changes,
  grab_soft_dirty,
}

abbrev Runs : Grabber → Type 0
Runs g = g.paused ≡ false

mark_changes-Runs :
    (t : Trackers) (r : MemoryRange) (ds : List DirtyRange) (g : Grabber)
    → Runs g
    → Runs (mark_changes t r ds g)
unfolding mark_changes
mark_changes-Runs t r [] g h = h
mark_changes-Runs t r (d ∷ ds) g h = mark_changes-Runs t r ds _ h

mark_all_changes-Runs :
    (t : Trackers) (soft : SoftDirty) (rs : List MemoryRange) (g : Grabber)
    → Runs g
    → Runs (mark_all_changes t soft rs g)
unfolding mark_all_changes
mark_all_changes-Runs t soft [] g h = h
mark_all_changes-Runs t soft (r ∷ rs) g h =
    mark_all_changes-Runs t soft rs _ (mark_changes-Runs t r (soft.changed r) g h)

module _ (reply : Oracle MemoryCall) (stuck : Log MemoryCall → Bool) (garble : (ℕ → ℕ) → ℕ → ℕ)
    (options : GrabOptions) (soft : SoftDirty) where
  copy_changes-Runs :
      (rs : List MemoryRange) → Keeps Runs (copy_changes reply stuck garble options soft rs)
  unfolding copy_changes
  copy_changes-Runs [] = Keeps-done Runs
  copy_changes-Runs (r ∷ rs) =
      Keeps-seq Runs (Keeps-doing Runs reply _ _ _ _ (λ g h. h) (λ g h. h)) (copy_changes-Runs rs)

  apply_changes-Runs :
      (rs : List MemoryRange) → Keeps Runs (apply_changes reply stuck garble options soft rs)
  unfolding apply_changes
  apply_changes-Runs rs =
      Keeps-seq Runs (Keeps-set_state Runs _ (λ g h. marks_kept options.update_dirty rs g h))
        (Keeps-if Runs options.update_memory (copy_changes-Runs rs) (Keeps-done Runs))
    where
      marks_kept :
          (b : Bool) (rs : List MemoryRange) (g : Grabber)
          → Runs g
          → Runs (if b then mark_all_changes options.trackers soft rs g else g)
      marks_kept true rs g h = mark_all_changes-Runs options.trackers soft rs g h
      marks_kept false rs g h = h

  module _ (clears : (log : Log MemoryCall) → failed (reply log clear_soft_dirty) ≡ false)
      (resumes : (log : Log MemoryCall) → failed (reply log resume_process) ≡ false) where
    unlock-Runs : (w : World MemoryCall Grabber) → Runs (unlock reply stuck w).1.state
    unfolding unlock resume ◌⨾◌ doing
    unlock-Runs w =
        let cleared : Log MemoryCall =
          (clear_soft_dirty, reply w.calls clear_soft_dirty) ∷ w.calls in
        ground (arith, clears w.calls, resumes cleared)

    -- The loop leaves the process running where it fails, and as it is otherwise.
    read_changes-Runs :
        (rs : List MemoryRange) (w : World MemoryCall Grabber)
        → failed (read_changes reply stuck garble options soft rs w).0 ≡ true
        → Runs (read_changes reply stuck garble options soft rs w).1.state
    unfolding read_changes ◌⨾◌ on_failure done
    read_changes-Runs [] w h = absurd (ground (arith, h))
    read_changes-Runs (r ∷ rs) w h =
        let tried = call reply (read_soft_dirty r.begin) nil w in
        ground (arith, unlock-Runs tried.1, read_changes-Runs rs tried.1)

    -- A process that runs is to be grabbed by its soft dirty bits. If the two calls that resume it never
    -- fail, then, whatever any other call returned, it runs when the grabbing has returned, unless
    -- PauseProcess has failed: then it is as that leaves it.
    pub grab_soft_dirty-runs :
        (ranges : List MemoryRange) (w : World MemoryCall Grabber)
        → w.state.paused ≡ false
        → let found = (get_memory_range, reply w.calls get_memory_range) ∷ w.calls in
          (grab_soft_dirty reply stuck garble options soft ranges w).1.state.paused ≡ (
            not (failed (reply w.calls get_memory_range))
            && failed (reply found pause_process)
            && stuck found)
    unfolding grab_soft_dirty lock ◌⨾◌ doing
    grab_soft_dirty-runs ranges w h =
        let found : Log MemoryCall = (get_memory_range, reply w.calls get_memory_range) ∷ w.calls in
        let paused : World MemoryCall Grabber = record {
          calls = (pause_process, reply found pause_process) ∷ found;
          state = record w.state { paused = true };
        } in
        let read = read_changes reply stuck garble options soft ranges paused in
        let unlocked = unlock reply stuck read.1 in
        ground (
          arith,
          read_changes-Runs ranges paused,
          unlock-Runs read.1,
          (apply_changes-Runs ranges).kept unlocked.1,
        )
