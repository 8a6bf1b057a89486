-- ===== src/Firecracker/Memory/SoftDirty.antt =====
-- `grabMemoryChangesSoftDirty`, `grabMemoryChanges` and `FlushDevices` of
-- pkg/runtimes/firecracker/runtime.go. What the kernel reports as changed, and what the copying of Silo
-- does, are arguments.
use drafter.Base.{ℕ, ◌+◌, ◌-◌, ◌*◌, Bool, List, [], ◌∷◌, if◌then◌else◌}
use drafter.Errors.{nil, FirecrackerError}
use drafter.Script.{Log, Oracle}
use drafter.Action.{◌⨾◌, done, call, doing, on_failure, set_state}
use drafter.Firecracker.Machine.{because}
use drafter.Firecracker.Memory.{
  MemoryRange, MemoryCall, GrabOptions, Trackers, Grabber, GrabAction, overwrite, mark_dirty, lock,
  unlock, get_memory_range, read_soft_dirty, copy_ranges, open_process, read_process,
  write_provider,
}
use drafter.Firecracker.Memory.Failsafe.{grab_failsafe}

-- Addresses of the process that were written to: from one to another.
pub record DirtyRange : Type 0 where
  pub begin : ℕ
  pub end : ℕ

-- What the kernel reports for a range, and what the copying of Silo makes of its memory.
pub record SoftDirty : Type 0 where
  pub changed : MemoryRange → List DirtyRange
  pub copied : MemoryRange → List DirtyRange → (ℕ → ℕ) → ℕ → ℕ

-- The marks for the changes in one range of the process.
unfoldable pub mark_changes : Trackers → MemoryRange → List DirtyRange → Grabber → Grabber
mark_changes t r [] g = g
mark_changes t r (d ∷ ds) g =
    mark_changes t r ds (mark_dirty t (d.begin - r.begin + r.offset) (d.end - d.begin) g)

unfoldable pub mark_all_changes : Trackers → SoftDirty → List MemoryRange → Grabber → Grabber
unfolding mark_changes
mark_all_changes t soft [] g = g
mark_all_changes t soft (r ∷ rs) g =
    mark_all_changes t soft rs (mark_changes t r (soft.changed r) g)

module _ (reply : Oracle MemoryCall) (stuck : Log MemoryCall → Bool) (garble : (ℕ → ℕ) → ℕ → ℕ)
    (options : GrabOptions) (soft : SoftDirty) where
  -- The loop over the ranges while the process is paused: if a read fails, the process is resumed.
  unfoldable pub read_changes : List MemoryRange → GrabAction
  read_changes [] = done
  read_changes (r ∷ rs) =
      on_failure (call reply (read_soft_dirty r.begin) nil) (unlock reply stuck) ⨾ read_changes rs

  -- The loop that copies, once the process is resumed.
  unfoldable pub copy_changes : List MemoryRange → GrabAction
  copy_changes [] = done
  copy_changes (r ∷ rs) =
      doing reply (copy_ranges r.begin) nil
        (λ (g : Grabber). record g { provider = soft.copied r (soft.changed r) g.provider })
        (λ (g : Grabber). record g { provider = garble g.provider })
      ⨾ copy_changes rs

  -- What `grabMemoryChangesSoftDirty` does once the process is resumed.
  unfoldable pub apply_changes : List MemoryRange → GrabAction
  apply_changes ranges =
      set_state (λ (g : Grabber).
        if options.update_dirty then mark_all_changes options.trackers soft ranges g else g)
      ⨾ (if options.update_memory then copy_changes ranges else done)

  -- `grabMemoryChangesSoftDirty`
  unfoldable pub grab_soft_dirty : List MemoryRange → GrabAction
  grab_soft_dirty ranges =
      call reply get_memory_range nil
      ⨾ lock reply stuck
      ⨾ read_changes ranges
      ⨾ unlock reply stuck
      ⨾ apply_changes ranges

  module _ (short : Log MemoryCall → Bool) (memory : ℕ → ℕ) where
    -- `grabMemoryChanges`
    unfoldable pub grab_memory_changes : Bool → List MemoryRange → GrabAction
    grab_memory_changes failsafe ranges =
        if failsafe
        then grab_failsafe reply stuck short garble memory options ranges
        else grab_soft_dirty ranges

-- `FlushDevices`: what was dirty is read of the process and written back, block by block.
module _ (reply : Oracle MemoryCall) (short : Log MemoryCall → Bool) (garble : (ℕ → ℕ) → ℕ → ℕ)
    (image : ℕ → ℕ) (block_size : ℕ) where
  -- A write that takes fewer bytes than were read.
  unfoldable pub check_written : GrabAction
  check_written w =
      if short w.calls then (because FirecrackerError.short_writeback, w) else (nil, w)

  unfoldable pub write_back : List ℕ → GrabAction
  write_back [] = done
  write_back (b ∷ bs) =
      call reply (read_process (b * block_size)) nil
      ⨾ doing reply (write_provider (b * block_size)) nil
          (λ (g : Grabber). record g {
            provider = overwrite block_size image (b * block_size) (b * block_size) g.provider;
          })
          (λ (g : Grabber). record g { provider = garble g.provider })
      ⨾ check_written
      ⨾ write_back bs

  unfoldable pub flush_devices : Bool → List ℕ → GrabAction
  flush_devices writeback dirty_blocks =
      if writeback then call reply open_process nil ⨾ write_back dirty_blocks else done
