-- ===== src/Firecracker/Memory/Failsafe.antt =====
-- `grabMemoryChangesFailsafe` of pkg/runtimes/firecracker/runtime.go.
use drafter.Base.{ℕ, zero, suc, ◌+◌, ◌-◌, ◌*◌, Bool, List, [], ◌∷◌, if◌then◌else◌, ltb}
use drafter.Errors.{nil, FirecrackerError}
use drafter.Script.{Log, Oracle}
use drafter.Action.{◌⨾◌, done, call, doing, dropped, deferring, by_state, set_state}
use drafter.Firecracker.Machine.{because}
use drafter.Firecracker.Memory.{
  MemoryRange, MemoryCall, GrabOptions, Grabber, GrabAction, same_bytes, overwrite, mark_dirty,
  lock, unlock, get_memory_range, open_process, close_process, read_process, read_provider,
  write_provider,
}

-- `blockSize`
abbrev pub failsafe_block_size : ℕ
failsafe_block_size = 1024 * 1024 * 4

-- `readSize`
abbrev pub read_size : ℕ → ℕ → MemoryRange → ℕ
read_size block_size o r = if ltb r.end (o + block_size) then r.end - o else block_size

module _ (reply : Oracle MemoryCall) (stuck : Log MemoryCall → Bool) (short : Log MemoryCall → Bool)
    (garble : (ℕ → ℕ) → ℕ → ℕ) (memory : ℕ → ℕ) (options : GrabOptions) where
  -- A read of Silo that gives fewer bytes than were read of the process.
  unfoldable pub check_length : GrabAction
  check_length w =
      if short w.calls then (because FirecrackerError.could_not_check_memory, w) else (nil, w)

  -- What is done with a block that has changed.
  unfoldable pub update_block : ℕ → ℕ → ℕ → GrabAction
  update_block n o off =
      set_state
        (λ (g : Grabber). if options.update_dirty then mark_dirty options.trackers off n g else g)
      ⨾ (if options.update_memory
          then doing reply (write_provider off) nil
              (λ (g : Grabber). record g { provider = overwrite n memory o off g.provider })
              (λ (g : Grabber). record g { provider = garble g.provider })
          else done)

  -- A turn of the inner loop.
  unfoldable pub grab_block : ℕ → ℕ → ℕ → GrabAction
  grab_block n o off =
      call reply (read_process o) nil
      ⨾ call reply (read_provider off) nil
      ⨾ check_length
      ⨾ by_state (λ g. if same_bytes n memory g.provider o off then done else update_block n o off)

  -- The inner loop, with fuel.
  unfoldable pub grab_from : ℕ → ℕ → ℕ → MemoryRange → GrabAction
  grab_from block_size zero o r = done
  grab_from block_size (suc fuel) o r =
      let block = grab_block (read_size block_size o r) o (r.offset + o - r.begin) in
      let rest = grab_from block_size fuel (o + block_size) r in
      if ltb o r.end then block ⨾ rest else done

  -- The outer loop. There are no more turns of the inner one than bytes in the range.
  unfoldable pub grab_ranges : ℕ → List MemoryRange → GrabAction
  grab_ranges block_size [] = done
  grab_ranges block_size (r ∷ rs) =
      grab_from block_size (r.end - r.begin) r.begin r ⨾ grab_ranges block_size rs

  -- What `grabMemoryChangesFailsafe` does behind the pause.
  unfoldable pub grab_paused : List MemoryRange → GrabAction
  grab_paused ranges =
      call reply open_process nil
      ⨾ deferring (dropped reply close_process)
          (grab_ranges failsafe_block_size ranges ⨾ unlock reply stuck)

  -- `grabMemoryChangesFailsafe`, of the ranges that the process has.
  unfoldable pub grab_failsafe : List MemoryRange → GrabAction
  grab_failsafe ranges = call reply get_memory_range nil ⨾ lock reply stuck ⨾ grab_paused ranges
