-- ===== src/Firecracker/Memory/Grabbed.antt =====
-- What is grabbed where `grabMemoryChangesFailsafe` of pkg/runtimes/firecracker/runtime.go returns nil.
use drafter.Base.{
  ℕ, zero, suc, ◌+◌, ◌-◌, ◌≤◌, Bool, true, false, List, [], ◌∷◌, if◌then◌else◌, ltb, ◌≡◌, ap, ◌∙◌,
  arith, All,
}
use drafter.Errors.{nil, failed}
use drafter.Script.{Log, Oracle}
use drafter.Action.{World}
use drafter.Action.Effects.{
  Leaves, Leaves-done, Leaves-set_state, Leaves-by_state, Leaves-seq, Leaves-deferring,
  Leaves-doing, Leaves-branch, Still-dropped,
}
use drafter.Firecracker.Memory.{
  MemoryRange, MemoryCall, GrabOptions, Grabber, same_bytes, lock, unlock, resume, set_paused,
  pause_process, resume_process,
}
use drafter.Firecracker.Memory.Blocks.{
  Shows, covered, marked, written, block_left, from_left, ranges_left, provider-ranges_left,
}
use drafter.Firecracker.Memory.Failsafe.{
  check_length, update_block, grab_block, grab_from, grab_ranges, grab_paused, grab_failsafe,
  failsafe_block_size,
}

module _ (reply : Oracle MemoryCall) (stuck : Log MemoryCall → Bool) (short : Log MemoryCall → Bool)
    (garble : (ℕ → ℕ) → ℕ → ℕ) (memory : ℕ → ℕ) (options : GrabOptions) where
  module _ (updates : options.update_memory ≡ true) where
    update_block-Leaves :
        (n o off : ℕ)
        → Leaves
            (update_block reply stuck short garble memory options n o off)
            (λ g. written memory options n o off (marked memory options n off g))
    unfolding update_block
    update_block-Leaves n o off =
        rw updates
          (Leaves-seq (Leaves-set_state (marked memory options n off)) (Leaves-doing reply _ _ _ _))

    check_length-Leaves : Leaves (check_length reply stuck short garble memory options) (λ g. g)
    unfolding check_length
    check_length-Leaves = record { left = λ w h. ground arith }

    grab_block-Leaves :
        (n o off : ℕ)
        → Leaves
            (grab_block reply stuck short garble memory options n o off)
            (block_left memory options n o off)
    unfolding grab_block
    grab_block-Leaves n o off = Leaves-seq (Leaves-doing reply _ _ _ _) (
        Leaves-seq (Leaves-doing reply _ _ _ _) (
          Leaves-seq check_length-Leaves (
            Leaves-by_state (λ g.
              Leaves-branch (same_bytes n memory g.provider o off) Leaves-done
                (update_block-Leaves n o off)))))

    grab_from-Leaves :
        (block_size fuel o : ℕ) (r : MemoryRange)
        → Leaves
            (grab_from reply stuck short garble memory options block_size fuel o r)
            (from_left memory options block_size fuel o r)
    unfolding grab_from from_left
    grab_from-Leaves block_size zero o r = Leaves-done
    grab_from-Leaves block_size (suc fuel) o r =
        Leaves-branch (ltb o r.end)
          (Leaves-seq (grab_block-Leaves _ _ _)
            (grab_from-Leaves block_size fuel (o + block_size) r))
          Leaves-done

    grab_ranges-Leaves :
        (block_size : ℕ) (rs : List MemoryRange)
        → Leaves
            (grab_ranges reply stuck short garble memory options block_size rs)
            (ranges_left memory options block_size rs)
    unfolding grab_ranges ranges_left
    grab_ranges-Leaves block_size [] = Leaves-done
    grab_ranges-Leaves block_size (r ∷ rs) =
        Leaves-seq (grab_from-Leaves block_size (r.end - r.begin) r.begin r)
          (grab_ranges-Leaves block_size rs)

    lock-Leaves : Leaves (lock reply stuck) (set_paused true)
    unfolding lock
    lock-Leaves = record { left = λ w h. (Leaves-doing reply pause_process nil _ _).left w h }

    unlock-Leaves : Leaves (unlock reply stuck) (set_paused false)
    unfolding unlock resume
    unlock-Leaves =
        Leaves-seq (Leaves-doing reply _ _ _ _)
          (record { left = λ w h. (Leaves-doing reply resume_process nil _ _).left w h })

    grab_failsafe-Leaves :
        (ranges : List MemoryRange)
        → Leaves (grab_failsafe reply stuck short garble memory options ranges) (λ g.
          set_paused false
            (ranges_left memory options failsafe_block_size ranges (set_paused true g)))
    unfolding grab_failsafe grab_paused
    grab_failsafe-Leaves ranges = Leaves-seq (Leaves-doing reply _ _ _ _) (
        Leaves-seq lock-Leaves (
          Leaves-seq (Leaves-doing reply _ _ _ _) (
            Leaves-deferring (Still-dropped reply _)
              (Leaves-seq (grab_ranges-Leaves failsafe_block_size ranges) unlock-Leaves))))

  -- The ranges of the process show pieces of the memory of the VM, and the memory is to be updated. If
  -- the grabbing of the changes returns nil, then the process runs on, and the memory of Silo has the
  -- byte of the VM at each offset that a range covers, and is as it was at each other: whatever had
  -- changed is there, however the comparison has gone.
  pub grab_failsafe-image :
      (image : ℕ → ℕ) (ranges : List MemoryRange) (w : World MemoryCall Grabber) (y : ℕ)
      → options.update_memory ≡ true
      → All (Shows memory image) ranges
      → All (λ r. r.begin ≤ r.end) ranges
      → failed (grab_failsafe reply stuck short garble memory options ranges w).0 ≡ false
      → let g = (grab_failsafe reply stuck short garble memory options ranges w).1.state in
        (g.paused ≡ false)
        × (g.provider y ≡ (if covered ranges y then image y else w.state.provider y))
  grab_failsafe-image image ranges w y updates shows ordered h =
      let left = (grab_failsafe-Leaves updates ranges).left w h in
      (
        ap (λ g. g.paused) left,
        ap (λ g. g.provider y) left
            ∙ provider-ranges_left memory options image failsafe_block_size ranges
                (set_paused true w.state) y (ground arith) shows ordered,
      )
