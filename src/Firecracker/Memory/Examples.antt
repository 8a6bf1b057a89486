-- ===== src/Firecracker/Memory/Examples.antt =====
-- A process of two bytes of memory, grabbed by comparison and by its soft dirty bits.
use drafter.Base.{ℕ, ◌-◌, Bool, true, false, not, ◌&&◌, [], ◌∷◌, ◌≡◌, refl, arith, if◌then◌else◌}
use drafter.Errors.{GoError, nil, failed, Cause}
use drafter.Script.{Log, Oracle}
use drafter.Action.{World, ◌⨾◌, done, doing, dropped, deferring, by_state, set_state}
use drafter.Firecracker.Memory.{
  MemoryRange, MemoryCall, GrabOptions, Grabber, same_bytes, lock, unlock, resume, open_process,
}
use drafter.Firecracker.Memory.Failsafe.{
  check_length, update_block, grab_block, grab_from, grab_ranges, grab_paused, grab_failsafe,
}
use drafter.Firecracker.Memory.SoftDirty.{
  SoftDirty, grab_soft_dirty, flush_devices, write_back, check_written,
}
use drafter.Firecracker.Memory.Blocks.{covered}
use drafter.Firecracker.Memory.Grabbed.{grab_failsafe-image}
use drafter.Firecracker.Memory.Paused.{grab_failsafe-paused}
use drafter.Firecracker.Memory.Resumed.{grab_soft_dirty-runs}

abbrev obliging : Oracle MemoryCall
obliging log c = nil

-- The memory of the process cannot be opened.
abbrev unopened : Oracle MemoryCall
unopened log open_process = Cause.external 13 ∷ []
unopened log c = nil

abbrev never_short : Log MemoryCall → Bool
never_short log = false

-- A call that fails to pause or to resume has stopped the process all the same.
abbrev stops : Log MemoryCall → Bool
stops log = true

abbrev as_it_was : (ℕ → ℕ) → ℕ → ℕ
as_it_was provider y = provider y

-- The addresses from 5 on are the memory of the VM from its begin on.
abbrev process_memory : ℕ → ℕ
process_memory a = a - 5

abbrev vm_memory : ℕ → ℕ
vm_memory y = y

abbrev two_bytes : MemoryRange
two_bytes = record { begin = 5; end = 7; offset = 0 }

abbrev both : GrabOptions
both = record {
  update_dirty = true;
  update_memory = true;
  trackers = record { direct = true; sync = false; writeback = false };
}

abbrev fresh : World MemoryCall Grabber
fresh = record {
  calls = [];
  state = record {
    provider = λ y. 9;
    paused = false;
    direct_dirty = [];
    sync_dirty = [];
    writeback_dirty = [];
  };
}

abbrev grabbed : Grabber
grabbed =
    (grab_failsafe obliging stops never_short as_it_was process_memory both (two_bytes ∷ [])
      fresh).1.state

grab_failsafe-image_example :
    (grabbed.paused ≡ false)
    × (grabbed.provider 1
        ≡ (if covered (two_bytes ∷ []) 1 then vm_memory 1 else fresh.state.provider 1))
unfolding grab_failsafe grab_paused grab_ranges grab_from grab_block check_length update_block lock
    unlock resume same_bytes ◌⨾◌ done doing dropped deferring by_state set_state
grab_failsafe-image_example =
    grab_failsafe-image obliging stops never_short as_it_was process_memory both vm_memory
      (two_bytes ∷ []) fresh 1 refl (λ x h. omega arith, tt) (omega arith, tt) refl

abbrev stuck : GoError × World MemoryCall Grabber
stuck =
    grab_failsafe unopened stops never_short as_it_was process_memory both (two_bytes ∷ []) fresh

grab_failsafe-paused_example :
    stuck.1.state.paused
    ≡ (if failed nil then false else if failed nil then true else failed stuck.0)
grab_failsafe-paused_example =
    grab_failsafe-paused unopened stops never_short as_it_was process_memory both (λ log. refl)
      (two_bytes ∷ []) fresh refl

-- The second byte has changed.
abbrev second_changed : SoftDirty
second_changed = record {
  changed = λ r. record { begin = 6; end = 7 } ∷ [];
  copied = λ r ds provider y. provider y;
}

grab_soft_dirty-runs_example :
    (grab_soft_dirty obliging stops as_it_was both second_changed
      (two_bytes ∷ [])
      fresh).1.state.paused
    ≡ (not (failed nil) && failed nil && true)
grab_soft_dirty-runs_example =
    grab_soft_dirty-runs obliging stops as_it_was both second_changed (λ log. refl) (λ log. refl)
      (two_bytes ∷ []) fresh refl

-- A block of one byte is written back.
written_back :
    (flush_devices obliging never_short as_it_was vm_memory 1 true (3 ∷ []) fresh).1.state.provider
      3
    ≡ 3
unfolding flush_devices write_back check_written ◌⨾◌ done doing
written_back = refl
