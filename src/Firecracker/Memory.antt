-- ===== src/Firecracker/Memory.antt =====
-- The memory of a VM that its runtime grabs and writes back: `grabMemoryChangesFailsafe`,
-- `grabMemoryChangesSoftDirty`, `grabMemoryChanges` and `FlushDevices` of
-- pkg/runtimes/firecracker/runtime.go. The memory of the process is a function of the address, that of
-- Silo one of the offset; the process does not change its memory while it is paused. What each call
-- returns, whether a read is short, and what a failed write leaves are arguments.
pub mod Failsafe
pub mod SoftDirty
pub mod Blocks
pub mod Grabbed
pub mod Paused
pub mod Resumed
mod Examples
use drafter.Base.{
  ℕ, zero, suc, ◌+◌, ◌-◌, ◌*◌, Bool, true, false, ◌&&◌, List, [], ◌∷◌, if◌then◌else◌, ltb, leb,
  ◌==◌,
}
use drafter.Errors.{GoError, nil}
use drafter.Script.{Log, Oracle}
use drafter.Action.{Action, ◌⨾◌, doing, call}

-- A range of addresses of the process, and the offset of its begin in the memory of the VM.
pub record MemoryRange : Type 0 where
  pub begin : ℕ
  pub end : ℕ
  pub offset : ℕ

pub data MemoryCall : Type 0 where
  get_memory_range pause_process clear_soft_dirty resume_process : MemoryCall
  open_process close_process : MemoryCall
  -- with the address, or the offset
  read_process read_provider write_provider : ℕ → MemoryCall
  read_soft_dirty : ℕ → MemoryCall
  copy_ranges : ℕ → MemoryCall

-- Which trackers of dirty memory the runtime has.
pub record Trackers : Type 0 where
  pub direct : Bool
  pub sync : Bool
  pub writeback : Bool

pub record GrabOptions : Type 0 where
  pub update_dirty : Bool
  pub update_memory : Bool
  pub trackers : Trackers

pub record Grabber : Type 0 where
  -- the memory of Silo
  pub provider : ℕ → ℕ
  pub paused : Bool
  -- what was marked as dirty in each tracker: offset and length, newest first
  pub direct_dirty : List (ℕ × ℕ)
  pub sync_dirty : List (ℕ × ℕ)
  pub writeback_dirty : List (ℕ × ℕ)

abbrev pub GrabAction : Type 0
GrabAction = Action MemoryCall Grabber

-- Whether two memories agree from an address and an offset on, for some bytes.
unfoldable pub same_bytes : ℕ → (ℕ → ℕ) → (ℕ → ℕ) → ℕ → ℕ → Bool
same_bytes zero memory provider o off = true
same_bytes (suc n) memory provider o off =
    memory o == provider off && same_bytes n memory provider (suc o) (suc off)

-- A memory of Silo into which bytes of the process were written.
abbrev pub overwrite : ℕ → (ℕ → ℕ) → ℕ → ℕ → (ℕ → ℕ) → ℕ → ℕ
overwrite n memory o off provider y =
    if leb off y && ltb y (off + n) then memory (o + (y - off)) else provider y

abbrev pub mark_if : Bool → ℕ → ℕ → List (ℕ × ℕ) → List (ℕ × ℕ)
mark_if has off n marks = if has then (off, n) ∷ marks else marks

-- `MarkDirty` of the trackers that there are.
abbrev pub mark_dirty : Trackers → ℕ → ℕ → Grabber → Grabber
mark_dirty t off n g = record g {
  direct_dirty = mark_if t.direct off n g.direct_dirty;
  sync_dirty = mark_if t.sync off n g.sync_dirty;
  writeback_dirty = mark_if t.writeback off n g.writeback_dirty;
}

abbrev pub set_paused : Bool → Grabber → Grabber
set_paused b g = record g { paused = b }

-- Silo may have stopped the process although `PauseProcess` fails, and started it although `ResumeProcess`
-- does: whether a call that fails leaves it paused is an argument, by the calls before.
module _ (reply : Oracle MemoryCall) (stuck : Log MemoryCall → Bool) where
  -- `lockcb`
  unfoldable pub lock : GrabAction
  lock w = doing reply pause_process nil (set_paused true) (set_paused (stuck w.calls)) w

  unfoldable pub resume : GrabAction
  resume w = doing reply resume_process nil (set_paused false) (set_paused (stuck w.calls)) w

  -- `unlockcb`
  unfoldable pub unlock : GrabAction
  unfolding resume
  unlock = call reply clear_soft_dirty nil ⨾ resume
