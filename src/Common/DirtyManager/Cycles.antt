-- ===== src/Common/DirtyManager/Cycles.antt =====
-- How long `PostMigrateDirty` may go on before a device is ready.
use drafter.Base.{
  ℕ, ◌+◌, ◌-◌, ◌<◌, ◌≤◌, true, false, List, [], ◌∷◌, String, some, Outcome, returned, Returns,
  Returns-bind, ◌>>=◌, ◌≡◌, arith, length, if◌then◌else◌, ltb, ◌⊎◌, inl, inr,
}
use drafter.Base.Dict.{lookup}
use drafter.Base.Dict.Laws.{lookup-modify_self}
use drafter.Common.DirtyManager.{
  DeviceStatus, DirtyManager, count_cycle, cycle_is_ready, post_migrate_cycle, mark_device_ready,
  set_ready, write_device,
}

-- The cycles of one device, one after the other, by the number of dirty blocks in each.
pub run_cycles : String → List ℕ → DirtyManager → Outcome DirtyManager
run_cycles name [] dm = returned dm
run_cycles name (blocks ∷ rest) dm = post_migrate_cycle name blocks dm >>= run_cycles name rest

-- How many more cycles may leave the device unready.
remaining : DeviceStatus → ℕ
remaining di =
    if ltb di.total_cycles di.max_cycles
    then di.max_cycles - di.total_cycles + di.min_cycles
    else di.min_cycles - di.cycles_below_dirty_block_treshold

-- A cycle makes the device ready, or leaves fewer.
cycle_progress :
    (blocks : ℕ) (di : DeviceStatus)
    → let di' = count_cycle blocks di in
      (cycle_is_ready blocks di' ≡ true)
      ⊎ ((cycle_is_ready blocks di' ≡ false) × (remaining di' < remaining di))
unfolding remaining count_cycle cycle_is_ready
cycle_progress blocks di = ground arith

-- The entry of the device after a cycle.
abbrev after_cycle : ℕ → DeviceStatus → DeviceStatus
after_cycle blocks di =
    let di' = count_cycle blocks di in if cycle_is_ready blocks di' then set_ready di' else di'

mark_device_ready-lookup :
    (name : String) (di : DeviceStatus) (dm : DirtyManager)
    → lookup name dm.devices ≡ some di
    → lookup name (mark_device_ready name di dm).devices ≡ some (set_ready di)
unfolding mark_device_ready
mark_device_ready-lookup name di dm found =
    ground (arith, found, lookup-modify_self name set_ready dm.devices found)

post_migrate_cycle-lookup :
    (name : String) (blocks : ℕ) (di : DeviceStatus) (dm : DirtyManager)
    → lookup name dm.devices ≡ some di
    → Returns
        (λ dm'. lookup name dm'.devices ≡ some (after_cycle blocks di))
        (post_migrate_cycle name blocks dm)
unfolding post_migrate_cycle
post_migrate_cycle-lookup name blocks di dm found =
    let counted = lookup-modify_self name (count_cycle blocks) dm.devices found in
    ground (
      arith,
      found,
      counted,
      mark_device_ready-lookup name (count_cycle blocks di)
          (write_device name (count_cycle blocks) dm) counted,
    )

-- Ready as the manager has it.
pub data IsReadyIn (name : String) (dm : DirtyManager) : Type 0 where
  ready_in :
      (di : DeviceStatus) → lookup name dm.devices ≡ some di → di.ready ≡ true → IsReadyIn name dm

count_cycle-ready : (blocks : ℕ) (di : DeviceStatus) → (count_cycle blocks di).ready ≡ di.ready
unfolding count_cycle
count_cycle-ready blocks di = ground arith

stays_ready :
    (name : String) (bs : List ℕ) (di : DeviceStatus) (dm : DirtyManager)
    → lookup name dm.devices ≡ some di
    → di.ready ≡ true
    → Returns (IsReadyIn name) (run_cycles name bs dm)
unfolding run_cycles
stays_ready name [] di dm found h = ready_in di found h
stays_ready name (blocks ∷ rest) di dm found h =
    Returns-bind _ _ (post_migrate_cycle name blocks dm) _
      (post_migrate_cycle-lookup name blocks di dm found)
      (λ dm' e. stays_ready name rest _ dm' e (ground (arith, count_cycle-ready blocks di)))

cycles_within_remaining :
    (name : String) (bs : List ℕ) (di : DeviceStatus) (dm : DirtyManager)
    → lookup name dm.devices ≡ some di
    → remaining di < length bs
    → Returns (IsReadyIn name) (run_cycles name bs dm)
unfolding run_cycles
cycles_within_remaining name [] di dm found h = absurd (omega arith)
cycles_within_remaining name (blocks ∷ rest) di dm found h =
    Returns-bind _ _ (post_migrate_cycle name blocks dm) _
      (post_migrate_cycle-lookup name blocks di dm found)
      (λ dm' e. elim (cycle_progress blocks di) [
        | inl done ↦ stays_ready name rest _ dm' e (ground arith)
        | inr (more, less) ↦
            cycles_within_remaining name rest (count_cycle blocks di) dm' (ground arith)
              (omega arith)
      ])

remaining-le : (di : DeviceStatus) → remaining di ≤ di.max_cycles - di.total_cycles + di.min_cycles
unfolding remaining
remaining-le di = ground arith

-- Whatever the numbers of dirty blocks are, after more cycles than `MaxCycles` (less the cycles
-- already counted) and `MinCycles` together a device of the manager is ready, and no cycle panics.
pub cycles_make_ready :
    (name : String) (bs : List ℕ) (di : DeviceStatus) (dm : DirtyManager)
    → lookup name dm.devices ≡ some di
    → di.max_cycles - di.total_cycles + di.min_cycles < length bs
    → Returns (IsReadyIn name) (run_cycles name bs dm)
cycles_make_ready name bs di dm found h =
    cycles_within_remaining name bs di dm found (omega (arith, remaining-le di))
