-- ===== src/Common/MigrateTo/Moves.antt =====
-- What `MigrateToPipe` hands to the dirty manager, and what it has done when it returns.
use drafter.Base.{
  true, false, List, [], ◌∷◌, String, Option, none, some, Outcome, returned, panicked, ◌>>=◌, ◌≡◌,
  refl, ap, subst, ◌∙◌, arith, All, All-map, if◌then◌else◌, str_eq, ◌⊎◌, inl, inr, Bool-cases,
  eq_iff,
}
use drafter.Base.Dict.{Dict, insert, lookup, Distinct}
use drafter.Base.Dict.Laws.{lookup-insert}
use drafter.Errors.{failed}
use drafter.Script.{Oracle, run_script}
use drafter.Common.VmState.{Callbacks, VmStateMgr}
use drafter.Common.VmState.Laws.{IsConsistent, transfers}
use drafter.Common.DirtyManager.{
  DeviceStatus, DirtyManager, new_dirty_manager, Segment, run_segment,
}
use drafter.Common.DirtyManager.Authority.{Reach, here, next, IsFresh, authority_transfer_once}
use drafter.Common.MigrateTo.{
  MigrateToDevice, MoveCall, status_of, add_devices, dirty_devices, run_segments, Moved,
  migrate_to_pipe, move_steps, finish_steps,
}

-- The status by the last device of a name, if there is one.
abbrev pub last_status : String → List MigrateToDevice → Option DeviceStatus → Option DeviceStatus
last_status name [] o = o
last_status name (d ∷ ds) o =
    last_status name ds (if str_eq d.name name then some (status_of d) else o)

lookup-add_devices :
    (name : String) (ds : List MigrateToDevice) (m : Dict DeviceStatus)
    → lookup name (add_devices ds m) ≡ last_status name ds (lookup name m)
unfolding add_devices
lookup-add_devices name [] m = refl
lookup-add_devices name (d ∷ ds) m =
    lookup-add_devices name ds (insert d.name (status_of d) m)
    ∙ ap (last_status name ds) (lookup-insert name d.name (status_of d) m)

-- The devices that `MigrateToPipe` hands to the dirty manager are those of the list, each with the
-- status by its last entry there.
pub lookup-dirty_devices :
    (name : String) (ds : List MigrateToDevice)
    → lookup name (dirty_devices ds) ≡ last_status name ds none
lookup-dirty_devices name ds = lookup-add_devices name ds []

-- The entries are of distinct names and nothing has happened to them.
abbrev IsUnset : String × DeviceStatus → Type 0
IsUnset e =
    (e.1.ready ≡ false)
    × (e.1.ready_and_sent_dirty ≡ false)
    × (e.1.suspended_at_pre_get_dirty ≡ false)

Distinct-insert :
    (k : String) (v : DeviceStatus) (m : Dict DeviceStatus) → Distinct m → Distinct (insert k v m)
Distinct-insert k v [] h = (refl, tt)
Distinct-insert k v ((j, w) ∷ m) h = elim (Bool-cases (str_eq j k)) [
  | inl same ↦ rw same (ground (arith, eq_iff j k, h.0), h.1)
  | inr other ↦ rw other (
    ground (arith, lookup-insert j k v m, eq_iff j k, eq_iff k j, h.0),
    Distinct-insert k v m h.1,
  )
]

All-insert :
    (k : String) (v : DeviceStatus) (m : Dict DeviceStatus)
    → IsUnset (k, v)
    → All IsUnset m
    → All IsUnset (insert k v m)
All-insert k v [] new old = (new, tt)
All-insert k v ((j, w) ∷ m) new old = elim (Bool-cases (str_eq j k)) [
  | inl same ↦ rw same (new, old.1)
  | inr other ↦ rw other (old.0, All-insert k v m new old.1)
]

Distinct-add_devices :
    (ds : List MigrateToDevice) (m : Dict DeviceStatus) → Distinct m → Distinct (add_devices ds m)
unfolding add_devices
Distinct-add_devices [] m h = h
Distinct-add_devices (d ∷ ds) m h =
    Distinct-add_devices ds _ (Distinct-insert d.name (status_of d) m h)

All-add_devices :
    (ds : List MigrateToDevice) (m : Dict DeviceStatus)
    → All IsUnset m
    → All IsUnset (add_devices ds m)
unfolding add_devices
All-add_devices [] m h = h
All-add_devices (d ∷ ds) m h =
    All-add_devices ds _ (All-insert d.name (status_of d) m (refl, refl, refl) h)

-- What `MigrateToPipe` makes of a manager that is consistent and has transferred nothing is fresh.
dirty_devices-IsFresh :
    (sm : VmStateMgr) (ds : List MigrateToDevice)
    → IsConsistent sm
    → transfers sm ≡ 0
    → IsFresh sm (dirty_devices ds)
dirty_devices-IsFresh sm ds consistent none_yet = record {
  consistent = consistent;
  untransferred = none_yet;
  distinct = Distinct-add_devices ds [] tt;
  unset = All-add_devices ds [] tt;
}

after_segment :
    (cb : Callbacks) (seg : Segment) (segs : List Segment) (dm dm' : DirtyManager)
    (m : Outcome DirtyManager)
    → run_segment cb seg dm ≡ m
    → (m >>= run_segments cb segs) ≡ returned dm'
    → (mid : DirtyManager) × (run_segment cb seg dm ≡ returned mid)
      × (run_segments cb segs mid ≡ returned dm')
after_segment cb seg segs dm dm' (returned mid) e h = (mid, e, h)
after_segment cb seg segs dm dm' (panicked p) e h = absurd (ground (arith, h))

module _ (cb : Callbacks) {start : DirtyManager} where
  run_segments-Reach :
      (segs : List Segment) {dm dm' : DirtyManager}
      → Reach cb start dm
      → run_segments cb segs dm ≡ returned dm'
      → Reach cb start dm'
  unfolding run_segments
  run_segments-Reach [] r h = subst (Reach cb start) (ground (arith, h)) r
  run_segments-Reach (seg ∷ segs) {dm} {dm'} r h =
      let (mid, e, rest) = after_segment cb seg segs dm dm' (run_segment cb seg dm) refl h in
      run_segments-Reach segs (next seg r e) rest

ran :
    (m : Outcome DirtyManager) (rest : DirtyManager → Moved) (moved : Moved)
    → (m >>= λ dm. returned (rest dm)) ≡ returned moved
    → (dm : DirtyManager) × (m ≡ returned dm) × (rest dm ≡ moved)
ran (returned dm) rest moved h = (dm, refl, ground (arith, h))
ran (panicked p) rest moved h = absurd (ground (arith, h))

module _ (cb : Callbacks) (reply : Oracle MoveCall) (segs : List Segment) (sm : VmStateMgr)
    (devices : List MigrateToDevice) where
  -- What `MigrateToPipe` does when the first calls have succeeded.
  abbrev finished : DirtyManager → Moved
  finished dm =
      let done = run_script reply finish_steps (run_script reply move_steps []).calls in
      record { error = done.error; manager = dm; calls = done.calls }

  moved-Reach :
      (moved : Moved)
      → migrate_to_pipe cb reply segs sm devices ≡ returned moved
      → Reach cb (new_dirty_manager sm (dirty_devices devices)) moved.manager
  unfolding migrate_to_pipe
  moved-Reach moved e = elim (Bool-cases (failed (run_script reply move_steps []).error)) [
    | inl bad ↦
        subst (Reach cb (new_dirty_manager sm (dirty_devices devices))) (ground (arith, bad, e))
          here
    | inr good ↦
        let (dm, h, same) =
          ran (run_segments cb segs (new_dirty_manager sm (dirty_devices devices))) finished moved
            (ground (arith, good, e)) in
        subst (λ m. Reach cb (new_dirty_manager sm (dirty_devices devices)) m.manager) same
          (run_segments-Reach cb segs here h)
  ]

-- A manager that is consistent and has transferred nothing is handed to `MigrateToPipe`. In whatever
-- order Silo runs the handlers and whatever the calls return: when it has returned, either authority
-- was not transferred; or it was transferred once, and the VM is suspended and each device has sent
-- what was dirty.
pub migrate_to_pipe_authority :
    (cb : Callbacks) (reply : Oracle MoveCall) (segs : List Segment) (sm : VmStateMgr)
    (devices : List MigrateToDevice) (moved : Moved)
    → IsConsistent sm
    → transfers sm ≡ 0
    → migrate_to_pipe cb reply segs sm devices ≡ returned moved
    → (transfers moved.manager.vm_state ≡ 0)
      ⊎ ((transfers moved.manager.vm_state ≡ 1)
          × (moved.manager.vm_state.suspended ≡ true)
          × All (λ e. e.1.ready_and_sent_dirty ≡ true) moved.manager.devices)
migrate_to_pipe_authority cb reply segs sm devices moved consistent none_yet e =
    elim (authority_transfer_once cb sm (dirty_devices devices)
      (dirty_devices-IsFresh sm devices consistent none_yet)
      (moved-Reach cb reply segs sm devices moved e)) [
        | inl early ↦ inl early
        | inr (once, suspended, done, sent) ↦
            inr (once, suspended, All-map _ _ (λ entry h. h.1) moved.manager.devices sent)
      ]
