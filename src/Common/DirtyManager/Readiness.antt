-- ===== src/Common/DirtyManager/Readiness.antt =====
-- The invariant of pkg/common/dirty_manager.go, and the two marks on a device.
use drafter.Base.{
  ◌⊎◌, suc, Bool, true, false, List, [], ◌∷◌, String, some, ◌≡◌, refl, arith, count, length, All,
  if◌then◌else◌, Bool-cases, inl, inr, ap, sym, ◌∙◌, ◌⊎◌, eq_refl, eq_iff,
}
use drafter.Base.Dict.{Dict, lookup, modify, contains, Distinct}
use drafter.Base.Dict.Laws.{
  All-modify, All-lookup, Distinct-modify, count-modify_on, count-modify_same,
}
use drafter.Common.VmState.Laws.{IsConsistent, transfers}
use drafter.Common.DirtyManager.{
  DeviceStatus, DirtyManager, mark_device_ready, all_sent, set_ready, set_sent,
}

-- What holds of one device: `ReadyDevices` has its key exactly when it is ready; the flags taken at
-- a suspended VM are only set when the VM is suspended; and what was done for all devices was done
-- when this one was ready, or had sent its dirty blocks.
pub record IsSoundDevice (suspended suspend_completed transferred : Bool)
    (ready_devices : List String) (entry : String × DeviceStatus) : Type 0 where
  pub listed : contains entry.0 ready_devices ≡ entry.1.ready
  pub noted : (entry.1.suspended_at_pre_get_dirty ≡ false) ⊎ (suspended ≡ true)
  pub sent : (entry.1.ready_and_sent_dirty ≡ false) ⊎ ((suspended ≡ true) × (entry.1.ready ≡ true))
  pub completed : (suspend_completed ≡ false) ⊎ (entry.1.ready ≡ true)
  pub transfer : (transferred ≡ false) ⊎ (entry.1.ready_and_sent_dirty ≡ true)

abbrev pub is_ready : DeviceStatus → Bool
is_ready di = di.ready

pub record IsSound (dm : DirtyManager) : Type 0 where
  pub consistent : IsConsistent dm.vm_state
  pub closed : dm.suspend_done_closed ≡ dm.suspend_completed
  pub distinct : Distinct dm.devices
  pub counted : length dm.ready_devices ≡ count (λ e. is_ready e.1) dm.devices
  pub sound :
      All
        (IsSoundDevice dm.vm_state.suspended dm.suspend_completed dm.authority_transfer_completed
          dm.ready_devices)
        dm.devices
  pub transferred : transfers dm.vm_state ≡ (if dm.authority_transfer_completed then 1 else 0)
  pub permitted :
      (dm.authority_transfer_completed ≡ false)
      ⊎ ((dm.suspend_completed ≡ true) × (dm.vm_state.suspended ≡ true))

module _ (dm : DirtyManager) (v : IsSound dm) (name : String) where
  abbrev Sound : List String → String × DeviceStatus → Type 0
  Sound = IsSoundDevice dm.vm_state.suspended dm.suspend_completed dm.authority_transfer_completed

  module _ (di : DeviceStatus) (found : lookup name dm.devices ≡ some di) where
    unlisted : di.ready ≡ false → contains name dm.ready_devices ≡ false
    unlisted new = (All-lookup _ name dm.devices v.sound found).listed ∙ new

    -- A device that was not ready joins those that are.
    listed-IsSound :
        di.ready ≡ false
        → IsSound (record dm {
          devices = modify name set_ready dm.devices;
          ready_devices = name ∷ dm.ready_devices;
        })
    listed-IsSound new = record {
      consistent = v.consistent;
      closed = v.closed;
      distinct = Distinct-modify name set_ready dm.devices v.distinct;
      counted =
          ap suc v.counted
          ∙ sym (count-modify_on is_ready name set_ready di dm.devices found new refl);
      sound =
          All-modify (Sound dm.ready_devices) (Sound (name ∷ dm.ready_devices)) name set_ready
            dm.devices v.distinct v.sound (λ d e s. ground (arith, eq_refl name))
            (λ j d e s. ground (arith, eq_iff j name, eq_iff name j));
      transferred = v.transferred;
      permitted = v.permitted;
    }

    -- `markDeviceReady` keeps the invariant.
    pub mark_device_ready-IsSound : IsSound (mark_device_ready name di dm)
    unfolding mark_device_ready
    mark_device_ready-IsSound = elim (Bool-cases di.ready) [
      | inl old ↦ rw old v
      | inr new ↦ rw (new, unlisted new) (listed-IsSound new)
    ]

  -- A write that leaves the flags alone, or notes the suspension as it stands.
  pub write-IsSound :
      (f : DeviceStatus → DeviceStatus)
      → ((d : DeviceStatus)
          → ((f d).ready ≡ d.ready)
            × ((f d).ready_and_sent_dirty ≡ d.ready_and_sent_dirty)
            × ((f d).suspended_at_pre_get_dirty ≡ true
                → (d.suspended_at_pre_get_dirty ≡ true) ⊎ (dm.vm_state.suspended ≡ true)))
      → IsSound (record dm { devices = modify name f dm.devices })
  write-IsSound f same = record {
    consistent = v.consistent;
    closed = v.closed;
    distinct = Distinct-modify name f dm.devices v.distinct;
    counted = v.counted ∙ sym (count-modify_same is_ready name f dm.devices (λ d. (same d).0));
    sound =
        All-modify (Sound dm.ready_devices) (Sound dm.ready_devices) name f dm.devices v.distinct
          v.sound (λ d e s. ground (arith, same d)) (λ j d e s. s);
    transferred = v.transferred;
    permitted = v.permitted;
  }

  -- On a suspended VM a listed device may have sent its dirty blocks.
  pub sent-IsSound :
      dm.vm_state.suspended ≡ true
      → contains name dm.ready_devices ≡ true
      → IsSound (record dm { devices = modify name set_sent dm.devices })
  sent-IsSound suspended has = record {
    consistent = v.consistent;
    closed = v.closed;
    distinct = Distinct-modify name set_sent dm.devices v.distinct;
    counted = v.counted ∙ sym (count-modify_same is_ready name set_sent dm.devices (λ d. refl));
    sound =
        All-modify (Sound dm.ready_devices) (Sound dm.ready_devices) name set_sent dm.devices
          v.distinct v.sound (λ d e s. ground arith) (λ j d e s. s);
    transferred = v.transferred;
    permitted = v.permitted;
  }

-- The loop over all devices passes only if all are ready and have sent their dirty blocks.
pub all_sent-All :
    (ds : Dict DeviceStatus)
    → all_sent ds ≡ true
    → All (λ e. (e.1.ready ≡ true) × (e.1.ready_and_sent_dirty ≡ true)) ds
unfolding all_sent
all_sent-All [] h = tt
all_sent-All ((k, di) ∷ ds) h = ground (arith, all_sent-All ds)
