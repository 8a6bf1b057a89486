-- ===== src/Common/MigrateFrom/Files.antt =====
-- `MigrateFromFS` of pkg/common/migrations.go.
use drafter.Base.{
  ℕ, suc, Bool, false, List, [], ◌∷◌, ◌++◌, String, Option, none, some, if◌then◌else◌,
}
use drafter.Base.Dict.{Dict, insert, lookup}
use drafter.Errors.{nil}
use drafter.Script.{Oracle}
use drafter.Action.{Action, ◌⨾◌, done, call, by_state, set_state, making}
use drafter.Common.MigrateFrom.{
  MigrateFromDevice, CowOverlay, DeviceSchema, MigrationCall, expose_silo_device_as_file,
  new_from_schema, open_source, open_target, copy_content, close_source, close_target,
}
use drafter.Common.MigrateFrom.Schemas.{create_silo_dev_schema}

-- The tweak of a schema by its index and its name, if there is one.
abbrev pub Tweak : Type 0
Tweak = Option (ℕ → String → DeviceSchema → DeviceSchema)

abbrev pub tweaked : Tweak → ℕ → String → DeviceSchema → DeviceSchema
tweaked none n name ds = ds
tweaked (some f) n name ds = f n name ds

pub record FromFs : Type 0 where
  -- the schemas, in the order of the devices
  pub schemas : List DeviceSchema
  pub skip_silos : Dict Bool

-- A schema of which nothing is set.
abbrev pub no_schema : DeviceSchema
no_schema = record {
  name = "";
  block_size = [];
  size = [];
  expose = false;
  system = "";
  location = "";
  any_order = false;
  sync = none;
  write_cache = none;
  ro_source_shared = false;
  ro_source = none;
}

abbrev pub add_schema : Tweak → ℕ → String → DeviceSchema → FromFs → FromFs
add_schema tweak n name ds s = record s { schemas = s.schemas ++ tweaked tweak n name ds ∷ [] }

-- `skipSilos[input.Name] = input.SkipSilo`
abbrev pub note_skip : MigrateFromDevice → FromFs → FromFs
note_skip d s = record s { skip_silos = insert d.name d.skip_silo s.skip_silos }

-- `skipSilos[name]`, false where it has none.
abbrev pub skips : Dict Bool → String → Bool
skips m name = elim (lookup name m) [ none ↦ false | some b ↦ b ]

module _ (reply : Oracle MigrationCall) (stat_size : String → ℕ)
    (add_overlay : CowOverlay → DeviceSchema → DeviceSchema) (tweak : Tweak) (vm_path : String)
    (device_path : String → String) where
  -- The loop over the devices, from an index on.
  unfoldable pub collect : ℕ → List MigrateFromDevice → Action MigrationCall FromFs
  collect n [] = done
  collect n (d ∷ ds) =
      set_state (note_skip d)
      ⨾ (if d.shared
          then expose_silo_device_as_file reply vm_path d.name d.base
          else making no_schema (add_schema tweak n d.name)
              (create_silo_dev_schema reply stat_size add_overlay d))
      ⨾ collect (suc n) ds

  -- A device that goes without Silo is copied.
  unfoldable pub copy_over : String → Action MigrationCall FromFs
  copy_over name =
      call reply (open_source name) nil
      ⨾ call reply (open_target name) nil
      ⨾ call reply (copy_content name) nil
      ⨾ call reply (close_source name) nil
      ⨾ call reply (close_target name) nil

  -- The loop over the schemas, once Silo has its devices.
  unfoldable pub place : Dict Bool → List DeviceSchema → Action MigrationCall FromFs
  place m [] = done
  place m (ds ∷ rest) =
      (if skips m ds.name
        then copy_over ds.name
        else expose_silo_device_as_file reply vm_path ds.name (device_path ds.name))
      ⨾ place m rest

  -- `MigrateFromFS` until Silo has made the group of all schemas.
  unfoldable pub gather : List MigrateFromDevice → Action MigrationCall FromFs
  gather devices = collect 0 devices ⨾ by_state (λ s. call reply (new_from_schema s.schemas) nil)

  -- `MigrateFromFS`, from no schemas on.
  unfoldable pub migrate_from_fs : List MigrateFromDevice → Action MigrationCall FromFs
  migrate_from_fs devices = gather devices ⨾ by_state (λ s. place s.skip_silos s.schemas)
