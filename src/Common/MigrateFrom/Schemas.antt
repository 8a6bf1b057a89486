-- ===== src/Common/MigrateFrom/Schemas.antt =====
-- `CreateSiloDevSchema` and `CreateIncomingSiloDevSchema` of pkg/common/migrations.go.
use drafter.Base.{
  ℕ, Bool, true, false, ◌||◌, List, [], ◌∷◌, String, Option, none, some, if◌then◌else◌, str_eq,
  is_empty, length, ◌==◌,
}
use drafter.Base.Text.{Text, codes, split, trim_space, decimal}
use drafter.Errors.{MigrationError}
use drafter.Script.{Oracle}
use drafter.Action.{Action, ◌⨾◌, done, call, set_state}
use drafter.Common.MigrateFrom.{
  MigrateFromDevice, SyncSchema, CowOverlay, DeviceSchema, MigrationCall, stat_file, make_dir,
  because,
}

-- `OverlaySep`
abbrev pub overlay_sep : ℕ
overlay_sep = b' '

abbrev pub SchemaAction : Type 0
SchemaAction = Action MigrationCall DeviceSchema

-- The schema as it is made first, of the size of the base.
abbrev pub base_schema : MigrateFromDevice → ℕ → DeviceSchema
base_schema i size = record {
  name = i.name;
  block_size = decimal i.block_size;
  size = decimal size;
  expose = true;
  system = "file";
  location = i.base;
  any_order = i.any_order;
  sync = none;
  write_cache = none;
  ro_source_shared = false;
  ro_source = none;
}

abbrev pub overlay_of : MigrateFromDevice → Text → Text → CowOverlay
overlay_of i overlay state = record {
  system = if i.use_sparse_file then "sparsefile" else "file";
  location = overlay;
  shared = i.shared_base;
  name = state;
}

abbrev pub sync_of : MigrateFromDevice → Bool → SyncSchema
sync_of i shared = record {
  access_key = i.s3_access_key;
  secret_key = i.s3_secret_key;
  endpoint = i.s3_endpoint;
  secure = i.s3_secure;
  bucket = i.s3_bucket;
  prefix = i.s3_prefix;
  grab_prefix = i.s3_prefix;
  auto_start = true;
  grab_concurrency = i.s3_concurrency;
  only_dirty = if shared then true else i.s3_only_dirty;
  block_shift = i.s3_block_shift;
  max_age = i.s3_max_age;
  min_changed = i.s3_min_changed;
  limit = i.s3_limit;
  check_period = i.s3_check_period;
  concurrency = i.s3_concurrency;
}

-- What is set once the overlays are in: the sync and the write cache.
abbrev pub finish_schema : MigrateFromDevice → DeviceSchema → DeviceSchema
finish_schema i ds = record ds {
  sync = if i.s3_sync then some (sync_of i ds.ro_source_shared) else ds.sync;
  write_cache =
      if i.use_write_cache
      then some (i.write_cache_min, i.write_cache_max, "5m")
      else ds.write_cache;
}

module _ (reply : Oracle MigrationCall) (stat_size : String → ℕ)
    (add_overlay : CowOverlay → DeviceSchema → DeviceSchema) where
  -- The loop over the overlays, each with its state.
  unfoldable pub add_overlays : MigrateFromDevice → List Text → List Text → SchemaAction
  add_overlays i [] states = done
  add_overlays i (overlay ∷ overlays) [] = done
  add_overlays i (overlay ∷ overlays) (state ∷ states) =
      call reply (make_dir overlay) (because MigrationError.could_not_create_overlay_directory)
      ⨾ call reply (make_dir state) (because MigrationError.could_not_create_state_directory)
      ⨾ set_state (add_overlay (overlay_of i overlay state))
      ⨾ add_overlays i overlays states

  -- Texts that are not as many of each are refused.
  unfoldable pub use_overlays : MigrateFromDevice → List Text → List Text → SchemaAction
  use_overlays i overlays states =
      if length overlays == length states
      then add_overlays i overlays states
      else (λ w. (because MigrationError.could_not_use_overlays, w))

  -- `CreateSiloDevSchema`: the schema is what is left of any.
  unfoldable pub create_silo_dev_schema : MigrateFromDevice → SchemaAction
  create_silo_dev_schema i =
      call reply (stat_file i.base) (because MigrationError.could_not_get_base_device_stat)
      ⨾ call reply (make_dir (codes i.base))
          (because MigrationError.could_not_create_device_directory)
      ⨾ set_state (λ ds. base_schema i (stat_size i.base))
      ⨾ (if str_eq i.overlay ""
          then done
          else use_overlays i (split overlay_sep (codes i.overlay))
              (split overlay_sep (codes i.state)))
      ⨾ set_state (finish_schema i)

-- `ds.Sync.AutoStart = false`, which is written to the schema that came in too: both have one pointer.
abbrev pub stop_auto_start : Option SyncSchema → Option SyncSchema
stop_auto_start none = none
stop_auto_start (some s) = some (record s { auto_start = false })

-- Whether a text is blank.
unfoldable pub is_blank : String → Bool
is_blank s = is_empty (trim_space (codes s))

abbrev pub incoming_base : MigrateFromDevice → DeviceSchema → DeviceSchema
incoming_base i schema = record {
  name = i.name;
  block_size = schema.block_size;
  size = schema.size;
  expose = true;
  system = "file";
  location = i.base;
  any_order = i.any_order;
  sync = stop_auto_start schema.sync;
  write_cache = none;
  ro_source_shared = false;
  ro_source = none;
}

abbrev pub incoming_overlay : MigrateFromDevice → DeviceSchema → DeviceSchema
incoming_overlay i schema = record (incoming_base i schema) {
  location = i.overlay;
  system = if i.use_sparse_file then "sparsefile" else "file";
  ro_source_shared = i.shared_base;
  ro_source =
      some (record { name = i.state; system = "file"; location = i.base; size = schema.size });
}

module _ (reply : Oracle MigrationCall) where
  -- `CreateIncomingSiloDevSchema`, of the schema that came in; the state is the one that is made.
  unfoldable pub create_incoming_silo_dev_schema : MigrateFromDevice → DeviceSchema → SchemaAction
  create_incoming_silo_dev_schema i schema =
      if is_blank i.overlay || is_blank i.state
      then call reply (make_dir (codes i.base))
          (because MigrationError.could_not_create_device_directory)
        ⨾ set_state (λ ds. incoming_base i schema)
      else (call reply (make_dir (codes i.overlay))
            (because MigrationError.could_not_create_overlay_directory)
          ⨾ call reply (make_dir (codes i.state))
              (because MigrationError.could_not_create_state_directory)
          ⨾ set_state (λ ds. incoming_overlay i schema))
