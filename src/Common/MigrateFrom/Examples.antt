-- ===== src/Common/MigrateFrom/Examples.antt =====
-- A device with one overlay that a VM gets through Silo, where every call succeeds.
use drafter.Base.{ℕ, Bool, true, false, List, [], ◌∷◌, ◌++◌, map, reverse, String, none, ◌≡◌, refl}
use drafter.Base.Text.{split}
use drafter.Errors.{nil}
use drafter.Script.{Oracle}
use drafter.Action.{World, ◌⨾◌, doing, tested, done, by_state, set_state, making}
use drafter.Action.Laws.{milestones}
use drafter.Common.MigrateFrom.{
  MigrateFromDevice, CowOverlay, DeviceSchema, MigrationCall, new_from_schema, make_node,
  new_from_protocol, await_ready, expose_silo_device_as_file,
}
use drafter.Common.MigrateFrom.Schemas.{add_overlays, use_overlays, create_silo_dev_schema}
use drafter.Common.MigrateFrom.Files.{FromFs, migrate_from_fs, gather, collect, place, copy_over}
use drafter.Common.MigrateFrom.Handed.{handed, shared_names, noted_skips, places, placed}
use drafter.Common.MigrateFrom.Handed.Complete.{migrate_from_fs-handed}
use drafter.Common.MigrateFrom.Pipe.{GroupDevice, migrate_from_pipe, expose_all}
use drafter.Common.MigrateFrom.Exposed.{exposed_names, migrate_from_pipe-exposed}

abbrev obliging : Oracle MigrationCall
obliging log c = nil

abbrev mebibyte_each : String → ℕ
mebibyte_each path = 1048576

-- A schema whose location becomes the source that is only read.
abbrev put_over : CowOverlay → DeviceSchema → DeviceSchema
put_over overlay ds = record ds { ro_source_shared = overlay.shared }

abbrev device : String → Bool → MigrateFromDevice
device name shared = record {
  name = name;
  base = "base";
  overlay = "overlay";
  state = "state";
  block_size = 4096;
  shared = shared;
  use_sparse_file = true;
  any_order = false;
  use_write_cache = false;
  write_cache_min = "";
  write_cache_max = "";
  write_cache_blocksize = "";
  shared_base = true;
  skip_silo = false;
  s3_sync = false;
  s3_access_key = "";
  s3_secret_key = "";
  s3_endpoint = "";
  s3_secure = false;
  s3_bucket = "";
  s3_concurrency = 0;
  s3_prefix = "";
  s3_only_dirty = false;
  s3_block_shift = 0;
  s3_max_age = "";
  s3_min_changed = 0;
  s3_limit = 0;
  s3_check_period = "";
}

abbrev fresh : World MigrationCall FromFs
fresh = record { calls = []; state = record { schemas = []; skip_silos = [] } }

abbrev nbd : String → String
nbd name = "/dev/nbd0"

abbrev two_devices : List MigrateFromDevice
two_devices = device "disk" false ∷ device "kernel" true ∷ []

migrate_from_fs-handed_example :
    milestones places
      (migrate_from_fs obliging mebibyte_each put_over none "vm" nbd two_devices fresh).1.calls
    ≡ reverse (
        map
          (placed (noted_skips two_devices []))
          (handed put_over mebibyte_each none 0 two_devices))
      ++ (new_from_schema (handed put_over mebibyte_each none 0 two_devices)
          ∷ (reverse (map make_node (shared_names two_devices)) ++ milestones places fresh.calls))
unfolding migrate_from_fs gather collect place copy_over create_silo_dev_schema use_overlays
    add_overlays expose_silo_device_as_file ◌⨾◌ doing tested done by_state set_state making split
migrate_from_fs-handed_example =
    migrate_from_fs-handed obliging mebibyte_each put_over none "vm" nbd refl two_devices fresh refl
      refl refl

-- A group of a disk, which is exposed, and a state, which is not.
abbrev group : List GroupDevice
group = record { name = "disk"; exposed = true } ∷ record { name = "state"; exposed = false } ∷ []

abbrev no_calls : World MigrationCall Unit
no_calls = record { calls = []; state = tt }

migrate_from_pipe-exposed_example :
    milestones places (migrate_from_pipe obliging "vm" nbd group no_calls).1.calls
    ≡ await_ready
      ∷ (reverse (map make_node (exposed_names group))
          ++ (new_from_protocol ∷ milestones places no_calls.calls))
unfolding migrate_from_pipe expose_all expose_silo_device_as_file ◌⨾◌ doing tested done
migrate_from_pipe-exposed_example =
    migrate_from_pipe-exposed obliging "vm" nbd refl group no_calls refl
