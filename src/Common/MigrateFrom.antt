-- ===== src/Common/MigrateFrom.antt =====
-- The other migrations of pkg/common/migrations.go: the schemas of devices, `MigrateFromFS` and
-- `MigrateFromPipe`. What the system and Silo return is an argument; so are the size of a file and what
-- adding an overlay makes of a schema, which is a method of Silo.
pub mod Schemas
pub mod Files
pub mod Pipe
pub mod Handed
pub mod Exposed
mod Examples
use drafter.Base.{ℕ, Bool, List, [], ◌∷◌, String, Option, if◌then◌else◌, str_eq}
use drafter.Base.Text.{Text}
use drafter.Errors.{GoError, nil, Cause, MigrationError}
use drafter.Script.{Oracle}
use drafter.Action.{Action, ◌⨾◌, done, call, tested}

pub record MigrateFromDevice : Type 0 where
  pub name : String
  pub base : String
  pub overlay : String
  pub state : String
  pub block_size : ℕ
  pub shared : Bool
  pub use_sparse_file : Bool
  pub any_order : Bool
  pub use_write_cache : Bool
  pub write_cache_min : String
  pub write_cache_max : String
  pub write_cache_blocksize : String
  pub shared_base : Bool
  pub skip_silo : Bool
  pub s3_sync : Bool
  pub s3_access_key : String
  pub s3_secret_key : String
  pub s3_endpoint : String
  pub s3_secure : Bool
  pub s3_bucket : String
  pub s3_concurrency : ℕ
  pub s3_prefix : String
  pub s3_only_dirty : Bool
  pub s3_block_shift : ℕ
  pub s3_max_age : String
  pub s3_min_changed : ℕ
  pub s3_limit : ℕ
  pub s3_check_period : String

-- `config.SyncS3Schema` of Silo, with its `config.SyncConfigSchema`.
pub record SyncSchema : Type 0 where
  pub access_key : String
  pub secret_key : String
  pub endpoint : String
  pub secure : Bool
  pub bucket : String
  pub prefix : String
  pub grab_prefix : String
  pub auto_start : Bool
  pub grab_concurrency : ℕ
  pub only_dirty : Bool
  pub block_shift : ℕ
  pub max_age : String
  pub min_changed : ℕ
  pub limit : ℕ
  pub check_period : String
  pub concurrency : ℕ

-- `config.CowOverlay`
pub record CowOverlay : Type 0 where
  pub system : String
  pub location : Text
  pub shared : Bool
  pub name : Text

-- The source of a schema that is only read: its name, location and size.
pub record ReadOnlySource : Type 0 where
  pub name : String
  pub system : String
  pub location : String
  pub size : Text

-- `config.DeviceSchema`, as far as it is set here.
pub record DeviceSchema : Type 0 where
  pub name : String
  pub block_size : Text
  pub size : Text
  pub expose : Bool
  pub system : String
  pub location : String
  -- whether `Migration` is set, with `AnyOrder`
  pub any_order : Bool
  pub sync : Option SyncSchema
  -- `WriteCache`: the least and the greatest size, and the period
  pub write_cache : Option (String × String × String)
  pub ro_source_shared : Bool
  pub ro_source : Option ReadOnlySource

pub data MigrationCall : Type 0 where
  stat_file : String → MigrationCall
  -- the directory of a file
  make_dir : Text → MigrationCall
  -- whether the information on a device has its number
  device_number : String → MigrationCall
  -- of a name in the directory of the VM
  make_node : String → MigrationCall
  -- with the schemas
  new_from_schema : List DeviceSchema → MigrationCall
  new_from_protocol : MigrationCall
  -- the steps of a copy that takes the place of Silo, by the name of the device
  open_source open_target copy_content close_source close_target : String → MigrationCall
  -- the authority was transferred, or the context has ended
  await_ready : MigrationCall

abbrev pub because : MigrationError → GoError
because e = Cause.migration e ∷ []

module _ {S : Type 0} (reply : Oracle MigrationCall) where
  -- `ExposeSiloDeviceAsFile`
  unfoldable pub expose_silo_device_as_file : String → String → String → Action MigrationCall S
  expose_silo_device_as_file vm_path name device_path =
      if str_eq vm_path ""
      then done
      else (call reply (stat_file device_path)
            (because MigrationError.could_not_get_base_device_stat)
          ⨾ tested reply (device_number device_path)
              (because MigrationError.could_not_get_nbd_device_stat)
          ⨾ call reply (make_node name) (because MigrationError.could_not_create_device_node))
