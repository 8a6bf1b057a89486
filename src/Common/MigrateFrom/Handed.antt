-- ===== src/Common/MigrateFrom/Handed.antt =====
-- What `MigrateFromFS` of pkg/common/migrations.go has handed to Silo, and where each device has gone, when
-- it returns nil: the reference definitions, which call no function that models the code.
pub mod Left
pub mod Reached
pub mod Complete
use mathlib.Core.List.{append_assoc, append-nil, reverse-cons}
use drafter.Base.{
  ℕ, suc, Bool, true, false, ◌||◌, Option, none, some, List, [], ◌∷◌, ◌++◌, map, reverse, String,
  if◌then◌else◌, str_eq, length, ◌==◌, ◌≡◌, refl, ap, ◌∙◌, sym, subst, arith, Bool-cases, inl, inr,
}
use drafter.Base.Dict.{Dict, insert, lookup}
use drafter.Base.Text.{decimal, Text, codes, split}
use drafter.Errors.{GoError, nil, failed}
use drafter.Script.{Oracle}
use drafter.Action.{World, Action, ◌⨾◌, done, call, by_state, set_state, making}
use drafter.Action.Laws.{
  milestones, Reaches, Reaches-done, Reaches-set_state, Reaches-seq, Reaches-skip, Reaches-doing,
  Reaches-Quiet, Quiet-tested, Reaches-never, Reaches-if, Reaches-making,
}
use drafter.Action.Effects.{
  Leaves, Leaves-done, Leaves-set_state, Leaves-seq, Leaves-doing, Leaves-tested, Leaves-never,
  Leaves-branch, Leaves-if, Leaves-making,
}
use drafter.Common.MigrateFrom.{
  MigrateFromDevice, SyncSchema, CowOverlay, DeviceSchema, MigrationCall,
  expose_silo_device_as_file, new_from_schema, new_from_protocol, await_ready, make_node,
  copy_content,
}
use drafter.Common.MigrateFrom.Schemas.{create_silo_dev_schema}
use drafter.Common.MigrateFrom.Files.{
  Tweak, FromFs, no_schema, add_schema, note_skip, skips, collect, copy_over, place, gather,
  migrate_from_fs,
}

-- What the device with a base of a size is described as, field by field.
abbrev pub described : MigrateFromDevice → ℕ → DeviceSchema
described i size = record {
  name = i.name;
  block_size = decimal i.block_size;
  size = decimal size;
  expose = true;
  system = "file";
  location = i.base;
  any_order = i.any_order;
  sync = none;
  write_cache = none;
  ro_source_shared = false;
  ro_source = none;
}

-- The sync of a device starts by itself, and sends only what is dirty where the source below is shared.
abbrev pub synced : MigrateFromDevice → Bool → SyncSchema
synced i shared = record {
  access_key = i.s3_access_key;
  secret_key = i.s3_secret_key;
  endpoint = i.s3_endpoint;
  secure = i.s3_secure;
  bucket = i.s3_bucket;
  prefix = i.s3_prefix;
  grab_prefix = i.s3_prefix;
  auto_start = true;
  grab_concurrency = i.s3_concurrency;
  only_dirty = i.s3_only_dirty || shared;
  block_shift = i.s3_block_shift;
  max_age = i.s3_max_age;
  min_changed = i.s3_min_changed;
  limit = i.s3_limit;
  check_period = i.s3_check_period;
  concurrency = i.s3_concurrency;
}

-- The sync and the write cache, where the device asks for one.
abbrev pub with_sync : MigrateFromDevice → DeviceSchema → DeviceSchema
with_sync i ds = if i.s3_sync then record ds { sync = some (synced i ds.ro_source_shared) } else ds

abbrev pub with_write_cache : MigrateFromDevice → DeviceSchema → DeviceSchema
with_write_cache i ds =
    if i.use_write_cache
    then record ds { write_cache = some (i.write_cache_min, i.write_cache_max, "5m") }
    else ds

-- Texts side by side, as far as both lists go.
abbrev pub side_by_side : List Text → List Text → List (Text × Text)
side_by_side [] ys = []
side_by_side (x ∷ xs) [] = []
side_by_side (x ∷ xs) (y ∷ ys) = (x, y) ∷ side_by_side xs ys

-- What the tweak makes of a schema, where there is one.
abbrev pub adjusted : Tweak → ℕ → String → DeviceSchema → DeviceSchema
adjusted tweak n name ds = elim tweak [ none ↦ ds | some f ↦ f n name ds ]

-- The overlays of a device with their states, each put over the schema before it.
module _ (add_overlay : CowOverlay → DeviceSchema → DeviceSchema) where
  unfoldable pub overlaid : MigrateFromDevice → List (Text × Text) → DeviceSchema → DeviceSchema
  overlaid i [] ds = ds
  overlaid i ((location, state) ∷ rest) ds = overlaid i rest (
      add_overlay
        (record {
          system = if i.use_sparse_file then "sparsefile" else "file";
          location = location;
          shared = i.shared_base;
          name = state;
        })
        ds)

  -- The schema of a device whose base has a size.
  unfoldable pub schema_of : (String → ℕ) → MigrateFromDevice → DeviceSchema
  unfolding overlaid
  schema_of stat_size i = with_write_cache i (
      with_sync i (
        overlaid i
          (if str_eq i.overlay ""
            then []
            else side_by_side (split b' ' (codes i.overlay)) (split b' ' (codes i.state)))
          (described i (stat_size i.base))))

  -- The schemas of the devices that are not shared, in order, from an index on.
  unfoldable pub handed : (String → ℕ) → Tweak → ℕ → List MigrateFromDevice → List DeviceSchema
  handed stat_size tweak n [] = []
  handed stat_size tweak n (d ∷ ds) =
      if d.shared
      then handed stat_size tweak (suc n) ds
      else adjusted tweak n d.name (schema_of stat_size d) ∷ handed stat_size tweak (suc n) ds

-- The names of the devices that are shared.
abbrev pub shared_names : List MigrateFromDevice → List String
shared_names [] = []
shared_names (d ∷ ds) = if d.shared then d.name ∷ shared_names ds else shared_names ds

-- Which devices skip Silo: by the last of a name.
abbrev pub noted_skips : List MigrateFromDevice → Dict Bool → Dict Bool
noted_skips [] m = m
noted_skips (d ∷ ds) m = noted_skips ds (insert d.name d.skip_silo m)

-- The calls that put a device in its place, those that make a group, and the wait for its authority.
abbrev pub places : MigrationCall → Bool
places (make_node name) = true
places (copy_content name) = true
places (new_from_schema schemas) = true
places new_from_protocol = true
places await_ready = true
places c = false

-- How a device gets to its place.
abbrev pub placed : Dict Bool → DeviceSchema → MigrationCall
placed m ds = elim (lookup ds.name m) [
  | none ↦ make_node ds.name
  | some skip ↦ if skip then copy_content ds.name else make_node ds.name
]
