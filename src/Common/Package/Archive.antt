-- ===== src/Common/Package/Archive.antt =====
-- `ArchivePackage` of pkg/common/package.go.
use drafter.Base.{Bool, true, not, ◌&&◌, List, [], ◌∷◌, map, reverse, String, if◌then◌else◌}
use drafter.Base.Dict.{insert}
use drafter.Errors.{GoError, nil, failed, PackageError}
use drafter.Script.{Step, attempt, guarded, later, mark, Log, Oracle, run_script}
use drafter.Common.Package.{
  PackagerDevice, FileSystem, read_file, Entry, Codec, PackCall, because, check_context,
  new_compressor, close_archive, close_compressor, open_output, stat_device, file_info_header,
  open_device, copy_to_archive, close_device, write_header, close_output,
}

-- The loop over the devices: an entry, under the name of the device, for the file at its path.
unfoldable pub archive_devices : List PackagerDevice → List (Step PackCall PackagerDevice)
archive_devices [] = []
archive_devices (device ∷ devices) =
    attempt check_context nil
    ∷ attempt (stat_device device.path) (because PackageError.could_not_stat_device)
    ∷ attempt (file_info_header device.path) (because PackageError.could_not_create_tar_header)
    ∷ attempt (write_header device.name) (because PackageError.could_not_write_tar_header)
    ∷ attempt (open_device device.path) (because PackageError.could_not_open_device)
    ∷ guarded (copy_to_archive device.path) (because PackageError.could_not_copy_to_archive)
        (close_device device.path)
    ∷ mark device
    ∷ attempt (close_device device.path) (because PackageError.could_not_open_device)
    ∷ archive_devices devices

unfoldable pub archive_steps : List PackagerDevice → String → List (Step PackCall PackagerDevice)
archive_steps devices output =
    attempt (open_output output) (because PackageError.could_not_open_package_output_file)
    ∷ later (close_output output)
    ∷ attempt new_compressor (because PackageError.could_not_create_compressor)
    ∷ later close_compressor
    ∷ later close_archive
    ∷ archive_devices devices

-- Whether what was written has reached the file: the deferred closes returned nil.
unfoldable pub all_flushed : Log PackCall → Bool
all_flushed [] = true
all_flushed ((close_archive, e) ∷ log) = not (failed e) && all_flushed log
all_flushed ((close_compressor, e) ∷ log) = not (failed e) && all_flushed log
all_flushed ((close_output path, e) ∷ log) = not (failed e) && all_flushed log
all_flushed (e ∷ log) = all_flushed log

abbrev pub entry_of : FileSystem → PackagerDevice → Entry
entry_of fs device = record { name = device.name; data_of = read_file device.path fs }

-- The output file is truncated when it is opened, and holds the entries when all is closed.
unfoldable pub archive_package :
    Oracle PackCall → Codec → List PackagerDevice → String → FileSystem → GoError × FileSystem
unfolding archive_steps all_flushed
archive_package reply codec devices output fs =
    let done = run_script reply (archive_steps devices output) [] in
    let truncated = insert output [] fs in
    let entries = map (entry_of truncated) (reverse done.marks) in
    let file = if all_flushed done.calls then codec.encode entries else codec.torn entries in
    (done.error, (if failed (reply [] (open_output output)) then fs else insert output file fs))
