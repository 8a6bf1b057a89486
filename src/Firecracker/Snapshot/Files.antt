-- ===== src/Firecracker/Snapshot/Files.antt =====
-- `copyFile`, `copySnapshotFiles` and `createFinalSnapshot` of pkg/runtimes/firecracker/snapshotter.go.
use drafter.Base.{
  ℕ, zero, suc, ◌+◌, ◌-◌, ◌*◌, ◌%◌, List, [], ◌∷◌, ◌++◌, String, if◌then◌else◌, ltb, length,
}
use drafter.Base.Dict.{insert}
use drafter.Base.Text.{codes, decimal}
use drafter.Errors.{Cause, FirecrackerError, PackageError}
use drafter.Script.{Oracle}
use drafter.Action.{
  ◌⨾◌, done, call, doing, dropped, deferring, on_failure, under, by_state, set_state,
}
use drafter.Common.DirtyManager.{device_memory_name}
use drafter.Common.Package.{Content, FileSystem, read_file}
use drafter.Firecracker.Machine.{because, create_snapshot_steps, snapshot_type_full}
use drafter.Firecracker.Snapshot.{
  SnapshotDevice, SnapshotCall, SnapshotAction, api_steps, marshal_config, make_output_dir,
  create_file, open_file, write_file, close_file, chown_file, copy_content, device_state_name,
  device_config_name,
}

abbrev pub zeros : ℕ → Content
zeros zero = []
zeros (suc n) = 0 ∷ zeros n

abbrev pub mebibyte : ℕ
mebibyte = 1024 * 1024

-- `paddingLength` of `copySnapshotFiles`; sizes of files are far below the bound of int64.
unfoldable pub padding_length : ℕ → ℕ
padding_length device_size =
    let n = mebibyte - device_size % mebibyte in if ltb n mebibyte then n + mebibyte else n

-- `json.Marshal` of the `PackageConfiguration` of a port.
unfoldable pub marshal : ℕ → Content
unfolding decimal
marshal port = codes "{\"agentVSockPort\":" ++ decimal port ++ codes "}"

module _ (reply : Oracle SnapshotCall) (cut : Content → Content) where
  -- `io.Copy` into a file that was truncated before: all, or what was copied until the error.
  abbrev pub copied : String → String → FirecrackerError → SnapshotAction
  copied src dst e =
      doing reply (copy_content src dst) (because e)
        (λ (fs : FileSystem). insert dst (read_file src fs) fs)
        (λ (fs : FileSystem). insert dst (cut (read_file src fs)) fs)

  -- A write behind what the file has.
  abbrev pub appended : String → Content → FirecrackerError → SnapshotAction
  appended path more e =
      doing reply (write_file path) (because e)
        (λ (fs : FileSystem). insert path (read_file path fs ++ more) fs)
        (λ (fs : FileSystem). insert path (read_file path fs ++ cut more) fs)

  -- `os.Create`, and `os.OpenFile` with `O_TRUNC`.
  abbrev pub truncated : String → FirecrackerError → SnapshotAction
  truncated path e =
      doing reply (create_file path) (because e) (λ (fs : FileSystem). insert path [] fs)
        (λ (fs : FileSystem). fs)

  -- `copyFile`
  unfoldable pub copy_file : String → String → SnapshotAction
  copy_file src dst =
      truncated dst FirecrackerError.could_not_create_destination_file
      ⨾ on_failure
          (call reply (open_file src) (because FirecrackerError.could_not_open_source_file))
          (dropped reply (close_file dst))
      ⨾ on_failure
          (deferring (dropped reply (close_file src))
            (copied src dst FirecrackerError.could_not_copy_file_content))
          (dropped reply (close_file dst))
      ⨾ call reply (close_file dst) (because FirecrackerError.could_not_copy_file_content)
      ⨾ call reply (chown_file dst) (because FirecrackerError.could_not_change_file_owner)

  -- `if paddingLength > 0`
  unfoldable pub pad : String → ℕ → SnapshotAction
  pad path n =
      if ltb 0 n
      then on_failure (appended path (zeros n) FirecrackerError.could_not_write_padding)
          (dropped reply (close_file path))
      else done

  module _ (vm_file : String → String) where
    -- A turn of the loop of `copySnapshotFiles`. What `io.Copy` returns is the size of the copy.
    unfoldable pub copy_device : SnapshotDevice → SnapshotAction
    copy_device d =
        call reply (make_output_dir d.output)
          (Cause.package_error PackageError.could_not_create_output_dir ∷ [])
        ⨾ truncated d.output FirecrackerError.could_not_create_output_file
        ⨾ on_failure
            (call reply (open_file (vm_file d.name))
              (because FirecrackerError.could_not_open_input_file))
            (dropped reply (close_file d.output))
        ⨾ on_failure
            (deferring (dropped reply (close_file (vm_file d.name)))
              (copied (vm_file d.name) d.output FirecrackerError.could_not_copy_file))
            (dropped reply (close_file d.output))
        ⨾ by_state (λ fs. pad d.output (padding_length (length (read_file d.output fs))))
        ⨾ call reply (close_file d.output) (because FirecrackerError.could_not_create_output_file)

    -- `copySnapshotFiles`
    unfoldable pub copy_snapshot_files : List SnapshotDevice → SnapshotAction
    copy_snapshot_files [] = done
    copy_snapshot_files (d ∷ ds) = copy_device d ⨾ copy_snapshot_files ds

    -- `createFinalSnapshot`
    unfoldable pub create_final_snapshot : (FileSystem → FileSystem) → ℕ → SnapshotAction
    create_final_snapshot written port =
        under (because FirecrackerError.could_not_create_snapshot) (
          api_steps reply
            (create_snapshot_steps device_state_name device_memory_name snapshot_type_full))
        ⨾ set_state written
        ⨾ call reply marshal_config (because FirecrackerError.could_not_marshal_package_config)
        ⨾ truncated (vm_file device_config_name) FirecrackerError.could_not_open_package_config_file
        ⨾ on_failure
            (appended (vm_file device_config_name) (marshal port)
              FirecrackerError.could_not_write_package_config)
            (dropped reply (close_file (vm_file device_config_name)))
        ⨾ call reply (close_file (vm_file device_config_name))
            (because FirecrackerError.could_not_write_package_config)
        ⨾ call reply (chown_file (vm_file device_config_name))
            (because FirecrackerError.could_not_chown_package_config_file)
