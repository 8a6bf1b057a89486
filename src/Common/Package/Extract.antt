-- ===== src/Common/Package/Extract.antt =====
-- `ExtractPackage` of pkg/common/package.go.
use drafter.Base.{List, [], ◌∷◌, String, if◌then◌else◌, str_eq}
use drafter.Base.Dict.{insert}
use drafter.Errors.{GoError, nil, failed, join, Cause, PackageError}
use drafter.Script.{Log, Oracle, called}
use drafter.Common.Package.{
  PackagerDevice, Content, FileSystem, read_file, Entry, Codec, PackCall, because, check_context,
  next_header, mkdir_all, open_file, copy_to_output, close_file, open_package, new_uncompressor,
}

-- Where the search for a device has got: its data and the entries behind it; the end of the
-- archive; or an error.
pub data Found : Type 0 where
  found : Content → List Entry → Log PackCall → Found
  end_of_archive : Log PackCall → Found
  failure : GoError → Log PackCall → Found

-- The result of the devices so far: the error, the files, what is left of the archive, and the log.
pub record Extracted : Type 0 where
  pub error : GoError
  pub files : FileSystem
  pub entries : List Entry
  pub calls : Log PackCall

module _ (reply : Oracle PackCall) (codec : Codec) where
  -- The inner loop up to the header that has the name: one round for each entry that is read.
  unfoldable pub find_entry : String → List Entry → Log PackCall → Found
  find_entry name [] log =
      let asked = called reply check_context log in
      if failed (reply log check_context)
      then failure (reply log check_context) asked
      else (if failed (reply asked next_header)
          then failure
              (join (because PackageError.could_not_read_next_header) (reply asked next_header))
              (called reply next_header asked)
          else end_of_archive (called reply next_header asked))
  find_entry name (entry ∷ entries) log =
      let asked = called reply check_context log in
      let read = called reply next_header asked in
      let go_on = find_entry name entries read in
      if failed (reply log check_context)
      then failure (reply log check_context) asked
      else (if failed (reply asked next_header)
          then failure
              (join (because PackageError.could_not_read_next_header) (reply asked next_header))
              read
          else (if str_eq entry.name name then found entry.data_of entries read else go_on))

  -- The rest of the inner loop, which writes the file. A failed copy leaves some content.
  unfoldable pub write_output :
      String → Content → List Entry → FileSystem → Log PackCall → Extracted
  write_output path content rest fs log =
      let made = called reply (mkdir_all path) log in
      let opened = called reply (open_file path) made in
      let copied = called reply (copy_to_output path) opened in
      let closed = called reply (close_file path) copied in
      let torn = insert path (codec.torn []) fs in
      let result = λ (e : GoError) (fs' : FileSystem) (log' : Log PackCall).
        let r : Extracted = record { error = e; files = fs'; entries = rest; calls = log' } in r in
      if failed (reply log (mkdir_all path))
      then result
          (join (because PackageError.could_not_create_output_dir) (reply log (mkdir_all path))) fs
          made
      else (if failed (reply made (open_file path))
          then result
              (join (because PackageError.could_not_open_output_file) (reply made (open_file path)))
              fs opened
          else (if failed (reply opened (copy_to_output path))
              then result
                  (join (because PackageError.could_not_copy_to_output)
                    (reply opened (copy_to_output path)))
                  torn (called reply (close_file path) copied)
              else (if failed (reply copied (close_file path))
                  then result
                      (join (because PackageError.could_not_open_output_file)
                        (reply copied (close_file path)))
                      torn closed
                  else result nil (insert path content fs) closed)))

  -- What the search leads to; `ErrMissingDevice` where the rest of the archive lacks the device.
  unfoldable pub after_find : PackagerDevice → List Entry → FileSystem → Found → Extracted
  unfolding write_output
  after_find device entries fs (found content rest log) =
      write_output device.path content rest fs log
  after_find device entries fs (end_of_archive log) = record {
    error = join (Cause.missing_device device.name ∷ []) (because PackageError.missing_device);
    files = fs;
    entries = [];
    calls = log;
  }
  after_find device entries fs (failure e log) = record {
    error = e;
    files = fs;
    entries = entries;
    calls = log;
  }

  -- The round of the outer loop for one device.
  unfoldable pub extract_device :
      PackagerDevice → List Entry → FileSystem → Log PackCall → Extracted
  unfolding find_entry after_find
  extract_device device entries fs log =
      after_find device entries fs (find_entry device.name entries log)

  -- The outer loop: the archive is read on from where the last device was found.
  unfoldable pub extract_devices :
      List PackagerDevice → List Entry → FileSystem → Log PackCall → Extracted
  extract_devices [] entries fs log = record {
    error = nil;
    files = fs;
    entries = entries;
    calls = log;
  }
  extract_devices (device ∷ devices) entries fs log =
      let one = extract_device device entries fs log in
      let others = extract_devices devices one.entries one.files one.calls in
      if failed one.error then one else others

  -- The rest of the outer loop behind one device.
  unfoldable pub extract_next : List PackagerDevice → Extracted → Extracted
  extract_next devices one =
      if failed one.error then one else extract_devices devices one.entries one.files one.calls

  -- `ExtractPackage`; the deferred closes of what was only read change nothing.
  unfoldable pub extract_package : String → List PackagerDevice → FileSystem → GoError × FileSystem
  unfolding extract_devices
  extract_package input devices fs =
      let opened = called reply (open_package input) [] in
      let ready = called reply new_uncompressor opened in
      let done = extract_devices devices (codec.decode (read_file input fs)) fs ready in
      if failed (reply [] (open_package input))
      then (
        join (because PackageError.could_not_open_package_input_file)
            (reply [] (open_package input)),
        fs,
      )
      else (if failed (reply opened new_uncompressor)
          then (
            join (because PackageError.could_not_create_uncompressor)
                (reply opened new_uncompressor),
            fs,
          )
          else (done.error, done.files))
