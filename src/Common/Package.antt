-- ===== src/Common/Package.antt =====
-- pkg/common/package.go. Files are contents by path. A package is the tar archive of its entries in
-- order, compressed by zstd, which is not part of the repository: encoding and decoding are an
-- argument, and so is what each call of the system returns.
pub mod Archive
pub mod Extract
pub mod Order
pub mod RoundTrip
mod Examples
use drafter.Base.{
  ℕ, Bool, true, false, not, ◌&&◌, List, [], ◌∷◌, ◌++◌, map, reverse, String, Option, none, some,
  if◌then◌else◌,
}
use drafter.Base.Dict.{Dict, lookup, insert}
use drafter.Errors.{GoError, nil, failed, join, Cause, PackageError}
use drafter.Script.{Log}

pub record PackagerDevice : Type 0 where
  pub name : String
  pub path : String

abbrev pub Content : Type 0
Content = List ℕ

abbrev pub FileSystem : Type 0
FileSystem = Dict Content

-- The content of a file that was opened.
abbrev pub read_file : String → FileSystem → Content
read_file path fs = elim (lookup path fs) [ none ↦ [] | some c ↦ c ]

-- An entry of the archive: the name in its header, and its data.
pub record Entry : Type 0 where
  pub name : String
  pub data_of : Content

pub record Codec : Type 0 where
  -- the file, if the archive, the compressor and the file were closed without an error
  pub encode : List Entry → Content
  -- the file otherwise
  pub torn : List Entry → Content
  -- the entries that a reader finds, in order
  pub decode : Content → List Entry

pub data PackCall : Type 0 where
  check_context new_compressor new_uncompressor next_header : PackCall
  close_archive close_compressor close_uncompressor : PackCall
  open_output stat_device file_info_header open_device copy_to_archive close_device :
      String → PackCall
  write_header open_package close_package close_output : String → PackCall
  mkdir_all open_file copy_to_output close_file : String → PackCall

abbrev pub because : PackageError → GoError
because e = Cause.package_error e ∷ []
