-- ===== src/Common/Package/RoundTrip.antt =====
-- Archiving and extracting of pkg/common/package.go, one after the other.
use mathlib.Core.Path.{ap₂}
use mathlib.Core.List.{reverse-cons, reverse-reverse, append_assoc, append-nil}
use drafter.Base.{
  true, false, List, [], ◌∷◌, ◌++◌, map, reverse, String, some, ◌≡◌, refl, sym, ap, ◌∙◌, subst,
  arith, All, str_eq, eq_iff, eq_refl,
}
use drafter.Base.Dict.{lookup, insert}
use drafter.Base.Dict.Laws.{lookup-insert}
use drafter.Errors.{failed}
use drafter.Script.{Log, Oracle, run_steps, run_script, called}
use drafter.Script.Laws.{noted, marks-run_steps}
use drafter.Common.Package.{
  PackagerDevice, Content, FileSystem, Codec, PackCall, read_file, open_output, open_package,
  new_uncompressor,
}
use drafter.Common.Package.Archive.{
  archive_devices, archive_steps, archive_package, all_flushed, entry_of,
}
use drafter.Common.Package.Extract.{extract_devices, extract_package}
use drafter.Common.Package.Order.{seek, write_all, Writes, extract_devices-Writes}

-- The devices as they are archived and as they are extracted, one for one.
abbrev pub Pairs : Type 0
Pairs = List (PackagerDevice × PackagerDevice)

abbrev pub sources : Pairs → List PackagerDevice
sources = map (λ p. p.0)

abbrev pub targets : Pairs → List PackagerDevice
targets = map (λ p. p.1)

-- No two devices are extracted to one path.
abbrev pub DistinctTargets : Pairs → Type 0
DistinctTargets [] = Unit
DistinctTargets (p ∷ ps) = All (λ q. str_eq q.1.path p.1.path ≡ false) ps × DistinctTargets ps

-- The files copied one by one, each as it was in `from`.
copy_all : FileSystem → Pairs → FileSystem → FileSystem
copy_all from [] fs = fs
copy_all from (p ∷ ps) fs = copy_all from ps (insert p.1.path (read_file p.0.path from) fs)

write_all-copy_all :
    (from : FileSystem) (ps : Pairs) (fs : FileSystem)
    → All (λ p. p.1.name ≡ p.0.name) ps
    → write_all (targets ps) (map (entry_of from) (sources ps)) fs ≡ some (copy_all from ps fs)
unfolding write_all seek copy_all
write_all-copy_all from [] fs h = refl
write_all-copy_all from (p ∷ ps) fs h =
    let ih = write_all-copy_all from ps (insert p.1.path (read_file p.0.path from) fs) h.1 in
    ground (arith, eq_iff p.0.name p.1.name, ih)

copy_all-other :
    (from : FileSystem) (ps : Pairs) (fs : FileSystem) (path : String)
    → All (λ q. str_eq q.1.path path ≡ false) ps
    → lookup path (copy_all from ps fs) ≡ lookup path fs
unfolding copy_all
copy_all-other from [] fs path h = refl
copy_all-other from (p ∷ ps) fs path h =
    copy_all-other from ps _ path h.1
    ∙ ground (arith, h.0, lookup-insert path p.1.path (read_file p.0.path from) fs)

copy_all-copies :
    (from : FileSystem) (ps : Pairs) (fs : FileSystem)
    → DistinctTargets ps
    → All (λ p. read_file p.1.path (copy_all from ps fs) ≡ read_file p.0.path from) ps
unfolding copy_all
copy_all-copies from [] fs h = tt
copy_all-copies from (p ∷ ps) fs h =
    let next = insert p.1.path (read_file p.0.path from) fs in
    (
      ground (
        arith,
        copy_all-other from ps next p.1.path h.0,
        lookup-insert p.1.path p.1.path (read_file p.0.path from) fs,
        eq_refl p.1.path,
      ),
      copy_all-copies from ps next h.1,
    )

noted-archive_devices :
    (ds ms : List PackagerDevice) → noted (archive_devices ds) ms ≡ reverse ds ++ ms
unfolding archive_devices
noted-archive_devices [] ms = refl
noted-archive_devices (d ∷ ds) ms =
    noted-archive_devices ds (d ∷ ms)
    ∙ sym (ap (λ l. l ++ ms) (reverse-cons d ds) ∙ append_assoc (reverse ds) (d ∷ []) ms)

module _ (reply : Oracle PackCall) (codec : Codec) (ds : List PackagerDevice) (output : String)
    (fs : FileSystem) (archived : failed (archive_package reply codec ds output fs).0 ≡ false)
    (flushed : all_flushed (run_script reply (archive_steps ds output) []).calls ≡ true) where
  noted-archive_steps : noted (archive_steps ds output) [] ≡ reverse ds
  unfolding archive_steps
  noted-archive_steps = noted-archive_devices ds [] ∙ append-nil (reverse ds)

  -- The archive has an entry for each device, in order.
  archived_marks : reverse (run_script reply (archive_steps ds output) []).marks ≡ ds
  unfolding archive_package
  archived_marks =
      ap reverse
        (marks-run_steps reply (archive_steps ds output) [] [] [] archived ∙ noted-archive_steps)
      ∙ reverse-reverse ds

  opened_output : failed (reply [] (open_output output)) ≡ false
  unfolding archive_package archive_steps run_steps
  opened_output = ground (arith, archived)

  archive_package-eq :
      (archive_package reply codec ds output fs).1
      ≡ insert output (codec.encode (map (entry_of (insert output [] fs)) ds)) fs
  unfolding archive_package
  archive_package-eq = rw (opened_output, flushed, archived_marks)

read_file-insert :
    (path : String) (content : Content) (fs : FileSystem)
    → read_file path (insert path content fs) ≡ content
read_file-insert path content fs = ground (arith, lookup-insert path path content fs, eq_refl path)

-- An entry does not depend on the package file, where that is none of the files archived.
entries-output :
    (output : String) (fs : FileSystem) (ds : List PackagerDevice)
    → All (λ d. str_eq output d.path ≡ false) ds
    → map (entry_of (insert output [] fs)) ds ≡ map (entry_of fs) ds
entries-output output fs [] h = refl
entries-output output fs (d ∷ ds) h =
    ap₂ ◌∷◌ (ground (arith, h.0, lookup-insert d.path output [] fs))
      (entries-output output fs ds h.1)

All-sources :
    (output : String) (ps : Pairs)
    → All (λ p. str_eq output p.0.path ≡ false) ps
    → All (λ d. str_eq output d.path ≡ false) (sources ps)
All-sources output [] h = tt
All-sources output (p ∷ ps) h = (h.0, All-sources output ps h.1)

extract_package-calm :
    (reply : Oracle PackCall) (codec : Codec) (input : String) (ds : List PackagerDevice)
    (fs fs' : FileSystem)
    → ((log : Log PackCall) (c : PackCall) → failed (reply log c) ≡ false)
    → write_all ds (codec.decode (read_file input fs)) fs ≡ some fs'
    → (failed (extract_package reply codec input ds fs).0 ≡ false)
      × ((extract_package reply codec input ds fs).1 ≡ fs')
unfolding extract_package
extract_package-calm reply codec input ds fs fs' calm e =
    let opened = called reply (open_package input) [] in
    let ready = called reply new_uncompressor opened in
    let r =
      extract_devices-Writes reply codec calm ds (codec.decode (read_file input fs)) fs ready in
    let w =
      subst
        (λ o.
          Writes o (extract_devices reply codec ds (codec.decode (read_file input fs)) fs ready))
        e r in
    ground (arith, calm [] (open_package input), calm opened new_uncompressor, w)

-- What is decoded is what was encoded, for the entries of the devices. Devices are archived and, under the same names and in the
-- same order, extracted, each to a path of its own. If archiving returned nil and the deferred
-- closes did, and no call of the extraction fails, then the extraction returns nil, and every
-- target has the content that its source had, provided the package is not one of the sources.
pub extract-archive :
    (archiving extracting : Oracle PackCall) (codec : Codec) (package_path : String) (ps : Pairs)
    (fs : FileSystem)
    → codec.decode (codec.encode (map (entry_of fs) (sources ps))) ≡ map (entry_of fs) (sources ps)
    → All (λ p. p.1.name ≡ p.0.name) ps
    → DistinctTargets ps
    → All (λ p. str_eq package_path p.0.path ≡ false) ps
    → failed (archive_package archiving codec (sources ps) package_path fs).0 ≡ false
    → all_flushed (run_script archiving (archive_steps (sources ps) package_path) []).calls ≡ true
    → ((log : Log PackCall) (c : PackCall) → failed (extracting log c) ≡ false)
    → let archived = (archive_package archiving codec (sources ps) package_path fs).1 in
      let extracted = extract_package extracting codec package_path (targets ps) archived in
      (failed extracted.0 ≡ false)
      × All (λ p. read_file p.1.path extracted.1 ≡ read_file p.0.path fs) ps
extract-archive archiving extracting codec package_path ps fs law named distinct apart archived
      flushed calm =
    (
      done.0,
      subst (λ f. All (λ p. read_file p.1.path f ≡ read_file p.0.path fs) ps) (sym done.1)
          (copy_all-copies fs ps after distinct),
    )
  where
    after : FileSystem
    after = (archive_package archiving codec (sources ps) package_path fs).1

    file : read_file package_path after ≡ codec.encode (map (entry_of fs) (sources ps))
    file =
        ap (read_file package_path) (
          archive_package-eq archiving codec (sources ps) package_path fs archived flushed
          ∙ ap (λ es. insert package_path (codec.encode es) fs)
              (entries-output package_path fs (sources ps) (All-sources package_path ps apart)))
        ∙ read_file-insert package_path _ fs

    done :
        (failed (extract_package extracting codec package_path (targets ps) after).0 ≡ false)
        × ((extract_package extracting codec package_path (targets ps) after).1
            ≡ copy_all fs ps after)
    done =
        extract_package-calm extracting codec package_path (targets ps) after (copy_all fs ps after)
          calm
          (ap (λ es. write_all (targets ps) es after) (ap codec.decode file ∙ law)
            ∙ write_all-copy_all fs ps after named)
