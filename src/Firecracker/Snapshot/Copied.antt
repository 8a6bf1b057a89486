-- ===== src/Firecracker/Snapshot/Copied.antt =====
-- What `copySnapshotFiles` of pkg/runtimes/firecracker/snapshotter.go leaves where it returns nil.
use drafter.Base.{
  ℕ, zero, suc, ◌+◌, ◌%◌, ◌≤◌, ◌<◌, true, false, List, [], ◌∷◌, ◌++◌, String, if◌then◌else◌, ltb,
  length, ◌≡◌, refl, ap, ◌∙◌, sym, subst, arith, All, All-map, All-both, str_eq, eq_refl,
}
use drafter.Base.Dict.{insert}
use drafter.Base.Dict.Laws.{lookup-insert}
use drafter.Errors.{failed}
use drafter.Script.{Oracle}
use drafter.Action.{World}
use drafter.Action.Effects.{
  Leaves, Leaves-done, Leaves-by_state, Leaves-seq, Leaves-on_failure, Leaves-deferring,
  Leaves-doing, Still-dropped,
}
use drafter.Common.Package.{Content, FileSystem, read_file}
use drafter.Firecracker.Snapshot.{SnapshotDevice, SnapshotCall}
use drafter.Firecracker.Snapshot.Files.{
  zeros, mebibyte, padding_length, pad, copy_device, copy_snapshot_files,
}

-- The padding is at least a mebibyte and less than two, and what is padded is whole mebibytes.
pub padding_length_bounds :
    (n : ℕ)
    → ((n + padding_length n) % mebibyte ≡ 0)
      × (mebibyte ≤ padding_length n)
      × (padding_length n < mebibyte + mebibyte)
unfolding padding_length
padding_length_bounds n = ground arith

pub padding_positive : (n : ℕ) → ltb 0 (padding_length n) ≡ true
padding_positive n = ground (arith, (padding_length_bounds n).1)

length-zeros : (n : ℕ) → length (zeros n) ≡ n
length-zeros zero = refl
length-zeros (suc n) = ap suc (length-zeros n)

-- A content behind which the padding for its size was written.
abbrev pub padded : Content → Content
padded c = c ++ zeros (padding_length (length c))

pub read_file-insert :
    (path other : String) (c : Content) (fs : FileSystem)
    → read_file other (insert path c fs) ≡ (if str_eq path other then c else read_file other fs)
read_file-insert path other c fs = ground (arith, lookup-insert other path c fs)

module _ (vm_file : String → String) where
  -- No output is the output of another device, or a file of the machine that is copied.
  abbrev pub Apart : List SnapshotDevice → Type 0
  Apart [] = Unit
  Apart (d ∷ ds) =
      (str_eq d.output (vm_file d.name) ≡ false)
      × All
          (λ (o : SnapshotDevice).
            (str_eq o.output d.output ≡ false) × (str_eq d.output (vm_file o.name) ≡ false))
          ds
      × Apart ds

  -- The file of a device, as it was made of a file of the machine.
  abbrev pub IsCopied : FileSystem → FileSystem → SnapshotDevice → Type 0
  IsCopied fs fs' d = read_file d.output fs' ≡ padded (read_file (vm_file d.name) fs)

module _ (reply : Oracle SnapshotCall) (cut : Content → Content) (vm_file : String → String) where
  abbrev append_zeros : String → ℕ → FileSystem → FileSystem
  append_zeros path n fs = insert path (read_file path fs ++ zeros n) fs

  pad-Leaves :
      (path : String) (n : ℕ) → ltb 0 n ≡ true → Leaves (pad reply cut path n) (append_zeros path n)
  unfolding pad
  pad-Leaves path n more = rw more (Leaves-on_failure _ (Leaves-doing reply _ _ _ _))

  -- What a turn of the loop makes of the files, write by write.
  abbrev device_copied : SnapshotDevice → FileSystem → FileSystem
  device_copied d fs =
      let emptied : FileSystem = insert d.output [] fs in
      let filled : FileSystem = insert d.output (read_file (vm_file d.name) emptied) emptied in
      append_zeros d.output (padding_length (length (read_file d.output filled))) filled

  copy_device-Leaves :
      (d : SnapshotDevice) → Leaves (copy_device reply cut vm_file d) (device_copied d)
  unfolding copy_device
  copy_device-Leaves d = Leaves-seq (Leaves-doing reply _ _ _ _) (
      Leaves-seq (Leaves-doing reply _ _ _ _) (
        Leaves-seq (Leaves-on_failure _ (Leaves-doing reply _ _ _ _)) (
          Leaves-seq
            (Leaves-on_failure _
              (Leaves-deferring (Still-dropped reply _) (Leaves-doing reply _ _ _ _)))
            (Leaves-seq
              (Leaves-by_state (λ fs.
                pad-Leaves d.output (padding_length (length (read_file d.output fs)))
                  (padding_positive (length (read_file d.output fs)))))
              (Leaves-doing reply _ _ _ _)))))

  device_copied-output :
      (d : SnapshotDevice) (fs : FileSystem)
      → str_eq d.output (vm_file d.name) ≡ false
      → read_file d.output (device_copied d fs) ≡ padded (read_file (vm_file d.name) fs)
  device_copied-output d fs h =
      let emptied : FileSystem = insert d.output [] fs in
      let filled : FileSystem = insert d.output (read_file (vm_file d.name) emptied) emptied in
      let size = length (read_file d.output filled) in
      ground (
        arith,
        h,
        eq_refl d.output,
        read_file-insert d.output (vm_file d.name) [] fs,
        read_file-insert d.output d.output (read_file (vm_file d.name) emptied) emptied,
        read_file-insert d.output d.output
            (read_file d.output filled ++ zeros (padding_length size)) filled,
      )

  device_copied-other :
      (d : SnapshotDevice) (path : String) (fs : FileSystem)
      → str_eq d.output path ≡ false
      → read_file path (device_copied d fs) ≡ read_file path fs
  device_copied-other d path fs h =
      let emptied : FileSystem = insert d.output [] fs in
      let filled : FileSystem = insert d.output (read_file (vm_file d.name) emptied) emptied in
      let size = length (read_file d.output filled) in
      ground (
        arith,
        h,
        read_file-insert d.output path [] fs,
        read_file-insert d.output path (read_file (vm_file d.name) emptied) emptied,
        read_file-insert d.output path (read_file d.output filled ++ zeros (padding_length size))
            filled,
      )

  all_copied : List SnapshotDevice → FileSystem → FileSystem
  all_copied [] fs = fs
  all_copied (d ∷ ds) fs = all_copied ds (device_copied d fs)

  copy_snapshot_files-Leaves :
      (ds : List SnapshotDevice) → Leaves (copy_snapshot_files reply cut vm_file ds) (all_copied ds)
  unfolding copy_snapshot_files all_copied
  copy_snapshot_files-Leaves [] = Leaves-done
  copy_snapshot_files-Leaves (d ∷ ds) =
      Leaves-seq (copy_device-Leaves d) (copy_snapshot_files-Leaves ds)

  all_copied-other :
      (ds : List SnapshotDevice) (path : String) (fs : FileSystem)
      → All (λ (o : SnapshotDevice). str_eq o.output path ≡ false) ds
      → read_file path (all_copied ds fs) ≡ read_file path fs
  unfolding all_copied
  all_copied-other [] path fs h = refl
  all_copied-other (d ∷ ds) path fs h =
      all_copied-other ds path (device_copied d fs) h.1 ∙ device_copied-other d path fs h.0

  all_copied-IsCopied :
      (ds : List SnapshotDevice) (fs : FileSystem)
      → Apart vm_file ds
      → All (IsCopied vm_file fs (all_copied ds fs)) ds
  unfolding all_copied
  all_copied-IsCopied [] fs h = tt
  all_copied-IsCopied (d ∷ ds) fs (apart, others, rest) = (
    all_copied-other ds d.output (device_copied d fs)
          (All-map _ _ (λ (o : SnapshotDevice) p. p.0) ds others)
        ∙ device_copied-output d fs apart,
    All-map _ _
        (λ (o : SnapshotDevice) p.
          p.1 ∙ ap padded (device_copied-other d (vm_file o.name) fs p.0.1))
        ds (All-both _ _ ds others (all_copied-IsCopied ds (device_copied d fs) rest)),
  )

  -- If no output of a device is that of another or a file that is copied, and the copying of the
  -- snapshot returns nil, then the output of each device is the whole file that the machine had under the
  -- name of the device, and zeros behind it.
  pub copy_snapshot_files-IsCopied :
      (ds : List SnapshotDevice) (w : World SnapshotCall FileSystem)
      → Apart vm_file ds
      → failed (copy_snapshot_files reply cut vm_file ds w).0 ≡ false
      → All (IsCopied vm_file w.state (copy_snapshot_files reply cut vm_file ds w).1.state) ds
  copy_snapshot_files-IsCopied ds w apart h =
      subst (λ fs. All (IsCopied vm_file w.state fs) ds)
        (sym ((copy_snapshot_files-Leaves ds).left w h)) (all_copied-IsCopied ds w.state apart)
