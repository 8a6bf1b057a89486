-- ===== src/Firecracker/Runtime/Config.antt =====
-- The configuration that a snapshot is written with, and the one that `Resume` of
-- pkg/runtimes/firecracker/runtime.go reads of its output.
use drafter.Base.{
  ℕ, zero, suc, ◌+◌, ◌/◌, true, false, List, [], ◌∷◌, ◌++◌, String, ltb, Bool-cases, inl, inr, ◌==◌,
  length, take, ◌≡◌, refl, ap, ◌∙◌, arith, All, eq_refl,
}
use drafter.Base.Dict.{insert}
use drafter.Base.Text.{codes, digits}
use drafter.Errors.{failed}
use drafter.Script.{Oracle}
use drafter.Action.{World}
use drafter.Action.Effects.{
  Leaves, Leaves-set_state, Leaves-seq, Leaves-under, Leaves-on_failure, Leaves-doing, Leaves-each,
}
use drafter.Common.Package.{Content, FileSystem, read_file}
use drafter.Firecracker.Snapshot.{SnapshotDevice, SnapshotCall, device_config_name}
use drafter.Firecracker.Snapshot.Files.{zeros, marshal, copy_snapshot_files, create_final_snapshot}
use drafter.Firecracker.Snapshot.Copied.{
  padded, padding_positive, read_file-insert, Apart, copy_snapshot_files-IsCopied,
}
use drafter.Firecracker.Runtime.Resume.{first_zero, config_data}

abbrev IsText : Content → Type 0
IsText = All (λ c. (c == 0) ≡ false)

IsText-append : (xs ys : Content) → IsText xs → IsText ys → IsText (xs ++ ys)
IsText-append [] ys h k = k
IsText-append (x ∷ xs) ys h k = (h.0, IsText-append xs ys h.1 k)

digits-IsText : (fuel n : ℕ) → IsText (digits fuel n)
unfolding digits
digits-IsText zero n = tt
digits-IsText (suc fuel) n = elim (Bool-cases (ltb n 10)) [
  | inl small ↦ rw small (ground arith, tt)
  | inr large ↦
      rw large
        (IsText-append (digits fuel (n / 10)) _ (digits-IsText fuel (n / 10)) (ground arith, tt))
]

marshal-IsText : (port : ℕ) → IsText (marshal port)
unfolding marshal
marshal-IsText port =
    IsText-append (codes "{\"agentVSockPort\":") _ (ground arith)
      (IsText-append (digits (suc port) port) _ (digits-IsText (suc port) port) (refl, tt))

first_zero-text :
    (i : ℕ) (text rest : Content) → IsText text → first_zero i (text ++ 0 ∷ rest) ≡ i + length text
unfolding first_zero
first_zero-text i [] rest h = ground arith
first_zero-text i (c ∷ text) rest h = ground (arith, first_zero-text (suc i) text rest h.1)

take-length : (text rest : Content) → take (length text) (text ++ rest) ≡ text
take-length [] rest = refl
take-length (c ∷ text) rest = ap (λ l. c ∷ l) (take-length text rest)

-- A text behind which zeros stand is read as it was.
config_data-text : (text rest : Content) → IsText text → config_data (text ++ 0 ∷ rest) ≡ text
unfolding config_data
config_data-text text rest h =
    ap (λ n. take n (text ++ 0 ∷ rest)) (first_zero-text 0 text rest h ∙ omega arith)
    ∙ take-length text (0 ∷ rest)

config_data-zeros :
    (text : Content) (n : ℕ) → ltb 0 n ≡ true → IsText text → config_data (text ++ zeros n) ≡ text
config_data-zeros text zero h k = absurd (ground (arith, h))
config_data-zeros text (suc n) h k = config_data-text text (zeros n) k

-- The file of the configuration, as createFinalSnapshot leaves it.
module _ (reply : Oracle SnapshotCall) (cut : Content → Content) (vm_file : String → String)
    (written : FileSystem → FileSystem) (port : ℕ) where
  abbrev config_written : FileSystem → FileSystem
  config_written fs =
      let emptied : FileSystem = insert (vm_file device_config_name) [] (written fs) in
      insert (vm_file device_config_name)
        (read_file (vm_file device_config_name) emptied ++ marshal port) emptied

  create_final_snapshot-Leaves :
      Leaves (create_final_snapshot reply cut vm_file written port) config_written
  unfolding create_final_snapshot
  create_final_snapshot-Leaves = Leaves-seq (Leaves-under _ (Leaves-each reply _ _)) (
      Leaves-seq (Leaves-set_state written) (
        Leaves-seq (Leaves-doing reply _ _ _ _) (
          Leaves-seq (Leaves-doing reply _ _ _ _) (
            Leaves-seq (Leaves-on_failure _ (Leaves-doing reply _ _ _ _))
              (Leaves-seq (Leaves-doing reply _ _ _ _) (Leaves-doing reply _ _ _ _))))))

  config_written-file :
      (fs : FileSystem) → read_file (vm_file device_config_name) (config_written fs) ≡ marshal port
  config_written-file fs =
      let path = vm_file device_config_name in
      let emptied : FileSystem = insert path [] (written fs) in
      ground (
        arith,
        eq_refl path,
        read_file-insert path path [] (written fs),
        read_file-insert path path (read_file path emptied ++ marshal port) emptied,
      )

  All-at :
      (P : SnapshotDevice → Type 0) (before after : List SnapshotDevice) (d : SnapshotDevice)
      → All P (before ++ d ∷ after)
      → P d
  All-at P [] after d h = h.0
  All-at P (x ∷ before) after d h = All-at P before after d h.1

  -- A snapshot is finished with the configuration of a port, and its files are copied, among them the
  -- configuration of the machine, to outputs that are neither one another's nor files of the machine. If
  -- both return nil, then what Resume takes for the configuration in the output is exactly the JSON that
  -- was written for the port: the padding behind it is cut off.
  pub config_data-marshal :
      (before after : List SnapshotDevice) (d : SnapshotDevice) (w : World SnapshotCall FileSystem)
      → d.name ≡ device_config_name
      → Apart vm_file (before ++ d ∷ after)
      → failed (create_final_snapshot reply cut vm_file written port w).0 ≡ false
      → let w' = (create_final_snapshot reply cut vm_file written port w).1 in
        failed (copy_snapshot_files reply cut vm_file (before ++ d ∷ after) w').0 ≡ false
        → let w' = (create_final_snapshot reply cut vm_file written port w).1 in
          config_data (
            read_file d.output
              (copy_snapshot_files reply cut vm_file (before ++ d ∷ after) w').1.state)
          ≡ marshal port
  config_data-marshal before after d w named apart finished copied =
      let w' = (create_final_snapshot reply cut vm_file written port w).1 in
      ap config_data (
        All-at _ before after d
          (copy_snapshot_files-IsCopied reply cut vm_file (before ++ d ∷ after) w' apart copied)
        ∙ ap padded (
            ap (λ name. read_file (vm_file name) w'.state) named
            ∙ ap (read_file (vm_file device_config_name))
                (create_final_snapshot-Leaves.left w finished)
            ∙ config_written-file w.state))
      ∙ config_data-zeros (marshal port) _ (padding_positive _) (marshal-IsText port)
