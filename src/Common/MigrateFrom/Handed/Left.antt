-- ===== src/Common/MigrateFrom/Handed/Left.antt =====
-- The schemas that `MigrateFromFS` of pkg/common/migrations.go leaves in its state.
use mathlib.Core.List.{append_assoc, append-nil}
use drafter.Base.{
  ℕ, suc, none, some, Bool, List, [], ◌∷◌, ◌++◌, String, if◌then◌else◌, str_eq, length, ◌==◌, ◌≡◌,
  refl, ◌∙◌, sym, ap, arith, true, false,
}
use drafter.Base.Dict.{Dict}
use drafter.Base.Text.{Text, codes, split}
use drafter.Script.{Oracle}
use drafter.Action.{Action}
use drafter.Action.Effects.{
  Leaves, Leaves-done, Leaves-set_state, Leaves-seq, Leaves-doing, Leaves-by_state, Leaves-tested,
  Leaves-never, Leaves-branch, Leaves-if, Leaves-making,
}
use drafter.Common.MigrateFrom.{
  MigrateFromDevice, CowOverlay, DeviceSchema, MigrationCall, expose_silo_device_as_file,
}
use drafter.Common.MigrateFrom.Schemas.{
  base_schema, finish_schema, overlay_sep, add_overlays, use_overlays, create_silo_dev_schema,
}
use drafter.Common.MigrateFrom.Files.{
  Tweak, tweaked, FromFs, no_schema, add_schema, note_skip, skips, collect, copy_over, place,
  gather,
}
use drafter.Common.MigrateFrom.Handed.{
  adjusted, overlaid, schema_of, handed, noted_skips, side_by_side, with_sync, with_write_cache,
}

tweaked-adjusted :
    (tweak : Tweak) (n : ℕ) (name : String) (ds : DeviceSchema)
    → tweaked tweak n name ds ≡ adjusted tweak n name ds
tweaked-adjusted none n name ds = refl
tweaked-adjusted (some f) n name ds = refl

-- What one device adds, shared or not, in front of the rest.
one_more :
    (tweak : Tweak) (n : ℕ) (b : Bool) (name : String) (made : DeviceSchema) (s : FromFs)
    (rest : List DeviceSchema)
    → (if b then s else add_schema tweak n name made s).schemas ++ rest
      ≡ s.schemas ++ (if b then rest else adjusted tweak n name made ∷ rest)
one_more tweak n true name made s rest = refl
one_more tweak n false name made s rest =
    append_assoc s.schemas (tweaked tweak n name made ∷ []) rest
    ∙ ap (λ x. s.schemas ++ (x ∷ rest)) (tweaked-adjusted tweak n name made)

same_skips :
    (tweak : Tweak) (n : ℕ) (b : Bool) (name : String) (made : DeviceSchema) (s : FromFs)
    → (if b then s else add_schema tweak n name made s).skip_silos ≡ s.skip_silos
same_skips tweak n true name made s = refl
same_skips tweak n false name made s = refl

module _ (reply : Oracle MigrationCall) (stat_size : String → ℕ)
    (add_overlay : CowOverlay → DeviceSchema → DeviceSchema) where
  add_overlays-Leaves :
      (i : MigrateFromDevice) (overlays states : List Text)
      → Leaves
          (add_overlays reply stat_size add_overlay i overlays states)
          (overlaid add_overlay i (side_by_side overlays states))
  unfolding add_overlays overlaid
  add_overlays-Leaves i [] states = Leaves-done
  add_overlays-Leaves i (overlay ∷ overlays) [] = Leaves-done
  add_overlays-Leaves i (overlay ∷ overlays) (state ∷ states) =
      Leaves-seq (Leaves-doing reply _ _ _ _) (
        Leaves-seq (Leaves-doing reply _ _ _ _)
          (Leaves-seq (Leaves-set_state _) (add_overlays-Leaves i overlays states)))

  use_overlays-Leaves :
      (i : MigrateFromDevice) (overlays states : List Text)
      → Leaves
          (use_overlays reply stat_size add_overlay i overlays states)
          (overlaid add_overlay i (side_by_side overlays states))
  unfolding use_overlays
  use_overlays-Leaves i overlays states =
      Leaves-if (length overlays == length states) (add_overlays-Leaves i overlays states)
        (Leaves-never _ (λ w. refl))

  abbrev pairs_of : MigrateFromDevice → List (Text × Text)
  pairs_of i =
      side_by_side (split overlay_sep (codes i.overlay)) (split overlay_sep (codes i.state))

  -- The sync and the write cache as the code sets them, and as they are described.
  finish-described :
      (i : MigrateFromDevice) (ds : DeviceSchema)
      → finish_schema i ds ≡ with_write_cache i (with_sync i ds)
  finish-described i ds = ground arith

  branch-described :
      (i : MigrateFromDevice) (b : Bool) (ds : DeviceSchema)
      → (if b then ds else overlaid add_overlay i (pairs_of i) ds)
        ≡ overlaid add_overlay i (if b then [] else pairs_of i) ds
  unfolding overlaid
  branch-described i true ds = refl
  branch-described i false ds = refl

  create-Leaves :
      (i : MigrateFromDevice)
      → Leaves
          (create_silo_dev_schema reply stat_size add_overlay i)
          (λ ds. schema_of add_overlay stat_size i)
  unfolding create_silo_dev_schema schema_of
  create-Leaves i = record {
    left = λ w h.
        made.left w h
        ∙ finish-described i (
            if str_eq i.overlay ""
            then base_schema i (stat_size i.base)
            else overlaid add_overlay i (pairs_of i) (base_schema i (stat_size i.base)))
        ∙ ap (λ ds. with_write_cache i (with_sync i ds))
            (branch-described i (str_eq i.overlay "") (base_schema i (stat_size i.base)));
  }
    where
      made : Leaves (create_silo_dev_schema reply stat_size add_overlay i) (λ ds. finish_schema i (
          if str_eq i.overlay ""
          then base_schema i (stat_size i.base)
          else overlaid add_overlay i (pairs_of i) (base_schema i (stat_size i.base))))
      made = Leaves-seq (Leaves-doing reply _ _ _ _) (
          Leaves-seq (Leaves-doing reply _ _ _ _) (
            Leaves-seq (Leaves-set_state _) (
              Leaves-seq
                (Leaves-branch (str_eq i.overlay "") Leaves-done (use_overlays-Leaves i _ _))
                (Leaves-set_state (finish_schema i)))))

expose-Leaves :
    {S : Type 0} (reply : Oracle MigrationCall) (vm_path name device_path : String)
    → Leaves (expose_silo_device_as_file {S = S} reply vm_path name device_path) (λ s. s)
unfolding expose_silo_device_as_file
expose-Leaves reply vm_path name device_path = Leaves-if (str_eq vm_path "") Leaves-done (
    Leaves-seq (Leaves-doing reply _ _ _ _)
      (Leaves-seq (Leaves-tested reply _ _) (Leaves-doing reply _ _ _ _)))

module _ (reply : Oracle MigrationCall) (stat_size : String → ℕ)
    (add_overlay : CowOverlay → DeviceSchema → DeviceSchema) (tweak : Tweak) (vm_path : String)
    (device_path : String → String) where
  abbrev pub collected_one : ℕ → MigrateFromDevice → FromFs → FromFs
  collected_one n d s =
      if d.shared then s else add_schema tweak n d.name (schema_of add_overlay stat_size d) s

  pub collected : ℕ → List MigrateFromDevice → FromFs → FromFs
  collected n [] s = s
  collected n (d ∷ ds) s = collected (suc n) ds (collected_one n d (note_skip d s))

  pub collect-Leaves :
      (n : ℕ) (ds : List MigrateFromDevice)
      → Leaves (collect reply stat_size add_overlay tweak vm_path device_path n ds) (collected n ds)
  unfolding collect collected
  collect-Leaves n [] = Leaves-done
  collect-Leaves n (d ∷ ds) = Leaves-seq (Leaves-set_state (note_skip d)) (
      Leaves-seq
        (Leaves-branch d.shared (expose-Leaves reply vm_path d.name d.base) (
          Leaves-making no_schema (add_schema tweak n d.name)
            (create-Leaves reply stat_size add_overlay d)))
        (collect-Leaves (suc n) ds))

  pub schemas-collected :
      (n : ℕ) (ds : List MigrateFromDevice) (s : FromFs)
      → ((collected n ds s).schemas ≡ s.schemas ++ handed add_overlay stat_size tweak n ds)
        × ((collected n ds s).skip_silos ≡ noted_skips ds s.skip_silos)
  unfolding collected handed
  schemas-collected n [] s = (sym (append-nil s.schemas), refl)
  schemas-collected n (d ∷ ds) s =
      let made = schema_of add_overlay stat_size d in
      let ih = schemas-collected (suc n) ds (collected_one n d (note_skip d s)) in
      (
        ih.0
            ∙ one_more tweak n d.shared d.name made (note_skip d s)
                (handed add_overlay stat_size tweak (suc n) ds),
        ih.1 ∙ ap (noted_skips ds) (same_skips tweak n d.shared d.name made (note_skip d s)),
      )

  abbrev pub gathered : List MigrateFromDevice → Action MigrationCall FromFs
  gathered = gather reply stat_size add_overlay tweak vm_path device_path

  pub gathered-Leaves :
      (devices : List MigrateFromDevice) → Leaves (gathered devices) (collected 0 devices)
  unfolding gather
  gathered-Leaves devices =
      Leaves-seq (collect-Leaves 0 devices) (Leaves-by_state (λ s. Leaves-doing reply _ _ _ _))

  pub place-Leaves :
      (m : Dict Bool) (schemas : List DeviceSchema)
      → Leaves (place reply stat_size add_overlay tweak vm_path device_path m schemas) (λ s. s)
  unfolding place copy_over
  place-Leaves m [] = Leaves-done
  place-Leaves m (ds ∷ rest) =
      Leaves-seq
        (Leaves-if (skips m ds.name)
          (Leaves-seq (Leaves-doing reply _ _ _ _) (
            Leaves-seq (Leaves-doing reply _ _ _ _) (
              Leaves-seq (Leaves-doing reply _ _ _ _)
                (Leaves-seq (Leaves-doing reply _ _ _ _) (Leaves-doing reply _ _ _ _)))))
          (expose-Leaves reply vm_path ds.name (device_path ds.name)))
        (place-Leaves m rest)
