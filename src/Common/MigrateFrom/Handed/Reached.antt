-- ===== src/Common/MigrateFrom/Handed/Reached.antt =====
-- The calls of `MigrateFromFS` of pkg/common/migrations.go that put a device in its place.
use mathlib.Core.List.{reverse-cons}
use drafter.Base.{
  ℕ, suc, Bool, true, false, List, [], ◌∷◌, ◌++◌, map, reverse, String, if◌then◌else◌, str_eq,
  length, ◌==◌, ◌≡◌, refl, sym, subst, ap, ◌∙◌, arith, Bool-cases, Option-cases, inl, inr,
}
use drafter.Base.Dict.{Dict, lookup}
use drafter.Base.Text.{Text}
use drafter.Errors.{nil, failed}
use drafter.Script.{Oracle}
use drafter.Action.{World, Action, ◌⨾◌, by_state, making}
use drafter.Action.Laws.{
  milestones, Reaches, Reaches-done, Reaches-set_state, Reaches-seq, Reaches-skip, Reaches-doing,
  Reaches-Quiet, Quiet-tested, Reaches-never, Reaches-if, Reaches-making,
}
use drafter.Common.MigrateFrom.{
  MigrateFromDevice, CowOverlay, DeviceSchema, MigrationCall, expose_silo_device_as_file,
  new_from_schema, make_node, copy_content,
}
use drafter.Common.MigrateFrom.Schemas.{
  finish_schema, add_overlays, use_overlays, create_silo_dev_schema,
}
use drafter.Common.MigrateFrom.Files.{
  Tweak, FromFs, no_schema, add_schema, note_skip, skips, collect, copy_over, place, gather,
}
use drafter.Common.MigrateFrom.Handed.{shared_names, places, placed}
use drafter.Common.MigrateFrom.Handed.Left.{gathered, collected, collect-Leaves}

module _ (reply : Oracle MigrationCall) (stat_size : String → ℕ)
    (add_overlay : CowOverlay → DeviceSchema → DeviceSchema) where
  add_overlays-Reaches :
      (i : MigrateFromDevice) (overlays states : List Text)
      → Reaches places (add_overlays reply stat_size add_overlay i overlays states) []
  unfolding add_overlays
  add_overlays-Reaches i [] states = Reaches-done places
  add_overlays-Reaches i (overlay ∷ overlays) [] = Reaches-done places
  add_overlays-Reaches i (overlay ∷ overlays) (state ∷ states) =
      Reaches-skip places (Reaches-doing places reply _ _ _ _) (
        Reaches-skip places (Reaches-doing places reply _ _ _ _) (
          Reaches-skip places (Reaches-set_state places _)
            (add_overlays-Reaches i overlays states)))

  use_overlays-Reaches :
      (i : MigrateFromDevice) (overlays states : List Text)
      → Reaches places (use_overlays reply stat_size add_overlay i overlays states) []
  unfolding use_overlays
  use_overlays-Reaches i overlays states =
      Reaches-if places (length overlays == length states) (add_overlays-Reaches i overlays states)
        (Reaches-never places [] (λ w. refl))

  create-Reaches :
      (i : MigrateFromDevice)
      → Reaches places (create_silo_dev_schema reply stat_size add_overlay i) []
  unfolding create_silo_dev_schema
  create-Reaches i = Reaches-skip places (Reaches-doing places reply _ _ _ _) (
      Reaches-skip places (Reaches-doing places reply _ _ _ _) (
        Reaches-skip places (Reaches-set_state places _) (
          Reaches-skip places
            (Reaches-if places (str_eq i.overlay "") (Reaches-done places)
              (use_overlays-Reaches i _ _))
            (Reaches-set_state places (finish_schema i)))))

-- A device that is exposed, where the directory of the VM is given.
pub expose-Reaches :
    {S : Type 0} (reply : Oracle MigrationCall) (vm_path name device_path : String)
    → str_eq vm_path "" ≡ false
    → Reaches places
        (expose_silo_device_as_file {S = S} reply vm_path name device_path)
        (make_node name ∷ [])
unfolding expose_silo_device_as_file
expose-Reaches reply vm_path name device_path given = rw given (
    Reaches-seq places (Reaches-doing places reply _ _ _ _) (
      Reaches-skip places (Reaches-Quiet places (Quiet-tested places reply _ _ refl))
        (Reaches-doing places reply _ _ _ _)))

-- What is reached, written otherwise.
reached_same :
    {a : Action MigrationCall FromFs} {t u : List MigrationCall}
    → t ≡ u
    → Reaches places a t
    → Reaches places a u
reached_same {a} e x = subst (Reaches places a) e x

-- A list of calls, the last first, in front of one more.
pub reverse-then : {A : Type 0} (x : A) (xs : List A) → reverse xs ++ x ∷ [] ≡ reverse (x ∷ xs)
reverse-then x xs = sym (reverse-cons x xs)

module _ (reply : Oracle MigrationCall) (stat_size : String → ℕ)
    (add_overlay : CowOverlay → DeviceSchema → DeviceSchema) (tweak : Tweak) (vm_path : String)
    (device_path : String → String) where
  module _ (given : str_eq vm_path "" ≡ false) where
    -- A device, shared or not, and the others behind it.
    one_then_rest :
        (b : Bool) (n : ℕ) (d : MigrateFromDevice) (names : List String)
        {rest : Action MigrationCall FromFs}
        → Reaches places rest (reverse (map make_node names))
        → Reaches places
            ((if b
                then expose_silo_device_as_file reply vm_path d.name d.base
                else making no_schema
                    (add_schema tweak n d.name)
                    (create_silo_dev_schema reply stat_size add_overlay d))
              ⨾ rest)
            (reverse (map make_node (if b then d.name ∷ names else names)))
    one_then_rest true n d names x =
        subst (Reaches places _) (reverse-then (make_node d.name) (map make_node names))
          (Reaches-seq places (expose-Reaches reply vm_path d.name d.base given) x)
    one_then_rest false n d names x =
        Reaches-skip places
          (Reaches-making places no_schema (add_schema tweak n d.name)
            (create-Reaches reply stat_size add_overlay d))
          x

    collect-Reaches :
        (n : ℕ) (ds : List MigrateFromDevice)
        → Reaches places
            (collect reply stat_size add_overlay tweak vm_path device_path n ds)
            (reverse (map make_node (shared_names ds)))
    unfolding collect
    collect-Reaches n [] = Reaches-done places
    collect-Reaches n (d ∷ ds) =
        Reaches-skip places (Reaches-set_state places (note_skip d))
          (one_then_rest d.shared n d (shared_names ds) (collect-Reaches (suc n) ds))

    place_one-Reaches :
        (m : Dict Bool) (ds : DeviceSchema)
        → Reaches places
            (if skips m ds.name
              then copy_over reply stat_size add_overlay tweak vm_path device_path ds.name
              else expose_silo_device_as_file reply vm_path ds.name (device_path ds.name))
            ((if skips m ds.name then copy_content ds.name else make_node ds.name) ∷ [])
    unfolding copy_over
    place_one-Reaches m ds = elim (Bool-cases (skips m ds.name)) [
      | inl skip ↦ rw skip (
          Reaches-seq places (Reaches-doing places reply _ _ _ _) (
            Reaches-seq places (Reaches-doing places reply _ _ _ _) (
              Reaches-seq places (Reaches-doing places reply _ _ _ _) (
                Reaches-seq places (Reaches-doing places reply _ _ _ _)
                  (Reaches-doing places reply _ _ _ _)))))
      | inr through_silo ↦
          rw through_silo (expose-Reaches reply vm_path ds.name (device_path ds.name) given)
    ]

    placed-skips :
        (m : Dict Bool) (ds : DeviceSchema)
        → (if skips m ds.name then copy_content ds.name else make_node ds.name) ≡ placed m ds
    placed-skips m ds = elim (Option-cases (lookup ds.name m)) [
      | inl e ↦ ground (arith, e)
      | inr (b, e) ↦ ground (arith, e)
    ]

    placed_one-Reaches :
        (m : Dict Bool) (ds : DeviceSchema)
        → Reaches places
            (if skips m ds.name
              then copy_over reply stat_size add_overlay tweak vm_path device_path ds.name
              else expose_silo_device_as_file reply vm_path ds.name (device_path ds.name))
            (placed m ds ∷ [])
    placed_one-Reaches m ds =
        reached_same (ap (λ c. c ∷ []) (placed-skips m ds)) (place_one-Reaches m ds)

    pub place-Reaches :
        (m : Dict Bool) (schemas : List DeviceSchema)
        → Reaches places
            (place reply stat_size add_overlay tweak vm_path device_path m schemas)
            (reverse (map (placed m) schemas))
    unfolding place
    place-Reaches m [] = Reaches-done places
    place-Reaches m (ds ∷ rest) =
        subst (Reaches places _) (reverse-then (placed m ds) (map (placed m) rest))
          (Reaches-seq places (placed_one-Reaches m ds) (place-Reaches m rest))

    -- The calls until Silo has made the group: the last was handed the schemas that were collected.
    pub gathered_reached :
        (devices : List MigrateFromDevice) (w : World MigrationCall FromFs)
        → failed (gathered reply stat_size add_overlay tweak vm_path device_path devices w).0
          ≡ false
        → milestones places
            (gathered reply stat_size add_overlay tweak vm_path device_path devices w).1.calls
          ≡ new_from_schema
              (collected reply stat_size add_overlay tweak vm_path device_path 0 devices
                w.state).schemas
            ∷ (reverse (map make_node (shared_names devices)) ++ milestones places w.calls)
    unfolding gather ◌⨾◌ by_state
    gathered_reached devices w h =
        let c = collect reply stat_size add_overlay tweak vm_path device_path 0 devices w in
        elim (Bool-cases (failed c.0)) [
          | inl bad ↦ absurd (ground (arith, bad, h))
          | inr good ↦ rw good (
              (Reaches-doing places reply (new_from_schema c.1.state.schemas) nil _ _).reached c.1
                (ground (arith, good, h))
              ∙ ap (λ (s : FromFs). new_from_schema s.schemas ∷ milestones places c.1.calls)
                  ((collect-Leaves reply stat_size add_overlay tweak vm_path device_path 0
                      devices).left
                    w good)
              ∙ ap
                  (λ l.
                    new_from_schema
                      (collected reply stat_size add_overlay tweak vm_path device_path 0 devices
                        w.state).schemas
                    ∷ l)
                  ((collect-Reaches 0 devices).reached w good))
        ]
