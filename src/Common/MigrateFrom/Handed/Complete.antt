-- ===== src/Common/MigrateFrom/Handed/Complete.antt =====
-- What a `MigrateFromFS` of pkg/common/migrations.go that returns nil has done.
use drafter.Base.{
  ℕ, Bool, false, List, [], ◌∷◌, ◌++◌, map, reverse, String, str_eq, ◌≡◌, ap, ◌∙◌, arith,
  Bool-cases, inl, inr,
}
use drafter.Base.Dict.{Dict}
use drafter.Errors.{failed}
use drafter.Script.{Oracle}
use drafter.Action.{World, ◌⨾◌, by_state}
use drafter.Action.Laws.{milestones}
use drafter.Common.MigrateFrom.{
  MigrateFromDevice, CowOverlay, DeviceSchema, MigrationCall, new_from_schema, make_node,
}
use drafter.Common.MigrateFrom.Files.{Tweak, FromFs, place, migrate_from_fs}
use drafter.Common.MigrateFrom.Handed.{handed, shared_names, noted_skips, places, placed}
use drafter.Common.MigrateFrom.Handed.Left.{
  gathered, place-Leaves, gathered-Leaves, schemas-collected,
}
use drafter.Common.MigrateFrom.Handed.Reached.{place-Reaches, gathered_reached}

module _ (reply : Oracle MigrationCall) (stat_size : String → ℕ)
    (add_overlay : CowOverlay → DeviceSchema → DeviceSchema) (tweak : Tweak) (vm_path : String)
    (device_path : String → String) where
  module _ (given : str_eq vm_path "" ≡ false) where
    -- The loop over the schemas that a state has.
    place_gathered :
        (w : World MigrationCall FromFs) (m : Dict Bool) (schemas : List DeviceSchema)
        → w.state.schemas ≡ schemas
        → w.state.skip_silos ≡ m
        → let r =
            place reply stat_size add_overlay tweak vm_path device_path w.state.skip_silos
              w.state.schemas w in
          failed r.0 ≡ false
          → (r.1.state.schemas ≡ schemas)
            × (milestones places r.1.calls
                ≡ reverse (map (placed m) schemas) ++ milestones places w.calls)
    place_gathered w m schemas e f h = (
      ap (λ s. s.schemas)
            ((place-Leaves reply stat_size add_overlay tweak vm_path device_path w.state.skip_silos
                w.state.schemas).left
              w h)
          ∙ e,
      (place-Reaches reply stat_size add_overlay tweak vm_path device_path given w.state.skip_silos
              w.state.schemas).reached
            w h
          ∙ ap (λ m'. reverse (map (placed m') w.state.schemas) ++ milestones places w.calls) f
          ∙ ap (λ l. reverse (map (placed m) l) ++ milestones places w.calls) e,
    )

    -- If a MigrateFromFS into a directory returns nil, then of the calls that make a group, put a device in its
    -- place and wait for its authority exactly these have succeeded, the last first: a copy for each schema
    -- whose device skips Silo, and a node for each other; before these, the one that hands Silo the schemas,
    -- which are those of the devices that are not shared, in order, each as it is described field by field,
    -- with its overlays one over the other, and as the tweak makes it; and before that, a node for each
    -- shared device.
    pub migrate_from_fs-handed :
        (devices : List MigrateFromDevice) (w : World MigrationCall FromFs)
        → w.state.schemas ≡ []
        → w.state.skip_silos ≡ []
        → failed (migrate_from_fs reply stat_size add_overlay tweak vm_path device_path devices w).0
          ≡ false
        → let schemas = handed add_overlay stat_size tweak 0 devices in
          milestones places
            (migrate_from_fs reply stat_size add_overlay tweak vm_path device_path devices
              w).1.calls
          ≡ reverse (map (placed (noted_skips devices [])) schemas)
            ++ (new_from_schema schemas
                ∷ (reverse (map make_node (shared_names devices)) ++ milestones places w.calls))
    unfolding migrate_from_fs ◌⨾◌ by_state
    migrate_from_fs-handed devices w no_schemas no_skips h =
        let g = gathered reply stat_size add_overlay tweak vm_path device_path devices w in
        let schemas = handed add_overlay stat_size tweak 0 devices in
        elim (Bool-cases (failed g.0)) [
          | inl bad ↦ absurd (ground (arith, bad, h))
          | inr good ↦
              let state =
                (gathered-Leaves reply stat_size add_overlay tweak vm_path device_path devices).left
                  w good in
              let made =
                schemas-collected reply stat_size add_overlay tweak vm_path device_path 0 devices
                  w.state in
              let all_made = made.0 ∙ ap (λ l. l ++ schemas) no_schemas in
              let ended =
                place_gathered g.1 (noted_skips devices []) schemas
                  (ap (λ s. s.schemas) state ∙ all_made)
                  (ap (λ s. s.skip_silos) state ∙ made.1 ∙ ap (noted_skips devices) no_skips)
                  (ground (arith, good, h)) in
              let behind : List MigrationCall → List MigrationCall =
                λ l. reverse (map (placed (noted_skips devices [])) schemas) ++ l in
              rw good (
                ended.1
                ∙ ap behind (
                    gathered_reached reply stat_size add_overlay tweak vm_path device_path given
                      devices w good)
                ∙ ap
                    (λ l. behind (
                      new_from_schema l
                      ∷ (reverse (map make_node (shared_names devices))
                          ++ milestones places w.calls)))
                    all_made)
        ]
