-- ===== src/Common/MigrateFrom/Exposed.antt =====
-- What `MigrateFromPipe` of pkg/common/migrations.go has done where it returns nil.
use mathlib.Core.List.{append_assoc}
use drafter.Base.{
  Bool, true, false, List, [], ◌∷◌, ◌++◌, map, reverse, String, if◌then◌else◌, str_eq, ◌≡◌, ap, ◌∙◌,
  subst,
}
use drafter.Errors.{failed}
use drafter.Script.{Oracle}
use drafter.Action.{World, Action, ◌⨾◌, done}
use drafter.Action.Laws.{
  milestones, Reaches, Reaches-done, Reaches-seq, Reaches-skip, Reaches-doing,
}
use drafter.Common.MigrateFrom.{
  MigrationCall, expose_silo_device_as_file, make_node, new_from_protocol, await_ready,
}
use drafter.Common.MigrateFrom.Pipe.{GroupDevice, expose_all, migrate_from_pipe}
use drafter.Common.MigrateFrom.Handed.{places}
use drafter.Common.MigrateFrom.Handed.Reached.{expose-Reaches, reverse-then}

-- The names of the devices of a group that are exposed.
abbrev pub exposed_names : List GroupDevice → List String
exposed_names [] = []
exposed_names (d ∷ ds) = if d.exposed then d.name ∷ exposed_names ds else exposed_names ds

module _ {S : Type 0} (reply : Oracle MigrationCall) (vm_path : String)
    (device_path : String → String) (given : str_eq vm_path "" ≡ false) where
  -- A device, exposed or not, and the others behind it.
  device_then_rest :
      (b : Bool) (name : String) (names : List String) {rest : Action MigrationCall S}
      → Reaches places rest (reverse (map make_node names))
      → Reaches places
          ((if b then expose_silo_device_as_file reply vm_path name (device_path name) else done)
            ⨾ rest)
          (reverse (map make_node (if b then name ∷ names else names)))
  device_then_rest true name names x =
      subst (Reaches places _) (reverse-then (make_node name) (map make_node names))
        (Reaches-seq places (expose-Reaches reply vm_path name (device_path name) given) x)
  device_then_rest false name names x = Reaches-skip places (Reaches-done places) x

  expose_all-Reaches :
      (devices : List GroupDevice)
      → Reaches places
          (expose_all {S = S} reply vm_path device_path devices)
          (reverse (map make_node (exposed_names devices)))
  unfolding expose_all
  expose_all-Reaches [] = Reaches-done places
  expose_all-Reaches (d ∷ ds) =
      device_then_rest d.exposed d.name (exposed_names ds) (expose_all-Reaches ds)

  pipe-Reaches :
      (devices : List GroupDevice)
      → Reaches places (migrate_from_pipe {S = S} reply vm_path device_path devices) (
          await_ready
          ∷ (reverse (map make_node (exposed_names devices)) ++ (new_from_protocol ∷ [])))
  unfolding migrate_from_pipe
  pipe-Reaches devices =
      Reaches-seq places (Reaches-doing places reply _ _ _ _)
        (Reaches-seq places (expose_all-Reaches devices) (Reaches-doing places reply _ _ _ _))

  -- If a MigrateFromPipe into a directory returns nil, then of the calls that make a group, put a device in
  -- its place and wait for the authority exactly these have succeeded, in this order: the group was made
  -- from the protocol; each of its devices that is exposed, and no other, has got a node, in the order of
  -- the group; and then the authority was waited for.
  pub migrate_from_pipe-exposed :
      (devices : List GroupDevice) (w : World MigrationCall S)
      → failed (migrate_from_pipe reply vm_path device_path devices w).0 ≡ false
      → milestones places (migrate_from_pipe reply vm_path device_path devices w).1.calls
        ≡ await_ready
          ∷ (reverse (map make_node (exposed_names devices))
              ++ (new_from_protocol ∷ milestones places w.calls))
  migrate_from_pipe-exposed devices w h =
      (pipe-Reaches devices).reached w h
      ∙ ap (λ l. await_ready ∷ l)
          (append_assoc (reverse (map make_node (exposed_names devices))) (new_from_protocol ∷ [])
            (milestones places w.calls))
