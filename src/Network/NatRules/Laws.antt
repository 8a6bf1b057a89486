-- ===== src/Network/NatRules/Laws.antt =====
-- What `CreateNAT` and `RemoveNAT` do to the rule tables.
use drafter.Base.{[], ◌+◌, Bool, false, ◌≡◌, refl, arith, String}
use drafter.Errors.{failed}
use drafter.Script.{Log, Oracle}
use drafter.Script.Laws.{succeeded, attempted, succeeded-run_steps}
use drafter.Network.Namespace.{Rule}
use drafter.Network.NatRules.{
  NatCall, append_rule, delete_rule, create_rules, remove_rules, create_steps, remove_steps,
}

abbrev pub appends : (Rule → Bool) → NatCall → Bool
appends p (append_rule r) = p r
appends p _ = false

abbrev pub deletes : (Rule → Bool) → NatCall → Bool
deletes p (delete_rule r) = p r
deletes p _ = false

module _ (q : NatCall → Bool) (host_interface : String) (reply : Oracle NatCall)
    (log : Log NatCall) where
  succeeded-create :
      failed (create_rules host_interface reply log).0 ≡ false
      → succeeded q (create_rules host_interface reply log).1
        ≡ attempted q (create_steps host_interface) + succeeded q log
  unfolding create_rules
  succeeded-create ok =
      succeeded-run_steps q reply (create_steps host_interface) [] [] log refl refl ok

  succeeded-remove :
      failed (remove_rules host_interface reply log).0 ≡ false
      → succeeded q (remove_rules host_interface reply log).1
        ≡ attempted q (remove_steps host_interface) + succeeded q log
  unfolding remove_rules
  succeeded-remove ok =
      succeeded-run_steps q reply (remove_steps host_interface) [] [] log refl refl ok

-- A `CreateNAT` that returns nil appends rules of each kind as often as a `RemoveNAT` for the same
-- interface that returns nil deletes them, whatever was done in between.
pub create-remove_rules :
    (p : Rule → Bool) (host_interface : String) (reply : Oracle NatCall) (log later : Log NatCall)
    → failed (create_rules host_interface reply log).0 ≡ false
    → failed (remove_rules host_interface reply later).0 ≡ false
    → succeeded (appends p) (create_rules host_interface reply log).1 + succeeded (deletes p) later
      ≡ succeeded (deletes p) (remove_rules host_interface reply later).1
        + succeeded (appends p) log
unfolding create_steps remove_steps
create-remove_rules p host_interface reply log later created removed = ground (
  arith,
  succeeded-create (appends p) host_interface reply log created,
  succeeded-remove (deletes p) host_interface reply later removed,
)
