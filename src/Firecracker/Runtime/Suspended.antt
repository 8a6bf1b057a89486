-- ===== src/Firecracker/Runtime/Suspended.antt =====
-- What `Suspend` and `Close` of pkg/runtimes/firecracker/runtime.go have done where they return nil.
use drafter.Base.{
  Bool, true, false, List, [], ◌∷◌, ◌++◌, if◌then◌else◌, ◌≡◌, refl, ap, ◌∙◌, sym, arith, subst,
  Bool-cases, inl, inr,
}
use drafter.Errors.{nil, failed}
use drafter.Script.{Oracle}
use drafter.Action.{World, ◌⨾◌, done, by_state, set_state, doing}
use drafter.Action.Invariants.{
  Keeps, Keeps-done, Keeps-set_state, Keeps-by_state, Keeps-if, Keeps-seq, Keeps-under, Keeps-call,
  Keeps-each,
}
use drafter.Action.Laws.{
  milestones, Reaches, Reaches-done, Reaches-set_state, Reaches-by_state, Reaches-seq,
  Reaches-under, Reaches-doing, Reaches-each, Reaches-never, Reaches-if,
}
use drafter.Action.Effects.{
  Leaves, Leaves-done, Leaves-set_state, Leaves-by_state, Leaves-seq, Leaves-under, Leaves-doing,
  Leaves-each, Leaves-never, Leaves-if,
}
use drafter.Firecracker.Machine.{ApiCall, create_snapshot_steps, pause_vm}
use drafter.Firecracker.Runtime.{
  RuntimeCall, Runtime, RuntimeAction, api, with_machine, with_agent, set_running, suspend_machine,
  suspend_running, suspend, close_vm, close_machine_and_dir, close, get_remote, before_suspend,
  close_agent, close_machine, remove_vm_dir, grab_memory_changes,
}

-- The calls by which a VM is suspended and closed; not those that only read.
abbrev pub ends : RuntimeCall → Bool
ends (api c) = true
ends get_remote = true
ends before_suspend = true
ends close_agent = true
ends close_machine = true
ends remove_vm_dir = true
ends c = false

-- The calls of a suspension, the last first.
abbrev pub suspension : List RuntimeCall
suspension =
    api (ApiCall.create_snapshot "" "state" "MsyncAndState")
    ∷ api pause_vm
    ∷ close_agent
    ∷ before_suspend
    ∷ get_remote
    ∷ []

abbrev pub End : RuntimeAction → List RuntimeCall → Type 0
End = Reaches ends

module _ (reply : Oracle RuntimeCall) where
  End-with_machine : {a : RuntimeAction} {t : List RuntimeCall} → End a t → End (with_machine a) t
  unfolding with_machine
  End-with_machine {t} x =
      Reaches-by_state ends (λ rt. Reaches-if ends rt.machine x (Reaches-never ends t (λ w. refl)))

  End-with_agent : {a : RuntimeAction} {t : List RuntimeCall} → End a t → End (with_agent a) t
  unfolding with_agent
  End-with_agent {t} x =
      Reaches-by_state ends (λ rt. Reaches-if ends rt.agent x (Reaches-never ends t (λ w. refl)))

  suspend_running-End : End (suspend_running reply) suspension
  unfolding suspend_running suspend_machine create_snapshot_steps
  suspend_running-End =
      Reaches-seq ends (End-with_agent (Reaches-doing ends reply get_remote _ _ _)) (
        Reaches-seq ends (Reaches-doing ends reply before_suspend _ _ _) (
          Reaches-seq ends (Reaches-doing ends reply close_agent _ _ _) (
            Reaches-seq ends
              (End-with_machine (Reaches-under ends _ (Reaches-each ends reply api (λ c. refl) _)))
              (Reaches-seq ends (Reaches-set_state ends _) (
                Reaches-by_state ends (λ rt.
                  Reaches-if ends rt.grab_memory
                    (Reaches-doing ends reply grab_memory_changes _ _ _) (Reaches-done ends)))))))

  abbrev stopped : Runtime → Runtime
  stopped rt = set_running false (record rt { hooked = rt.dg })

  suspend_running-Leaves : Leaves (suspend_running reply) stopped
  unfolding suspend_running suspend_machine with_agent with_machine
  suspend_running-Leaves =
      Leaves-seq
        (Leaves-by_state (λ rt.
          Leaves-if rt.agent (Leaves-doing reply get_remote _ _ _) (Leaves-never _ (λ w. refl))))
        (Leaves-seq (Leaves-doing reply before_suspend _ _ _) (
          Leaves-seq (Leaves-doing reply close_agent _ _ _) (
            Leaves-seq
              (Leaves-by_state (λ rt.
                Leaves-if rt.machine (Leaves-under _ (Leaves-each reply api _))
                  (Leaves-never _ (λ w. refl))))
              (Leaves-seq (Leaves-set_state stopped) (
                Leaves-by_state (λ rt.
                  Leaves-if rt.grab_memory (Leaves-doing reply grab_memory_changes _ _ _)
                    Leaves-done))))))

  stopped-running : (rt : Runtime) → (stopped rt).running ≡ false
  unfolding set_running
  stopped-running rt = ground arith

  suspend-running :
      (w : World RuntimeCall Runtime)
      → w.state.running ≡ true
      → suspend reply w ≡ suspend_running reply w
  unfolding suspend by_state
  suspend-running w runs = rw runs

  pub suspend-idle :
      (w : World RuntimeCall Runtime) → w.state.running ≡ false → suspend reply w ≡ (nil, w)
  unfolding suspend by_state done
  suspend-idle w idle = rw idle

  -- If Suspend of a VM that runs returns nil, then the VM does not run any more; and of the calls by which
  -- one is suspended exactly these have succeeded, in this order: the guest was reached and has prepared
  -- its suspension, its connection was closed, and then the VM was paused and its snapshot made.
  pub suspend-order :
      (w : World RuntimeCall Runtime)
      → w.state.running ≡ true
      → failed (suspend reply w).0 ≡ false
      → ((suspend reply w).1.state.running ≡ false)
        × (milestones ends (suspend reply w).1.calls
            ≡ api (ApiCall.create_snapshot "" "state" "MsyncAndState")
              ∷ api pause_vm
              ∷ close_agent
              ∷ before_suspend
              ∷ get_remote
              ∷ milestones ends w.calls)
  suspend-order w runs h =
      let h' = subst (λ r. failed r.0 ≡ false) (suspend-running w runs) h in
      subst
        (λ r.
          (r.1.state.running ≡ false)
          × (milestones ends r.1.calls ≡ suspension ++ milestones ends w.calls))
        (sym (suspend-running w runs))
        (
          ap (λ rt. rt.running) (suspend_running-Leaves.left w h') ∙ stopped-running w.state,
          suspend_running-End.reached w h',
        )

  -- What Suspend has made of a world where it returns nil.
  pub suspend-ends :
      (w : World RuntimeCall Runtime)
      → failed (suspend reply w).0 ≡ false
      → ((suspend reply w).1.state.running ≡ false)
        × (milestones ends (suspend reply w).1.calls
            ≡ (if w.state.running then suspension else []) ++ milestones ends w.calls)
  suspend-ends w h = elim (Bool-cases w.state.running) [
    | inl runs ↦ ground (arith, runs, suspend-order w runs h)
    | inr idle ↦ ground (arith, idle, suspend-idle w idle)
  ]

  -- The pointer to the machine is left as it is.
  abbrev HasMachine : Runtime → Type 0
  HasMachine rt = rt.machine ≡ true

  suspend-HasMachine : Keeps HasMachine (suspend reply)
  unfolding suspend suspend_running suspend_machine with_agent with_machine set_running
  suspend-HasMachine = Keeps-by_state HasMachine (λ rt.
      Keeps-if HasMachine rt.running
        (Keeps-seq HasMachine
          (Keeps-by_state HasMachine (λ rt'.
            Keeps-if HasMachine rt'.agent (Keeps-call HasMachine reply _ _)
              (record { kept = λ w h. h })))
          (Keeps-seq HasMachine (Keeps-call HasMachine reply _ _) (
            Keeps-seq HasMachine (Keeps-call HasMachine reply _ _) (
              Keeps-seq HasMachine
                (Keeps-by_state HasMachine (λ rt'.
                  Keeps-if HasMachine rt'.machine
                    (Keeps-under HasMachine _ (Keeps-each HasMachine reply api _))
                    (record { kept = λ w h. h })))
                (Keeps-seq HasMachine (Keeps-set_state HasMachine _ (λ rt' h. ground arith)) (
                  Keeps-by_state HasMachine (λ rt'.
                    Keeps-if HasMachine rt'.grab_memory (Keeps-call HasMachine reply _ _)
                      (Keeps-done HasMachine))))))))
        (Keeps-done HasMachine))

  close_vm-ends :
      (w : World RuntimeCall Runtime)
      → failed (close_vm reply w).0 ≡ false
      → ((close_vm reply w).1.state.running ≡ false)
        × (milestones ends (close_vm reply w).1.calls
            ≡ close_agent ∷ (if w.state.running then suspension else []) ++ milestones ends w.calls)
        × (w.state.machine ≡ true → (close_vm reply w).1.state.machine ≡ true)
  unfolding close_vm ◌⨾◌ set_state doing
  close_vm-ends w h =
      let begun : World RuntimeCall Runtime = record w {
        state = record w.state { grab_memory = false };
      } in
      let kept = suspend-HasMachine.kept begun in
      (
        ground (arith, suspend-ends begun),
        ground (arith, suspend-ends begun),
        λ m. ground (arith, kept m),
      )

  -- If Close of a runtime that has a machine and an agent returns nil, then its VM does not run; and of
  -- the calls by which one is suspended and closed exactly these have succeeded: those of the suspension,
  -- if the VM was running; then the agent was closed, the machine, and the directory was removed.
  pub close-order :
      (w : World RuntimeCall Runtime)
      → w.state.agent ≡ true
      → w.state.machine ≡ true
      → failed (close reply w).0 ≡ false
      → ((close reply w).1.state.running ≡ false)
        × (milestones ends (close reply w).1.calls
            ≡ remove_vm_dir
                ∷ close_machine
                ∷ close_agent
                ∷ (if w.state.running then suspension else [])
              ++ milestones ends w.calls)
  unfolding close close_machine_and_dir ◌⨾◌ by_state doing
  close-order w agent machine h = let ended = close_vm-ends w in ground (arith, agent, ended)
