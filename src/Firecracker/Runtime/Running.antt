-- ===== src/Firecracker/Runtime/Running.antt =====
-- What holds of a runtime of pkg/runtimes/firecracker/runtime.go in any life that its operations make.
use drafter.Base.{
  ℕ, zero, suc, Bool, true, false, not, ◌&&◌, List, [], ◌∷◌, if◌then◌else◌, ◌≡◌, refl, arith,
  Option-cases, inl, inr, Panic, subst, sym,
}
use drafter.Errors.{GoError}
use drafter.Script.{Oracle}
use drafter.Action.{World, under, each}
use drafter.Action.Invariants.{
  Keeps, Keeps-done, Keeps-set_state, Keeps-by_state, Keeps-if, Keeps-seq, Keeps-under, Keeps-doing,
  Keeps-call, Keeps-each,
}
use drafter.Common.Package.{Content}
use drafter.Firecracker.Machine.{ApiStep}
use drafter.Firecracker.Runtime.{
  RuntimeCall, Runtime, say, api, RuntimeAction, panics, with_machine, with_agent, set_running,
  start, flush_data, suspend_machine, suspend_running, suspend, close_vm, close_machine_and_dir,
  close,
}
use drafter.Firecracker.Runtime.Incoming.{incoming_dirty_offsets}
use drafter.Firecracker.Runtime.Resume.{
  Unmarshal, decode_config, MemoryDevice, mark_incoming, reach_guest, retry_guest, resume_guest,
  resume, resume_max_retries, config_data,
}

-- What the callback was told last; a VM does not run before.
abbrev pub last_told : List Bool → Bool
last_told [] = false
last_told (r ∷ rest) = r

-- Each call of the callback tells a change.
abbrev pub alternates : List Bool → Bool
alternates [] = true
alternates (true ∷ rest) = not (last_told rest) && alternates rest
alternates (false ∷ rest) = last_told rest && alternates rest

-- The callback, if there is one, was told each change and nothing else; the grabber runs while the VM
-- does, if there is an interval.
pub record IsConsistent (rt : Runtime) : Type 0 where
  pub told : (if rt.has_running_cb then last_told rt.callbacks else rt.running) ≡ rt.running
  pub changes : alternates rt.callbacks ≡ true
  pub grabs : rt.grabbing ≡ (rt.has_grab_interval && rt.running)

abbrev Safe : RuntimeAction → Type 0
Safe = Keeps IsConsistent

set_running-IsConsistent :
    (r : Bool) (rt : Runtime) → IsConsistent rt → IsConsistent (set_running r rt)
unfolding set_running
set_running-IsConsistent true rt h = ground arith
set_running-IsConsistent false rt h = ground arith

Safe-panics : (p : Panic) → Safe (panics p)
Safe-panics p = record { kept = λ w h. h }

Safe-with_machine : {a : RuntimeAction} → Safe a → Safe (with_machine a)
unfolding with_machine
Safe-with_machine x =
    Keeps-by_state IsConsistent
      (λ rt. Keeps-if IsConsistent rt.machine x (Safe-panics Panic.nil_pointer))

Safe-with_agent : {a : RuntimeAction} → Safe a → Safe (with_agent a)
unfolding with_agent
Safe-with_agent x =
    Keeps-by_state IsConsistent
      (λ rt. Keeps-if IsConsistent rt.agent x (Safe-panics Panic.nil_pointer))

module _ (reply : Oracle RuntimeCall) where
  Safe-say : (c : RuntimeCall) (sentinel : GoError) → Safe (say reply c sentinel)
  Safe-say = Keeps-call IsConsistent reply

  Safe-api :
      (sentinel : GoError) (steps : List ApiStep) → Safe (under sentinel (each reply api steps))
  Safe-api sentinel steps =
      Keeps-under IsConsistent sentinel (Keeps-each IsConsistent reply api steps)

  pub start-Safe : Safe (start reply)
  unfolding start
  start-Safe = Keeps-doing IsConsistent reply _ _ _ _ (λ rt h. ground arith) (λ rt h. ground arith)

  pub flush_data-Safe : Safe (flush_data reply)
  unfolding flush_data
  flush_data-Safe =
      Keeps-by_state IsConsistent (λ rt.
        Keeps-if IsConsistent rt.grab_memory (Safe-say _ _) (Safe-with_machine (Safe-api _ _)))

  suspend_machine-Safe : Safe (suspend_machine reply)
  unfolding suspend_machine
  suspend_machine-Safe = Keeps-seq IsConsistent (Safe-with_machine (Safe-api _ _)) (
      Keeps-seq IsConsistent
        (Keeps-set_state IsConsistent _
          (λ rt h. set_running-IsConsistent false (record rt { hooked = rt.dg }) (ground arith)))
        (Keeps-by_state IsConsistent
          (λ rt. Keeps-if IsConsistent rt.grab_memory (Safe-say _ _) (Keeps-done IsConsistent))))

  pub suspend-Safe : Safe (suspend reply)
  unfolding suspend suspend_running
  suspend-Safe = Keeps-by_state IsConsistent (λ rt.
      Keeps-if IsConsistent rt.running
        (Keeps-seq IsConsistent (Safe-with_agent (Safe-say _ _)) (
          Keeps-seq IsConsistent (Safe-say _ _)
            (Keeps-seq IsConsistent (Safe-say _ _) suspend_machine-Safe)))
        (Keeps-done IsConsistent))

  close_vm-Safe : Safe (close_vm reply)
  unfolding close_vm
  close_vm-Safe = Keeps-seq IsConsistent (Keeps-set_state IsConsistent _ (λ rt h. ground arith)) (
      Keeps-seq IsConsistent suspend-Safe (
        Keeps-seq IsConsistent (Keeps-set_state IsConsistent _ (λ rt h. ground arith))
          (Safe-say _ _)))

  pub close-Safe : Safe (close reply)
  unfolding close close_machine_and_dir
  close-Safe =
      Keeps-seq IsConsistent
        (Keeps-by_state IsConsistent
          (λ rt. Keeps-if IsConsistent rt.agent close_vm-Safe (Keeps-done IsConsistent)))
        (Keeps-by_state IsConsistent (λ rt.
          Keeps-if IsConsistent rt.machine (Keeps-seq IsConsistent (Safe-say _ _) (Safe-say _ _))
            (Keeps-done IsConsistent)))

  decode_config-Safe :
      (unmarshal : Unmarshal) (file : Content) → Safe (decode_config unmarshal file)
  unfolding decode_config
  decode_config-Safe unmarshal file = record {
    kept = λ w h. elim (Option-cases (unmarshal (config_data file))) [
      | inl bad ↦ rw (bad, decode_config) h
      | inr (port, good) ↦ rw (good, decode_config) h
    ];
  }

  mark_incoming-Safe : (memory : MemoryDevice) → Safe (mark_incoming memory)
  unfolding mark_incoming
  mark_incoming-Safe memory = Keeps-by_state IsConsistent (λ rt.
      Keeps-if IsConsistent rt.direct_memory
        (elim (Option-cases
          (incoming_dirty_offsets memory.num_blocks memory.block_size memory.unrequired)) [
            | inl bad ↦ rw bad (Safe-panics Panic.index_out_of_range)
            | inr (offsets, good) ↦ rw good (Keeps-set_state IsConsistent _ (λ rt' h. ground arith))
          ])
        (Keeps-done IsConsistent))

  reach_guest-state : (w : World RuntimeCall Runtime) → (reach_guest reply w).1.state ≡ w.state
  unfolding reach_guest
  reach_guest-state w = ground arith

  retry_guest-state :
      (fuel retries : ℕ) (w : World RuntimeCall Runtime)
      → (retry_guest reply fuel retries w).1.state ≡ w.state
  unfolding retry_guest
  retry_guest-state zero retries w = refl
  retry_guest-state (suc fuel) retries w =
      ground
        (arith, reach_guest-state w, retry_guest-state fuel (suc retries) (reach_guest reply w).1)

  retry_guest-Safe : (fuel retries : ℕ) → Safe (retry_guest reply fuel retries)
  retry_guest-Safe fuel retries = record {
    kept = λ w h. subst IsConsistent (sym (retry_guest-state fuel retries w)) h;
  }

  pub resume-Safe :
      (unmarshal : Unmarshal) (file : Content) (memory : MemoryDevice)
      → Safe (resume reply unmarshal file memory)
  unfolding resume resume_guest
  resume-Safe unmarshal file memory = Keeps-seq IsConsistent (Safe-with_machine (Safe-say _ _)) (
      Keeps-seq IsConsistent (decode_config-Safe unmarshal file) (
        Keeps-seq IsConsistent (mark_incoming-Safe memory) (
          Keeps-seq IsConsistent
            (Keeps-by_state IsConsistent (λ rt. Keeps-each IsConsistent reply api _))
            (Keeps-seq IsConsistent
              (Keeps-by_state IsConsistent (λ rt.
                Keeps-if IsConsistent rt.direct_memory (Safe-say _ _) (Keeps-done IsConsistent)))
              (Keeps-seq IsConsistent
                (Keeps-set_state IsConsistent _
                  (λ rt h. set_running-IsConsistent true (record rt { dg = true }) (ground arith)))
                (Keeps-seq IsConsistent
                  (Keeps-doing IsConsistent reply _ _ _ _ (λ rt h. ground arith)
                    (λ rt h. ground arith))
                  (retry_guest-Safe resume_max_retries 0)))))))

pub data Operation : Type 0 where
  starts flushes suspends closes : Operation
  resumes : Unmarshal → Content → MemoryDevice → Operation

-- An operation of the runtime, whatever it returns.
unfoldable pub operate : Oracle RuntimeCall → Operation → RuntimeAction
operate reply starts = start reply
operate reply flushes = flush_data reply
operate reply suspends = suspend reply
operate reply closes = close reply
operate reply (resumes unmarshal file memory) = resume reply unmarshal file memory

-- The operations, one after the other, whatever each returns.
unfoldable pub live :
    Oracle RuntimeCall → List Operation → World RuntimeCall Runtime → World RuntimeCall Runtime
live reply [] w = w
live reply (op ∷ ops) w = live reply ops (operate reply op w).1

operate-Safe : (reply : Oracle RuntimeCall) (op : Operation) → Safe (operate reply op)
unfolding operate
operate-Safe reply starts = start-Safe reply
operate-Safe reply flushes = flush_data-Safe reply
operate-Safe reply suspends = suspend-Safe reply
operate-Safe reply closes = close-Safe reply
operate-Safe reply (resumes unmarshal file memory) = resume-Safe reply unmarshal file memory

-- In any life of a runtime, whatever its calls return and its operations too: the running callback is
-- told each change of whether the VM runs and nothing else; and the memory grabber runs exactly while the
-- VM does, if there is an interval for it.
pub live-IsConsistent :
    (reply : Oracle RuntimeCall) (ops : List Operation) (w : World RuntimeCall Runtime)
    → IsConsistent w.state
    → IsConsistent (live reply ops w).state
unfolding live
live-IsConsistent reply [] w h = h
live-IsConsistent reply (op ∷ ops) w h =
    live-IsConsistent reply ops (operate reply op w).1 ((operate-Safe reply op).kept w h)
