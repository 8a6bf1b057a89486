-- ===== src/Firecracker/Machine/Start.antt =====
-- `StartFirecrackerMachine` of pkg/runtimes/firecracker/machine.go. What its loop selects, tick by tick, is
-- an argument: Go picks any case that is ready.
use mathlib.Core.Option
use drafter.Base.{
  Bool, true, false, not, ◌||◌, List, [], ◌∷◌, Option, none, some, if◌then◌else◌, ◌≡◌, ◌⊎◌,
}
use drafter.Errors.{GoError, nil, failed, join, FirecrackerError}
use drafter.Script.{Step, attempt, Oracle, run_script}
use drafter.Firecracker.Machine.{because}
use drafter.Firecracker.Machine.Process.{FirecrackerMachine, started}

pub data StartCall : Type 0 where
  make_vm_path start_process : StartCall

-- What the loop finds ready.
pub data Ready : Type 0 where
  -- the wait is over: the context was cancelled, or ten seconds have passed
  wait_over : GoError → Ready
  -- a value of `cmdErrCh`
  exit_reported : GoError → Ready
  -- a tick: what `os.Stat` of the socket returns, and what the test request returns
  tick : GoError → GoError → Ready

abbrev pub start_steps : List (Step StartCall Unit)
start_steps =
    attempt make_vm_path (because FirecrackerError.could_not_create_vm_path_directory)
    ∷ attempt start_process (because FirecrackerError.could_not_start_firecracker_server)
    ∷ []

-- The loop: the error, and whether the server is returned; nothing while it still waits.
unfoldable pub await_socket : List Ready → Option (GoError × Bool)
await_socket [] = none
await_socket (wait_over e ∷ rest) =
    some (join (because FirecrackerError.no_socket_created) e, false)
await_socket (exit_reported e ∷ rest) = some (e, false)
await_socket (tick stat probe ∷ rest) =
    let again = await_socket rest in
    if failed stat then again else (if failed probe then again else some (nil, true))

-- What is returned, and whether there is a process.
pub record Launch : Type 0 where
  pub error : GoError
  pub server : Option FirecrackerMachine
  pub process_started : Bool

abbrev pub launch : GoError × Bool → Launch
launch (e, up) = record {
  error = e;
  server = if up then some started else none;
  process_started = true;
}

-- `StartFirecrackerMachine`; nothing while the loop still waits.
unfoldable pub start_firecracker_machine : Oracle StartCall → List Ready → Option Launch
unfolding await_socket
start_firecracker_machine reply events =
    let begun = run_script reply start_steps [] in
    let end = await_socket events in
    if failed begun.error
    then some (record { error = begun.error; server = none; process_started = false })
    else elim end [ none ↦ none | some r ↦ some (launch r) ]

-- The events up to where the loop ends: a tick that finds the server up, or the first other event.
abbrev pub is_up : Ready → Bool
is_up (tick stat probe) = not (failed stat || failed probe)
is_up r = false

abbrev pub decides : Ready → Bool
decides (tick stat probe) = not (failed stat || failed probe)
decides r = true

abbrev pub first_decision : List Ready → Option Ready
first_decision [] = none
first_decision (r ∷ rest) = if decides r then some r else first_decision rest

-- What the loop returns for what ends it.
abbrev pub verdict : Ready → GoError × Bool
verdict (wait_over e) = (join (because FirecrackerError.no_socket_created) e, false)
verdict (exit_reported e) = (e, false)
verdict (tick stat probe) = (nil, true)

-- A server, with no error, where the calls before the loop have succeeded and a tick finds the server
-- up; or no server, where one of them has failed or something else ends the loop: and then an error,
-- unless nil was reported.
abbrev pub Launched : Bool → List Ready → Launch → Type 0
Launched begun_failed events l =
    ((l.server ≡ some started)
      × (l.error ≡ nil)
      × (begun_failed ≡ false)
      × (Option.map is_up (first_decision events) ≡ some true))
    ⊎ ((l.server ≡ none)
        × (failed l.error ≡ true)
        × ((begun_failed ≡ true) ⊎ (Option.map is_up (first_decision events) ≡ some false)))
    ⊎ ((l.server ≡ none)
        × (l.error ≡ nil)
        × (begun_failed ≡ false)
        × (first_decision events ≡ some (exit_reported nil)))
