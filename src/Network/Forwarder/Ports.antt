-- ===== src/Network/Forwarder/Ports.antt =====
-- `ForwardPorts` over all ports, its `Close`, and what `concurrentMap` collects.
use drafter.Base.{ℕ, Bool, List, [], ◌∷◌, ◌++◌, map, if◌then◌else◌}
use drafter.Errors.{GoError, nil, join, failed, Cause, ForwarderError}
use drafter.Script.{Log, Oracle, Done, called}
use drafter.Network.Forwarder.{
  PortForward, Surroundings, ForwardCall, Note, undo, forwarded, unforward, delete_rule,
  on_before_port_unforward, forward_port,
}

-- The functions in `deferFuncs`, in the order in which `Close` runs them, and their errors joined.
-- The hook has none.
unfoldable pub run_closers :
    Oracle ForwardCall → List Note → GoError → Log ForwardCall → GoError × Log ForwardCall
run_closers reply [] errs log = (errs, log)
run_closers reply (undo r ∷ notes) errs log =
    run_closers reply notes (join errs (reply log (delete_rule r)))
      (called reply (delete_rule r) log)
run_closers reply (forwarded index ∷ notes) errs log = run_closers reply notes errs log
run_closers reply (unforward index ∷ notes) errs log =
    run_closers reply notes errs ((on_before_port_unforward index, nil) ∷ log)

-- A port in `concurrentMap`, by the order in which the goroutines append to `defers`. Only after that
-- and `wg.Done` is its error joined to `errs`: one that comes too late is not in what is returned.
pub record Worker : Type 0 where
  pub index : ℕ
  pub input : PortForward
  pub late : Bool

-- What `ForwardPorts` returns, with what was done: the ports, in the order in which they finished;
-- the functions that `Close` will run; and the calls of the `Close` in `ForwardPorts` itself.
pub record ForwardedPorts : Type 0 where
  pub error : GoError
  pub ports : List (Done ForwardCall Note)
  pub to_close : List Note
  pub closing : Log ForwardCall

-- `deferFuncs` in the order of `Close`: its `defer` in the loop reverses the ports and, for each, the
-- order in which they were added, which the notes have reversed.
unfoldable pub all_notes : List (Done ForwardCall Note) → List Note
all_notes [] = []
all_notes (d ∷ ds) = all_notes ds ++ d.marks

module _ (sys : Surroundings) (replies : ℕ → Oracle ForwardCall) where
  abbrev pub work : Worker → Done ForwardCall Note
  work w = forward_port sys (replies w.index) w.index w.input

  -- The errors that are joined in time.
  unfoldable pub joined : List Worker → GoError → GoError
  joined [] errs = errs
  joined (w ∷ ws) errs = joined ws (if w.late then errs else join errs (work w).error)

  -- `ForwardPorts`, by what `iptables.New` returns and by the calls of its own `Close`.
  unfoldable pub forward_ports : GoError → Oracle ForwardCall → List Worker → ForwardedPorts
  unfolding joined all_notes run_closers
  forward_ports new_iptables reply ws =
      let ports = map work ws in
      let notes = all_notes ports in
      let err = joined ws nil in
      let closed = run_closers reply notes nil [] in
      if failed new_iptables
      then record {
        error = join (Cause.forwarder ForwarderError.could_not_creating_iptables ∷ []) new_iptables;
        ports = [];
        to_close = [];
        closing = [];
      }
      else (if failed err
          then record {
            error = join err closed.0;
            ports = ports;
            to_close = notes;
            closing = closed.1;
          }
          else record { error = nil; ports = ports; to_close = notes; closing = [] })

-- `Close` of what `ForwardPorts` returned.
abbrev pub close_ports : Oracle ForwardCall → ForwardedPorts → GoError × Log ForwardCall
close_ports reply fw = run_closers reply fw.to_close nil []
