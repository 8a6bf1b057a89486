-- ===== src/Firecracker/Machine/Process.antt =====
-- The process of a machine: `StartFirecrackerMachine`, its goroutines, `Close` and `Wait` of
-- pkg/runtimes/firecracker/machine.go. The steps that a lock makes one are one; a call that waits for
-- the process is two, before and after.
use drafter.Base.{
  ℕ, ◌+◌, Bool, true, false, List, [], ◌∷◌, ◌++◌, Option, none, some, if◌then◌else◌, Outcome,
  returned, panicked, Panic,
}
use drafter.Errors.{GoError, nil, join, Cause, FirecrackerError}
use drafter.Firecracker.Machine.{because}

-- What `cmd.Wait` returns: nil, or an error by its text.
pub data Exit : Type 0 where
  clean : Exit
  killed : Exit
  other : ℕ → Exit

abbrev pub exit_error : Exit → GoError
exit_error clean = nil
exit_error killed = Cause.signal_killed ∷ []
exit_error (other n) = Cause.external n ∷ []

pub record FirecrackerMachine : Type 0 where
  pub closed : Bool
  -- `cmdErr`, once the goroutine behind `cmd.Wait` has called `cmdWg.Done`
  pub cmd_err : Option Exit
  -- whether that goroutine has not sent yet
  pub reporting : Bool
  -- the buffer of the channel `cmdErrCh`, of one place
  pub cmd_err_ch : List GoError
  -- how many signals `Close` has sent, and whether the end of the context has sent one
  pub kills : ℕ
  pub context_killed : Bool
  -- how often the goroutine has sent
  pub reports : ℕ

-- A machine whose process was just started.
abbrev pub started : FirecrackerMachine
started = record {
  closed = false;
  cmd_err = none;
  reporting = true;
  cmd_err_ch = [];
  kills = 0;
  context_killed = false;
  reports = 0;
}

-- `cmd.Wait` returns, and `cmdWg.Done`.
abbrev pub exit : Exit → FirecrackerMachine → FirecrackerMachine
exit e m = elim m.cmd_err [ none ↦ record m { cmd_err = some e } | some _ ↦ m ]

abbrev pub send : GoError → FirecrackerMachine → FirecrackerMachine
send e m = record m {
  reporting = false;
  cmd_err_ch = m.cmd_err_ch ++ e ∷ [];
  reports = m.reports + 1;
}

-- The end of the context that the command was built with, which kills the process once.
abbrev pub context_end : FirecrackerMachine → FirecrackerMachine
context_end m = record m { context_killed = true }

-- What the goroutine sends: the text of a nil error cannot be read.
unfoldable pub report_exit : Exit → FirecrackerMachine → Outcome FirecrackerMachine
report_exit clean m = if m.closed then panicked Panic.nil_pointer else returned (send nil m)
report_exit killed m = returned (send (if m.closed then nil else exit_error killed) m)
report_exit (other n) m = returned (send (exit_error (other n)) m)

-- The rest of the goroutine, under the lock, once the process has exited.
unfoldable pub report : FirecrackerMachine → Outcome FirecrackerMachine
unfolding report_exit
report m = elim m.cmd_err [
  | none ↦ returned m
  | some e ↦ if m.reporting then report_exit e m else returned m
]

-- `Close` up to where it waits: the error of the signal, if one is sent, is returned at once.
unfoldable pub close_begin : GoError → FirecrackerMachine → GoError × FirecrackerMachine
close_begin kill_error m =
    if m.closed then (nil, m) else (kill_error, record m { closed = true; kills = m.kills + 1 })

-- `Close` once the process has exited: the text of a nil error cannot be read.
unfoldable pub close_end : Exit → Outcome GoError
close_end clean = panicked Panic.nil_pointer
close_end killed = returned nil
close_end (other n) = returned (exit_error (other n))

-- `Wait` once the process has exited.
unfoldable pub wait_end : Bool → Exit → GoError
wait_end closed clean = nil
wait_end closed killed =
    if closed then nil else join (because FirecrackerError.firecracker_exited) (exit_error killed)
wait_end closed (other n) =
    join (because FirecrackerError.firecracker_exited) (exit_error (other n))
