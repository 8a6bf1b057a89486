-- ===== src/Firecracker/Machine/Examples.antt =====
-- A machine that is started at the second tick, closed, killed and reported.
use drafter.Base.{ℕ, true, [], ◌∷◌, ◌≡◌, ◌⊎◌, Panic, returned, panicked}
use drafter.Errors.{GoError, nil, join, Cause, FirecrackerError}
use drafter.Script.{Oracle}
use drafter.Firecracker.Machine.{because}
use drafter.Firecracker.Machine.Process.{
  clean, killed, other, exit_error, FirecrackerMachine, started, exit, close_begin, close_end,
  wait_end,
}
use drafter.Firecracker.Machine.Start.{StartCall}
use drafter.Firecracker.Machine.Life.{
  begun, turn, exits, closes, IsSound, Life-IsSound, close_end-wait_end,
}

abbrev closing : FirecrackerMachine
closing = (close_begin nil started).1

Life-IsSound_example : IsSound (exit killed closing)
Life-IsSound_example = Life-IsSound (turn (turn begun (closes nil)) (exits killed))

close_end-wait_end_example :
    ((clean ≡ killed) × (close_end clean ≡ returned nil) × (wait_end true clean ≡ nil))
    ⊎ ((clean ≡ clean)
        × (close_end clean ≡ panicked Panic.nil_pointer)
        × (wait_end true clean ≡ nil))
    ⊎ ((n : ℕ) × (clean ≡ other n)
        × (close_end clean ≡ returned (exit_error clean))
        × (wait_end true clean
            ≡ join (because FirecrackerError.firecracker_exited) (exit_error clean)))
close_end-wait_end_example = close_end-wait_end clean

abbrev obliging : Oracle StartCall
obliging log c = nil

-- The socket is there at the second tick.
abbrev not_found : GoError
not_found = Cause.external 2 ∷ []
