-- ===== src/Firecracker/Vsock/Examples.antt =====
-- A dial that is cancelled, where the shutdown fails.
use drafter.Base.{true, false, not, ◌&&◌, ◌||◌, [], ◌∷◌, ◌≡◌, refl}
use drafter.Errors.{nil, failed, Cause}
use drafter.Script.{Oracle}
use drafter.Action.{World}
use drafter.Firecracker.Vsock.{VsockCall, socket, connect, shutdown, Descriptor, dial_context}
use drafter.Firecracker.Vsock.Closed.{dial_context-descriptor}

abbrev no_shutdown : Oracle VsockCall
no_shutdown log shutdown = Cause.external 1 ∷ []
no_shutdown log c = nil

abbrev no_socket : World VsockCall Descriptor
no_socket = record { calls = []; state = record { is_open = false } }

dial_context-descriptor_example :
    ((dial_context no_shutdown true no_socket).1.state.is_open
      ≡ (not (failed (no_shutdown no_socket.calls socket)) && not true))
    × (failed (dial_context no_shutdown true no_socket).0 ≡ (
        failed (no_shutdown no_socket.calls socket)
        || true
        || failed
            (no_shutdown ((socket, no_shutdown no_socket.calls socket) ∷ no_socket.calls) connect)))
dial_context-descriptor_example = dial_context-descriptor no_shutdown true no_socket refl
