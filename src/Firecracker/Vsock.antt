-- ===== src/Firecracker/Vsock.antt =====
-- pkg/runtimes/firecracker/vsock: `conn` of conn.go and `DialContext` of dialer.go; and `SendLivenessPing` of
-- pkg/ipc/liveness.go, which dials. The state is whether the descriptor of the socket is open.
pub mod Closed
mod Examples
use drafter.Base.{zero, Bool, true, false, List, [], ◌∷◌, ◌++◌, if◌then◌else◌}
use drafter.Base.Int.{ℤ, pos, negsuc}
use drafter.Errors.{GoError, nil, join, failed, Cause, VsockError, LivenessError}
use drafter.Script.{Oracle}
use drafter.Action.{World, Action, ◌⨾◌, doing, call, under}

pub data VsockCall : Type 0 where
  socket connect shutdown close_descriptor : VsockCall

pub record Descriptor : Type 0 where
  pub is_open : Bool

abbrev pub VsockAction : Type 0
VsockAction = Action VsockCall Descriptor

abbrev pub because : VsockError → GoError
because e = Cause.vsock e ∷ []

-- `errors.Is(err, unix.EBADF)`
unfoldable pub is_bad_descriptor : GoError → Bool
is_bad_descriptor [] = false
is_bad_descriptor (Cause.bad_descriptor ∷ e) = true
is_bad_descriptor (c ∷ e) = is_bad_descriptor e

-- The error of a system call, in which a bad descriptor is a closed connection.
unfoldable pub as_closed : GoError → GoError
as_closed e =
    if is_bad_descriptor e
    then Cause.closed_connection ∷ Cause.vsock VsockError.vsock_connection_bad_file_descriptor ∷ e
    else e

-- `Read` and `Write`, of what the system call has returned.
unfoldable pub read_conn : ℤ → GoError → ℤ × GoError
read_conn (pos zero) e = if failed e then (pos 0, as_closed e) else (pos 0, Cause.end_of_file ∷ [])
read_conn n e = if failed e then (n, as_closed e) else (n, nil)

unfoldable pub write_conn : ℤ → GoError → ℤ × GoError
write_conn n e = if failed e then (n, as_closed e) else (n, nil)

module _ (reply : Oracle VsockCall) where
  -- A call whose error is not looked at yet.
  abbrev pub asked_of :
      VsockCall → World VsockCall Descriptor → GoError × World VsockCall Descriptor
  asked_of c w = let e = reply w.calls c in (e, record w { calls = (c, e) ∷ w.calls })

  -- The system releases the descriptor, also where it returns an error: see close(2).
  abbrev pub close_fd : World VsockCall Descriptor → GoError × World VsockCall Descriptor
  close_fd w =
      let r = asked_of close_descriptor w in
      (r.0, record r.1 { state = record { is_open = false } })

  -- `Close`
  unfoldable pub close_conn : VsockAction
  close_conn w =
      let down = asked_of shutdown w in
      let closed = close_fd down.1 in
      (
        if failed down.0
            then if failed closed.0
              then Cause.vsock VsockError.could_not_close_vsock_conn
                ∷ Cause.vsock VsockError.could_not_shutdown_vsock_connection
                ∷ (closed.0 ++ down.0)
              else join (because VsockError.could_not_shutdown_vsock_connection) down.0
            else if failed closed.0
            then join (because VsockError.could_not_close_vsock_conn) closed.0
            else nil,
        closed.1,
      )

  -- The end of the context comes first: the errors of both calls are joined, nil or not.
  unfoldable pub cancel_dial : VsockAction
  cancel_dial w =
      let down = asked_of shutdown w in
      let closed = close_fd down.1 in
      (Cause.vsock VsockError.could_not_close_vsock_conn ∷ (down.0 ++ closed.0), closed.1)

  -- `DialContext`: whether the context ends before the answer to the goroutine.
  unfoldable pub dial_context : Bool → VsockAction
  dial_context cancelled =
      doing reply socket (because VsockError.vsock_socket_creation_failed)
        (λ d. record { is_open = true }) (λ d. d)
      ⨾ (if cancelled
          then cancel_dial
          else call reply connect (because VsockError.vsock_connect_failed))

  -- `SendLivenessPing`, which leaves the connection open.
  unfoldable pub send_liveness_ping : Bool → VsockAction
  send_liveness_ping cancelled =
      under (Cause.liveness LivenessError.could_not_dial_liveness_vsock_connection ∷ [])
        (dial_context cancelled)
