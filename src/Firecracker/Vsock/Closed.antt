-- ===== src/Firecracker/Vsock/Closed.antt =====
-- When the descriptor of a socket of pkg/runtimes/firecracker/vsock is closed.
use drafter.Base.{Bool, true, false, not, ◌&&◌, ◌||◌, ◌∷◌, ◌≡◌, arith}
use drafter.Errors.{GoError, failed}
use drafter.Script.{Oracle}
use drafter.Action.{World, ◌⨾◌, doing}
use drafter.Firecracker.Vsock.{
  VsockCall, socket, connect, shutdown, close_descriptor, Descriptor, close_conn, cancel_dial,
  dial_context,
}

module _ (reply : Oracle VsockCall) where
  -- What the system says to a close behind a shutdown.
  abbrev pub close_answer : World VsockCall Descriptor → GoError
  close_answer w = reply ((shutdown, reply w.calls shutdown) ∷ w.calls) close_descriptor

  -- Where no socket is open, DialContext leaves one open exactly if it got one and the context has not ended
  -- before the answer, whether or not it has connected; and it returns an error exactly if it got none, the
  -- context has ended before or the connect has failed.
  pub dial_context-descriptor :
      (cancelled : Bool) (w : World VsockCall Descriptor)
      → w.state.is_open ≡ false
      → let r = dial_context reply cancelled w in
        (r.1.state.is_open ≡ (not (failed (reply w.calls socket)) && not cancelled))
        × (failed r.0 ≡ (
            failed (reply w.calls socket)
            || cancelled
            || failed (reply ((socket, reply w.calls socket) ∷ w.calls) connect)))
  unfolding dial_context cancel_dial ◌⨾◌ doing
  dial_context-descriptor true w h = (ground (arith, h), ground arith)
  dial_context-descriptor false w h = (ground (arith, h), ground arith)

  close_conn-closes :
      (w : World VsockCall Descriptor) → (close_conn reply w).1.state.is_open ≡ false
  unfolding close_conn
  close_conn-closes w = ground arith

  close_conn-failed :
      (w : World VsockCall Descriptor)
      → failed (close_conn reply w).0 ≡ (failed (reply w.calls shutdown) || failed (close_answer w))
  unfolding close_conn
  close_conn-failed w = ground arith

  -- If DialContext has connected, then Close of the connection releases the descriptor, also where the
  -- shutdown fails, and returns nil exactly if both calls succeed.
  pub dial_context-close_conn :
      (w : World VsockCall Descriptor)
      → failed (dial_context reply false w).0 ≡ false
      → let dialled = (dial_context reply false w).1 in
        let r = close_conn reply dialled in
        (r.1.state.is_open ≡ false)
        × (failed r.0 ≡ (failed (reply dialled.calls shutdown) || failed (close_answer dialled)))
  dial_context-close_conn w h =
      let dialled = (dial_context reply false w).1 in
      (close_conn-closes dialled, close_conn-failed dialled)
