-- ===== src/Ipc/Liveness.antt =====
-- `LivenessServer` of pkg/ipc/liveness.go: `ReceiveAndClose`, the goroutine that it starts and the callers of
-- `Close` take turns, in any order. A second Open is no step. `SendLivenessPing` stands in Firecracker.Vsock.
pub mod Reported
mod Examples
use drafter.Base.{ℕ, suc, Bool, true, false, not, ◌&&◌, ◌||◌, List, [], ◌∷◌, if◌then◌else◌}
use drafter.Errors.{GoError, nil, join, failed, Cause, LivenessError}

abbrev pub because : LivenessError → GoError
because e = Cause.liveness e ∷ []

-- `errors.Is(err, net.ErrClosed)`
unfoldable pub is_closed : GoError → Bool
is_closed [] = false
is_closed (Cause.closed_connection ∷ e) = true
is_closed (c ∷ e) = is_closed e

pub data Listener : Type 0 where
  unset listening shut : Listener

-- Where `ReceiveAndClose` is: not called; in its select, before or behind the end of Accept; about to run its
-- deferred Close; ended; or ended by a panic, where there is no listener.
pub data Receive : Type 0 where
  idle waiting crashed : Receive
  answered closing returned : GoError → Receive

pub record LivenessServer : Type 0 where
  pub lis : Listener
  pub closed : Bool
  -- how often the removal of the socket was tried
  pub removals : ℕ
  pub receive : Receive

-- `NewLivenessServer`
abbrev pub new_liveness_server : LivenessServer
new_liveness_server = record { lis = unset; closed = false; removals = 0; receive = idle }

abbrev pub shut_listener : Listener → Listener
shut_listener unset = unset
shut_listener listening = shut
shut_listener shut = shut

-- `Open`: what net.Listen has returned; the server has no listener where it has failed.
unfoldable pub open_server : GoError → LivenessServer → GoError × LivenessServer
open_server e l =
    if failed e
    then (
      join (because LivenessError.could_not_listen_in_liveness_server) e,
      record l { lis = unset },
    )
    else (nil, record l { lis = listening })

-- `Close`
unfoldable pub close_server : LivenessServer → LivenessServer
close_server l = record l { lis = shut_listener l.lis; closed = true; removals = suc l.removals }

-- `ReceiveAndClose` starts.
abbrev pub begin_receive : LivenessServer → LivenessServer
begin_receive l = record l {
  receive = elim l.lis [ unset ↦ crashed | listening ↦ waiting | shut ↦ waiting ];
}

-- Accept may say of a listener that is shut that it is closed, and of none that is not.
abbrev pub can_answer : Listener → GoError → Bool
can_answer shut e = is_closed e
can_answer listening e = not (is_closed e)
can_answer unset e = false

-- What `ReceiveAndClose` returns for the answer of Accept.
unfoldable pub receive_result : GoError → LivenessServer → GoError
receive_result e l =
    if not (failed e)
    then nil
    else if l.closed && is_closed e
    then nil
    else join (because LivenessError.could_not_accept_liveness_client) e

pub data Step : Type 0 where
  opens accepts : GoError → Step
  closes begins reads finishes : Step
  -- the end of the context, with its error
  context_ends : ℕ → Step

-- Accept ends while `ReceiveAndClose` waits for it.
abbrev pub accept_end : GoError → LivenessServer → LivenessServer
accept_end e l = if can_answer l.lis e then record l { receive = answered e } else l

abbrev pub context_end : ℕ → LivenessServer → LivenessServer
context_end n l = record l {
  receive =
      closing
        (join (because LivenessError.liveness_server_context_cancelled) (Cause.external n ∷ []));
}

-- The deferred Close of `ReceiveAndClose`.
unfoldable pub finish_receive : GoError → LivenessServer → LivenessServer
unfolding close_server
finish_receive r l = record (close_server l) { receive = returned r }

-- A step that cannot be made leaves all as it is.
unfoldable pub take_turn : Step → LivenessServer → LivenessServer
take_turn (opens e) l = elim l.lis [ unset ↦ (open_server e l).1 | listening ↦ l | shut ↦ l ]
take_turn closes l = close_server l
take_turn begins l = elim l.receive [
  | idle ↦ begin_receive l
  | waiting ↦ l
  | crashed ↦ l
  | answered e ↦ l
  | closing r ↦ l
  | returned r ↦ l
]
take_turn (accepts e) l = elim l.receive [
  | idle ↦ l
  | waiting ↦ accept_end e l
  | crashed ↦ l
  | answered e' ↦ l
  | closing r ↦ l
  | returned r ↦ l
]
take_turn reads l = elim l.receive [
  | idle ↦ l
  | waiting ↦ l
  | crashed ↦ l
  | answered e ↦ record l { receive = closing (receive_result e l) }
  | closing r ↦ l
  | returned r ↦ l
]
take_turn (context_ends n) l = elim l.receive [
  | idle ↦ l
  | waiting ↦ context_end n l
  | crashed ↦ l
  | answered e ↦ context_end n l
  | closing r ↦ l
  | returned r ↦ l
]
take_turn finishes l = elim l.receive [
  | idle ↦ l
  | waiting ↦ l
  | crashed ↦ l
  | answered e ↦ l
  | closing r ↦ finish_receive r l
  | returned r ↦ l
]

unfoldable pub take_turns : List Step → LivenessServer → LivenessServer
take_turns [] l = l
take_turns (s ∷ steps) l = take_turns steps (take_turn s l)
