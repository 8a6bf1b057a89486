-- ===== src/Ipc/Client.antt =====
-- `AgentClient` of pkg/ipc/agent_client.go, the side of the guest. The connection factory and
-- `handleRPCConnection`, which serves a connection until it ends, are calls.
use drafter.Base.{ℕ, suc, Bool, true, false, [], ◌∷◌, if◌then◌else◌, ◌≡◌, arith}
use drafter.Errors.{failed}
use drafter.Script.{Log, Oracle}

pub data ClientCall : Type 0 where
  make_connection handle_connection : ClientCall

-- Whether the context is cancelled, which `Close` does.
pub record AgentClient : Type 0 where
  pub listen_cancelled : Bool
  pub calls : Log ClientCall

abbrev pub start_agent_client : AgentClient
start_agent_client = record { listen_cancelled = false; calls = [] }

-- `Close`, which returns nil.
abbrev pub close_client : AgentClient → AgentClient
close_client a = record a { listen_cancelled = true }

module _ (reply : Oracle ClientCall) where
  abbrev pub logged : ClientCall → Log ClientCall → Log ClientCall
  logged c log = (c, reply log c) ∷ log

  -- A round of the loop behind the check of the context: a connection is handled if it was made.
  unfoldable pub connect_once : Log ClientCall → Log ClientCall
  connect_once log =
      let e = reply log make_connection in
      let made = logged make_connection log in
      if failed e then made else logged handle_connection made

  -- A turn of the goroutine, which has ended once the context is cancelled.
  unfoldable pub client_turn : AgentClient → AgentClient
  unfolding connect_once
  client_turn a = if a.listen_cancelled then a else record a { calls = connect_once a.calls }

-- The connections that were made, and those that were handled.
abbrev pub made_count : Log ClientCall → ℕ
made_count [] = 0
made_count ((make_connection, e) ∷ log) = if failed e then made_count log else suc (made_count log)
made_count ((handle_connection, e) ∷ log) = made_count log

abbrev pub handled_count : Log ClientCall → ℕ
handled_count [] = 0
handled_count ((make_connection, e) ∷ log) = handled_count log
handled_count ((handle_connection, e) ∷ log) = suc (handled_count log)

-- A turn keeps that each connection that was made is handled once.
client_turn-handled :
    (reply : Oracle ClientCall) (a : AgentClient)
    → handled_count a.calls ≡ made_count a.calls
    → handled_count (client_turn reply a).calls ≡ made_count (client_turn reply a).calls
unfolding client_turn connect_once
client_turn-handled reply a h = ground (arith, h)
