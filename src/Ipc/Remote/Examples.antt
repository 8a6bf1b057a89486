-- ===== src/Ipc/Remote/Examples.antt =====
-- A connection whose remote is asked for; and a caller that sends back a remote too late.
use drafter.Base.{true, false, [], ◌∷◌, none, some, ◌≡◌, refl}
use drafter.Ipc.Remote.{
  sending, serving, AgentRpc, start_agent_server, checks, sends, ends, receives, accepts, links,
  puts_back, step, put_back, is_held, let_go, Runs, begun, then_step,
}
use drafter.Ipc.Remote.Copies.{IsSingle, remote-IsSingle}
use drafter.Ipc.Remote.Undisturbed.{CalmRuns, calm_start, server_step, sends_at_once}

-- The first connection is about to send its remote.
abbrev about_to_send : AgentRpc
about_to_send = record {
  phase = sending 0;
  listening = true;
  accepted = 1;
  remote = none;
  held = [];
  returned_remotes = [];
}

abbrev served : AgentRpc
served = record about_to_send { phase = serving 0; remote = some 0 }

abbrev received : AgentRpc
received = record served { remote = none; held = 0 ∷ [] }

to_send : CalmRuns about_to_send
unfolding step start_agent_server
to_send =
    server_step (links true)
      (server_step (accepts true) (server_step checks calm_start refl refl) refl refl) refl refl

to_serve : CalmRuns served
unfolding step
to_serve = server_step sends to_send refl refl

sends_at_once_example : step sends about_to_send ≡ some served
sends_at_once_example = sends_at_once 0 about_to_send to_send refl

-- A caller receives the remote, the connection ends, the next one is accepted, and the remote of the
-- first, which is of no use any more, is sent back and returned.
abbrev stale : AgentRpc
stale = record {
  phase = sending 1;
  listening = true;
  accepted = 2;
  remote = some 0;
  held = [];
  returned_remotes = 0 ∷ [];
}

to_stale : Runs start_agent_server stale
unfolding step put_back is_held let_go start_agent_server
to_stale =
    then_step (puts_back 0)
      (then_step (links true)
        (then_step (accepts true)
          (then_step checks
            (then_step ends
              (then_step receives
                (then_step sends
                  (then_step (links true)
                    (then_step (accepts true) (then_step checks begun refl) refl) refl)
                  refl)
                refl)
              refl)
            refl)
          refl)
        refl)
      refl

remote-IsSingle_example : IsSingle 0 stale
remote-IsSingle_example = remote-IsSingle 0 to_stale

-- The goroutine waits there, also after `Close`, until somebody else asks for a remote.
stuck : (step sends stale ≡ none) × (step sends (record stale { listening = false }) ≡ none)
unfolding step
stuck = (refl, refl)
