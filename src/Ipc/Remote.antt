-- ===== src/Ipc/Remote.antt =====
-- pkg/ipc/agent_rpc.go: one goroutine accepts connections, one at a time, and hands the remote of each
-- to those that ask for it, by a channel with room for one. A remote is named by the number of its
-- connection. The goroutine, `Close` and the callers of `GetRemote` take turns in any order; a step
-- that would wait, or that is not the next one, is none. The client of pkg/ipc/agent_client.go runs
-- the same loop.
pub mod Copies
pub mod Undisturbed
mod Examples
use drafter.Base.{
  ℕ, zero, suc, ◌+◌, Bool, true, false, List, [], ◌∷◌, Option, none, some, if◌then◌else◌, ◌==◌, ◌≡◌,
}

-- Where the goroutine is.
pub data Phase : Type 0 where
  -- before the check of `listenCtx`, in `connFactory`, and returned
  looping accepting shut_down : Phase
  -- in `handleRPCConnection`: before the remote is ready, sending it, and while the connection lasts
  linking sending serving : ℕ → Phase

pub record AgentRpc : Type 0 where
  pub phase : Phase
  pub listening : Bool
  -- how many connections were accepted
  pub accepted : ℕ
  -- the buffer of the channel `remote`
  pub remote : Option ℕ
  -- the remotes that callers of `GetRemote` have received and neither sent back nor let go
  pub held : List ℕ
  -- the remotes that `GetRemote` has returned, newest first
  pub returned_remotes : List ℕ

-- `StartAgentServer`
unfoldable pub start_agent_server : AgentRpc
start_agent_server = record {
  phase = looping;
  listening = true;
  accepted = 0;
  remote = none;
  held = [];
  returned_remotes = [];
}

-- `Close`
abbrev pub close_rpc : AgentRpc → AgentRpc
close_rpc a = record a { listening = false }

-- The check at the head of the loop.
abbrev pub check_listening : AgentRpc → Option AgentRpc
check_listening a = elim a.phase [
  | looping ↦ some (record a { phase = if a.listening then accepting else shut_down })
  | accepting ↦ none
  | shut_down ↦ none
  | linking n ↦ none
  | sending n ↦ none
  | serving n ↦ none
]

-- `connFactory` returns: with an error; or with a connection, and then the remote is cleared.
abbrev pub accept : Bool → AgentRpc → Option AgentRpc
accept ok a = elim a.phase [
  | looping ↦ none
  | accepting ↦ some (
      if ok
      then record a { phase = linking a.accepted; accepted = a.accepted + 1; remote = none }
      else record a { phase = looping })
  | shut_down ↦ none
  | linking n ↦ none
  | sending n ↦ none
  | serving n ↦ none
]

-- The link is ready and has a remote; or it is not ready in time, or has none.
abbrev pub link : Bool → AgentRpc → Option AgentRpc
link found a = elim a.phase [
  | looping ↦ none
  | accepting ↦ none
  | shut_down ↦ none
  | linking n ↦ some (record a { phase = if found then sending n else looping })
  | sending n ↦ none
  | serving n ↦ none
]

-- `remoteChan <- r`, which waits while the channel is full.
abbrev pub send_remote : AgentRpc → Option AgentRpc
send_remote a = elim a.phase [
  | looping ↦ none
  | accepting ↦ none
  | shut_down ↦ none
  | linking n ↦ none
  | sending n ↦ elim a.remote [
    | none ↦ some (record a { phase = serving n; remote = some n })
    | some r ↦ none
  ]
  | serving n ↦ none
]

-- The connection is over, and the deferred function clears the remote if it is set.
abbrev pub end_connection : AgentRpc → Option AgentRpc
end_connection a = elim a.phase [
  | looping ↦ none
  | accepting ↦ none
  | shut_down ↦ none
  | linking n ↦ none
  | sending n ↦ none
  | serving n ↦ some (record a { phase = looping; remote = none })
]

-- `GetRemote` receives a remote.
abbrev pub receive : AgentRpc → Option AgentRpc
receive a = elim a.remote [
  | none ↦ none
  | some r ↦ some (record a { remote = none; held = r ∷ a.held })
]

unfoldable pub is_held : ℕ → List ℕ → Bool
is_held r [] = false
is_held r (s ∷ rs) = let rest = is_held r rs in if s == r then true else rest

unfoldable pub let_go : ℕ → List ℕ → List ℕ
let_go r [] = []
let_go r (s ∷ rs) = let rest = let_go r rs in if s == r then rs else s ∷ rest

-- It sends it back and returns it; or it cannot, since there is a new one, and starts again.
unfoldable pub put_back : ℕ → AgentRpc → Option AgentRpc
unfolding is_held let_go
put_back r a =
    if is_held r a.held
    then elim a.remote [
      | none ↦ some (record a {
        remote = some r;
        held = let_go r a.held;
        returned_remotes = r ∷ a.returned_remotes;
      })
      | some s ↦ some (record a { held = let_go r a.held })
    ]
    else none

pub data Event : Type 0 where
  closes checks sends ends receives : Event
  accepts links : Bool → Event
  puts_back : ℕ → Event

unfoldable pub step : Event → AgentRpc → Option AgentRpc
unfolding put_back
step closes a = some (close_rpc a)
step checks a = check_listening a
step (accepts ok) a = accept ok a
step (links found) a = link found a
step sends a = send_remote a
step ends a = end_connection a
step receives a = receive a
step (puts_back r) a = put_back r a

-- The states that the steps lead to, in any order.
pub data Runs (start : AgentRpc) : AgentRpc → Type 0 where
  begun : Runs start start
  then_step : {a b : AgentRpc} (e : Event) → Runs start a → step e a ≡ some b → Runs start b
