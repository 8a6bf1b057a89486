-- ===== src/Ipc/Remote/Copies.antt =====
-- Where the remotes of pkg/ipc/agent_rpc.go are.
use drafter.Base.{
  ℕ, ◌+◌, ◌≤◌, ◌<◌, true, false, List, [], ◌∷◌, Option, none, some, ◌≡◌, arith, count,
  if◌then◌else◌, ◌==◌, ◌⊎◌,
}
use drafter.Ipc.Remote.{
  Phase, linking, sending, AgentRpc, start_agent_server, Event, closes, checks, sends, ends,
  receives, accepts, links, puts_back, step, put_back, is_held, let_go, Runs, begun, then_step,
}

abbrev pub in_channel : ℕ → Option ℕ → ℕ
in_channel n none = 0
in_channel n (some r) = if r == n then 1 else 0

-- How often the remote of a connection is in the channel or held.
abbrev pub copies : ℕ → AgentRpc → ℕ
copies n a = in_channel n a.remote + count (λ r. r == n) a.held

-- A connection whose remote was not sent yet is one that was accepted, and if it is this one, there
-- is no copy of its remote.
abbrev Unsent : ℕ → ℕ → ℕ → Phase → Type 0
Unsent n accepted c (linking m) = (m < accepted) × (((m == n) ≡ false) ⊎ (c ≡ 0))
Unsent n accepted c (sending m) = (m < accepted) × (((m == n) ≡ false) ⊎ (c ≡ 0))
Unsent n accepted c phase = Unit

-- Of a remote there is one copy at most, and none before its connection is accepted and it is sent.
pub record IsSingle (n : ℕ) (a : AgentRpc) : Type 0 where
  pub at_most : copies n a ≤ 1
  pub known : (copies n a ≡ 0) ⊎ (n < a.accepted)
  pub unsent : Unsent n a.accepted (copies n a) a.phase

count-let_go :
    (n r : ℕ) (rs : List ℕ)
    → is_held r rs ≡ true
    → count (λ s. s == n) (let_go r rs) + (if r == n then 1 else 0) ≡ count (λ s. s == n) rs
unfolding is_held let_go
count-let_go n r [] h = ground arith
count-let_go n r (s ∷ rs) h = ground (arith, count-let_go n r rs)

start-IsSingle : (n : ℕ) → IsSingle n start_agent_server
unfolding start_agent_server
start-IsSingle n = ground arith

step-IsSingle :
    (n : ℕ) (e : Event) (a b : AgentRpc) → IsSingle n a → step e a ≡ some b → IsSingle n b
unfolding step put_back
step-IsSingle n closes a b v e = ground (arith, v.unsent)
step-IsSingle n checks a b v e = ground (arith, v.unsent, e)
step-IsSingle n sends a b v e = ground (arith, v.unsent, e)
step-IsSingle n ends a b v e = ground (arith, v.unsent, e)
step-IsSingle n receives a b v e = ground (arith, v.unsent, e)
step-IsSingle n (accepts ok) a b v e = ground (arith, v.unsent, e)
step-IsSingle n (links found) a b v e = ground (arith, v.unsent, e)
step-IsSingle n (puts_back r) a b v e = ground (arith, v.unsent, e, count-let_go n r a.held)

-- However the goroutine, `Close` and the callers of `GetRemote` take turns, there is one copy of the
-- remote of a connection at most, in the channel or held by a caller, and none before the connection
-- is accepted and its remote was sent.
pub remote-IsSingle : (n : ℕ) {a : AgentRpc} → Runs start_agent_server a → IsSingle n a
remote-IsSingle n begun = start-IsSingle n
remote-IsSingle n (then_step e r h) = step-IsSingle n e _ _ (remote-IsSingle n r) h
