-- ===== src/Ipc/Remote/Undisturbed.antt =====
-- Where a caller of `GetRemote` is not interrupted between receiving a remote and sending it back.
use drafter.Base.{
  ℕ, Bool, true, false, [], ◌∷◌, Option, none, some, ◌≡◌, refl, ◌∙◌, sym, subst, arith,
}
use drafter.Ipc.Remote.{
  Phase, sending, serving, AgentRpc, start_agent_server, Event, closes, checks, sends, ends,
  receives, accepts, links, puts_back, step, put_back, is_held, let_go,
}

-- Whether a step is one of the goroutine or of `Close`.
abbrev pub of_server : Event → Bool
of_server receives = false
of_server (puts_back r) = false
of_server e = true

-- The states that steps of the server and whole calls of `GetRemote` lead to.
pub data CalmRuns : AgentRpc → Type 0 where
  calm_start : CalmRuns start_agent_server
  server_step :
      {a b : AgentRpc} (e : Event)
      → CalmRuns a
      → of_server e ≡ true
      → step e a ≡ some b
      → CalmRuns b
  get_remote :
      {a b c : AgentRpc} (r : ℕ)
      → CalmRuns a
      → step receives a ≡ some b
      → step (puts_back r) b ≡ some c
      → CalmRuns c

-- The channel has the remote of the connection that is served, and is empty otherwise.
abbrev pub Served : Phase → Option ℕ → Type 0
Served (serving n) remote = remote ≡ some n
Served phase remote = remote ≡ none

record IsCalm (a : AgentRpc) : Type 0 where
  pub unheld : a.held ≡ []
  pub served : Served a.phase a.remote

server_step-IsCalm :
    (e : Event) (a b : AgentRpc) → IsCalm a → of_server e ≡ true → step e a ≡ some b → IsCalm b
unfolding step
server_step-IsCalm closes a b v s e = ground (arith, v.served, e)
server_step-IsCalm checks a b v s e = ground (arith, v.served, e)
server_step-IsCalm sends a b v s e = ground (arith, v.served, e)
server_step-IsCalm ends a b v s e = ground (arith, v.served, e)
server_step-IsCalm (accepts ok) a b v s e = ground (arith, v.served, e)
server_step-IsCalm (links found) a b v s e = ground (arith, v.served, e)
server_step-IsCalm receives a b v s e = ground (arith, s)
server_step-IsCalm (puts_back r) a b v s e = ground (arith, s)

-- What a whole call does: it returns the remote of the connection that is served, and leaves all else.
pub record Got (r : ℕ) (a c : AgentRpc) : Type 0 where
  pub current : a.phase ≡ serving r
  pub answered : c.returned_remotes ≡ r ∷ a.returned_remotes
  pub same_phase : c.phase ≡ a.phase
  pub same_remote : c.remote ≡ a.remote
  pub same_held : c.held ≡ a.held

get_remote-Got :
    (r : ℕ) (a b c : AgentRpc)
    → IsCalm a
    → step receives a ≡ some b
    → step (puts_back r) b ≡ some c
    → Got r a c
unfolding step put_back is_held let_go
get_remote-Got r a b c v e f = ground (arith, v.served, v.unheld, e, f)

Got-IsCalm : (r : ℕ) (a c : AgentRpc) → IsCalm a → Got r a c → IsCalm c
Got-IsCalm r a c v g = record {
  unheld = g.same_held ∙ v.unheld;
  served =
      subst (λ p. Served p c.remote) (sym g.same_phase)
        (subst (Served a.phase) (sym g.same_remote) v.served);
}

CalmRuns-IsCalm : {a : AgentRpc} → CalmRuns a → IsCalm a
unfolding start_agent_server
CalmRuns-IsCalm calm_start = record { unheld = refl; served = refl }
CalmRuns-IsCalm (server_step e r s h) = server_step-IsCalm e _ _ (CalmRuns-IsCalm r) s h
CalmRuns-IsCalm (get_remote n r h k) =
    let v = CalmRuns-IsCalm r in Got-IsCalm n _ _ v (get_remote-Got n _ _ _ v h k)

-- Where no step comes between the two of a call of `GetRemote`, each call that returns, returns the
-- remote of the connection that is served then, and leaves all else as it was.
pub get_remote_current :
    (r : ℕ) {a b c : AgentRpc}
    → CalmRuns a
    → step receives a ≡ some b
    → step (puts_back r) b ≡ some c
    → Got r a c
get_remote_current r run h k = get_remote-Got r _ _ _ (CalmRuns-IsCalm run) h k

-- Where no step comes between the two of a call of `GetRemote`, the goroutine, once it is about to
-- send a remote, can send it, and then serves that connection.
pub sends_at_once :
    (n : ℕ) (a : AgentRpc)
    → CalmRuns a
    → a.phase ≡ sending n
    → step sends a ≡ some (record a { phase = serving n; remote = some n })
unfolding step
sends_at_once n a run p =
    let v = CalmRuns-IsCalm run in ground (arith, p, subst (λ q. Served q a.remote) p v.served)
