-- ===== src/Ipc/Liveness/Reported.antt =====
-- What `ReceiveAndClose` of pkg/ipc/liveness.go reports, in any order of the steps.
use drafter.Base.{ℕ, Bool, true, false, List, [], ◌∷◌, ◌≡◌, refl, arith, subst}
use drafter.Errors.{GoError}
use drafter.Ipc.Liveness.{
  is_closed, Listener, unset, listening, shut, Receive, idle, waiting, crashed, answered, closing,
  returned, LivenessServer, new_liveness_server, open_server, close_server, begin_receive,
  accept_end, receive_result, finish_receive, Step, opens, accepts, closes, begins, reads, finishes,
  context_ends, take_turn, take_turns, shut_listener,
}

abbrev is_shut : Listener → Bool
is_shut shut = true
is_shut l = false

shut-is : (lis : Listener) → is_shut lis ≡ true → lis ≡ shut
shut-is unset h = absurd (ground (arith, h))
shut-is listening h = absurd (ground (arith, h))
shut-is shut h = refl

abbrev is_unset : Listener → Bool
is_unset unset = true
is_unset l = false

-- What holds of where `ReceiveAndClose` is, for a listener and whether the server was closed.
abbrev Agrees : Listener → Bool → Receive → Type 0
Agrees lis closed idle = Unit
Agrees lis closed waiting = is_unset lis ≡ false
Agrees lis closed crashed = Unit
Agrees lis closed (answered e) = (is_unset lis ≡ false) × (is_closed e ≡ true → closed ≡ true)
Agrees lis closed (closing r) = (is_unset lis ≡ false) × (is_closed r ≡ false)
Agrees lis closed (returned r) = (is_shut lis ≡ true) × (closed ≡ true) × (is_closed r ≡ false)

pub record IsSound (l : LivenessServer) : Type 0 where
  pub shut_closed : is_shut l.lis ≡ true → l.closed ≡ true
  pub agrees : Agrees l.lis l.closed l.receive

-- A server whose parts are named.
abbrev server : Listener → Bool → ℕ → Receive → LivenessServer
server lis closed removals r = record {
  lis = lis;
  closed = closed;
  removals = removals;
  receive = r;
}

-- What a Close leaves of the agreement.
shut-Agrees :
    (lis : Listener) (closed : Bool) (r : Receive)
    → Agrees lis closed r
    → Agrees (shut_listener lis) true r
shut-Agrees lis closed idle h = tt
shut-Agrees unset closed waiting h = h
shut-Agrees listening closed waiting h = refl
shut-Agrees shut closed waiting h = refl
shut-Agrees lis closed crashed h = tt
shut-Agrees unset closed (answered e) h = (h.0, λ c. refl)
shut-Agrees listening closed (answered e) h = (refl, λ c. refl)
shut-Agrees shut closed (answered e) h = (refl, λ c. refl)
shut-Agrees unset closed (closing r) h = h
shut-Agrees listening closed (closing r) h = (refl, h.1)
shut-Agrees shut closed (closing r) h = (refl, h.1)
shut-Agrees unset closed (returned r) h = (h.0, refl, h.2)
shut-Agrees listening closed (returned r) h = (refl, refl, h.2)
shut-Agrees shut closed (returned r) h = (refl, refl, h.2)

close-IsSound : (l : LivenessServer) → IsSound l → IsSound (close_server l)
unfolding close_server
close-IsSound l h = record {
  shut_closed = λ e. refl;
  agrees = shut-Agrees l.lis l.closed l.receive h.agrees;
}

finish_receive-IsSound :
    (r : GoError) (lis : Listener) (closed : Bool) (n : ℕ)
    → IsSound (server lis closed n (closing r))
    → IsSound (finish_receive r (server lis closed n (closing r)))
unfolding finish_receive close_server
finish_receive-IsSound r unset closed n h = absurd (ground (arith, h.agrees))
finish_receive-IsSound r listening closed n h = record {
  shut_closed = λ e. refl;
  agrees = (refl, refl, h.agrees.1);
}
finish_receive-IsSound r shut closed n h = record {
  shut_closed = λ e. refl;
  agrees = (refl, refl, h.agrees.1);
}

-- The result of an answer does not say that the listener is closed, if only a server that was closed gets
-- such an answer.
result-not_closed :
    (e : GoError) (l : LivenessServer)
    → (is_closed e ≡ true → l.closed ≡ true)
    → is_closed (receive_result e l) ≡ false
unfolding receive_result is_closed
result-not_closed e l h = ground (arith, h)

opens-IsSound :
    (e : GoError) (lis : Listener) (closed : Bool) (n : ℕ) (r : Receive)
    → IsSound (server lis closed n r)
    → IsSound (take_turn (opens e) (server lis closed n r))
unfolding take_turn open_server
opens-IsSound e unset closed n idle h = ground arith
opens-IsSound e unset closed n crashed h = ground arith
opens-IsSound e unset closed n waiting h = absurd (ground (arith, h.agrees))
opens-IsSound e unset closed n (answered e') h = absurd (ground (arith, h.agrees))
opens-IsSound e unset closed n (closing r) h = absurd (ground (arith, h.agrees))
opens-IsSound e unset closed n (returned r) h = absurd (ground (arith, h.agrees))
opens-IsSound e listening closed n r h = h
opens-IsSound e shut closed n r h = h

begin-IsSound :
    (lis : Listener) (closed : Bool) (n : ℕ)
    → IsSound (server lis closed n idle)
    → IsSound (begin_receive (server lis closed n idle))
begin-IsSound unset closed n h = record { shut_closed = h.shut_closed; agrees = tt }
begin-IsSound listening closed n h = record { shut_closed = h.shut_closed; agrees = refl }
begin-IsSound shut closed n h = record { shut_closed = h.shut_closed; agrees = refl }

accept-IsSound :
    (e : GoError) (lis : Listener) (closed : Bool) (n : ℕ)
    → IsSound (server lis closed n waiting)
    → IsSound (accept_end e (server lis closed n waiting))
accept-IsSound e unset closed n h = absurd (ground (arith, h.agrees))
accept-IsSound e listening closed n h = ground (arith, h.shut_closed)
accept-IsSound e shut closed n h = ground (arith, h.shut_closed)

-- An answer that is read, and a context that ends.
reads-IsSound :
    (e : GoError) (lis : Listener) (closed : Bool) (n : ℕ)
    → IsSound (server lis closed n (answered e))
    → IsSound (server lis closed n (closing (receive_result e (server lis closed n (answered e)))))
reads-IsSound e lis closed n h = record {
  shut_closed = h.shut_closed;
  agrees = (h.agrees.0, result-not_closed e (server lis closed n (answered e)) h.agrees.1);
}

take_turn-IsSound :
    (s : Step) (lis : Listener) (closed : Bool) (n : ℕ) (r : Receive)
    → IsSound (server lis closed n r)
    → IsSound (take_turn s (server lis closed n r))
unfolding take_turn is_closed
take_turn-IsSound (opens e) lis closed n r h = opens-IsSound e lis closed n r h
take_turn-IsSound closes lis closed n r h = close-IsSound (server lis closed n r) h
take_turn-IsSound begins lis closed n idle h = begin-IsSound lis closed n h
take_turn-IsSound begins lis closed n waiting h = h
take_turn-IsSound begins lis closed n crashed h = h
take_turn-IsSound begins lis closed n (answered e) h = h
take_turn-IsSound begins lis closed n (closing r) h = h
take_turn-IsSound begins lis closed n (returned r) h = h
take_turn-IsSound (accepts e) lis closed n waiting h = accept-IsSound e lis closed n h
take_turn-IsSound (accepts e) lis closed n idle h = h
take_turn-IsSound (accepts e) lis closed n crashed h = h
take_turn-IsSound (accepts e) lis closed n (answered e') h = h
take_turn-IsSound (accepts e) lis closed n (closing r) h = h
take_turn-IsSound (accepts e) lis closed n (returned r) h = h
take_turn-IsSound reads lis closed n (answered e) h = reads-IsSound e lis closed n h
take_turn-IsSound reads lis closed n idle h = h
take_turn-IsSound reads lis closed n waiting h = h
take_turn-IsSound reads lis closed n crashed h = h
take_turn-IsSound reads lis closed n (closing r) h = h
take_turn-IsSound reads lis closed n (returned r) h = h
take_turn-IsSound (context_ends m) lis closed n waiting h = record {
  shut_closed = h.shut_closed;
  agrees = (h.agrees, refl);
}
take_turn-IsSound (context_ends m) lis closed n (answered e) h = record {
  shut_closed = h.shut_closed;
  agrees = (h.agrees.0, refl);
}
take_turn-IsSound (context_ends m) lis closed n idle h = h
take_turn-IsSound (context_ends m) lis closed n crashed h = h
take_turn-IsSound (context_ends m) lis closed n (closing r) h = h
take_turn-IsSound (context_ends m) lis closed n (returned r) h = h
take_turn-IsSound finishes lis closed n (closing r) h = finish_receive-IsSound r lis closed n h
take_turn-IsSound finishes lis closed n idle h = h
take_turn-IsSound finishes lis closed n waiting h = h
take_turn-IsSound finishes lis closed n crashed h = h
take_turn-IsSound finishes lis closed n (answered e) h = h
take_turn-IsSound finishes lis closed n (returned r) h = h

take_turns-IsSound :
    (steps : List Step) (l : LivenessServer) → IsSound l → IsSound (take_turns steps l)
unfolding take_turns
take_turns-IsSound [] l h = h
take_turns-IsSound (s ∷ steps) l h =
    take_turns-IsSound steps (take_turn s l)
      (take_turn-IsSound s l.lis l.closed l.removals l.receive h)

new-IsSound : IsSound new_liveness_server
new-IsSound = record { shut_closed = λ e. absurd (ground (arith, e)); agrees = tt }

-- In whatever order the steps of a new liveness server are made: where ReceiveAndClose has returned, its
-- listener is shut and the server closed, and what it has returned never says that the listener was closed,
-- whoever has closed it.
pub receive_and_close-reported :
    (steps : List Step) (e : GoError)
    → (take_turns steps new_liveness_server).receive ≡ returned e
    → ((take_turns steps new_liveness_server).lis ≡ shut)
      × ((take_turns steps new_liveness_server).closed ≡ true)
      × (is_closed e ≡ false)
receive_and_close-reported steps e h =
    let l = take_turns steps new_liveness_server in
    let sound = take_turns-IsSound steps new_liveness_server new-IsSound in
    let agrees = subst (Agrees l.lis l.closed) h sound.agrees in
    (shut-is l.lis agrees.0, agrees.1, agrees.2)
